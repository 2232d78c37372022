-- ===== src/Wrapper/Session/Unsplit.antt =====
-- When the arguments cannot be parsed.
use translation_runtime_arch.Prelude.{
  ◌+◌, String, ◌≡◌, refl, ap, arith, Option, none, some, List, [], ◌∷◌, ◌++◌,
}
use translation_runtime_arch.Text.Shell.{split_words}
use translation_runtime_arch.Wrapper.{
  Platform, Config, new_config, glued, takes_value, verbosity, skipped, target, Kind, kind,
  set_spaced, set_glued, with_target, remote_command, parse_from, settled, parse_args,
}

-- the arguments end in a host and a single word of a command, which cannot be split
pub record IsUnsplit (args : List String) : Type 0 where
  pub front : List String
  pub host : String
  pub raw : String
  pub in_order : args ≡ front ++ host ∷ raw ∷ []
  pub is_host : kind host ≡ target
  pub no_words : split_words raw ≡ none

one_more : (a : String) (args : List String) → IsUnsplit args → IsUnsplit (a ∷ args)
one_more a args u = record {
  front = a ∷ u.front;
  host = u.host;
  raw = u.raw;
  in_order = ap (◌∷◌ a) u.in_order;
  is_host = u.is_host;
  no_words = u.no_words;
}

remote_command-none :
    (arg : String) (rest : List String)
    → kind arg ≡ target
    → remote_command rest ≡ none
    → IsUnsplit (arg ∷ rest)
unfolding remote_command
remote_command-none arg [] k h = absurd (ground (arith, h))
remote_command-none arg (raw ∷ []) k h = record {
  front = [];
  host = arg;
  raw = raw;
  in_order = refl;
  is_host = k;
  no_words = ground (arith, h);
}
remote_command-none arg (a ∷ b ∷ rest) k h = absurd (ground (arith, h))

with_target-none :
    (arg : String) (c : Config) (o : Option (Option String)) → with_target arg c o ≡ none → o ≡ none
unfolding with_target
with_target-none arg c none h = refl
with_target-none arg c (some cmd) h = absurd (ground (arith, h))

module _ (p : Platform) where
  by_kind :
      (arg : String) (rest : List String) (c : Config) (k : Kind)
      → ((waits : Option String) (d : Config) → parse_from p waits rest d ≡ none → IsUnsplit rest)
      → kind arg ≡ k
      → parse_from p none (arg ∷ rest) c ≡ none
      → IsUnsplit (arg ∷ rest)
  unfolding parse_from
  by_kind arg rest c (glued flag value) ih e h =
      one_more arg rest (ih none (set_glued p flag value c) (ground (arith, e, h)))
  by_kind arg rest c takes_value ih e h = one_more arg rest (ih (some arg) c (ground (arith, e, h)))
  by_kind arg rest c (verbosity n) ih e h =
      one_more arg rest (ih none (record c { verbose = c.verbose + n }) (ground (arith, e, h)))
  by_kind arg rest c skipped ih e h = one_more arg rest (ih none c (ground (arith, e, h)))
  by_kind arg rest c target ih e h =
      remote_command-none arg rest e
        (with_target-none arg c (remote_command rest) (ground (arith, e, h)))

  parse_from-none :
      (waits : Option String) (args : List String) (c : Config)
      → parse_from p waits args c ≡ none
      → IsUnsplit args
  unfolding parse_from
  parse_from-none waits [] c h = absurd (ground (arith, h))
  parse_from-none (some flag) (value ∷ rest) c h =
      one_more value rest (parse_from-none none rest (set_spaced p flag value c) h)
  parse_from-none none (arg ∷ rest) c h =
      by_kind arg rest c (kind arg) (λ w d. parse_from-none w rest d) refl h

settled-none : (p : Platform) (o : Option Config) → settled p o ≡ none → o ≡ none
unfolding settled
settled-none p none h = refl
settled-none p (some c) h = absurd (ground (arith, h))

-- arguments that cannot be parsed end in a command that cannot be split
pub parse_args-IsUnsplit :
    (p : Platform) (args : List String) → parse_args p args ≡ none → IsUnsplit args
unfolding parse_args
parse_args-IsUnsplit p args h =
    parse_from-none p none args new_config (settled-none p (parse_from p none args new_config) h)
