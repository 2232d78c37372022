-- ===== src/Wrapper/Session/Typed.antt =====
-- The options that the arguments set: a list for `SendEnv`, a text for every other key.
use translation_runtime_arch.Prelude.{
  if-holds, subst, ◌+◌, String, ◌≡◌, true, false, Option, none, some, List, [], ◌∷◌, ◌==◌, eq_iff,
  arith,
}
use translation_runtime_arch.Dict.{Dict, get, get-put}
use translation_runtime_arch.Wrapper.{
  cut_first, contains, Platform, OptionValue, text, texts, Config, new_config, accumulated,
  set_lower, set_option, directive, set_glued, set_spaced, glued, takes_value, verbosity, skipped,
  target, kind, with_target, remote_command, parse_from, parse_args, settle, settle_user,
  settle_host, settled, decompose, set_host,
}

abbrev HasKind : String → Option OptionValue → Type 0
HasKind k none = Unit
HasKind k (some (text s)) = (k == "sendenv") ≡ false
HasKind k (some (texts l)) = (k == "sendenv") ≡ true

abbrev pub IsTyped : Dict OptionValue → Type 0
IsTyped d = (k : String) → HasKind k (get k d)

set_lower-IsTyped :
    (key v : String) (d : Dict OptionValue) → IsTyped d → IsTyped (set_lower key v d)
unfolding set_lower
set_lower-IsTyped key v d h k = ground (
  arith,
  h k,
  get-put "sendenv" k (texts (accumulated v (get "sendenv" d))) d,
  get-put key k (text v) d,
  eq_iff key "sendenv",
  eq_iff k "sendenv",
  eq_iff "sendenv" k,
  eq_iff key k,
)

nothing : IsTyped []
unfolding get
nothing k = tt

directive-IsTyped :
    (p : Platform) (v : String) (d : Dict OptionValue) → IsTyped d → IsTyped (directive p v d)
unfolding directive set_option
directive-IsTyped p v d h =
    if-holds IsTyped (contains "=" v) _ _
      (set_lower-IsTyped (p.unicode.lower (cut_first "=" v).0) (cut_first "=" v).1 d h)
      (set_lower-IsTyped (p.unicode.lower v) "" d h)

-- a configuration whose options are typed
abbrev TypedConfig : Config → Type 0
TypedConfig c = IsTyped c.options

set_glued-IsTyped :
    (p : Platform) (flag v : String) (c : Config)
    → TypedConfig c
    → TypedConfig (set_glued p flag v c)
unfolding set_glued
set_glued-IsTyped p flag v c h = if-holds TypedConfig (flag == "p") _ _ h (
    if-holds TypedConfig (flag == "i") _ _ h (
      if-holds TypedConfig (flag == "l") _ _ h
        (if-holds TypedConfig (flag == "o") _ _ (directive-IsTyped p v c.options h) h)))

set_spaced-IsTyped :
    (p : Platform) (flag v : String) (c : Config)
    → TypedConfig c
    → TypedConfig (set_spaced p flag v c)
unfolding set_spaced
set_spaced-IsTyped p flag v c h = if-holds TypedConfig (flag == "-p") _ _ h (
    if-holds TypedConfig (flag == "-i") _ _ h (
      if-holds TypedConfig (flag == "-l") _ _ h
        (if-holds TypedConfig (flag == "-o") _ _ (directive-IsTyped p v c.options h) h)))

-- what holds of a configuration, if there is one
abbrev Parsed : (Config → Type 0) → Option Config → Type 0
Parsed P none = Unit
Parsed P (some c) = P c

with_target-IsTyped :
    (arg : String) (c : Config) (cmd : Option (Option String))
    → TypedConfig c
    → Parsed TypedConfig (with_target arg c cmd)
unfolding with_target
with_target-IsTyped arg c none h = tt
with_target-IsTyped arg c (some cmd) h = h

parse_from-IsTyped :
    (p : Platform) (waits : Option String) (args : List String) (c : Config)
    → TypedConfig c
    → Parsed TypedConfig (parse_from p waits args c)
unfolding parse_from
parse_from-IsTyped p none [] c h = h
parse_from-IsTyped p (some f) [] c h = h
parse_from-IsTyped p (some f) (v ∷ rest) c h =
    parse_from-IsTyped p none rest (set_spaced p f v c) (set_spaced-IsTyped p f v c h)
parse_from-IsTyped p none (arg ∷ rest) c h =
    elim (kind arg)
      as (λ k. Parsed TypedConfig (elim k [
        | glued flag value ↦ parse_from p none rest (set_glued p flag value c)
        | takes_value ↦ parse_from p (some arg) rest c
        | verbosity n ↦ parse_from p none rest (record c { verbose = c.verbose + n })
        | skipped ↦ parse_from p none rest c
        | target ↦ with_target arg c (remote_command rest)
      ])) [
        | glued flag value ↦
            parse_from-IsTyped p none rest (set_glued p flag value c)
              (set_glued-IsTyped p flag value c h)
        | takes_value ↦ parse_from-IsTyped p (some arg) rest c h
        | verbosity n ↦ parse_from-IsTyped p none rest (record c { verbose = c.verbose + n }) h
        | skipped ↦ parse_from-IsTyped p none rest c h
        | target ↦ with_target-IsTyped arg c (remote_command rest) h
      ]

settle-options : (p : Platform) (c : Config) → (settle p c).options ≡ c.options
unfolding settle settle_user settle_host decompose set_host
settle-options p c = ground arith

settled-IsTyped :
    (p : Platform) (o : Option Config) → Parsed TypedConfig o → Parsed TypedConfig (settled p o)
unfolding settled
settled-IsTyped p none h = tt
settled-IsTyped p (some c) h = rw (settle-options p c) h

pub parse_args-IsTyped :
    (p : Platform) (args : List String) (c : Config)
    → parse_args p args ≡ some c
    → IsTyped c.options
unfolding parse_args
parse_args-IsTyped p args c e = subst (Parsed TypedConfig) e (
    settled-IsTyped p (parse_from p none args new_config)
      (parse_from-IsTyped p none args new_config nothing))
