-- ===== src/Wrapper/Arguments.antt =====
-- Command lines for the wrapper, written from the settings that they stand for.
use Prim.Native.String.append
use translation_runtime_arch.Prelude.{
  suc, elem, ltb, ℕ, ◌+◌, String, ◌≡◌, refl, ap, true, false, Option, none, some, List, [], ◌∷◌,
  eq_iff, arith, All,
}
use translation_runtime_arch.Text.{
  ◌+++◌, truthy, starts_with, strip_prefix, len, take_text, drop_text,
}
use translation_runtime_arch.Text.Shell.{join_words, split_words}
use translation_runtime_arch.Text.Shell.Words.{split_words-join_words}
use translation_runtime_arch.Wrapper.{
  flags_with_arg, Platform, Config, new_config, port_or, directive, glued, takes_value, verbosity,
  target, kind, parse_from, parse_args, remote_command, with_target, settle, settled, set_glued,
  set_spaced,
}

pub data Letter : Type 0 where
  as_port as_identity as_login as_option : Letter

-- a setting with its value in the next argument or behind its letter, and a step of verbosity
pub data Setting : Type 0 where
  spaced joined : Letter → String → Setting
  louder : Setting

abbrev pub flag_of : Letter → String
flag_of as_port = "-p"
flag_of as_identity = "-i"
flag_of as_login = "-l"
flag_of as_option = "-o"

-- the arguments for some settings, in front of others
abbrev pub line : List Setting → List String → List String
line [] rest = rest
line (spaced l v ∷ ss) rest = flag_of l ∷ v ∷ line ss rest
line (joined l v ∷ ss) rest = (flag_of l +++ v) ∷ line ss rest
line (louder ∷ ss) rest = "-v" ∷ line ss rest

-- what a setting means
abbrev pub meaning : Platform → Letter → String → Config → Config
meaning p as_port v c = record c { port = port_or p c.port v }
meaning p as_identity v c = record c { identity = some (p.expanduser v) }
meaning p as_login v c = record c { login_name = some v }
meaning p as_option v c = record c { options = directive p v c.options }

abbrev pub configured : Platform → List Setting → Config → Config
configured p [] c = c
configured p (spaced l v ∷ ss) c = configured p ss (meaning p l v c)
configured p (joined l v ∷ ss) c = configured p ss (meaning p l v c)
configured p (louder ∷ ss) c = configured p ss (record c { verbose = c.verbose + 1 })

-- an empty value cannot stand behind its letter
abbrev pub CanBeWritten : Setting → Type 0
CanBeWritten (joined l v) = truthy v ≡ true
CanBeWritten _ = Unit

-- the words of the remote command: a single argument holds them all
abbrev pub intended : List String → Option (List String)
intended (raw ∷ []) = split_words raw
intended ws = some ws

kind-flag : (l : Letter) → kind (flag_of l) ≡ takes_value
unfolding kind len starts_with strip_prefix take_text drop_text elem
kind-flag as_port = refl
kind-flag as_identity = refl
kind-flag as_login = refl
kind-flag as_option = refl

set_spaced-meaning :
    (p : Platform) (l : Letter) (v : String) (c : Config)
    → set_spaced p (flag_of l) v c ≡ meaning p l v c
unfolding set_spaced
set_spaced-meaning p as_port v c = refl
set_spaced-meaning p as_identity v c = refl
set_spaced-meaning p as_login v c = refl
set_spaced-meaning p as_option v c = refl

-- the letter without its dash
letter : Letter → String
letter as_port = "p"
letter as_identity = "i"
letter as_login = "l"
letter as_option = "o"

set_glued-meaning :
    (p : Platform) (l : Letter) (v : String) (c : Config)
    → set_glued p (letter l) v c ≡ meaning p l v c
unfolding set_glued letter
set_glued-meaning p as_port v c = refl
set_glued-meaning p as_identity v c = refl
set_glued-meaning p as_login v c = refl
set_glued-meaning p as_option v c = refl

longer : (n : ℕ) → ltb 2 (suc (suc (suc n))) ≡ true
longer n = ground arith

kind-joined :
    (l : Letter) (v : String) → truthy v ≡ true → kind (flag_of l +++ v) ≡ glued (letter l) v
unfolding kind letter len starts_with strip_prefix take_text drop_text elem
kind-joined as_port (String.◌∷◌ c v) h = rw (append.cons, append.cons, append.nil, longer (len v))
kind-joined as_identity (String.◌∷◌ c v) h =
    rw (append.cons, append.cons, append.nil, longer (len v))
kind-joined as_login (String.◌∷◌ c v) h = rw (append.cons, append.cons, append.nil, longer (len v))
kind-joined as_option (String.◌∷◌ c v) h = rw (append.cons, append.cons, append.nil, longer (len v))
kind-joined l String.[] h = ground (arith, h)

not_a_flag :
    (host : String) (flags : List String)
    → starts_with host "-" ≡ false
    → All (λ f. starts_with f "-" ≡ true) flags
    → elem host flags ≡ false
unfolding elem
not_a_flag host [] h a = refl
not_a_flag host (f ∷ flags) h a =
    ground (arith, eq_iff f host, not_a_flag host flags h a.1, ap (λ s. starts_with s "-"))

all_flags : All (λ f. starts_with f "-" ≡ true) flags_with_arg
unfolding starts_with strip_prefix
all_flags = ground arith

kind-target : (host : String) → starts_with host "-" ≡ false → kind host ≡ target
unfolding kind
kind-target host h = ground (arith, h, not_a_flag host flags_with_arg h all_flags)

kind-louder : kind "-v" ≡ verbosity 1
unfolding kind len starts_with strip_prefix take_text drop_text elem
kind-louder = refl

-- the settings of a line are read, in their order
pub parse_from-line :
    (p : Platform) (ss : List Setting) (rest : List String) (c : Config)
    → All CanBeWritten ss
    → parse_from p none (line ss rest) c ≡ parse_from p none rest (configured p ss c)
unfolding parse_from
parse_from-line p [] rest c w = refl
parse_from-line p (spaced l v ∷ ss) rest c w =
    rw (kind-flag l, parse_from)
      (rw (set_spaced-meaning p l v c) (parse_from-line p ss rest (meaning p l v c) w.1))
parse_from-line p (joined l v ∷ ss) rest c w =
    rw (kind-joined l v w.0, parse_from)
      (rw (set_glued-meaning p l v c) (parse_from-line p ss rest (meaning p l v c) w.1))
parse_from-line p (louder ∷ ss) rest c w =
    rw (kind-louder, parse_from)
      (parse_from-line p ss rest (record c { verbose = c.verbose + 1 }) w.1)

remote_command-intended :
    (a : String) (raw ws : List String)
    → intended (a ∷ raw) ≡ some ws
    → remote_command (a ∷ raw) ≡ some (some (join_words ws))
unfolding remote_command
remote_command-intended a [] ws h = rw (h, remote_command) refl
remote_command-intended a (b ∷ raw) ws h = ground (arith, h)

-- Any settings, each with its value in the next argument or behind its letter (which takes a value
-- that is not empty), a host that does not begin with a dash, and the arguments of a command that
-- stand for some words: they are parsed as these settings, performed in their order, with that host
-- and a command line that a shell splits into exactly these words.
pub parse_args-line :
    (p : Platform) (ss : List Setting) (host a : String) (raw ws : List String)
    → All CanBeWritten ss
    → starts_with host "-" ≡ false
    → intended (a ∷ raw) ≡ some ws
    → let c : Config = record (configured p ss new_config) {
      host_str = some host;
      command = some (join_words ws);
    } in
      (parse_args p (line ss (host ∷ a ∷ raw)) ≡ some (settle p c))
      × (split_words (join_words ws) ≡ some ws)
unfolding parse_args settled parse_from with_target
parse_args-line p ss host a raw ws w h e = (
  rw (parse_from-line p ss (host ∷ a ∷ raw) new_config w)
      (rw (kind-target host h, parse_from) (rw (remote_command-intended a raw ws e) refl)),
  split_words-join_words ws,
)
