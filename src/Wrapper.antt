-- ===== src/Wrapper.antt =====
-- docs/ssh_git_wrapper_v3.py, which stands in for ssh under git: how it reads its arguments. What it
-- writes to its log and to its own stderr is left out. Wrapper.Session is `main`, Wrapper.Channel
-- the transfer.
pub mod Arguments
pub mod Options
pub mod Target
pub mod Channel
pub mod Session
use translation_runtime_arch.Prelude.{
  ℕ, ◌+◌, ◌-◌, String, Bool, false, not, ◌&&◌, ◌==◌, Option, none, some, List, [], ◌∷◌, ◌++◌,
  if◌then◌else◌, ltb, elem,
}
use translation_runtime_arch.Text.{len, truthy, starts_with, contains, take_text, drop_text}
use translation_runtime_arch.Text.Shell.{join_words, split_words}
use translation_runtime_arch.Regex.{Unicode}
use translation_runtime_arch.Dict.{Dict, get, put}
use translation_runtime_arch.CommandLine.{cut_first}

-- `negsuc n` is -(n + 1).
pub data ℤ : Type 0 where
  pos : ℕ → ℤ
  negsuc : ℕ → ℤ

-- What the wrapper takes from Python and from the machine that it runs on: the Unicode database,
-- `int`, where `none` is a `ValueError`, the home directories, the files, and the environment.
pub record Platform : Type 0 where
  pub unicode : Unicode
  pub int : String → Option ℤ
  pub expanduser : String → String
  pub exists : String → Bool
  pub readable : String → Bool
  pub fnmatch : String → String → Bool
  pub environ : List (String × String)

-- the value of an option: a text, or the list of the values of `SendEnv`
pub data OptionValue : Type 0 where
  text : String → OptionValue
  texts : List String → OptionValue

pub record Config : Type 0 where
  pub host_str : Option String
  pub username : Option String
  pub hostname : Option String
  pub port : ℤ
  pub identity : Option String
  pub login_name : Option String
  pub options : Dict OptionValue
  pub command : Option String
  pub verbose : ℕ

abbrev pub default_port : ℤ
default_port = pos 22

abbrev pub default_user : String
default_user = "git"

abbrev pub new_config : Config
new_config = record {
  host_str = none;
  username = none;
  hostname = none;
  port = default_port;
  identity = none;
  login_name = none;
  options = [];
  command = none;
  verbose = 0;
}

abbrev pub flags_with_arg : List String
flags_with_arg =
    "-i" ∷ "-p" ∷ "-l" ∷ "-F" ∷ "-o" ∷ "-b" ∷ "-c" ∷ "-E" ∷ "-I" ∷ "-J" ∷ "-L" ∷ "-R" ∷ "-D" ∷ "-w"
    ∷ "-m" ∷ "-O" ∷ "-S" ∷ "-W" ∷ "-K" ∷ []

abbrev pub glueable : List String
glueable = "p" ∷ "i" ∷ "l" ∷ "o" ∷ []

-- what `SendEnv` holds with one more value
accumulated : String → Option OptionValue → List String
accumulated value none = value ∷ []
accumulated value (some (texts existing)) = existing ++ value ∷ []
accumulated value (some (text existing)) = existing ∷ value ∷ []

-- `_set_option` with a key in lower case
unfoldable pub set_lower : String → String → Dict OptionValue → Dict OptionValue
unfolding accumulated
set_lower key value options =
    if key == "sendenv"
    then put "sendenv" (texts (accumulated value (get "sendenv" options))) options
    else put key (text value) options

-- `_set_option`
unfoldable pub set_option : Platform → String → String → Dict OptionValue → Dict OptionValue
unfolding set_lower
set_option p key value options = set_lower (p.unicode.lower key) value options

-- `-o Key=Value` and `-o Key`
unfoldable pub directive : Platform → String → Dict OptionValue → Dict OptionValue
directive p value options =
    if contains "=" value
    then (let (key, val) = cut_first "=" value in set_option p key val options)
    else set_option p value "" options

-- a port that is no number keeps the old one
unfoldable pub port_or : Platform → ℤ → String → ℤ
port_or p old value = elim (p.int value) [ none ↦ old | some n ↦ n ]

-- a flag in the form that has its value behind the letter
unfoldable pub set_glued : Platform → String → String → Config → Config
set_glued p flag value c =
    if flag == "p"
    then record c { port = port_or p c.port value }
    else if flag == "i"
    then record c { identity = some (p.expanduser value) }
    else if flag == "l"
    then record c { login_name = some value }
    else if flag == "o"
    then record c { options = directive p value c.options }
    else c

-- a flag in the form that has its value in the next argument
unfoldable pub set_spaced : Platform → String → String → Config → Config
set_spaced p arg value c =
    if arg == "-p"
    then record c { port = port_or p c.port value }
    else if arg == "-i"
    then record c { identity = some (p.expanduser value) }
    else if arg == "-l"
    then record c { login_name = some value }
    else if arg == "-o"
    then record c { options = directive p value c.options }
    else c

-- How an argument is taken; every other flag is skipped, also an unknown one.
pub data Kind : Type 0 where
  glued : String → String → Kind
  takes_value : Kind
  verbosity : ℕ → Kind
  skipped : Kind
  target : Kind

unfoldable pub kind : String → Kind
kind arg =
    let flag = take_text 1 (drop_text 1 arg) in
    if ltb 2 (len arg) && starts_with arg "-" && not (starts_with arg "--") && elem flag glueable
    then glued flag (drop_text 2 arg)
    else if elem arg flags_with_arg
    then takes_value
    else if starts_with arg "-"
    then (if arg == "-v"
        then verbosity 1
        else if elem arg ("-vv" ∷ "-vvv" ∷ [])
        then verbosity (len arg - 1)
        else skipped)
    else target

-- the remote command: a single argument is split and joined again, which may raise
unfoldable pub remote_command : List String → Option (Option String)
remote_command [] = some none
remote_command (raw ∷ []) = elim (split_words raw) [
  | none ↦ none
  | some ws ↦ some (some (join_words ws))
]
remote_command (a ∷ b ∷ rest) = some (some (join_words (a ∷ b ∷ rest)))

with_target : String → Config → Option (Option String) → Option Config
with_target arg c none = none
with_target arg c (some cmd) = some (record c { host_str = some arg; command = cmd })

-- The loop over the arguments. A flag that waits for its value stands in front; without one the loop
-- ends. `none` is the `ValueError` of `shlex.split`. The first target ends the loop, so that none
-- has been found before it.
unfoldable pub parse_from : Platform → Option String → List String → Config → Option Config
unfolding with_target
parse_from p waits [] c = some c
parse_from p (some flag) (value ∷ rest) c = parse_from p none rest (set_spaced p flag value c)
parse_from p none (arg ∷ rest) c = elim (kind arg) [
  | glued flag value ↦ parse_from p none rest (set_glued p flag value c)
  | takes_value ↦ parse_from p (some arg) rest c
  | verbosity n ↦ parse_from p none rest (record c { verbose = c.verbose + n })
  | skipped ↦ parse_from p none rest c
  | target ↦ with_target arg c (remote_command rest)
]

-- the host behind the user name
unfoldable pub set_host : Platform → String → Config → Config
set_host p host c =
    if starts_with host "["
    then (if contains "]" host
        then (let (address, remainder) = cut_first "]" (drop_text 1 host) in
            record c {
              hostname = some address;
              port =
                  if starts_with remainder ":"
                  then port_or p c.port (drop_text 1 remainder)
                  else c.port;
            })
        else record c { hostname = some host })
    else if contains ":" host
    then (let (name, number) = cut_first ":" host in
        if contains ":" number then record c { hostname = some host } else elim (p.int number) [
          | some n ↦ record c { hostname = some name; port = n }
          | none ↦ record c { hostname = some host }
        ])
    else record c { hostname = some host }

-- `[user@]hostname[:port]`
unfoldable pub decompose : Platform → String → Config → Config
decompose p host c =
    if contains "@" host
    then (let (user, rest) = cut_first "@" host in
        set_host p rest (record c { username = some user }))
    else set_host p host c

-- a text that is there and not empty
unfoldable pub given : Option String → Bool
given none = false
given (some s) = truthy s

-- the user: `-l` before the host's, and else the default
unfoldable pub settle_user : Config → Config
settle_user c =
    if given c.login_name
    then record c { username = c.login_name }
    else if given c.username
    then c
    else record c { username = some default_user }

settle_host : Platform → Option String → Config → Config
settle_host p none c = c
settle_host p (some host) c = if truthy host then decompose p host c else c

unfoldable pub settle : Platform → Config → Config
unfolding settle_host
settle p c = settle_user (settle_host p c.host_str c)

settled : Platform → Option Config → Option Config
settled p none = none
settled p (some c) = some (settle p c)

-- `parse_args`
unfoldable pub parse_args : Platform → List String → Option Config
unfolding settled
parse_args p args = settled p (parse_from p none args new_config)
