-- ===== src/Wrapper/Session.antt =====
-- docs/ssh_git_wrapper_v3.py: `main`, with the policy for host keys. What paramiko does is a
-- parameter; log lines are left out but for their level.
pub mod Typed
pub mod Unsplit
pub mod Safety
use translation_runtime_arch.Prelude.{
  ℕ, zero, suc, String, code, Bool, ◌||◌, ◌==◌, not, Option, none, some, List, [], if◌then◌else◌,
  leb, filter, any, from_option,
}
use translation_runtime_arch.Text.{fields}
use translation_runtime_arch.Dict.{Dict, get}
use translation_runtime_arch.Wrapper.{
  ℤ, pos, negsuc, Platform, OptionValue, text, texts, Config, given, parse_args,
}
use translation_runtime_arch.Wrapper.Channel.{Tick, Transferred, io_loop}
use Prim.Native.String

-- what is done with a host key that is not known; a changed key is refused before
pub data HostKeyPolicy : Type 0 where
  reject accept_new warn : HostKeyPolicy

-- `options.get(key, default)` where a text is needed; `none` is the exception that a list leads to
unfoldable pub text_option : String → String → Dict OptionValue → Option String
text_option key default options = elim (get key options) [
  | none ↦ some default
  | some (text s) ↦ some s
  | some (texts l) ↦ none
]

-- `setup_host_key_policy` for the value in lower case
unfoldable pub policy_for : String → HostKeyPolicy
policy_for strict =
    if strict == "yes"
    then reject
    else if strict == "accept-new"
    then accept_new
    else if strict == "no"
    then warn
    else accept_new

-- the level of `logging`: the flags before the option
unfoldable pub log_level : ℕ → String → ℕ
log_level verbose option =
    if leb 3 verbose || option == "DEBUG"
    then 10
    else if leb 2 verbose || option == "INFO"
    then 20
    else if leb 1 verbose || option == "WARNING"
    then 30
    else 40

-- a number of seconds that is no number, or not positive, is replaced
unfoldable pub positive_or : ℕ → Option ℤ → ℕ
positive_or default none = default
positive_or default (some (negsuc n)) = default
positive_or default (some (pos zero)) = default
positive_or default (some (pos (suc n))) = suc n

-- `int(options.get(key, str(default)))`; `none` is the exception that a list leads to
unfoldable pub seconds : Platform → String → ℕ → Dict OptionValue → Option ℕ
unfolding positive_or
seconds p key default options = elim (get key options) [
  | none ↦ some default
  | some (text s) ↦ some (positive_or default (p.int s))
  | some (texts l) ↦ none
]

patterns : Option OptionValue → List String
patterns none = []
patterns (some (texts l)) = l
patterns (some (text s)) = fields s

-- the variables of the environment that a pattern of `SendEnv` names
unfoldable pub sent_environment : Platform → Dict OptionValue → List (String × String)
unfolding patterns
sent_environment p options =
    let ps = patterns (get "sendenv" options) in filter (λ v. any (p.fnmatch v.0) ps) p.environ

-- what a connection is made with
pub record Session : Type 0 where
  pub hostname : String
  pub port : ℤ
  pub username : String
  pub key_filename : Option String
  pub policy : HostKeyPolicy
  pub timeout : ℕ
  pub keepalive : ℕ
  pub environment : List (String × String)
  pub command : String
  pub level : ℕ

-- The remote side: whether the connection, the transport and the command (with the channel that is
-- opened for it) are accepted, and what is then transferred; `loop_fails` is an exception that
-- `io_loop` lets through.
pub record Server : Type 0 where
  pub connects : Session → Bool
  pub has_transport : Bool
  pub executes : String → Bool
  pub loop_fails : Bool
  pub ticks : List Tick
  pub stdout : List String
  pub stderr : List String
  pub status : Option ℕ

-- what ends the wrapper with exit code 1
pub data Problem : Type 0 where
  no_host no_command key_missing key_unreadable not_connected no_transport loop_failed : Problem

-- How the wrapper ends: with a problem, with an exception that it lets through, or with the transfer
-- of a session, which may still run.
pub data Ending : Type 0 where
  stopped : Problem → Ending
  uncaught : Ending
  ran : Session → Option Transferred → Ending

-- behind the connection
unfoldable pub execute : Server → Session → Ending
execute srv s =
    if not (srv.connects s)
    then stopped not_connected
    else if not srv.has_transport
    then stopped no_transport
    else if not (srv.executes s.command)
    then uncaught
    else if srv.loop_fails
    then stopped loop_failed
    else ran s (io_loop srv.ticks srv.stdout srv.stderr srv.status)

-- The session for a configuration, from the texts and numbers that its options hold: they are read
-- together, also those that the source reads behind the connection.
session : Platform → Config → ℕ → String → String → Option ℕ → Option ℕ → Option Session
session p c level host cmd (some timeout) (some keepalive) =
    elim (text_option "stricthostkeychecking" "" c.options) [
      | none ↦ none
      | some strict ↦ some (record {
        hostname = host;
        port = c.port;
        username = from_option "" c.username;
        key_filename = c.identity;
        policy = policy_for (p.unicode.lower strict);
        timeout = timeout;
        keepalive = keepalive;
        environment = sent_environment p c.options;
        command = cmd;
        level = level;
      })
    ]
session p c level host cmd _ _ = none

executed : Server → Option Session → Ending
executed srv none = uncaught
executed srv (some s) = execute srv s

-- an explicit key file must be there and readable
unfoldable pub key_problem : Platform → Option String → Option Problem
key_problem p key =
    let file = from_option "" key in
    if not (given key)
    then none
    else if not (p.exists file)
    then some key_missing
    else if not (p.readable file)
    then some key_unreadable
    else none

-- behind the arguments
unfoldable pub serve : Platform → Server → Config → Ending
unfolding session executed
serve p srv c =
    if not (given c.hostname)
    then stopped no_host
    else if not (given c.command)
    then stopped no_command
    else elim (text_option "loglevel" "" c.options) [
      | none ↦ uncaught
      | some level ↦ elim (key_problem p c.identity) [
        | some problem ↦ stopped problem
        | none ↦ executed srv (
            session p c (log_level c.verbose (p.unicode.upper level)) (from_option "" c.hostname)
              (from_option "" c.command) (seconds p "connecttimeout" 30 c.options)
              (seconds p "serveraliveinterval" 30 c.options))
      ]
    ]

served : Platform → Server → Option Config → Ending
served p srv none = uncaught
served p srv (some c) = serve p srv c

-- `main`
unfoldable pub main : Platform → Server → List String → Ending
unfolding served
main p srv args = served p srv (parse_args p args)

-- the argument of `sys.exit`; an exception that is let through gives 1 too
unfoldable pub exit_status : Ending → Option ℕ
exit_status (stopped problem) = some 1
exit_status uncaught = some 1
exit_status (ran s none) = none
exit_status (ran s (some r)) = some r.code
