-- ===== src/Examples/Wrapped.antt =====
-- The wrapper around ssh on concrete arguments and schedules.
use translation_runtime_arch.Prelude.{
  ◌≡◌, refl, String, true, false, Option, none, some, List, [], ◌∷◌, ◌==◌, if◌then◌else◌,
}
use translation_runtime_arch.Regex.Tests.{ascii}
use translation_runtime_arch.Text.{contains, starts_with}
use translation_runtime_arch.Dict.{get}
use translation_runtime_arch.Wrapper.{
  ℤ, pos, Platform, Config, new_config, parse_from, parse_args, decompose, settle,
}
use translation_runtime_arch.Wrapper.Arguments.{
  as_port, as_identity, as_option, Setting, spaced, joined, louder, line, configured,
  parse_args-line,
}
use translation_runtime_arch.Wrapper.Options.{values, meant, parse_from-options}
use translation_runtime_arch.Wrapper.Target
use translation_runtime_arch.Wrapper.Target.{
  decompose-targeted, numbered_literal, targeted, with_user,
}
use translation_runtime_arch.Wrapper.Channel.{Tick, to_eof, sound, io_loop, exit_code}
use translation_runtime_arch.Wrapper.Channel.Complete.{io_loop_complete}
use translation_runtime_arch.Wrapper.Session.{Server, main}
use translation_runtime_arch.Wrapper.Session.Safety.{main-Ends, Ends}
use translation_runtime_arch.Text.Shell.{join_words, split_words}

abbrev number : String → Option ℤ
number s = if s == "2222" then some (pos 2222) else if s == "22" then some (pos 22) else none

abbrev machine : Platform
machine = record {
  unicode = ascii;
  int = number;
  expanduser = λ s. s;
  exists = λ s. s == "/key";
  readable = λ s. true;
  fnmatch = λ name pattern_. name == pattern_;
  environ = ("GIT_PROTOCOL", "version=2") ∷ ("HOME", "/root") ∷ [];
}

abbrev settings : List Setting
settings =
    spaced as_option "SendEnv=GIT_PROTOCOL"
    ∷ joined as_port "2222"
    ∷ louder
    ∷ joined as_option "sendenv=LANG"
    ∷ spaced as_identity "/key"
    ∷ []

abbrev arguments : List String
arguments = line settings ("git@host" ∷ "git-receive-pack 'a b.git'" ∷ [])

parse_args-line_example :
    let ws : List String = "git-receive-pack" ∷ "a b.git" ∷ [] in
    let c : Config = record (configured machine settings new_config) {
      host_str = some "git@host";
      command = some (join_words ws);
    } in
    (parse_args machine arguments ≡ some (settle machine c))
    × (split_words (join_words ws) ≡ some ws)
unfolding split_words starts_with
parse_args-line_example =
    parse_args-line machine settings "git@host" "git-receive-pack 'a b.git'" []
      ("git-receive-pack" ∷ "a b.git" ∷ []) (tt, (refl, (tt, (refl, (tt, tt))))) refl refl

parse_from-options_example :
    (c : Config) × (parse_from machine none (line settings []) new_config ≡ some c)
    × ((k : String) → get k c.options ≡ meant k (values machine k settings))
parse_from-options_example =
    parse_from-options machine settings (tt, (refl, (tt, (refl, (tt, tt)))))

decompose-targeted_example :
    decompose machine (targeted (some "git") (numbered_literal "::1" "2222")) new_config
    ≡ Target.meant machine (numbered_literal "::1" "2222") (with_user (some "git") new_config)
unfolding contains
decompose-targeted_example =
    decompose-targeted machine (some "git") (numbered_literal "::1" "2222") new_config refl refl

abbrev quiet : Tick
quiet = record {
  stop = false;
  recv_ready = true;
  recv_stderr_ready = false;
  exit_status_ready = false;
  closed = false;
  fault = sound;
  stdout_drain = to_eof;
  stderr_drain = to_eof;
}

abbrev last : Tick
last = record quiet { exit_status_ready = true }

abbrev pieces : List String
pieces = "PACK" ∷ "0001" ∷ "0002" ∷ []

io_loop_complete_example :
    io_loop (quiet ∷ last ∷ []) pieces ("done" ∷ []) (some 0)
    ≡ some (record { stdout = pieces; stderr = "done" ∷ []; code = 0 })
unfolding exit_code
io_loop_complete_example =
    io_loop_complete (quiet ∷ []) last [] pieces ("done" ∷ []) (some 0)
      (record { goes_on = refl; is_sound = refl; open_ = refl }, tt)
      (record { no_stop = refl; no_fault = refl; over = refl; out_ends = refl; err_ends = refl })

abbrev stopping : Tick
stopping = record quiet { stop = true }

abbrev remote : Server
remote = record {
  connects = λ s. true;
  has_transport = true;
  executes = λ cmd. true;
  loop_fails = false;
  ticks = quiet ∷ last ∷ [];
  stdout = pieces;
  stderr = [];
  status = some 0;
}

main-Ends_example : Ends machine remote arguments (main machine remote arguments)
main-Ends_example = main-Ends machine remote arguments
