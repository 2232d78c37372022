-- ===== src/Wrapper/Session/Safety.antt =====
-- How the wrapper ends, and what it has made sure of before it runs a command.
use translation_runtime_arch.Prelude.{
  ℕ, zero, suc, ◌<◌, String, ◌≡◌, refl, ap, true, false, Option, none, some, List, ◌==◌, eq_iff,
  arith, Bool-cases, Option-cases, inl, inr, ◌⊎◌, from_option,
}
use translation_runtime_arch.Text.{truthy}
use translation_runtime_arch.Dict.{Dict, get}
use translation_runtime_arch.Wrapper.{
  ℤ, pos, negsuc, Platform, OptionValue, text, texts, Config, given, parse_args,
}
use translation_runtime_arch.Wrapper.Channel.{io_loop}
use translation_runtime_arch.Wrapper.Session.{
  warn, text_option, policy_for, log_level, positive_or, seconds, sent_environment, Session, Server,
  Problem, no_host, no_command, key_missing, key_unreadable, not_connected, no_transport,
  loop_failed, Ending, stopped, uncaught, ran, execute, session, executed, key_problem, serve,
  served, main,
}
use translation_runtime_arch.Wrapper.Session.Unsplit.{IsUnsplit, parse_args-IsUnsplit}
use translation_runtime_arch.Wrapper.Session.Typed.{IsTyped, parse_args-IsTyped}

text_option-some :
    (key default : String) (d : Dict OptionValue)
    → IsTyped d
    → (key == "sendenv") ≡ false
    → (s : String) × (text_option key default d ≡ some s)
unfolding text_option
text_option-some key default d h k = elim (Option-cases (get key d)) [
  | inl e ↦ (default, rw (e, text_option) refl)
  | inr (text s, e) ↦ (s, rw (e, text_option) refl)
  | inr (texts l, e) ↦ absurd (ground (arith, h key, e, k))
]

positive_or-pos : (n : ℕ) (o : Option ℤ) → 0 < n → 0 < positive_or n o
unfolding positive_or
positive_or-pos n none h = h
positive_or-pos n (some (negsuc m)) h = h
positive_or-pos n (some (pos zero)) h = h
positive_or-pos n (some (pos (suc m))) h = omega arith

seconds-pos :
    (p : Platform) (key : String) (n : ℕ) (d : Dict OptionValue)
    → IsTyped d
    → (key == "sendenv") ≡ false
    → 0 < n
    → (m : ℕ) × (seconds p key n d ≡ some m) × (0 < m)
unfolding seconds
seconds-pos p key n d h k z = elim (Option-cases (get key d)) [
  | inl e ↦ (n, rw (e, seconds) refl, z)
  | inr (text s, e) ↦ (positive_or n (p.int s), rw (e, seconds) refl, positive_or-pos n (p.int s) z)
  | inr (texts l, e) ↦ absurd (ground (arith, h key, e, k))
]

policy_for-warn : (strict : String) → policy_for strict ≡ warn → strict ≡ "no"
unfolding policy_for
policy_for-warn strict h =
    ground (arith, h, eq_iff strict "yes", eq_iff strict "accept-new", eq_iff strict "no")

-- what holds of a session for a configuration
pub record IsPrepared (p : Platform) (c : Config) (s : Session) : Type 0 where
  pub has_host : c.hostname ≡ some s.hostname
  pub host_given : truthy s.hostname ≡ true
  pub has_command : c.command ≡ some s.command
  pub command_given : truthy s.command ≡ true
  pub same_port : s.port ≡ c.port
  pub same_key : s.key_filename ≡ c.identity
  pub key_usable : key_problem p s.key_filename ≡ none
  pub timeout_pos : 0 < s.timeout
  pub keepalive_pos : 0 < s.keepalive
  pub same_environment : s.environment ≡ sent_environment p c.options
  pub strict :
      s.policy ≡ warn
      → (v : String) × (text_option "stricthostkeychecking" "" c.options ≡ some v)
        × (p.unicode.lower v ≡ "no")

given-some : (o : Option String) → given o ≡ true → (s : String) × (o ≡ some s) × (truthy s ≡ true)
unfolding given
given-some none h = ground (arith, h)
given-some (some s) h = (s, refl, h)

module _ (p : Platform) (srv : Server) (c : Config) where
  prepared : ℕ → String → String → ℕ → ℕ → String → Session
  prepared level host cmd timeout keepalive strict = record {
    hostname = host;
    port = c.port;
    username = from_option "" c.username;
    key_filename = c.identity;
    policy = policy_for (p.unicode.lower strict);
    timeout = timeout;
    keepalive = keepalive;
    environment = sent_environment p c.options;
    command = cmd;
    level = level;
  }

  session-prepared :
      (level : ℕ) (host cmd v : String) (t k : ℕ)
      → text_option "stricthostkeychecking" "" c.options ≡ some v
      → session p c level host cmd (some t) (some k) ≡ some (prepared level host cmd t k v)
  unfolding session prepared
  session-prepared level host cmd v t k e = rw (e, session) refl

  serve-execute :
      IsTyped c.options
      → given c.hostname ≡ true
      → given c.command ≡ true
      → key_problem p c.identity ≡ none
      → (s : Session) × (serve p srv c ≡ execute srv s) × IsPrepared p c s
  unfolding serve executed prepared
  serve-execute h gh gc gk =
      let (host, eh, th) = given-some c.hostname gh in
      let (cmd, ec, tc) = given-some c.command gc in
      let (level, el) = text_option-some "loglevel" "" c.options h refl in
      let (t, et, zt) = seconds-pos p "connecttimeout" 30 c.options h refl (omega arith) in
      let (k, ek, zk) = seconds-pos p "serveraliveinterval" 30 c.options h refl (omega arith) in
      let (v, ev) = text_option-some "stricthostkeychecking" "" c.options h refl in
      let lv = log_level c.verbose (p.unicode.upper level) in
      (
        prepared lv host cmd t k v,
        rw (gh, gc, el, gk, et, ek, eh, ec, serve)
            (ap (executed srv) (session-prepared lv host cmd v t k ev)),
        record {
          has_host = eh;
          host_given = th;
          has_command = ec;
          command_given = tc;
          same_port = refl;
          same_key = refl;
          key_usable = gk;
          timeout_pos = zt;
          keepalive_pos = zk;
          same_environment = refl;
          strict = λ w. (v, ev, policy_for-warn (p.unicode.lower v) w);
        },
      )

module _ (p : Platform) (srv : Server) (args : List String) where
  -- what a configuration of these arguments is in the way of
  abbrev Blames : Problem → Config → Type 0
  Blames no_host c = given c.hostname ≡ false
  Blames no_command c = given c.command ≡ false
  Blames key_missing c = p.exists (from_option "" c.identity) ≡ false
  Blames key_unreadable c = p.readable (from_option "" c.identity) ≡ false
  Blames not_connected c = (s : Session) × IsPrepared p c s × (srv.connects s ≡ false)
  Blames no_transport c = srv.has_transport ≡ false
  Blames loop_failed c = srv.loop_fails ≡ true

  abbrev pub Ends : Ending → Type 0
  Ends (stopped problem) = (c : Config) × (parse_args p args ≡ some c) × Blames problem c
  Ends uncaught =
      (IsUnsplit args × (parse_args p args ≡ none))
      ⊎ ((c : Config) × (s : Session) × (parse_args p args ≡ some c)
          × IsPrepared p c s
          × (srv.executes s.command ≡ false))
  Ends (ran s r) =
      (c : Config) × (parse_args p args ≡ some c)
      × IsPrepared p c s
      × (srv.connects s ≡ true)
      × (srv.executes s.command ≡ true)
      × (r ≡ io_loop srv.ticks srv.stdout srv.stderr srv.status)

  execute-Ends :
      (c : Config) (s : Session)
      → parse_args p args ≡ some c
      → IsPrepared p c s
      → Ends (execute srv s)
  unfolding execute
  execute-Ends c s e i = elim (Bool-cases (srv.connects s)) [
    | inr n ↦ rw (n, execute) (c, e, (s, i, n))
    | inl y ↦ elim (Bool-cases srv.has_transport) [
      | inr n ↦ rw (y, n, execute) (c, e, refl)
      | inl t ↦ elim (Bool-cases (srv.executes s.command)) [
        | inr n ↦ rw (y, t, n, execute) (inr (c, s, e, i, n))
        | inl x ↦ elim (Bool-cases srv.loop_fails) [
          | inl l ↦ rw (y, t, x, l, execute) (c, e, refl)
          | inr l ↦ rw (y, t, x, l, execute) (c, e, i, y, x, refl)
        ]
      ]
    ]
  ]

  key_problem-Blames :
      (c : Config) (problem : Problem) → key_problem p c.identity ≡ some problem → Blames problem c
  unfolding key_problem
  key_problem-Blames c no_host h = ground (arith, h)
  key_problem-Blames c no_command h = ground (arith, h)
  key_problem-Blames c key_missing h = ground (arith, h)
  key_problem-Blames c key_unreadable h = ground (arith, h)
  key_problem-Blames c not_connected h = absurd (ground (arith, h))
  key_problem-Blames c no_transport h = ground (arith, h)
  key_problem-Blames c loop_failed h = ground (arith, h)

  serve-Ends : (c : Config) → parse_args p args ≡ some c → Ends (serve p srv c)
  unfolding serve
  serve-Ends c e =
      let h = parse_args-IsTyped p args c e in
      elim (Bool-cases (given c.hostname)) [
        | inr n ↦ rw (n, serve) (c, e, n)
        | inl gh ↦ elim (Bool-cases (given c.command)) [
          | inr n ↦ rw (gh, n, serve) (c, e, n)
          | inl gc ↦ elim (Option-cases (key_problem p c.identity)) [
            | inr (problem, k) ↦
                let (level, el) = text_option-some "loglevel" "" c.options h refl in
                rw (gh, gc, el, k, serve) (c, e, key_problem-Blames c problem k)
            | inl gk ↦
                let (s, es, i) = serve-execute p srv c h gh gc gk in rw es (execute-Ends c s e i)
          ]
        ]
      ]

  pub main-Ends : Ends (main p srv args)
  unfolding main served
  main-Ends = elim (Option-cases (parse_args p args)) [
    | inl e ↦ rw (e, main) (inl (parse_args-IsUnsplit p args e, e))
    | inr (c, e) ↦ rw (e, main) (serve-Ends c e)
  ]
