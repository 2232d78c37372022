-- ===== src/Wrapper/Target.antt =====
-- Targets as they are written: `[user@]host[:port]`, and an IPv6 literal in brackets.
use Prim.Native.String.append
use translation_runtime_arch.Prelude.{
  Char, code, String, ◌≡◌, refl, sym, ap, ◌∙◌, true, false, Option, none, some, arith, eqb,
  if◌then◌else◌,
}
use translation_runtime_arch.Text.{◌+++◌, contains, starts_with, strip_prefix, drop_text}
use translation_runtime_arch.Text.Parts.{mark, contains-cons, contains_at}
use translation_runtime_arch.CommandLine.{cut_first}
use translation_runtime_arch.Wrapper.{ℤ, Platform, Config, port_or, set_host, decompose}

module _ (d : Char) where
  cut_first-cons :
      (c : Char) (s : String)
      → cut_first (mark d) (String.◌∷◌ c s) ≡ (
          if eqb (code d) (code c)
          then ("", s)
          else (String.◌∷◌ c (cut_first (mark d) s).0, (cut_first (mark d) s).1))
  unfolding cut_first strip_prefix
  cut_first-cons c s = ground arith

  -- a text is cut at a mark that does not stand before
  cut_first_at :
      (a b : String)
      → contains (mark d) a ≡ false
      → cut_first (mark d) (a +++ mark d +++ b) ≡ (a, b)
  cut_first_at String.[] b h =
      rw (append.nil, append.cons, append.nil, cut_first-cons) (ground arith)
  cut_first_at (String.◌∷◌ c a) b h =
      rw (append.cons, cut_first-cons) (ground (arith, contains-cons d c a, cut_first_at a b))

-- how a host is written
pub data Address : Type 0 where
  plain : String → Address
  numbered : String → String → Address
  literal : String → Address
  numbered_literal : String → String → Address

abbrev pub written : Address → String
written (plain h) = h
written (numbered h n) = h +++ ":" +++ n
written (literal a) = "[" +++ a +++ "]"
written (numbered_literal a n) = "[" +++ a +++ "]" +++ ":" +++ n

-- a name that is no literal and has no port
abbrev pub IsName : String → Type 0
IsName h = (starts_with h "[" ≡ false) × (contains ":" h ≡ false)

abbrev pub CanBeWritten : Platform → Address → Type 0
CanBeWritten p (plain h) = IsName h
CanBeWritten p (numbered h n) = IsName h × (contains ":" n ≡ false) × ((k : ℤ) × (p.int n ≡ some k))
CanBeWritten p (literal a) = contains "]" a ≡ false
CanBeWritten p (numbered_literal a n) = contains "]" a ≡ false

-- the host and the port that are meant
abbrev pub meant : Platform → Address → Config → Config
meant p (plain h) c = record c { hostname = some h }
meant p (numbered h n) c = record c { hostname = some h; port = port_or p c.port n }
meant p (literal a) c = record c { hostname = some a }
meant p (numbered_literal a n) c = record c { hostname = some a; port = port_or p c.port n }

starts_with-append :
    (h r : String)
    → starts_with h "[" ≡ false
    → starts_with r "[" ≡ false
    → starts_with (h +++ r) "[" ≡ false
unfolding starts_with strip_prefix
starts_with-append String.[] r i j = rw append.nil j
starts_with-append (String.◌∷◌ c h) r i j = rw append.cons (ground (arith, i))

colon_first : (n : String) → starts_with (":" +++ n) "[" ≡ false
unfolding starts_with strip_prefix
colon_first n = rw append.cons refl

bracket_first : (s : String) → starts_with ("[" +++ s) "[" ≡ true
unfolding starts_with strip_prefix
bracket_first s = rw append.cons refl

contains_bracket : (s : String) → contains "]" ("[" +++ s) ≡ contains "]" s
contains_bracket s = rw (append.cons, contains-cons "]", append.nil) refl

behind_first : (s : String) (c : Char) → drop_text 1 (String.◌∷◌ c String.[] +++ s) ≡ s
unfolding drop_text
behind_first s c = rw (append.cons, append.nil) refl

-- a literal in front of a rest
set_host_literal :
    (p : Platform) (a rest : String) (c : Config)
    → contains "]" a ≡ false
    → set_host p ("[" +++ a +++ "]" +++ rest) c ≡ record c {
      hostname = some a;
      port = if starts_with rest ":" then port_or p c.port (drop_text 1 rest) else c.port;
    }
unfolding set_host
set_host_literal p a rest c h =
    rw
      (
        bracket_first (a +++ "]" +++ rest),
        contains_bracket (a +++ "]" +++ rest),
        contains_at "]" a rest,
        behind_first (a +++ "]" +++ rest) "[",
        cut_first_at "]" a rest h,
        set_host,
      )
      refl

colon_starts : (n : String) → starts_with (":" +++ n) ":" ≡ true
unfolding starts_with strip_prefix
colon_starts n = rw append.cons refl

set_host_numbered :
    (p : Platform) (h n : String) (k : ℤ) (c : Config)
    → IsName h
    → contains ":" n ≡ false
    → p.int n ≡ some k
    → set_host p (h +++ ":" +++ n) c ≡ record c { hostname = some h; port = k }
unfolding set_host
set_host_numbered p h n k c i j e =
    rw
      (
        starts_with-append h (":" +++ n) i.0 (colon_first n),
        contains_at ":" h n,
        cut_first_at ":" h n i.1,
        j,
        e,
        set_host,
      )
      (ap (λ (q : String × String). record c { hostname = some q.0; port = k })
        (cut_first_at ":" h n i.1))

port_or-some :
    (p : Platform) (old : ℤ) (n : String) (k : ℤ) → p.int n ≡ some k → port_or p old n ≡ k
unfolding port_or
port_or-some p old n k e = rw (e, port_or) refl

set_host-written :
    (p : Platform) (a : Address) (c : Config)
    → CanBeWritten p a
    → set_host p (written a) c ≡ meant p a c
unfolding set_host starts_with
set_host-written p (plain h) c w = rw (w.0, w.1, set_host) refl
set_host-written p (numbered h n) c w =
    set_host_numbered p h n w.2.0 c w.0 w.1 w.2.1
    ∙ ap (λ k. record c { hostname = some h; port = k }) (sym (port_or-some p c.port n w.2.0 w.2.1))
set_host-written p (literal a) c w = set_host_literal p a "" c w
set_host-written p (numbered_literal a n) c w =
    set_host_literal p a (":" +++ n) c w ∙ rw (colon_starts n, behind_first n ":") refl

-- the target with its user in front
abbrev pub targeted : Option String → Address → String
targeted none a = written a
targeted (some user) a = user +++ "@" +++ written a

abbrev pub HasUser : Option String → Address → Type 0
HasUser none a = contains "@" (written a) ≡ false
HasUser (some user) a = contains "@" user ≡ false

abbrev pub with_user : Option String → Config → Config
with_user none c = c
with_user (some user) c = record c { username = some user }

-- A target is decomposed into the user, the host and the port that it was written with: a name without
-- colons that does not begin with a bracket, a name with a port that is a number, and a literal in
-- brackets with or without a port, where a port that is no number leaves the one that was there. The
-- user has no `@`; without a user nothing has one.
pub decompose-targeted :
    (p : Platform) (user : Option String) (a : Address) (c : Config)
    → HasUser user a
    → CanBeWritten p a
    → decompose p (targeted user a) c ≡ meant p a (with_user user c)
unfolding decompose
decompose-targeted p none a c u w = rw (u, decompose) (set_host-written p a c w)
decompose-targeted p (some user) a c u w =
    rw (contains_at "@" user (written a), cut_first_at "@" user (written a) u, decompose)
      (set_host-written p a (record c { username = some user }) w)
