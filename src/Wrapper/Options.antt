-- ===== src/Wrapper/Options.antt =====
-- The `-o` options that a command line sets.
use mathlib.Core.List.{append-nil, append_assoc}
use translation_runtime_arch.Prelude.{
  String, ◌≡◌, refl, sym, ap, ◌∙◌, Bool, true, false, Option, none, some, List, [], ◌∷◌, ◌++◌, ◌==◌,
  eq_iff, if◌then◌else◌, arith, All,
}
use translation_runtime_arch.Text.{contains}
use translation_runtime_arch.Dict.{Dict, get, get-put}
use translation_runtime_arch.CommandLine.{cut_first}
use translation_runtime_arch.Wrapper.{
  Platform, OptionValue, text, texts, Config, new_config, accumulated, set_lower, set_option,
  directive, parse_from,
}
use translation_runtime_arch.Wrapper.Arguments.{
  as_port, as_identity, as_login, as_option, Setting, spaced, joined, louder, line, configured,
  meaning, CanBeWritten, parse_from-line,
}

-- the key, in lower case, and the value of a directive
abbrev pub key_of : Platform → String → String
key_of p v = p.unicode.lower (if contains "=" v then (cut_first "=" v).0 else v)

abbrev pub value_of : String → String
value_of v = if contains "=" v then (cut_first "=" v).1 else ""

-- the values that some settings give to a key, in their order
abbrev pub values : Platform → String → List Setting → List String
values p k [] = []
values p k (spaced as_option v ∷ ss) =
    if key_of p v == k then value_of v ∷ values p k ss else values p k ss
values p k (joined as_option v ∷ ss) =
    if key_of p v == k then value_of v ∷ values p k ss else values p k ss
values p k (_ ∷ ss) = values p k ss

-- all values as a list
abbrev pub all_of : List String → Option OptionValue
all_of [] = none
all_of (v ∷ vs) = some (texts (v ∷ vs))

-- the last value
abbrev pub last_of : List String → Option OptionValue
last_of [] = none
last_of (v ∷ []) = some (text v)
last_of (v ∷ w ∷ vs) = last_of (w ∷ vs)

-- what a key stands for: the list of its values for `SendEnv`, and else the last one
abbrev pub meant : String → List String → Option OptionValue
meant k vs = if k == "sendenv" then all_of vs else last_of vs

last_of-snoc : (vs : List String) (v : String) → last_of (vs ++ v ∷ []) ≡ some (text v)
last_of-snoc [] v = refl
last_of-snoc (w ∷ []) v = refl
last_of-snoc (w ∷ x ∷ vs) v = last_of-snoc (x ∷ vs) v

all_of-snoc :
    (vs : List String) (v : String)
    → some (texts (accumulated v (all_of vs))) ≡ all_of (vs ++ v ∷ [])
unfolding accumulated
all_of-snoc [] v = refl
all_of-snoc (w ∷ vs) v = refl

-- one more value for a key
abbrev with_value : String → String → String → List String → List String
with_value key k v vs = if key == k then vs ++ v ∷ [] else vs

abbrev Reads : Dict OptionValue → (String → List String) → Type 0
Reads d vs = (k : String) → get k d ≡ meant k (vs k)

set_lower-Reads :
    (key v : String) (d : Dict OptionValue) (vs : String → List String)
    → Reads d vs
    → Reads (set_lower key v d) (λ k. with_value key k v (vs k))
unfolding set_lower
set_lower-Reads key v d vs h k = ground (
  arith,
  h k,
  h "sendenv",
  get-put "sendenv" k (texts (accumulated v (get "sendenv" d))) d,
  get-put key k (text v) d,
  eq_iff key "sendenv",
  eq_iff k "sendenv",
  eq_iff "sendenv" k,
  eq_iff key k,
  all_of-snoc (vs k) v,
  last_of-snoc (vs k) v,
)

directive_lem :
    (p : Platform) (v : String) (d : Dict OptionValue)
    → directive p v d ≡ set_lower (key_of p v) (value_of v) d
unfolding directive set_option
directive_lem p v d = ground arith

directive-Reads :
    (p : Platform) (v : String) (d : Dict OptionValue) (vs : String → List String)
    → Reads d vs
    → Reads (directive p v d) (λ k. with_value (key_of p v) k (value_of v) (vs k))
directive-Reads p v d vs h k =
    rw (directive_lem p v d) (set_lower-Reads (key_of p v) (value_of v) d vs h k)

with_value-append :
    (b : Bool) (v : String) (vs ws : List String)
    → (if b then vs ++ v ∷ [] else vs) ++ ws ≡ vs ++ (if b then v ∷ ws else ws)
with_value-append true v vs ws = append_assoc vs (v ∷ []) ws
with_value-append false v vs ws = refl

-- one directive more, in front of others
directed :
    (p : Platform) (v : String) (k : String) (vs : String → List String) (ws : List String)
    → meant k (with_value (key_of p v) k (value_of v) (vs k) ++ ws)
      ≡ meant k (vs k ++ (if key_of p v == k then value_of v ∷ ws else ws))
directed p v k vs ws = ap (meant k) (with_value-append (key_of p v == k) (value_of v) (vs k) ws)

configured-Reads :
    (p : Platform) (ss : List Setting) (c : Config) (vs : String → List String)
    → Reads c.options vs
    → Reads (configured p ss c).options (λ k. vs k ++ values p k ss)
configured-Reads p [] c vs h k = h k ∙ ap (meant k) (sym (append-nil (vs k)))
configured-Reads p (spaced as_port v ∷ ss) c vs h k = configured-Reads p ss _ vs h k
configured-Reads p (spaced as_identity v ∷ ss) c vs h k = configured-Reads p ss _ vs h k
configured-Reads p (spaced as_login v ∷ ss) c vs h k = configured-Reads p ss _ vs h k
configured-Reads p (joined as_port v ∷ ss) c vs h k = configured-Reads p ss _ vs h k
configured-Reads p (joined as_identity v ∷ ss) c vs h k = configured-Reads p ss _ vs h k
configured-Reads p (joined as_login v ∷ ss) c vs h k = configured-Reads p ss _ vs h k
configured-Reads p (louder ∷ ss) c vs h k = configured-Reads p ss _ vs h k
configured-Reads p (spaced as_option v ∷ ss) c vs h k =
    configured-Reads p ss (meaning p as_option v c) _ (directive-Reads p v c.options vs h) k
    ∙ directed p v k vs (values p k ss)
configured-Reads p (joined as_option v ∷ ss) c vs h k =
    configured-Reads p ss (meaning p as_option v c) _ (directive-Reads p v c.options vs h) k
    ∙ directed p v k vs (values p k ss)

nothing : Reads [] (λ k. [])
unfolding get
nothing k = ground arith

-- The settings of a line are parsed, and then `SendEnv` stands for the list of all values that they
-- give to it, in their order, and every other option, its key in lower case, for the last one.
pub parse_from-options :
    (p : Platform) (ss : List Setting)
    → All CanBeWritten ss
    → (c : Config) × (parse_from p none (line ss []) new_config ≡ some c)
      × ((k : String) → get k c.options ≡ meant k (values p k ss))
unfolding parse_from
parse_from-options p ss w = (
  configured p ss new_config,
  parse_from-line p ss [] new_config w,
  configured-Reads p ss new_config (λ k. []) nothing,
)
