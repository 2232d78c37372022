-- ===== src/Regex.antt =====
-- Python's `re` as far as the engine uses it: a backtracking matcher that lists the ways to match in
-- the order of preference, so that the first one is Python's. Patterns are over code points, with
-- the flag MULTILINE. No pattern of the engine matches the empty text.
pub mod Tests
pub mod Case
use translation_runtime_arch.Prelude.{
  ℕ, zero, suc, ◌-◌, Char, code, String, Bool, true, false, not, ◌&&◌, ◌||◌, List, [], ◌∷◌, ◌++◌,
  Option, none, some, leb, ltb, eqb, if◌then◌else◌, map, is_empty, is_some,
}
use translation_runtime_arch.Text.{len, take_text, is_space, truthy, ◌+++◌}
use Prim.Native.String

-- What the patterns, `int`, `str.lower` and `str.upper` read of the Unicode database: the classes
-- `\w` and `\d`, the number that digits write, and the two cases of a text.
pub record Unicode : Type 0 where
  pub is_word : ℕ → Bool
  pub is_digit : ℕ → Bool
  pub digits_value : String → ℕ
  pub lower : String → String
  pub upper : String → String

pub data Regex : Type 0 where
  empty : Regex
  class : (ℕ → Bool) → Regex
  seq alt : Regex → Regex → Regex
  star lazy_star : Regex → Regex
  line_start line_end word_boundary : Regex
  group : ℕ → Regex → Regex

-- A place in the text: the code point before it, what follows, and the groups matched so far.
pub record Place : Type 0 where
  pub before : Option ℕ
  pub rest : String
  pub groups : List (ℕ × String)

abbrev occurs : ℕ → String → Bool
occurs c String.[] = false
occurs c (String.◌∷◌ d s) = eqb c (code d) || occurs c s

flat_map {ℓ κ} : {A : Type ℓ} {B : Type κ} → (A → List B) → List A → List B
flat_map f [] = []
flat_map f (x ∷ xs) = f x ++ flat_map f xs

-- the text from one place to a later one
consumed : Place → Place → String
unfolding len take_text
consumed s t = take_text (len s.rest - len t.rest) s.rest

progressed : Place → Place → Bool
unfolding len
progressed s t = ltb (len t.rest) (len s.rest)

-- greedy and lazy repetition; a round that consumes nothing ends it, so `len` rounds are enough
repeat : (Place → List Place) → ℕ → Place → List Place
unfolding flat_map progressed
repeat step zero s = s ∷ []
repeat step (suc fuel) s =
    flat_map (λ t. elim (progressed s t) [ true ↦ repeat step fuel t | false ↦ [] ]) (step s)
    ++ s ∷ []

repeat_lazy : (Place → List Place) → ℕ → Place → List Place
unfolding flat_map progressed
repeat_lazy step zero s = s ∷ []
repeat_lazy step (suc fuel) s =
    s
    ∷ flat_map (λ t. elim (progressed s t) [ true ↦ repeat_lazy step fuel t | false ↦ [] ]) (step s)

at_line_start : Option ℕ → Bool
at_line_start none = true
at_line_start (some c) = eqb c b'\n'

at_line_end : String → Bool
at_line_end String.[] = true
at_line_end (String.◌∷◌ c s) = eqb (code c) b'\n'

step_class : (ℕ → Bool) → Place → String → List Place
step_class p s String.[] = []
step_class p s (String.◌∷◌ c r) =
    if p (code c) then record s { before = some (code c); rest = r } ∷ [] else []

when : Bool → Place → List Place
when b s = if b then s ∷ [] else []

module _ (u : Unicode) where
  word_at : Option ℕ → Bool
  word_at none = false
  word_at (some c) = u.is_word c

  word_next : String → Bool
  word_next String.[] = false
  word_next (String.◌∷◌ c s) = u.is_word (code c)

  differ : Bool → Bool → Bool
  differ true b = not b
  differ false b = b

  -- the places where a match that begins at `s` can end, the preferred one first
  ends : Regex → Place → List Place
  unfolding len is_space flat_map consumed repeat repeat_lazy at_line_start at_line_end step_class
      when word_at word_next differ
  ends empty s = s ∷ []
  ends (class p) s = step_class p s s.rest
  ends (seq r q) s = flat_map (ends q) (ends r s)
  ends (alt r q) s = ends r s ++ ends q s
  ends (star r) s = repeat (ends r) (len s.rest) s
  ends (lazy_star r) s = repeat_lazy (ends r) (len s.rest) s
  ends line_start s = when (at_line_start s.before) s
  ends line_end s = when (at_line_end s.rest) s
  ends word_boundary s = when (differ (word_at s.before) (word_next s.rest)) s
  ends (group n r) s =
      map {A = Place} (λ t. record t { groups = (n, consumed s t) ∷ t.groups }) (ends r s)

pub record Match : Type 0 where
  pub text : String  -- m.group(0)
  pub groups : List (ℕ × String)

pub data Piece : Type 0 where
  plain : Char → Piece
  hit : Match → Piece

-- `m.group(n)`; a group that took no part in the match is `None`, and is not read by the engine
unfoldable pub group_of : ℕ → List (ℕ × String) → String
group_of n [] = String.[]
group_of n ((k, s) ∷ gs) = if eqb n k then s else group_of n gs

module _ (u : Unicode) where
  first_end : Regex → Place → Option Place
  unfolding ends
  first_end r s = elim (ends u r s) [ [] ↦ none | t ∷ _ ↦ some t ]

  -- the text cut into matches and the code points between them; `skip` code points of the last match
  -- are still to be passed over
  scan : Regex → ℕ → Option ℕ → String → List Piece
  unfolding len first_end progressed consumed
  scan r skip before String.[] = []
  scan r (suc skip) before (String.◌∷◌ c s) = scan r skip (some (code c)) s
  scan r zero before (String.◌∷◌ c s) =
      let here : Place = record { before = before; rest = String.◌∷◌ c s; groups = [] } in
      let miss = plain c ∷ scan r 0 (some (code c)) s in
      elim (first_end r here) [
        | none ↦ miss
        | some t ↦ elim (progressed here t) [
          | true ↦
              let text = consumed here t in
              hit (record { text = text; groups = t.groups })
              ∷ scan r (len text - 1) (some (code c)) s
          | false ↦ miss
        ]
      ]

  unfoldable pub pieces : Regex → String → List Piece
  unfolding scan
  pieces r s = scan r 0 none s

  hits : List Piece → List Match
  hits [] = []
  hits (plain c ∷ ps) = hits ps
  hits (hit m ∷ ps) = m ∷ hits ps

  -- `r.finditer(s)`
  unfoldable pub find_all : Regex → String → List Match
  unfolding pieces hits
  find_all r s = hits (pieces r s)

  -- `r.search(s) is not None`
  unfoldable pub found : Regex → String → Bool
  unfolding find_all
  found r s = not (is_empty (find_all r s))

  -- `r.match(s) is not None`
  unfoldable pub matches_start : Regex → String → Bool
  unfolding first_end
  matches_start r s = is_some (first_end r (record { before = none; rest = s; groups = [] }))

  any_at_end : List Place → Bool
  any_at_end [] = false
  any_at_end (t ∷ ts) = not (truthy t.rest) || any_at_end ts

  -- `r.fullmatch(s) is not None`
  unfoldable pub full_match : Regex → String → Bool
  unfolding ends any_at_end
  full_match r s = any_at_end (ends u r (record { before = none; rest = s; groups = [] }))

  substitute : (Match → String) → List Piece → String
  substitute f [] = String.[]
  substitute f (plain c ∷ ps) = String.◌∷◌ c (substitute f ps)
  substitute f (hit m ∷ ps) = f m +++ substitute f ps

  -- `r.sub(f, s)` at a pure `f`
  unfoldable pub sub : Regex → (Match → String) → String → String
  unfolding pieces substitute
  sub r f s = substitute f (pieces r s)

-- Patterns.
abbrev pub any_char : Regex
any_char = class (λ _. true)

abbrev pub at_least : ℕ → Regex → Regex
at_least zero r = star r
at_least (suc n) r = seq r (at_least n r)

abbrev pub any_but_newline : Regex
any_but_newline = class (λ c. not (eqb c b'\n'))

abbrev pub one_of : String → Regex
one_of s = class (λ c. occurs c s)

abbrev pub none_of : String → Regex
none_of s = class (λ c. not (occurs c s))

abbrev pub range : ℕ → ℕ → Regex
range lo hi = class (λ c. leb lo c && leb c hi)

abbrev pub space : Regex
space = class is_space

abbrev pub literal : String → Regex
literal String.[] = empty
literal (String.◌∷◌ c s) = seq (class (λ d. eqb d (code c))) (literal s)

abbrev pub plus : Regex → Regex
plus r = seq r (star r)

abbrev pub optional : Regex → Regex
optional r = alt r empty

abbrev pub exactly : ℕ → Regex → Regex
exactly zero r = empty
exactly (suc n) r = seq r (exactly n r)

-- `r{n,n+k}`
abbrev pub between : ℕ → ℕ → Regex → Regex
between zero zero r = empty
between zero (suc k) r = optional (seq r (between zero k r))
between (suc n) k r = seq r (between n k r)

abbrev pub seqs : List Regex → Regex
seqs [] = empty
seqs (r ∷ rs) = seq r (seqs rs)
