-- ===== src/Text.antt =====
-- The operations of Python's `str` that the engine uses, over native texts (code points).
mod Tests
pub mod Numerals
pub mod Order
pub mod Parts
pub mod Repr
pub mod Shell
use translation_runtime_arch.Prelude.{
  ℕ, zero, suc, ◌-◌, ◌/◌, ◌%◌, Char, code, String, Bool, true, false, ◌&&◌, ◌||◌, List, [], ◌∷◌,
  Option, none, some, leb, ltb, eqb, if◌then◌else◌, filter,
}
use Prim.Native.String

-- `a + b`, and the pieces of an f-string
infixr 66 ◌+++◌
abbrev pub ◌+++◌ : String → String → String
s +++ t = String.◌++◌ s t

-- `len(s)`
unfoldable pub len : String → ℕ
len String.[] = 0
len (String.◌∷◌ c s) = suc (len s)

-- `bool(s)`
abbrev pub truthy : String → Bool
truthy String.[] = false
truthy (String.◌∷◌ c s) = true

-- `a or b`
abbrev pub or_else : String → String → String
or_else String.[] t = t
or_else (String.◌∷◌ c s) t = String.◌∷◌ c s

-- the text behind a prefix, if the text begins with it
unfoldable pub strip_prefix : String → String → Option String
strip_prefix String.[] s = some s
strip_prefix (String.◌∷◌ c p) String.[] = none
strip_prefix (String.◌∷◌ c p) (String.◌∷◌ d s) =
    let rest = strip_prefix p s in if eqb (code c) (code d) then rest else none

-- `s.startswith(p)`
unfoldable pub starts_with : String → String → Bool
unfolding strip_prefix
starts_with s p = elim (strip_prefix p s) [ none ↦ false | some _ ↦ true ]

-- `p in s`
unfoldable pub contains : String → String → Bool
unfolding starts_with
contains p String.[] = starts_with String.[] p
contains p (String.◌∷◌ c s) = starts_with (String.◌∷◌ c s) p || contains p s

-- `s[:n]` and `s[n:]`
unfoldable pub take_text : ℕ → String → String
take_text zero s = String.[]
take_text (suc n) String.[] = String.[]
take_text (suc n) (String.◌∷◌ c s) = String.◌∷◌ c (take_text n s)

unfoldable pub drop_text : ℕ → String → String
drop_text zero s = s
drop_text (suc n) String.[] = String.[]
drop_text (suc n) (String.◌∷◌ c s) = drop_text n s

-- `s.replace(old, new)` at a nonempty `old`: `skip` code points of a match are still to be dropped
replace_from : String → String → ℕ → String → String
unfolding starts_with
replace_from old new n String.[] = String.[]
replace_from old new (suc n) (String.◌∷◌ c s) = replace_from old new n s
replace_from old new zero (String.◌∷◌ c s) =
    let hit = new +++ replace_from old new (len old - 1) s in
    let miss = String.◌∷◌ c (replace_from old new zero s) in
    if starts_with (String.◌∷◌ c s) old then hit else miss

-- an empty `old` is inserted before each code point and at the end
intersperse : String → String → String
intersperse new String.[] = new
intersperse new (String.◌∷◌ c s) = new +++ String.◌∷◌ c (intersperse new s)

unfoldable pub replace : String → String → String → String
unfolding replace_from intersperse len
replace s old new = if truthy old then replace_from old new zero s else intersperse new s

-- `s.replace(old, new, 1)` at a nonempty `old`
unfoldable pub replace_first : String → String → String → String
unfolding starts_with len
replace_first String.[] old new = String.[]
replace_first (String.◌∷◌ c s) old new =
    let hit = new +++ drop_text (len old - 1) s in
    let miss = String.◌∷◌ c (replace_first s old new) in
    if starts_with (String.◌∷◌ c s) old then hit else miss

-- `str.isspace`, which is also the class `\s`
unfoldable pub is_space : ℕ → Bool
is_space c =
    (leb 9 c && leb c 13)
    || (leb 28 c && leb c 32)
    || eqb c 0x85
    || eqb c 0xa0
    || eqb c 0x1680
    || (leb 0x2000 c && leb c 0x200a)
    || eqb c 0x2028
    || eqb c 0x2029
    || eqb c 0x202f
    || eqb c 0x205f
    || eqb c 0x3000

-- `s.lstrip()`, `s.rstrip()` and `s.strip()` over a class of code points
unfoldable pub lstrip : (ℕ → Bool) → String → String
lstrip p String.[] = String.[]
lstrip p (String.◌∷◌ c s) = let rest = lstrip p s in if p (code c) then rest else String.◌∷◌ c s

snoc_stripped : (ℕ → Bool) → Char → String → String
snoc_stripped p c String.[] = if p (code c) then String.[] else String.◌∷◌ c String.[]
snoc_stripped p c (String.◌∷◌ d s) = String.◌∷◌ c (String.◌∷◌ d s)

unfoldable pub rstrip : (ℕ → Bool) → String → String
unfolding snoc_stripped
rstrip p String.[] = String.[]
rstrip p (String.◌∷◌ c s) = snoc_stripped p c (rstrip p s)

unfoldable pub strip : String → String
unfolding lstrip rstrip is_space
strip s = rstrip is_space (lstrip is_space s)

-- `s.split(sep)` at a separator of one code point
push_first : Char → List String → List String
push_first c [] = String.◌∷◌ c String.[] ∷ []
push_first c (w ∷ ws) = String.◌∷◌ c w ∷ ws

unfoldable pub split : ℕ → String → List String
unfolding push_first
split sep String.[] = String.[] ∷ []
split sep (String.◌∷◌ c s) =
    let rest = split sep s in if eqb (code c) sep then String.[] ∷ rest else push_first c rest

-- `s.split()`
split_space : String → List String
unfolding push_first
split_space String.[] = String.[] ∷ []
split_space (String.◌∷◌ c s) =
    let rest = split_space s in if is_space (code c) then String.[] ∷ rest else push_first c rest

unfoldable pub fields : String → List String
unfolding split_space
fields s = filter truthy (split_space s)

-- `sep.join(xs)`
unfoldable pub join : String → List String → String
join sep [] = String.[]
join sep (s ∷ []) = s
join sep (s ∷ t ∷ ts) = s +++ sep +++ join sep (t ∷ ts)

-- `s.split(sep, 1)[0]`, and whether `sep` occurs
unfoldable pub before_first : String → String → String
unfolding starts_with
before_first sep String.[] = String.[]
before_first sep (String.◌∷◌ c s) =
    let rest = before_first sep s in
    if starts_with (String.◌∷◌ c s) sep then String.[] else String.◌∷◌ c rest

-- `str(n)`
digit : ℕ → String
digit zero = "0"
digit (suc zero) = "1"
digit (suc (suc zero)) = "2"
digit (suc (suc (suc zero))) = "3"
digit (suc (suc (suc (suc zero)))) = "4"
digit (suc (suc (suc (suc (suc zero))))) = "5"
digit (suc (suc (suc (suc (suc (suc zero)))))) = "6"
digit (suc (suc (suc (suc (suc (suc (suc zero))))))) = "7"
digit (suc (suc (suc (suc (suc (suc (suc (suc zero)))))))) = "8"
digit _ = "9"

-- one round for each digit; `n + 1` rounds are more than enough
digits : ℕ → ℕ → String
unfolding digit
digits zero n = String.[]
digits (suc fuel) n =
    let higher = digits fuel (n / 10) in (if ltb n 10 then String.[] else higher) +++ digit (n % 10)

unfoldable pub show : ℕ → String
unfolding digits
show n = digits (suc n) n
