-- ===== src/Text/Parts.antt =====
-- Texts cut at a separator.
use Prim.Native.String.append
use translation_runtime_arch.Prelude.{
  suc, Char, code, String, ◌≡◌, ap, true, false, ◌||◌, arith, if◌then◌else◌, eqb, Bool-cases, ◌||◌,
  inl, inr,
}
use translation_runtime_arch.Text.{
  starts_with, strip_prefix, ◌+++◌, contains, before_first, drop_text, len,
}
use text.Mathlib.TextEquality.{Char-path}

-- a separator of one code point
module _ (d : Char) where
  abbrev pub mark : String
  mark = String.◌∷◌ d String.[]

  pub contains-cons :
      (c : Char) (s : String)
      → contains mark (String.◌∷◌ c s) ≡ (eqb (code d) (code c) || contains mark s)
  unfolding contains starts_with strip_prefix
  contains-cons c s = ground arith

  pub contains_at : (a b : String) → contains mark (a +++ mark +++ b) ≡ true
  contains_at String.[] b = rw (append.nil, append.cons, append.nil, contains-cons) (ground arith)
  contains_at (String.◌∷◌ c a) b = rw (append.cons, contains-cons) (ground (arith, contains_at a b))

before_first-cons :
    (c : Char) (s : String)
    → before_first ":" (String.◌∷◌ c s)
      ≡ (if eqb b':' (code c) then "" else String.◌∷◌ c (before_first ":" s))
unfolding before_first
before_first-cons c s = ground arith

colon_char : (c : Char) → eqb b':' (code c) ≡ true → c ≡ ":"
colon_char c h = Char-path c ":" (ground arith)

module _ (b : String) where
  pub contains_colon : (a : String) → contains ":" (a +++ ":" +++ b) ≡ true
  contains_colon a = contains_at ":" a b

  pub before_first_colon :
      (a : String) → contains ":" a ≡ false → before_first ":" (a +++ ":" +++ b) ≡ a
  before_first_colon String.[] h =
      rw (append.nil (":" +++ b), append.cons, before_first-cons) (ground arith)
  before_first_colon (String.◌∷◌ c a) h =
      rw (append.cons, before_first-cons)
        (ground (arith, contains-cons ":" c a, before_first_colon a))

  pub drop_text_colon : (a : String) → drop_text (suc (len a)) (a +++ ":" +++ b) ≡ b
  unfolding drop_text len
  drop_text_colon String.[] = rw (append.nil (":" +++ b), append.cons, append.nil)
  drop_text_colon (String.◌∷◌ c a) = rw append.cons (drop_text_colon a)

-- a text with a colon is what stands before the first one, the colon, and the rest
pub cut_at_colon :
    (s : String)
    → contains ":" s ≡ true
    → s ≡ before_first ":" s +++ ":" +++ drop_text (suc (len (before_first ":" s))) s
unfolding drop_text len
cut_at_colon String.[] h = absurd (unfold contains in ground arith)
cut_at_colon (String.◌∷◌ c s) h = elim (Bool-cases (eqb b':' (code c))) [
  | inl e ↦
      rw (before_first-cons c s) (
        rw e (rw (append.nil, append.cons, append.nil) (ap (λ d. String.◌∷◌ d s) (colon_char c e))))
  | inr e ↦ rw (before_first-cons c s) (
      rw e (
        rw append.cons
          (ap (String.◌∷◌ c) (cut_at_colon s (ground (arith, contains-cons ":" c s))))))
]
