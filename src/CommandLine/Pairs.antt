-- ===== src/CommandLine/Pairs.antt =====
-- The language pairs and levels that the command line accepts.
use Prim.Native.String.append
use translation_runtime_arch.Prelude.{
  Char, String, code, ◌≡◌, refl, sym, ap, ◌∙◌, true, false, Option, none, some, arith, eqb, ◌↔◌,
  Bool-cases, inl, inr, ◌⊎◌, eq_iff,
}
use translation_runtime_arch.Text.{◌+++◌, contains, strip, truthy, strip_prefix, starts_with}
use text.Mathlib.TextEquality.{Char-path}
use translation_runtime_arch.Regex.{Unicode}
use translation_runtime_arch.Memory.{
  ConformanceLevel, level_named, level_value, l1_basic, l2_professional, l3_strict, l4_forensic,
}
use translation_runtime_arch.CommandLine.{cut_first, cut_last, pair_of, normalize_language_pair}

cons_path : {c d : Char} {s t : String} → c ≡ d → s ≡ t → String.◌∷◌ c s ≡ String.◌∷◌ d t
cons_path {c} {d} {s} {t} p q = ap (λ x. String.◌∷◌ x s) p ∙ ap (String.◌∷◌ d) q

strip_prefix-append : (p s r : String) → strip_prefix p s ≡ some r → s ≡ p +++ r
unfolding strip_prefix
strip_prefix-append String.[] s r h = rw append.nil (ground (arith, h))
strip_prefix-append (String.◌∷◌ c p) String.[] r h = ground (arith, h)
strip_prefix-append (String.◌∷◌ c p) (String.◌∷◌ d s) r h =
    elim (Bool-cases (eqb (code c) (code d))) [
      | inl e ↦ rw append.cons (
          cons_path (sym (Char-path c d (ground (arith, e))))
            (strip_prefix-append p s r (ground (arith, h, e))))
      | inr e ↦ absurd (ground (arith, h, e))
    ]

no_separator : (sep : String) → truthy sep ≡ true → contains sep "" ≡ true → ⊥
unfolding contains starts_with strip_prefix
no_separator String.[] t h = ground (arith, t)
no_separator (String.◌∷◌ c sep) t h = ground (arith, h)

-- a cut in front of a separator, or behind the code point
cut_here :
    (o : Option String) (sep : String) (c : Char) (s a b : String)
    → ((r : String) → o ≡ some r → String.◌∷◌ c s ≡ sep +++ r)
    → (o ≡ none → s ≡ a +++ sep +++ b)
    → let p : String × String = elim o [ some rest ↦ ("", rest) | none ↦ (String.◌∷◌ c a, b) ] in
      String.◌∷◌ c s ≡ p.0 +++ sep +++ p.1
cut_here none sep c s a b f g = rw append.cons (ap (String.◌∷◌ c) (g refl))
cut_here (some r) sep c s a b f g = rw append.nil (f r refl)

-- the parts of a text around a separator that occurs in it
cut_first-parts :
    (sep s : String)
    → truthy sep ≡ true
    → contains sep s ≡ true
    → s ≡ (cut_first sep s).0 +++ sep +++ (cut_first sep s).1
unfolding cut_first contains starts_with
cut_first-parts sep String.[] t h = absurd (no_separator sep t h)
cut_first-parts sep (String.◌∷◌ c s) t h =
    cut_here (strip_prefix sep (String.◌∷◌ c s)) sep c s _ _
      (strip_prefix-append sep (String.◌∷◌ c s))
      (λ e. cut_first-parts sep s t (ground (arith, h, e)))

cut_last-parts :
    (sep s : String)
    → truthy sep ≡ true
    → contains sep s ≡ true
    → s ≡ (cut_last sep s).0 +++ sep +++ (cut_last sep s).1
unfolding cut_last contains starts_with
cut_last-parts sep String.[] t h = absurd (no_separator sep t h)
cut_last-parts sep (String.◌∷◌ c s) t h = elim (Bool-cases (contains sep s)) [
  | inl e ↦ rw e (rw append.cons (ap (String.◌∷◌ c) (cut_last-parts sep s t e)))
  | inr e ↦ rw e (
      cut_here (strip_prefix sep (String.◌∷◌ c s)) sep c s _ _
        (strip_prefix-append sep (String.◌∷◌ c s)) (λ o. absurd (ground (arith, h, e, o))))
]

level_named-some : (s : String) (l : ConformanceLevel) → level_named s ≡ some l → s ≡ level_value l
unfolding level_named
level_named-some s l1_basic h = ground (
  arith,
  h,
  eq_iff s "L1_BASIC",
  eq_iff s "L2_PROFESSIONAL",
  eq_iff s "L3_STRICT",
  eq_iff s "L4_FORENSIC",
)
level_named-some s l2_professional h = ground (
  arith,
  h,
  eq_iff s "L1_BASIC",
  eq_iff s "L2_PROFESSIONAL",
  eq_iff s "L3_STRICT",
  eq_iff s "L4_FORENSIC",
)
level_named-some s l3_strict h = ground (
  arith,
  h,
  eq_iff s "L1_BASIC",
  eq_iff s "L2_PROFESSIONAL",
  eq_iff s "L3_STRICT",
  eq_iff s "L4_FORENSIC",
)
level_named-some s l4_forensic h = ground (
  arith,
  h,
  eq_iff s "L1_BASIC",
  eq_iff s "L2_PROFESSIONAL",
  eq_iff s "L3_STRICT",
  eq_iff s "L4_FORENSIC",
)

named_value : (l : ConformanceLevel) → level_named (level_value l) ≡ some l
unfolding level_named
named_value l1_basic = refl
named_value l2_professional = refl
named_value l3_strict = refl
named_value l4_forensic = refl

-- A text names a conformance level exactly if it is the level's value.
pub level_named-value :
    (s : String) (l : ConformanceLevel) → (level_named s ≡ some l) ↔ (s ≡ level_value l)
level_named-value s l = (level_named-some s l, λ e. ap level_named e ∙ named_value l)

-- how a pair is read: around which separator, and with what result
abbrev pub IsRead : Unicode → String → String → String → Type 0
IsRead u v sep p =
    (a : String) × (b : String) × (v ≡ a +++ sep +++ b)
    × (truthy (strip a) ≡ true)
    × (truthy (strip b) ≡ true)
    × (p ≡ u.upper (strip a) +++ " -> " +++ u.upper (strip b))

read :
    (u : Unicode) (v sep p : String) (c : String × String)
    → v ≡ c.0 +++ sep +++ c.1
    → pair_of u c ≡ some p
    → IsRead u v sep p
unfolding pair_of
read u v sep p (a, b) e h = (a, b, e, ground (arith, h), ground (arith, h), ground (arith, h))

-- A language pair that is accepted has, without the white space around it, an arrow or else a hyphen
-- between two sides that are not blank, and its canonical form has the upper-case forms of the two
-- sides, without white space around them, around an arrow.
pub normalize_language_pair-IsRead :
    (u : Unicode) (value p : String)
    → normalize_language_pair u value ≡ some p
    → IsRead u (strip value) "->" p
      ⊎ ((contains "->" (strip value) ≡ false) × IsRead u (strip value) "-" p)
unfolding normalize_language_pair
normalize_language_pair-IsRead u value p h = elim (Bool-cases (contains "->" (strip value))) [
  | inl e ↦
      inl (read u _ "->" p _ (cut_first-parts "->" (strip value) refl e) (ground (arith, h, e)))
  | inr e ↦ inr (
    e,
    read u _ "-" p _ (cut_last-parts "-" (strip value) refl (ground (arith, h, e)))
        (ground (arith, h, e)),
  )
]
