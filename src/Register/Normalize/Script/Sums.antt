-- ===== src/Register/Normalize/Script/Sums.antt =====
-- What is normalized stays so, and what the numbers of a summary add up to.
use mathlib.Core.Option.{some-injective}
use translation_runtime_arch.Prelude.{
  sym, subst, suc, ◌+◌, String, ◌≡◌, refl, ap, ◌∙◌, true, Option, none, some, List, [], ◌∷◌, map,
  length, arith, eq_iff, elem, inl, inr, All,
}
use translation_runtime_arch.Regex.{Unicode}
use translation_runtime_arch.Dict.{get}
use translation_runtime_arch.Reporting.Audit.{occurrences}
use translation_runtime_arch.Register.{Summary}
use translation_runtime_arch.Register.Classify.Totals.{
  number, number-counted_all, severity_total, IsSeverity, IsType, one_severity,
}
use translation_runtime_arch.Register.Normalize.{Entry}
use translation_runtime_arch.Register.Normalize.Stable.{KeepsWords, IsNormal, normalize-IsNormal}
use translation_runtime_arch.Register.Normalize.Script.{
  cons_option, normalize_all, column, no_severities, type_of, summary_of,
}

pub cons_option-some :
    {A : Type 0} (o : Option A) (q : Option (List A)) (ys : List A)
    → cons_option o q ≡ some ys
    → (x : A) × (xs : List A) × (o ≡ some x) × (q ≡ some xs) × (x ∷ xs ≡ ys)
unfolding cons_option
cons_option-some none q ys h = absurd (ground (arith, h))
cons_option-some (some x) none ys h = absurd (ground (arith, h))
cons_option-some (some x) (some xs) ys h = (x, xs, refl, refl, ground (arith, h))

-- a register whose entries are all normal, and which the script leaves as it is
abbrev pub IsStable : Unicode → List Entry → Type 0
IsStable u es = All IsNormal es × (normalize_all u es ≡ some es)

pub normalize_all-IsStable :
    (u : Unicode) (k : KeepsWords u) (es gs : List Entry)
    → normalize_all u es ≡ some gs
    → IsStable u gs × (length gs ≡ length es)
unfolding normalize_all cons_option
normalize_all-IsStable u k [] gs h =
    subst (λ x. IsStable u x × (length x ≡ 0)) (some-injective [] _ h) ((tt, refl), refl)
normalize_all-IsStable u k (e ∷ es) gs h =
    let (g, rest, one, more, joined) = cons_option-some _ _ gs h in
    let (normal, again) = normalize-IsNormal u k e g one in
    let ((normals, all_again), same) = normalize_all-IsStable u k es rest more in
    subst (λ x. IsStable u x × (length x ≡ suc (length es))) joined
      (((normal, normals), rw (again, all_again, normalize_all, cons_option) refl), ap suc same)

severities_add_up :
    (xs : List String)
    → All IsSeverity xs
    → occurrences "BLOCKING" xs + occurrences "WARNING" xs + occurrences "INFO" xs ≡ length xs
unfolding occurrences
severities_add_up [] a = refl
severities_add_up (x ∷ xs) a = one_severity x xs a.0 ∙ ap suc (severities_add_up xs a.1)

types_add_up :
    (xs : List String)
    → All IsType xs
    → occurrences "issue" xs + occurrences "positive_verification" xs ≡ length xs
unfolding occurrences
types_add_up [] a = refl
types_add_up (x ∷ xs) (inl e, a) = let ih = types_add_up xs a in rw e (omega arith)
types_add_up (x ∷ xs) (inr e, a) = let ih = types_add_up xs a in rw e (omega arith)

IsSeverity-elem : (s : String) → elem s ("BLOCKING" ∷ "WARNING" ∷ "INFO" ∷ []) ≡ true → IsSeverity s
unfolding elem
IsSeverity-elem s h = ground (arith, h, eq_iff "BLOCKING" s, eq_iff "WARNING" s, eq_iff "INFO" s)

IsType-elem : (s : String) → elem s ("issue" ∷ "positive_verification" ∷ []) ≡ true → IsType s
unfolding elem
IsType-elem s h = ground (arith, h, eq_iff "issue" s, eq_iff "positive_verification" s)

column-IsSeverity :
    (es : List Entry) (sevs : List String)
    → All IsNormal es
    → column (λ e. e.severity) es ≡ some sevs
    → All IsSeverity sevs × (length sevs ≡ length es)
unfolding column cons_option
column-IsSeverity [] sevs a h =
    subst (λ x. All IsSeverity x × (length x ≡ 0)) (some-injective [] _ h) (tt, refl)
column-IsSeverity (e ∷ es) sevs ((sev, ftype, es_, v, et, w), a) h =
    let (s, rest, one, more, joined) = cons_option-some _ _ sevs h in
    let (valid, same) = column-IsSeverity es rest a more in
    let here = subst IsSeverity (some-injective sev s (sym es_ ∙ one)) (IsSeverity-elem sev v) in
    subst (λ x. All IsSeverity x × (length x ≡ suc (length es))) joined ((here, valid), ap suc same)

types-IsType : (es : List Entry) → All IsNormal es → All IsType (map type_of es)
unfolding type_of
types-IsType [] a = tt
types-IsType (e ∷ es) ((sev, ftype, es_, v, et, w), a) =
    (rw et (IsType-elem ftype w), types-IsType es a)

length-types : (es : List Entry) → length (map type_of es) ≡ length es
length-types [] = refl
length-types (e ∷ es) = ap suc (length-types es)

-- the three severities of a summary add up to its total, and so do the two types
abbrev pub AddsUp : Summary → Type 0
AddsUp s =
    (severity_total s.by_severity ≡ s.total)
    × (number "issue" s.by_type + number "positive_verification" s.by_type ≡ s.total)

pub summary_of-AddsUp :
    (es : List Entry) (sevs tracks categories : List String)
    → All IsNormal es
    → column (λ e. e.severity) es ≡ some sevs
    → AddsUp (summary_of es sevs tracks categories)
unfolding summary_of number get no_severities
summary_of-AddsUp es sevs tracks categories a h =
    let (valid, same) = column-IsSeverity es sevs a h in
    (
      omega (
        arith,
        number-counted_all "BLOCKING" sevs no_severities,
        number-counted_all "WARNING" sevs no_severities,
        number-counted_all "INFO" sevs no_severities,
        severities_add_up sevs valid,
        same,
      ),
      omega (
        arith,
        number-counted_all "issue" (map type_of es) [],
        number-counted_all "positive_verification" (map type_of es) [],
        types_add_up _ (types-IsType es a),
        length-types es,
      ),
    )
