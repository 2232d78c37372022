-- ===== src/Register/Classify/Totals.antt =====
-- What the numbers of a rebuilt summary add up to.
use translation_runtime_arch.Prelude.{
  suc, ℕ, ◌+◌, String, ◌≡◌, refl, ap, ◌∙◌, Bool, true, false, List, [], ◌∷◌, map, filter, length,
  ◌==◌, eq_iff, arith, Bool-cases, inl, inr, ◌⊎◌, if◌then◌else◌, from_option, All,
}
use translation_runtime_arch.Dict.{Dict, get, get-put}
use translation_runtime_arch.Regex.{Unicode}
use translation_runtime_arch.Reporting.Audit.{occurrences}
use translation_runtime_arch.Register.{starts_with, Finding, counted, counted_all}
use translation_runtime_arch.Register.Classify.{
  strip, normalize_severity, categorize_finding, classified, counter, is_issue, statistics, rebuilt,
}

-- the number under a key, and 0 without one
abbrev pub number : String → Dict ℕ → ℕ
number k d = from_option 0 (get k d)

number-counted :
    (k j : String) (d : Dict ℕ)
    → number k (counted j d) ≡ (if j == k then number k d + 1 else number k d)
unfolding counted
number-counted k j d = ground (arith, get-put j k (from_option 0 (get j d) + 1) d, eq_iff j k)

pub number-counted_all :
    (k : String) (xs : List String) (d : Dict ℕ)
    → number k (counted_all xs d) ≡ number k d + occurrences k xs
unfolding counted_all occurrences
number-counted_all k [] d = omega arith
number-counted_all k (x ∷ xs) d =
    ground (arith, number-counted_all k xs (counted x d), number-counted k x d)

number-counter : (k : String) (xs : List String) → number k (counter xs) ≡ occurrences k xs
unfolding counter get
number-counter k xs = number-counted_all k xs [] ∙ omega arith

-- one of the three severities, and one of the two types
abbrev pub IsSeverity : String → Type 0
IsSeverity s = (s ≡ "BLOCKING") ⊎ (s ≡ "WARNING") ⊎ (s ≡ "INFO")

abbrev pub IsType : String → Type 0
IsType s = (s ≡ "issue") ⊎ (s ≡ "positive_verification")

abbrev IsClassified : Finding → Type 0
IsClassified f = IsSeverity f.severity × IsType f.finding_type

normalize_severity-IsSeverity : (u : Unicode) (s : String) → IsSeverity (normalize_severity u s)
unfolding normalize_severity
normalize_severity-IsSeverity u s = elim (Bool-cases (starts_with (u.upper (strip s)) "BLOCKING")) [
  | inl e ↦ rw (e, normalize_severity) (inl refl)
  | inr e ↦ elim (Bool-cases (starts_with (u.upper (strip s)) "WARNING")) [
    | inl w ↦ rw (e, w, normalize_severity) (inr (inl refl))
    | inr w ↦ rw (e, w, normalize_severity) (inr (inr refl))
  ]
]

if_IsType : (b : Bool) → IsType (if b then "positive_verification" else "issue")
if_IsType true = inr refl
if_IsType false = inl refl

categorize_finding-IsType : (u : Unicode) (f : Finding) → IsType (categorize_finding u f)
unfolding categorize_finding
categorize_finding-IsType u f = if_IsType _

classified-IsClassified : (u : Unicode) (f : Finding) → IsClassified (classified u f)
unfolding classified
classified-IsClassified u f =
    (normalize_severity-IsSeverity u f.severity, categorize_finding-IsType u _)

all_classified : (u : Unicode) (fs : List Finding) → All IsClassified (map (classified u) fs)
all_classified u [] = tt
all_classified u (f ∷ fs) = (classified-IsClassified u f, all_classified u fs)

filter-IsClassified :
    (fs : List Finding) → All IsClassified fs → All IsClassified (filter is_issue fs)
unfolding filter
filter-IsClassified [] a = tt
filter-IsClassified (f ∷ fs) a = elim (Bool-cases (is_issue f)) [
  | inl e ↦ rw (e, filter) (a.0, filter-IsClassified fs a.1)
  | inr e ↦ rw (e, filter) (filter-IsClassified fs a.1)
]

severities : List Finding → List String
severities fs = map (λ f. f.severity) fs

types : List Finding → List String
types fs = map (λ f. f.finding_type) fs

pub one_severity :
    (s : String) (xs : List String)
    → IsSeverity s
    → occurrences "BLOCKING" (s ∷ xs) + occurrences "WARNING" (s ∷ xs) + occurrences "INFO" (s ∷ xs)
      ≡ suc (occurrences "BLOCKING" xs + occurrences "WARNING" xs + occurrences "INFO" xs)
unfolding occurrences
one_severity s xs (inl e) = rw e (omega arith)
one_severity s xs (inr (inl e)) = rw e (omega arith)
one_severity s xs (inr (inr e)) = rw e (omega arith)

severities_sum :
    (fs : List Finding)
    → All IsClassified fs
    → occurrences "BLOCKING" (severities fs)
        + occurrences "WARNING" (severities fs)
        + occurrences "INFO" (severities fs)
      ≡ length fs
unfolding severities occurrences
severities_sum [] a = refl
severities_sum (f ∷ fs) a =
    one_severity f.severity (severities fs) a.0.0 ∙ ap suc (severities_sum fs a.1)

types_sum :
    (fs : List Finding)
    → All IsClassified fs
    → (occurrences "issue" (types fs) ≡ length (filter is_issue fs))
      × (occurrences "issue" (types fs) + occurrences "positive_verification" (types fs)
          ≡ length fs)
unfolding types occurrences filter is_issue
types_sum [] a = (refl, refl)
types_sum (f ∷ fs) a =
    let ih = types_sum fs a.1 in
    elim a.0.1 [
      | inl e ↦ ground (
        arith,
        e,
        ih,
        eq_iff f.finding_type "issue",
        eq_iff f.finding_type "positive_verification",
        eq_iff "issue" "positive_verification",
      )
      | inr e ↦ ground (
        arith,
        e,
        ih,
        eq_iff f.finding_type "issue",
        eq_iff f.finding_type "positive_verification",
        eq_iff "positive_verification" "issue",
      )
    ]

length-map : {A B : Type 0} (f : A → B) (xs : List A) → length (map f xs) ≡ length xs
length-map f [] = refl
length-map f (x ∷ xs) = ap suc (length-map f xs)

-- the three severities of a counter
abbrev pub severity_total : Dict ℕ → ℕ
severity_total d = number "BLOCKING" d + number "WARNING" d + number "INFO" d

counter-severities :
    (fs : List Finding) → All IsClassified fs → severity_total (counter (severities fs)) ≡ length fs
counter-severities fs a = omega (
  arith,
  number-counter "BLOCKING" (severities fs),
  number-counter "WARNING" (severities fs),
  number-counter "INFO" (severities fs),
  severities_sum fs a,
)

counter-types :
    (fs : List Finding)
    → All IsClassified fs
    → (number "issue" (counter (types fs)) + number "positive_verification" (counter (types fs))
        ≡ length fs)
      × (number "issue" (counter (types fs)) ≡ length (filter is_issue fs))
counter-types fs a =
    let t = types_sum fs a in
    let i = number-counter "issue" (types fs) in
    let p = number-counter "positive_verification" (types fs) in
    (omega (arith, i, p, t.1), omega (arith, i, t.0))

-- In a rebuilt summary the three severities add up to all findings, and so do the issues and the
-- positive verifications; the severities of the issues add up to the number of issues, which is the
-- one that is counted under their type; and no finding is left out.
pub rebuilt_sums :
    (u : Unicode) (fs : List Finding)
    → let s = rebuilt u fs in
      (s.total_findings ≡ length fs)
      × (severity_total s.by_severity_all ≡ s.total_findings)
      × (number "issue" s.by_finding_type + number "positive_verification" s.by_finding_type
          ≡ s.total_findings)
      × (number "issue" s.by_finding_type ≡ s.issue_count)
      × (severity_total s.issues_by_severity ≡ s.issue_count)
unfolding rebuilt statistics severities types
rebuilt_sums u fs =
    let gs = map (classified u) fs in
    let a = all_classified u fs in
    let t = counter-types gs a in
    (
      length-map (classified u) fs,
      counter-severities gs a,
      t.0,
      t.1,
      counter-severities (filter is_issue gs) (filter-IsClassified gs a),
    )
