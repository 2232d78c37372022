-- ===== src/Register/Normalize/Stable.antt =====
-- What a normalized entry is like.
use translation_runtime_arch.Prelude.{
  String, ◌≡◌, refl, ap, true, Option, none, some, List, eq_iff, elem, arith, Bool-cases, inl, inr,
  subst,
}
use translation_runtime_arch.Text.{strip}
use translation_runtime_arch.Regex.{Unicode}
use translation_runtime_arch.Register.Normalize.{
  Entry, valid_severities, valid_types, severity_token, type_token, chosen, canonical, completed,
  completed_with, normalize,
}

-- the Unicode database leaves the valid words alone
pub record KeepsWords (u : Unicode) : Type 0 where
  pub blocking : u.upper "BLOCKING" ≡ "BLOCKING"
  pub warning : u.upper "WARNING" ≡ "WARNING"
  pub info : u.upper "INFO" ≡ "INFO"
  pub issue : u.lower "issue" ≡ "issue"
  pub positive : u.lower "positive_verification" ≡ "positive_verification"

-- an entry with a valid severity and a valid type
abbrev pub IsNormal : Entry → Type 0
IsNormal e =
    (sev : String) × (ftype : String) × (e.severity ≡ some sev)
    × (elem sev valid_severities ≡ true)
    × (e.finding_type ≡ some ftype)
    × (elem ftype valid_types ≡ true)

chosen-valid :
    (valid : List String) (default s : String) (token : Option String) (r : String × Option String)
    → elem default valid ≡ true
    → chosen valid default s token ≡ some r
    → elem r.0 valid ≡ true
unfolding chosen
chosen-valid valid default s none r d h = ground (arith, h)
chosen-valid valid default s (some t) r d h = ground (arith, h)

canonical-valid :
    (valid : List String) (default : String) (token : String → Option String) (s : String)
    (r : String × Option String)
    → elem default valid ≡ true
    → canonical valid default token s ≡ some r
    → elem r.0 valid ≡ true
unfolding canonical
canonical-valid valid default token s r d h = elim (Bool-cases (elem s valid)) [
  | inl e ↦ ground (arith, h, e)
  | inr e ↦ chosen-valid valid default s (token s) r d (ground (arith, h, e))
]

severity_stays :
    (u : Unicode) (s : String)
    → KeepsWords u
    → elem s valid_severities ≡ true
    → strip (u.upper s) ≡ s
unfolding elem strip
severity_stays u s k h = ground (
  arith,
  h,
  eq_iff "BLOCKING" s,
  eq_iff "WARNING" s,
  eq_iff "INFO" s,
  ap strip k.blocking,
  ap strip k.warning,
  ap strip k.info,
)

type_stays :
    (u : Unicode) (s : String) → KeepsWords u → elem s valid_types ≡ true → strip (u.lower s) ≡ s
unfolding elem strip
type_stays u s k h = ground (
  arith,
  h,
  eq_iff "issue" s,
  eq_iff "positive_verification" s,
  ap strip k.issue,
  ap strip k.positive,
)

canonical_same :
    (valid : List String) (default : String) (token : String → Option String) (s : String)
    → elem s valid ≡ true
    → canonical valid default token s ≡ some (s, none)
unfolding canonical
canonical_same valid default token s h = rw (h, canonical) refl

abbrev pub Choice : Type 0
Choice = String × Option String

pub completed-some :
    (e e' : Entry) (o q : Option Choice)
    → completed e o q ≡ some e'
    → (r : Choice) × (s : Choice) × (o ≡ some r) × (q ≡ some s) × (completed_with e r s ≡ e')
unfolding completed
completed-some e e' none none h = absurd (ground (arith, h))
completed-some e e' none (some s) h = absurd (ground (arith, h))
completed-some e e' (some r) none h = absurd (ground (arith, h))
completed-some e e' (some r) (some s) h = (r, s, refl, refl, ground (arith, h))

-- an entry that is completed stays as it is when it is completed with its own severity and type
completed_again :
    (e : Entry) (r s : Choice)
    → completed_with (completed_with e r s) (r.0, none) (s.0, none) ≡ completed_with e r s
unfolding completed_with
completed_again e r s = refl

module _ (u : Unicode) (k : KeepsWords u) where
  normalize_again :
      (e : Entry) (r s : Choice)
      → elem r.0 valid_severities ≡ true
      → elem s.0 valid_types ≡ true
      → normalize u (completed_with e r s) ≡ some (completed_with e r s)
  unfolding normalize completed completed_with
  normalize_again e r s h i =
      rw
        (
          severity_stays u r.0 k h,
          type_stays u s.0 k i,
          canonical_same valid_severities "INFO" severity_token r.0 h,
          canonical_same valid_types "issue" type_token s.0 i,
          normalize,
        )
        (ap some (completed_again e r s))

  -- An entry that is normalized has a valid severity and a valid type, and normalizing it again, as
  -- when the script is run a second time, changes nothing, if the Unicode database leaves the five
  -- valid words alone.
  pub normalize-IsNormal :
      (e e' : Entry) → normalize u e ≡ some e' → IsNormal e' × (normalize u e' ≡ some e')
  unfolding normalize elem completed_with
  normalize-IsNormal e e' h =
      let (r, s, er, es, c) = completed-some e e' _ _ h in
      let v = canonical-valid valid_severities "INFO" severity_token _ r refl er in
      let w = canonical-valid valid_types "issue" type_token _ s refl es in
      subst (λ x. IsNormal x × (normalize u x ≡ some x)) c
        ((r.0, s.0, refl, v, refl, w), normalize_again e r s v w)
