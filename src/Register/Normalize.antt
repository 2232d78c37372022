-- ===== src/Register/Normalize.antt =====
-- tra-audit-skills/round7/scripts/normalize_r7_register.py: `normalize`, on an entry of the register,
-- whose fields other than the id may be missing. What it prints of unknown values is left out.
pub mod Stable
pub mod Script
use translation_runtime_arch.Prelude.{
  String, Option, none, some, List, [], ◌∷◌, elem, eqb, if◌then◌else◌, from_option,
}
use translation_runtime_arch.Text.{strip, lstrip, rstrip, before_first, fields}
use translation_runtime_arch.Regex.{Unicode}

pub record Entry : Type 0 where
  pub id : String
  pub track : Option String
  pub severity : Option String
  pub finding_type : Option String
  pub category : Option String
  pub evidence : Option String
  pub detail : Option String
  pub suggested_fix : Option String
  pub round6_status : Option String
  pub root_id : Option String
  pub source_findings : Option (List String)
  pub round6_status_detail : Option String
  pub finding_type_detail : Option String

abbrev pub valid_severities : List String
valid_severities = "BLOCKING" ∷ "WARNING" ∷ "INFO" ∷ []

abbrev pub valid_types : List String
valid_types = "issue" ∷ "positive_verification" ∷ []

-- `s.split()[0]`, where `none` is an `IndexError`
first_field : List String → Option String
first_field [] = none
first_field (w ∷ ws) = some w

-- the token that a severity begins with
unfoldable pub severity_token : String → Option String
unfolding first_field
severity_token sev = elim (first_field (fields sev)) [
  | none ↦ none
  | some w ↦ some (strip (rstrip (λ c. eqb c b'(') (lstrip (λ c. eqb c b'(') (before_first "→" w))))
]

unfoldable pub type_token : String → Option String
unfolding first_field
type_token ftype = elim (first_field (fields ftype)) [
  | none ↦ none
  | some w ↦ some (strip (before_first "(" w))
]

-- The value that an entry is given, and the one that is kept as a detail: a valid one, else its token
-- if that is valid, else the default.
chosen : List String → String → String → Option String → Option (String × Option String)
chosen valid default s none = none
chosen valid default s (some token) =
    if elem token valid then some (token, some s) else some (default, none)

unfoldable pub canonical :
    List String → String → (String → Option String) → String → Option (String × Option String)
unfolding chosen
canonical valid default token s =
    if elem s valid then some (s, none) else chosen valid default s (token s)

-- `f[key] = …` only if the detail is new
kept : Option String → Option String → Option String
kept none old = old
kept (some s) old = some s

-- `f.setdefault(key, default)`
with_default {ℓ} : {A : Type ℓ} → A → Option A → Option A
with_default d o = some (from_option d o)

-- the entry with its severity and its type
unfoldable pub completed_with : Entry → String × Option String → String × Option String → Entry
unfolding kept with_default
completed_with e (sev, sev_detail) (ftype, type_detail) = record e {
  severity = some sev;
  finding_type = some ftype;
  category = with_default "Uncategorized" e.category;
  evidence = with_default "" e.evidence;
  detail = with_default "" e.detail;
  suggested_fix = with_default "" e.suggested_fix;
  round6_status = with_default "" e.round6_status;
  root_id = with_default e.id e.root_id;
  source_findings = with_default (e.id ∷ []) e.source_findings;
  round6_status_detail = kept sev_detail e.round6_status_detail;
  finding_type_detail = kept type_detail e.finding_type_detail;
}

pub completed :
    Entry → Option (String × Option String) → Option (String × Option String) → Option Entry
completed e (some sev) (some ftype) = some (completed_with e sev ftype)
completed e _ _ = none

-- `normalize`; `none` is the `IndexError` of a severity or a type that is blank
unfoldable pub normalize : Unicode → Entry → Option Entry
unfolding completed
normalize u e =
    completed e
      (canonical valid_severities "INFO" severity_token
        (strip (u.upper (from_option "INFO" e.severity))))
      (canonical valid_types "issue" type_token
        (strip (u.lower (from_option "issue" e.finding_type))))
