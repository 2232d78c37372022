-- ===== src/Recovery.antt =====
-- recovery.py: each exception's recovery procedure. The list of ambiguities that a procedure
-- extends in place goes in and comes back.
pub mod Route
use translation_runtime_arch.Prelude.{
  String, Bool, true, false, Option, none, some, List, [], ◌∷◌, ◌++◌, elem, if◌then◌else◌,
}
use translation_runtime_arch.Text.{◌+++◌, truthy, or_else}
use translation_runtime_arch.Exceptions.{
  TraException, tra_error, unknown_term, broken_markdown, certainty_conflict, entity_ambiguity,
  glossary_conflict, unrecoverable, conformance_failure, to_text,
}
use translation_runtime_arch.Memory.{Severity, blocking, warning}

pub data RecoveryAction : Type 0 where
  preserve_source use_first_occurrence treat_as_entity prioritize_epistemic halt : RecoveryAction

abbrev pub action_value : RecoveryAction → String
action_value preserve_source = "PRESERVE_SOURCE"
action_value use_first_occurrence = "USE_FIRST_OCCURRENCE"
action_value treat_as_entity = "TREAT_AS_ENTITY"
action_value prioritize_epistemic = "PRIORITIZE_EPISTEMIC"
action_value halt = "HALT"

pub record RecoveryReport : Type 0 where
  pub code : String
  pub severity : Severity
  pub action : RecoveryAction
  pub detail : String
  pub source_term : Option String
  pub added_to_ambiguities : Bool

-- the note of `_emit`, appended unless it is there
unfoldable pub note : String → String → String → String
note code term detail = code +++ ": " +++ term +++ " — " +++ detail

unfoldable pub add_once : String → List String → List String
add_once n ambiguities = if elem n ambiguities then ambiguities else ambiguities ++ n ∷ []

noted : Bool → String → Option String → String → List String → List String
unfolding note add_once
noted true code (some term) detail ambiguities =
    if truthy term then add_once (note code term detail) ambiguities else ambiguities
noted _ code _ detail ambiguities = ambiguities

unfoldable pub emit :
    List String
    → String
    → Severity
    → RecoveryAction
    → String
    → Option String
    → Bool
    → RecoveryReport × List String
unfolding noted
emit ambiguities code severity action detail source_term add = (
  record {
    code = code;
    severity = severity;
    action = action;
    detail = detail;
    source_term = source_term;
    added_to_ambiguities = add;
  },
  noted add code source_term detail ambiguities,
)

unfoldable pub recover_unknown_term : String → List String → RecoveryReport × List String
recover_unknown_term term ambiguities =
    emit ambiguities "UNKNOWN_TERM" warning preserve_source
      "Term not in glossary or domain module; source preserved." (some term) true

unfoldable pub recover_broken_markdown : String → Bool → RecoveryReport
recover_broken_markdown detail critical_hierarchy_lost = record {
  code = "BROKEN_MARKDOWN";
  severity = blocking;
  action = if critical_hierarchy_lost then halt else preserve_source;
  detail =
      if critical_hierarchy_lost
      then "Critical hierarchy lost; halting."
      else "Best-effort preservation. " +++ detail;
  source_term = none;
  added_to_ambiguities = false;
}

unfoldable pub recover_certainty_conflict : String → List String → RecoveryReport × List String
recover_certainty_conflict term ambiguities =
    emit ambiguities "CERTAINTY_CONFLICT" warning prioritize_epistemic
      "Source hedging preserved; Epistemic Fidelity (Priority 5) wins." (some term) true

unfoldable pub recover_entity_ambiguity : String → List String → RecoveryReport × List String
recover_entity_ambiguity token ambiguities =
    emit ambiguities "ENTITY_AMBIGUITY" warning treat_as_entity
      "Treated as Entity (immutable) to prevent accidental translation." (some token) true

unfoldable pub recover_glossary_conflict :
    String → String → List String → RecoveryReport × List String
recover_glossary_conflict term canonical_target ambiguities =
    emit ambiguities "GLOSSARY_CONFLICT" blocking use_first_occurrence
      ("First occurrence canonical (" +++ canonical_target +++ "); rest flagged for review.")
      (some term) true

unrecoverable_detail : String
unrecoverable_detail =
    "Unrecoverable: repair cannot proceed without violating a higher-priority policy."

-- `canonical_target` is "" where the caller gives none, which `or` treats alike
unfoldable pub route_exception :
    TraException → List String → Bool → String → RecoveryReport × List String
unfolding recover_unknown_term recover_broken_markdown recover_certainty_conflict
    recover_entity_ambiguity recover_glossary_conflict unrecoverable_detail
route_exception (unknown_term m term) a lost target = recover_unknown_term term a
route_exception (broken_markdown m detail) a lost target = (recover_broken_markdown detail lost, a)
route_exception (certainty_conflict m term) a lost target = recover_certainty_conflict term a
route_exception (entity_ambiguity m token) a lost target = recover_entity_ambiguity token a
route_exception (glossary_conflict m term canonical) a lost target =
    recover_glossary_conflict term (or_else target canonical) a
route_exception (unrecoverable m) a lost target = (
  record {
    code = "UNRECOVERABLE";
    severity = blocking;
    action = halt;
    detail = or_else (to_text (unrecoverable m)) unrecoverable_detail;
    source_term = none;
    added_to_ambiguities = false;
  },
  a,
)
route_exception (tra_error m) a lost target =
    emit a "TRA_ERROR" warning preserve_source (to_text (tra_error m)) none false
route_exception (conformance_failure m n) a lost target =
    emit a "CONFORMANCE_FAILURE" warning preserve_source (to_text (conformance_failure m n)) none
      false
