-- ===== src/Isa/Verify.antt =====
-- VERIFY_OUTPUT of isa.py.
pub mod Patterns
use translation_runtime_arch.Prelude.{
  ℕ, String, Option, none, some, List, [], ◌∷◌, ◌++◌, map, length, eqb, elem, filter, not,
  if◌then◌else◌, is_empty,
}
use translation_runtime_arch.Text.{◌+++◌, contains, show}
use translation_runtime_arch.Text.Repr.{repr}
use translation_runtime_arch.Text.Order.{sorted}
use translation_runtime_arch.Regex.{Unicode, Regex, find_all, Match}
use translation_runtime_arch.Memory.{
  Severity, warning, severity_value, factual_integrity, structural_integrity, entity_preservation,
  terminological_consistency, epistemic_fidelity, GlossaryEntry, GlossaryStatus, canonical,
  context_sensitive, Entity, ForbiddenMapping,
}
use translation_runtime_arch.Diagnostics.{Diagnostic}
use translation_runtime_arch.Vm.{Host, Context, Vm, log, active_module}
use translation_runtime_arch.Vm.Exec.{Exec, ok}
use translation_runtime_arch.Isa.Common.{hash, arbitrated, forbidden_mappings}
use Patterns.{
  heading_re, table_row_re, list_item_re, blockquote_re, hr_re, code_fence_re, version_re, date_re,
}

-- `len(r.findall(s))`
count : Unicode → Regex → String → ℕ
count u r s = length (find_all u r s)

-- one of the six structural comparisons
compare_counts : Unicode → Regex → String → String → String → String → List Diagnostic
unfolding count
compare_counts u r issue action source target =
    let src = count u r source in
    let tgt = count u r target in
    if eqb src tgt
    then []
    else record {
      severity = arbitrated structural_integrity;
      subsystem = "structural";
      issue = issue;
      evidence = "source=" +++ show src +++ " target=" +++ show tgt;
      action = action;
      segment_index = none;
    }
      ∷ []

unfoldable pub structural_diagnostics : Unicode → String → String → List Diagnostic
unfolding compare_counts
structural_diagnostics u target source =
    compare_counts u heading_re "Heading count mismatch after translation"
      "Restore heading hierarchy" source target
    ++ compare_counts u table_row_re "Table row count mismatch after translation"
        "Restore table rows" source target
    ++ compare_counts u (list_item_re u) "List item count mismatch after translation"
        "Restore list items" source target
    ++ compare_counts u blockquote_re "Blockquote line count mismatch after translation"
        "Restore blockquote lines" source target
    ++ compare_counts u hr_re "Horizontal rule count mismatch after translation"
        "Restore horizontal rules" source target
    ++ compare_counts u code_fence_re "Code fence count mismatch after translation"
        "Restore code fences" source target

-- `set(r.findall(s))`
tokens_from : List String → List Match → List String
tokens_from seen [] = seen
tokens_from seen (m ∷ ms) = tokens_from (if elem m.text seen then seen else m.text ∷ seen) ms

tokens : Unicode → Regex → String → List String
unfolding tokens_from
tokens u r s = tokens_from [] (find_all u r s)

-- `sorted(src_tokens - tgt_tokens)`
unfoldable pub missing_tokens : Unicode → Regex → String → String → List String
unfolding tokens sorted filter
missing_tokens u r target source =
    let tgt = tokens u r target in sorted (filter (λ t. not (elem t tgt)) (tokens u r source))

drift : String → String → String → Diagnostic
drift label capitalized token = record {
  severity = arbitrated factual_integrity;
  subsystem = "factual";
  issue = capitalized +++ " drift after translation";
  evidence = "source=" +++ token +++ " target=<missing>";
  action = "Restore " +++ label +++ " " +++ token +++ " verbatim";
  segment_index = none;
}

unfoldable pub factual_diagnostics : Unicode → String → String → List Diagnostic
unfolding drift
factual_diagnostics u target source =
    map (drift "version" "Version") (missing_tokens u (version_re u) target source)
    ++ map (drift "date" "Date") (missing_tokens u (date_re u) target source)

unfoldable pub entity_diagnostics : String → List Entity → List Diagnostic
entity_diagnostics target [] = []
entity_diagnostics target (ent ∷ ents) =
    let rest = entity_diagnostics target ents in
    if contains ent.name target
    then rest
    else record {
      severity = arbitrated entity_preservation;
      subsystem = "entity";
      issue = "Entity not preserved: " +++ repr ent.name;
      evidence = "expected verbatim occurrence in target";
      action = "Restore entity from entity_table";
      segment_index = none;
    }
      ∷ rest

term_severity : GlossaryStatus → Severity
term_severity canonical = arbitrated terminological_consistency
term_severity context_sensitive = warning

unfoldable pub terminology_diagnostics : String → List GlossaryEntry → List Diagnostic
unfolding term_severity
terminology_diagnostics target [] = []
terminology_diagnostics target (entry ∷ entries) =
    let rest = terminology_diagnostics target entries in
    if contains entry.source target
    then record {
      severity = term_severity entry.status;
      subsystem = "terminology";
      issue = "Source term not translated: " +++ repr entry.source;
      evidence = "expected canonical target " +++ repr entry.target;
      action = "Apply canonical mapping";
      segment_index = none;
    }
      ∷ rest
    else rest

unfoldable pub epistemic_diagnostics : String → List ForbiddenMapping → List Diagnostic
epistemic_diagnostics target [] = []
epistemic_diagnostics target (fm ∷ fms) =
    let rest = epistemic_diagnostics target fms in
    if contains fm.forbidden_target target
    then record {
      severity = arbitrated epistemic_fidelity;
      subsystem = "epistemic";
      issue =
          "Epistemic drift: " +++ repr fm.forbidden_target +++ " (from " +++ repr fm.source +++ ")";
      evidence = "TRA-MODULE-ZH-EN §3 forbids this mapping";
      action = "Revert to canonical certainty marker";
      segment_index = none;
    }
      ∷ rest
    else rest

-- the diagnostics of a target, in the order in which they are raised
unfoldable pub diagnose : Host → Context → String → String → List Diagnostic
diagnose h ctx target source =
    structural_diagnostics h.unicode target source
    ++ factual_diagnostics h.unicode target source
    ++ entity_diagnostics target ctx.entity_table
    ++ terminology_diagnostics target ctx.glossary_cache
    ++ epistemic_diagnostics target (forbidden_mappings (active_module h ctx).forbidden_targets)

-- `[d.severity.value for d in diagnostics] or None`
unfoldable pub raised_flags : List Diagnostic → Option (List String)
raised_flags ds =
    if is_empty ds then none else some (map (λ (d : Diagnostic). severity_value d.severity) ds)

unfoldable pub verify_output : Host → String → String → Exec Vm (List Diagnostic)
verify_output h target source v =
    let ds = diagnose h v.ctx target source in
    (ok ds, log "VERIFY_OUTPUT" (hash h target) [] [] (raised_flags ds) v)
