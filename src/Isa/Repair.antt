-- ===== src/Isa/Repair.antt =====
-- REPAIR_SEGMENT of isa.py.
pub mod Guarantee
use translation_runtime_arch.Prelude.{
  ℕ, String, Bool, true, false, ◌&&◌, none, some, List, [], ◌∷◌, ◌++◌, any, leb, from_option,
  if◌then◌else◌, ◌==◌,
}
use translation_runtime_arch.Text.{◌+++◌, contains, replace, split, starts_with, truthy, show}
use translation_runtime_arch.Dict.{Dict, get}
use translation_runtime_arch.Exceptions.{tra, unrecoverable}
use translation_runtime_arch.Memory.{
  Severity, blocking, warning, info, severity_value, ForbiddenMapping,
}
use translation_runtime_arch.Diagnostics.{Diagnostic, policy_arbitration}
use translation_runtime_arch.Vm.{Host, Context, Vm, log, add_evidence, active_module}
use translation_runtime_arch.Vm.Exec.{Exec, Outcome, ok, err, raise, ◌>>=◌}
use translation_runtime_arch.Isa.Common.{hash, glossary_dict, forbidden_mappings}
use translation_runtime_arch.Isa.Verify.{verify_output}

-- `d.severity == Severity.BLOCKING`
unfoldable pub severity_blocks : Severity → Bool
severity_blocks blocking = true
severity_blocks warning = false
severity_blocks info = false

unfoldable pub is_blocking : Diagnostic → Bool
unfolding severity_blocks
is_blocking d = severity_blocks d.severity

-- `issue.split("'")[1] if "'" in issue else ""`
second_part : List String → String
second_part (a ∷ b ∷ rest) = b
second_part _ = ""

quoted_term : String → String
unfolding second_part
quoted_term issue = second_part (split 39 issue)

apply_term : Dict String → String → String → String
apply_term glossary src target = elim (get src glossary) [
  | none ↦ target
  | some t ↦ if truthy src then replace target src t else target
]

-- the loop of the epistemic branch
revert_drift : Dict String → List ForbiddenMapping → String → String
revert_drift glossary [] repaired = repaired
revert_drift glossary (fm ∷ fms) repaired = revert_drift glossary fms (
    if contains fm.forbidden_target repaired
    then replace repaired fm.forbidden_target (from_option fm.source (get fm.source glossary))
    else repaired)

-- the branches before the second verification
unfoldable pub repair_text : Host → Context → String → Diagnostic → ℕ → ℕ → Outcome String
unfolding quoted_term apply_term revert_drift
repair_text h ctx target d attempt max_retries =
    let glossary = glossary_dict ctx.glossary_cache in
    if d.subsystem == "terminology" && starts_with d.issue "Source term not translated"
    then ok (apply_term glossary (quoted_term d.issue) target)
    else if d.subsystem == "entity"
    then ok target
    else if d.subsystem == "epistemic"
    then ok
        (revert_drift glossary (forbidden_mappings (active_module h ctx).forbidden_targets) target)
    else if d.subsystem == "structural"
    then (if leb max_retries attempt
        then err (tra (unrecoverable "UNRECOVERABLE: structural repair needs manual intervention"))
        else ok target)
    else if d.subsystem == "force_unrecoverable"
    then err (
        tra (
          unrecoverable
            "UNRECOVERABLE: --force-unrecoverable synthetic diagnostic (HITL testability flag)"))
    else ok target

-- the evidence, the audit record and the entry of the history of an accepted repair
unfoldable pub record_repair : Host → String → String → String → Diagnostic → ℕ → ℕ → Exec Vm String
record_repair h target source repaired d attempt segment_index v =
    let (i, v') =
      add_evidence h
        (record {
          id = "";
          type_ = policy_arbitration;
          rule_id = none;
          module_ = "isa.repair_segment";
          source_span = source;
          target_span = repaired;
          rationale =
              "Repaired " +++ d.subsystem +++ " violation (attempt " +++ show attempt +++ ")";
        })
        v in
    let w =
      log "REPAIR_SEGMENT" (hash h repaired) (i ∷ []) [] (some (severity_value d.severity ∷ []))
        v' in
    (
      ok repaired,
      record w {
        ctx = record w.ctx {
          repair_history =
              w.ctx.repair_history
              ++ record {
                segment_index = segment_index;
                attempt = attempt;
                subsystem = d.subsystem;
                issue = d.issue;
                before = target;
                after = repaired;
                evidence_id = some i;
                resolved = true;
              }
                ∷ [];
        };
      },
    )

-- `segment_index` and `attempt` are keyword arguments of the source
unfoldable pub repair_segment : Host → String → String → Diagnostic → ℕ → ℕ → ℕ → Exec Vm String
unfolding repair_text record_repair
repair_segment h target source d attempt max_retries segment_index =
    (λ v. (repair_text h v.ctx target d attempt max_retries, v)) >>= λ repaired.
    verify_output h repaired source >>= λ sub.
    if any is_blocking sub
    then raise (unrecoverable "UNRECOVERABLE: repair introduces new BLOCKING violation")
    else record_repair h target source repaired d attempt segment_index
