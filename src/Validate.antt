-- ===== src/Validate.antt =====
-- validate.py: the contract of VERIFY_OUTPUT on a candidate that no run of the kernel has produced.
pub mod Report
pub mod Artifacts
pub mod Agreement
pub mod Published
use translation_runtime_arch.Prelude.{
  ℕ, String, Bool, true, false, none, List, [], length, filter, is_empty,
}
use translation_runtime_arch.Memory.{Severity, blocking, warning, info, ConformanceLevel}
use translation_runtime_arch.Diagnostics.{Diagnostic, AuditTrail, no_evidence}
use translation_runtime_arch.Vm.{Host, Vm, new_context}
use translation_runtime_arch.Vm.Exec.{Exec, pure, ◌>>=◌, ◌>>◌, Outcome}
use translation_runtime_arch.Isa.Analyze.{analyze_document}
use translation_runtime_arch.Isa.Glossary.{build_glossary}
use translation_runtime_arch.Isa.Entities.{build_entity_table}
use translation_runtime_arch.Isa.Verify.{verify_output}

pub record ValidationReport : Type 0 where
  pub diagnostics : List Diagnostic
  pub level : ConformanceLevel

-- `d.severity == s`
same_severity : Severity → Severity → Bool
same_severity blocking blocking = true
same_severity warning warning = true
same_severity info info = true
same_severity _ _ = false

unfoldable pub of_severity : Severity → List Diagnostic → List Diagnostic
unfolding same_severity
of_severity s ds = filter (λ (d : Diagnostic). same_severity s d.severity) ds

-- `ValidationReport.blocking`, `warnings` and `passed`
unfoldable pub blocking_of : ValidationReport → List Diagnostic
blocking_of r = of_severity blocking r.diagnostics

unfoldable pub warnings_of : ValidationReport → List Diagnostic
warnings_of r = of_severity warning r.diagnostics

unfoldable pub passed : ValidationReport → Bool
passed r = is_empty (blocking_of r)

pub record Summary : Type 0 where
  pub blocking_count : ℕ
  pub warning_count : ℕ
  pub info_count : ℕ

unfoldable pub summary : ValidationReport → Summary
summary r = record {
  blocking_count = length (blocking_of r);
  warning_count = length (warnings_of r);
  info_count = length (of_severity info r.diagnostics);
}

-- the context of a validation: no module, no evidence; the cache is not used
unfoldable pub validation_vm : AuditTrail → Vm
validation_vm audit = record {
  ctx = new_context none;
  audit = audit;
  evidence = no_evidence;
  cache = record { enabled = false; store = [] };
}

-- the artifacts of the source, and the verification of the candidate under them
unfoldable pub judged : Host → String → String → Exec Vm (List Diagnostic)
judged h source candidate =
    analyze_document h source
    >> build_glossary h source
    >> build_entity_table h source
    >> verify_output h candidate source

unfoldable pub validate_translation :
    Host → String → String → ConformanceLevel → AuditTrail → Outcome ValidationReport × Vm
unfolding validation_vm
validate_translation h source candidate level audit =
    (judged h source candidate >>= λ ds. pure (record { diagnostics = ds; level = level }))
      (validation_vm audit)
