-- ===== src/Validate/Agreement.antt =====
-- The kernel's gate and the standalone validation judge a target in the same way.
use translation_runtime_arch.Prelude.{String, ◌≡◌, refl, ap, ◌∙◌, true, List, [], filter, is_empty}
use translation_runtime_arch.Memory.{ConformanceLevel}
use translation_runtime_arch.Diagnostics.{Diagnostic, AuditTrail}
use translation_runtime_arch.Vm.{Host, Vm, active_module, log}
use translation_runtime_arch.Vm.Exec.{Outcome, ok, err, pure, ◌>>=◌, continue}
use translation_runtime_arch.Vm.Triple.{After, Triple, triple-bind}
use translation_runtime_arch.Isa.Analyze.{analyze_document}
use translation_runtime_arch.Isa.Verify.{diagnose, verify_output}
use translation_runtime_arch.Isa.Repair.{is_blocking}
use translation_runtime_arch.Validate.{
  ValidationReport, passed, blocking_of, judged, validate_translation, validation_vm,
}
use translation_runtime_arch.Validate.Report.{of_severity-blocking}
use translation_runtime_arch.Validate.Artifacts.{
  Never, IsZhEn, HasGlossary, HasArtifacts, analyzes, makes_glossary, makes_table,
}

module _ (h : Host) (source : String) where
  -- the diagnostics of a target are those of the artifacts
  diagnose-artifacts :
      (target : String) (v w : Vm)
      → HasArtifacts h source v
      → HasArtifacts h source w
      → diagnose h v.ctx target source ≡ diagnose h w.ctx target source
  unfolding HasArtifacts HasGlossary IsZhEn diagnose
  diagnose-artifacts target v w a b = rw (a.0.0, a.0.1, a.1, b.0.0, b.0.1, b.1)

  verifies :
      (candidate : String)
      → Triple
          (HasArtifacts h source)
          (verify_output h candidate source)
          (λ ds w. HasArtifacts h source w × (ds ≡ diagnose h w.ctx candidate source))
          Never
  unfolding verify_output log HasArtifacts HasGlossary IsZhEn active_module diagnose
  verifies candidate v a = (a, refl)

  -- a validation starts without a module, that is with the ZH <-> EN module
  pub starts-IsZhEn : (audit : AuditTrail) → IsZhEn h source (validation_vm audit)
  unfolding IsZhEn active_module validation_vm
  starts-IsZhEn audit = refl

  -- VERIFY_OUTPUT of a candidate under the artifacts
  judged-diagnose :
      (candidate : String) (v : Vm)
      → (analyze_document h source v).0 ≡ ok tt
      → Triple
          (IsZhEn h source)
          (judged h source candidate)
          (λ ds w. HasArtifacts h source w × (ds ≡ diagnose h w.ctx candidate source))
          Never
  unfolding judged
  judged-diagnose candidate v o =
      triple-bind (λ _. HasArtifacts h source) _ Never _ _
        (triple-bind (λ _. HasGlossary h source) _ Never _ _
          (triple-bind (λ _. IsZhEn h source) _ Never _ _ (analyzes h source v o)
            (λ _. makes_glossary h source))
          (λ _. makes_table h source))
        (λ _. verifies candidate)

-- a published target passes
abbrev pub Passes : Outcome ValidationReport × Vm → Type 0
Passes (ok r, v) = passed r ≡ true
Passes (err e, v) = ⊥

module _ (h : Host) (source : String) where
  reports :
      (candidate : String) (level : ConformanceLevel) (p : Outcome (List Diagnostic) × Vm)
      → After (λ ds w. HasArtifacts h source w × (ds ≡ diagnose h w.ctx candidate source)) Never p
      → (w : Vm) → HasArtifacts h source w
      → filter is_blocking (diagnose h w.ctx candidate source) ≡ []
      → Passes (continue p.0 (λ ds. pure (record { diagnostics = ds; level = level })) p.1)
  unfolding continue pure passed blocking_of
  reports candidate level (ok ds, v) a w b q = ap is_empty (
      of_severity-blocking ds
      ∙ ap (filter is_blocking) (a.1 ∙ diagnose-artifacts h source candidate v w a.0 b)
      ∙ q)
  reports candidate level (err e, v) a w b q = a

  -- a candidate without blocking diagnostics under the artifacts
  pub validate_translation-Passes :
      (candidate : String) (level : ConformanceLevel) (audit : AuditTrail) (v w : Vm)
      → (analyze_document h source v).0 ≡ ok tt
      → HasArtifacts h source w
      → filter is_blocking (diagnose h w.ctx candidate source) ≡ []
      → Passes (validate_translation h source candidate level audit)
  unfolding validate_translation ◌>>=◌
  validate_translation-Passes candidate level audit v w o b q =
      reports candidate level (judged h source candidate (validation_vm audit))
        (judged-diagnose h source candidate v o (validation_vm audit)
          (starts-IsZhEn h source audit))
        w b q
