-- ===== src/CommandLine/Exit.antt =====
-- What `validate` says of what `translate` writes.
use translation_runtime_arch.Prelude.{
  String, ◌≡◌, refl, ap, subst, subst⁻¹, Bool, true, Option, none, if◌then◌else◌,
}
use translation_runtime_arch.Exceptions.{
  Exception, tra, other, conformance_failure, tra_error, unknown_term, broken_markdown,
  certainty_conflict, entity_ambiguity, glossary_conflict, unrecoverable,
}
use translation_runtime_arch.Diagnostics.{AuditTrail}
use translation_runtime_arch.Memory.{ConformanceLevel}
use translation_runtime_arch.Cache.{TranslationCache}
use translation_runtime_arch.Vm.{Host, Vm, active_module}
use translation_runtime_arch.Vm.Exec.{Outcome, ok, err}
use translation_runtime_arch.Vm.Triple.{After, IsFault}
use translation_runtime_arch.Kernel.{Kernel, new_kernel}
use translation_runtime_arch.Kernel.Hitl.{Reviewer}
use translation_runtime_arch.Kernel.Run.{is_strict}
use translation_runtime_arch.Kernel.Lifecycle.{Allowed}
use translation_runtime_arch.Kernel.Bundled.{default_registry, selected_default}
use translation_runtime_arch.Validate.{ValidationReport, validate_translation}
use translation_runtime_arch.Validate.Agreement.{Passes}
use translation_runtime_arch.Validate.Published.{run-Passes}
use translation_runtime_arch.Config.{BootstrapConfig}
use translation_runtime_arch.CommandLine.Commands.{
  Ended, wrote, exited, crashed, configured, override_level, overridden, emitted, translate_in,
  translate_configured, translate, print_validation, validate_configured, validate,
}

-- how a translation may end: with a target that `validate` exits with 0 on, at the same level
abbrev pub IsConformant : Host → BootstrapConfig → String → AuditTrail → Ended → Type 0
IsConformant h cfg source audit (wrote target) = validate h cfg none source target audit ≡ exited 0
IsConformant h cfg source audit (exited n) = n ≡ 1
IsConformant h cfg source audit (crashed e) = IsFault e
IsConformant h cfg source audit _ = ⊥

exits : (p : Outcome ValidationReport × Vm) → Passes p → print_validation p.0 ≡ exited 0
unfolding print_validation
exits (ok r, v) h = ap (λ b. if b then exited 0 else exited 1) h
exits (err e, v) h = absurd h

raises :
    (h : Host) (cfg : BootstrapConfig) (source : String) (audit : AuditTrail) (e : Exception)
    → Allowed true e
    → IsConformant h cfg source audit (emitted (err e))
unfolding emitted Allowed IsFault
raises h cfg source audit (other p) a = tt
raises h cfg source audit (tra (conformance_failure m n)) a = refl
raises h cfg source audit (tra (tra_error m)) a = absurd a
raises h cfg source audit (tra (unknown_term m x)) a = absurd a
raises h cfg source audit (tra (broken_markdown m x)) a = absurd a
raises h cfg source audit (tra (certainty_conflict m x)) a = absurd a
raises h cfg source audit (tra (entity_ambiguity m x)) a = absurd a
raises h cfg source audit (tra (glossary_conflict m x y)) a = absurd a
raises h cfg source audit (tra (unrecoverable m)) a = absurd a

emits :
    (h : Host) (cfg : BootstrapConfig) (source : String) (audit : AuditTrail) (l : ConformanceLevel)
    (p : Outcome String × Kernel)
    → is_strict l ≡ true
    → After
        (λ target k'. Passes (validate_translation h source target cfg.conformance_level audit))
        (λ e k'. Allowed (is_strict l) e)
        p
    → IsConformant h cfg source audit (emitted p.0)
unfolding emitted validate validate_configured override_level
emits h cfg source audit l (ok target, k) s a =
    exits (validate_translation h source target cfg.conformance_level audit) a
emits h cfg source audit l (err e, k) s a =
    raises h cfg source audit e (subst (λ b. Allowed b e) s a)

-- At L3 and L4, whatever the other options are, `translate` writes a target that `validate` then
-- judges conformant, with exit code 0, or it exits with 1, or an exception that is no `TRAException`
-- goes through.
pub translate-IsConformant :
    (h : Host) (reviewer : Reviewer) (cfg cfg' : BootstrapConfig) (lang level : Option String)
    (interactive force : Bool) (source : String) (cache : TranslationCache) (audit : AuditTrail)
    → overridden h.unicode lang level cfg ≡ configured cfg'
    → is_strict cfg'.conformance_level ≡ true
    → IsConformant h cfg' source audit
        (translate h reviewer cfg lang level interactive force source cache)
unfolding translate translate_configured translate_in new_kernel active_module
translate-IsConformant h reviewer cfg cfg' lang level interactive force source cache audit e s =
    subst⁻¹
      (λ c.
        IsConformant h cfg' source audit
          (translate_configured h reviewer interactive force source cache c))
      e
      (subst⁻¹
        (λ r.
          IsConformant h cfg' source audit
            (translate_in h reviewer interactive force source cache cfg' r))
        (default_registry h.unicode)
        (emits h cfg' source audit cfg'.conformance_level _ s (
          run-Passes h reviewer none source cfg'.conformance_level cfg'.conformance_level _ audit
            refl s (selected_default h cfg'.language_pair))))
