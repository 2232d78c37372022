-- ===== src/Kernel/Gate.antt =====
-- The conformance gate and the end of a run.
use translation_runtime_arch.Prelude.{
  ℕ, String, ◌≡◌, refl, sym, ap, subst⁻¹, Bool, true, false, List, [], ◌∷◌, inl, arith, filter,
}
use translation_runtime_arch.Exceptions.{
  TraException, tra, conformance_failure, new_conformance_failure,
}
use translation_runtime_arch.Memory.{ConformanceLevel}
use translation_runtime_arch.Diagnostics.{Diagnostic}
use translation_runtime_arch.Vm.{Host, log, active_module}
use translation_runtime_arch.Vm.Exec.{attempt, caught, pure, modify, raise, gets, ◌>>=◌, continue}
use translation_runtime_arch.Vm.Triple.{After, Triple, triple-bind}
use translation_runtime_arch.Isa.Verify.{diagnose, verify_output}
use translation_runtime_arch.Isa.Repair.{is_blocking}
use translation_runtime_arch.Kernel.{
  Kernel, KernelState, audit_diagnostics, repair_if_needed, emit_payload, enter, on_vm, change,
}
use translation_runtime_arch.Kernel.Run.{
  gate_at, unverified, is_strict, flush_audit, verdict, decide, gate, broken_links, finish,
}
use translation_runtime_arch.Kernel.Loop.{verify_or, recovered}
use translation_runtime_arch.Kernel.Lifecycle.{At, Allowed, Certified, RunDone, RunError, to_with}

flushed : (x : KernelState) (l : ConformanceLevel) (k : Kernel) → At x l k → At x l (flush_audit k)
unfolding flush_audit change
flushed x l k p = p

pub conformance-Allowed :
    (b : Bool) (m : String) (n : ℕ) → b ≡ true → Allowed b (tra (conformance_failure m n))
unfolding Allowed
conformance-Allowed true m n s = tt
conformance-Allowed false m n s = ground arith

module _ (h : Host) (source : String) (l : ConformanceLevel) where
  -- the decision on the final diagnostics and the broken links
  decided :
      (target : String) (k : Kernel) (ds : List Diagnostic) (links : List String)
      → is_strict l ≡ true
      → At repair_if_needed l k
      → filter is_blocking (diagnose h k.vm.ctx target source) ≡ ds
      → broken_links k ≡ links
      → After
          (λ _ k'. At repair_if_needed l k' × Certified true h source target k')
          (RunError l)
          (decide (verdict ds links) k)
  unfolding verdict decide Certified RunError Allowed new_conformance_failure pure raise modify
      ◌>>=◌ continue
  decided target k [] [] s p d e = (p, (d, e))
  decided target k [] (x ∷ xs) s p d e =
      (conformance-Allowed (is_strict l) _ _ s, repair_if_needed, flushed repair_if_needed l k p)
  decided target k (x ∷ xs) links s p d e =
      (conformance-Allowed (is_strict l) _ _ s, repair_if_needed, flushed repair_if_needed l k p)

  verify_or-diagnose :
      (instead : TraException → List Diagnostic) (target : String)
      → Triple
          (At repair_if_needed l)
          (verify_or h instead target source)
          (λ ds k. At repair_if_needed l k × (ds ≡ diagnose h k.vm.ctx target source))
          (RunError l)
  unfolding verify_or on_vm attempt caught verify_output log recovered pure ◌>>=◌ continue diagnose
      active_module
  verify_or-diagnose instead target k p = (p, refl)

  gate_at-Certified :
      (target : String) (b : Bool)
      → is_strict l ≡ b
      → Triple
          (At repair_if_needed l)
          (gate_at h target source b)
          (λ _ k. At repair_if_needed l k × Certified b h source target k)
          (RunError l)
  unfolding gate_at Certified pure gets decide ◌>>=◌ continue
  gate_at-Certified target false s = λ k p. (p, tt)
  gate_at-Certified target true s =
      triple-bind (λ ds k. At repair_if_needed l k × (ds ≡ diagnose h k.vm.ctx target source)) _
        (RunError l) _ _ (verify_or-diagnose unverified target)
        (λ ds k t.
          decided target k (filter is_blocking ds) (broken_links k) s t.0
            (ap (filter is_blocking) (sym t.1)) refl)

  pub gate-Certified :
      (target : String)
      → Triple
          (At repair_if_needed l)
          (gate h target source)
          (λ _ k. At repair_if_needed l k × Certified (is_strict l) h source target k)
          (RunError l)
  unfolding gate gets ◌>>=◌ continue
  gate-Certified target k p =
      subst⁻¹
        (λ b.
          After (λ _ k'. At repair_if_needed l k' × Certified (is_strict l) h source target k')
            (RunError l) (gate_at h target source b k))
        (ap (λ (t : KernelState × List String × ConformanceLevel). is_strict t.2) p)
        (gate_at-Certified target (is_strict l) refl k p)

  keeps-Certified :
      (target : String) (next : KernelState) (b : Bool) (k : Kernel)
      → Certified b h source target k
      → Certified b h source target (enter next k)
  unfolding Certified enter diagnose active_module broken_links
  keeps-Certified target next false k c = tt
  keeps-Certified target next true k c = c

  flush-Certified :
      (target : String) (b : Bool) (k : Kernel)
      → Certified b h source target k
      → Certified b h source target (flush_audit k)
  unfolding Certified flush_audit change diagnose active_module broken_links
  flush-Certified target false k c = tt
  flush-Certified target true k c = c

  pub finish-RunDone :
      (target : String)
      → Triple
          (λ k. At repair_if_needed l k × Certified (is_strict l) h source target k)
          (finish target)
          (RunDone h source l)
          (RunError l)
  unfolding finish RunDone pure modify
  finish-RunDone target =
      let C : Kernel → Type 0 = Certified (is_strict l) h source target in
      triple-bind (λ _ k. At emit_payload l k × C k) _ (RunError l) _ _
        (triple-bind (λ _ k. At audit_diagnostics l k × C k) _ (RunError l) _ _
          (triple-bind (λ _ k. At audit_diagnostics l k × C k) _ (RunError l) _ _
            (to_with repair_if_needed audit_diagnostics l refl refl C
              (keeps-Certified target audit_diagnostics (is_strict l)))
            (λ _ k c.
              (flushed audit_diagnostics l k c.0, flush-Certified target (is_strict l) k c.1)))
          (λ _.
            to_with audit_diagnostics emit_payload l refl refl C
              (keeps-Certified target emit_payload (is_strict l))))
        (λ _ k c. inl c)
