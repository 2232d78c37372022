-- ===== src/Isa/Repair/Guarantee.antt =====
-- What a call of REPAIR_SEGMENT leaves behind.
use translation_runtime_arch.Prelude.{
  ℕ, String, ◌≡◌, refl, Bool, true, false, [], ◌∷◌, ◌++◌, any, if◌then◌else◌, arith,
}
use translation_runtime_arch.Exceptions.{unrecoverable}
use translation_runtime_arch.Memory.{RepairAttempt}
use translation_runtime_arch.Diagnostics.{Diagnostic}
use translation_runtime_arch.Vm.{Host, Vm, log, add_evidence}
use translation_runtime_arch.Vm.Exec.{Outcome, ok, err, raise, ◌>>=◌, continue}
use translation_runtime_arch.Vm.Triple.{IsUnrecoverable}
use translation_runtime_arch.Isa.Common.{hash}
use translation_runtime_arch.Isa.Verify.{diagnose, verify_output}
use translation_runtime_arch.Isa.Repair.{
  hash, repair_segment, repair_text, record_repair, is_blocking,
}

-- what is promised of a result: a repaired text is without blocking diagnostics and is the last entry
-- of the history; a failure leaves context and evidence as they were
unfoldable pub Settled : Host → String → String → Vm → Outcome String × Vm → Type 0
Settled h source target v (ok out, w) =
    (any is_blocking (diagnose h v.ctx out source) ≡ false)
    × (a : RepairAttempt) × (w.ctx.repair_history ≡ v.ctx.repair_history ++ a ∷ [])
    × (a.before ≡ target)
    × (a.after ≡ out)
    × (a.resolved ≡ true)
Settled h source target v (err e, w) =
    IsUnrecoverable e × (w.ctx ≡ v.ctx) × (w.evidence ≡ v.evidence)

-- the exception of an outcome is `Unrecoverable`
Fails : Outcome String → Type 0
Fails (ok s) = Unit
Fails (err e) = IsUnrecoverable e

repair_text-Fails :
    (h : Host) (ctx : _) (target : String) (d : Diagnostic) (n m : ℕ)
    → Fails (repair_text h ctx target d n m)
unfolding repair_text Fails IsUnrecoverable
repair_text-Fails h ctx target d n m = ground arith

module _ (h : Host) (source target : String) (d : Diagnostic) (n m i : ℕ) (v : Vm) where
  Settled-if :
      (out : String) (b : Bool) (flags : _)
      → any is_blocking (diagnose h v.ctx out source) ≡ b
      → Settled h source target v (
          (if b
              then raise (unrecoverable "UNRECOVERABLE: repair introduces new BLOCKING violation")
              else record_repair h target source out d n i)
            (log "VERIFY_OUTPUT" (hash h out) [] [] flags v))
  unfolding Settled raise IsUnrecoverable record_repair add_evidence log
  Settled-if out true flags e = (tt, refl, refl)
  Settled-if out false flags e = (e, _, refl, refl, refl, refl)

  Settled-text :
      (o : Outcome String)
      → Fails o
      → Settled h source target v (
          continue o
            (λ repaired. verify_output h repaired source >>= λ sub.
              if any is_blocking sub
              then raise (unrecoverable "UNRECOVERABLE: repair introduces new BLOCKING violation")
              else record_repair h target source repaired d n i)
            v)
  unfolding continue ◌>>=◌ verify_output Fails Settled
  Settled-text (ok out) p = Settled-if out (any is_blocking (diagnose h v.ctx out source)) _ refl
  Settled-text (err e) p = (p, refl, refl)

  -- REPAIR_SEGMENT ends in one of two ways. It returns a text without blocking diagnostics, and the
  -- text is the last entry of the repair history, marked as resolved. Or it raises `Unrecoverable`,
  -- and then context and evidence are what they were, so that a failed attempt is not in the history.
  pub repair_segment-Settled : Settled h source target v (repair_segment h target source d n m i v)
  unfolding repair_segment ◌>>=◌
  repair_segment-Settled =
      Settled-text (repair_text h v.ctx target d n m) (repair_text-Fails h v.ctx target d n m)
