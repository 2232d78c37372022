-- ===== src/Kernel/Lifecycle.antt =====
-- The states that a run goes through, and what ends it.
use translation_runtime_arch.Prelude.{
  String, ◌≡◌, ap, ◌∙◌, subst⁻¹, take, Bool, true, false, List, [], ◌∷◌, ◌++◌, leb, ◌⊎◌, arith,
  filter,
}
use translation_runtime_arch.Exceptions.{Exception, tra, other, conformance_failure}
use translation_runtime_arch.Memory.{ConformanceLevel}
use translation_runtime_arch.Vm.{Host}
use translation_runtime_arch.Vm.Exec.{Exec, Outcome, ok, err}
use translation_runtime_arch.Vm.Triple.{After, Triple, Calm, IsFault}
use translation_runtime_arch.Isa.Verify.{diagnose}
use translation_runtime_arch.Isa.Repair.{is_blocking}
use translation_runtime_arch.Kernel.{
  Kernel, KernelState, initialize_runtime, emit_payload, order, state_value, transition, enter,
}
use translation_runtime_arch.Kernel.Calm.{status}
use translation_runtime_arch.Kernel.Run.{is_strict, broken_links}

-- the names of the states from the first transition up to a state
abbrev pub visited : KernelState → List String
visited s = take (order s) (
    "INITIALIZE_RUNTIME" ∷ "ANALYZE_DOCUMENT" ∷ "BUILD_ARTIFACTS" ∷ "EXECUTE_TRANSLATION"
    ∷ "VERIFY_OUTPUT" ∷ "REPAIR_IF_NEEDED" ∷ "AUDIT_DIAGNOSTICS" ∷ "EMIT_PAYLOAD" ∷ [])

-- the kernel is in a state, its log names the states up to it, and its level is the given one
abbrev pub At : KernelState → ConformanceLevel → Kernel → Type 0
At x l k = status k ≡ (x, visited x, l)

-- the exceptions that may end a run: a fault, or, at a strict level, a failed conformance
unfoldable pub Allowed : Bool → Exception → Type 0
Allowed true (tra (conformance_failure m n)) = Unit
Allowed b (other p) = Unit
Allowed b e = ⊥

-- what the gate has tested of a target
unfoldable pub Certified : Bool → Host → String → String → Kernel → Type 0
Certified false h source target k = Unit
Certified true h source target k =
    (filter is_blocking (diagnose h k.vm.ctx target source) ≡ []) × (broken_links k ≡ [])

-- how a run ends
unfoldable pub RunDone : Host → String → ConformanceLevel → String → Kernel → Type 0
RunDone h source l target k =
    (At emit_payload l k × Certified (is_strict l) h source target k)
    ⊎ (At initialize_runtime l k × (target ≡ "") × (is_strict l ≡ false))

unfoldable pub RunError : ConformanceLevel → Exception → Kernel → Type 0
RunError l e k = Allowed (is_strict l) e × (x : KernelState) × At x l k

transition-enter :
    (next : KernelState) (k : Kernel)
    → leb (order next) (order k.state) ≡ false
    → transition next k ≡ (ok tt, enter next k)
unfolding transition
transition-enter next k h = ground arith

module _ (x next : KernelState) (l : ConformanceLevel) (later : leb (order next) (order x) ≡ false)
    (logged : visited x ++ state_value next ∷ [] ≡ visited next) where
  enter-At : (k : Kernel) → At x l k → At next l (enter next k)
  unfolding enter
  enter-At k p =
      ap
        (λ (t : KernelState × List String × ConformanceLevel).
          (next, t.1 ++ state_value next ∷ [], t.2))
        p
      ∙ ap (λ v. (next, v, l)) logged

  -- a transition, with a fact that it keeps
  pub to_with :
      (F : Kernel → Type 0)
      → ((k : Kernel) → F k → F (enter next k))
      → Triple (λ k. At x l k × F k) (transition next) (λ _ k. At next l k × F k) (RunError l)
  to_with F keeps k (p, f) =
      subst⁻¹ (After (λ _ k'. At next l k' × F k') (RunError l))
        (transition-enter next k (
          ap (λ (t : KernelState × List String × ConformanceLevel). leb (order next) (order t.0)) p
          ∙ later))
        (enter-At k p, keeps k f)

  pub to : Triple (At x l) (transition next) (λ _. At next l) (RunError l)
  to k p =
      subst⁻¹ (After (λ _. At next l) (RunError l))
        (transition-enter next k (
          ap (λ (t : KernelState × List String × ConformanceLevel). leb (order next) (order t.0)) p
          ∙ later))
        (enter-At k p)

pub fault-Allowed : (b : Bool) (q : String) → Allowed b (other q)
unfolding Allowed
fault-Allowed true q = tt
fault-Allowed false q = tt

module _ (x : KernelState) (l : ConformanceLevel) where
  fault-RunError : (k : Kernel) (e : Exception) → IsFault e → At x l k → RunError l e k
  unfolding IsFault RunError Allowed
  fault-RunError k (other q) f p = (fault-Allowed (is_strict l) q, x, p)
  fault-RunError k (tra e) f p = absurd f

  After-stay :
      {A : Type 0} (k : Kernel) (p : Outcome A × Kernel)
      → At x l k
      → After (λ _ k'. status k' ≡ status k) (λ e k'. IsFault e × (status k' ≡ status k)) p
      → After (λ _. At x l) (RunError l) p
  After-stay k (ok a, k') p h = h ∙ p
  After-stay k (err e, k') p h = fault-RunError k' e h.0 (h.1 ∙ p)

  -- a part of the run that leaves the status alone
  pub stay :
      {A : Type 0} (m : Exec Kernel A)
      → Calm status IsFault m
      → Triple (At x l) m (λ _. At x l) (RunError l)
  stay m c k p = After-stay k (m k) p (c k)
