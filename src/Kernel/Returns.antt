-- ===== src/Kernel/Returns.antt =====
-- A run returns at the levels without a gate, if the cache is switched off.
use translation_runtime_arch.Prelude.{
  String, ◌≡◌, ap, ◌∙◌, subst, Bool, true, false, Option, none, some, List, [], arith,
}
use translation_runtime_arch.Exceptions.{Exception, TraException, tra, other}
use translation_runtime_arch.Memory.{ConformanceLevel}
use translation_runtime_arch.Diagnostics.{Diagnostic}
use translation_runtime_arch.Vm.{Host, Vm, log}
use translation_runtime_arch.Vm.Exec.{
  Exec, Outcome, ok, err, Attempt, returned, thrown, attempt, caught, pure, raise, gets, modify,
  ◌>>=◌,
}
use translation_runtime_arch.Vm.Triple.{
  After, Triple, Calm, IsTra, IsNone, triple-bind, Calm-project,
}
use translation_runtime_arch.Isa.Translate.{Llm}
use translation_runtime_arch.Isa.Logs.{
  steady, stable, kept, analyze_document-Calm, build_glossary-Calm, build_entity_table-Calm,
}
use translation_runtime_arch.Kernel.{
  Kernel, KernelState, bootstrap, initialize_runtime, transition, enter, on_vm, change, recover,
  repair_if_needed, audit_diagnostics, emit_payload,
}
use translation_runtime_arch.Kernel
use translation_runtime_arch.Kernel.Hitl.{Reviewer}
use translation_runtime_arch.Kernel.Calm.Translated.{rewrite_anchors-kept}
use translation_runtime_arch.Kernel.Calm.{frame, Calm-on_vm, verify_or-Calm, repair_loop-Calm}
use translation_runtime_arch.Kernel.Run.{
  run, is_strict, handled, try_or, flush_audit, decide, gate_at, gate, finish, check_analysis,
  seed_clock, repair_and_emit, rewrite, verify_and_emit, continue_run, analysis_outcome,
  analysis_failed, after_analysis,
}
use translation_runtime_arch.Kernel.Lifecycle.{At, Allowed, RunDone, RunError}
use translation_runtime_arch.Kernel.Ends.{run-ends}
use translation_runtime_arch.Kernel.Quiet.{Off, Tra, Quiet, from_calm, execute_translation-Quiet}

abbrev OffKernel : Kernel → Type 0
OffKernel k = Off k.vm

abbrev TraKernel : Exception → Kernel → Type 0
TraKernel e k = IsTra e

-- an action that leaves the cache off and raises only a `TRAException`
abbrev Plain : {A : Type 0} → Exec Kernel A → Type 0
Plain m = Triple OffKernel m (λ _. OffKernel) TraKernel

bind :
    {A B : Type 0} (m : Exec Kernel A) (g : A → Exec Kernel B)
    → Plain m
    → ((a : A) → Plain (g a))
    → Plain (m >>= g)
bind m g = triple-bind (λ _. OffKernel) (λ _. OffKernel) TraKernel g m

After-frame :
    {A : Type 0} (k : Kernel) (p : Outcome A × Kernel)
    → OffKernel k
    → After (λ _ k'. frame k' ≡ frame k) (λ e k'. IsNone e × (frame k' ≡ frame k)) p
    → After (λ _. OffKernel) TraKernel p
After-frame k (ok a, k') o c = ap (λ t. t.1.0.0.0.1) c ∙ o
After-frame k (err e, k') o c = absurd c.0

from_frame : {A : Type 0} (m : Exec Kernel A) → Calm frame IsNone m → Plain m
from_frame m c k o = After-frame k (m k) o (c k)

pure-Plain : {A : Type 0} (a : A) → Plain (pure a)
unfolding pure
pure-Plain a k o = o

gets-Plain : {A : Type 0} (f : Kernel → A) → Plain (gets f)
unfolding gets
gets-Plain f k o = o

modify-Plain :
    (f : Kernel → Kernel) → ((k : Kernel) → OffKernel k → OffKernel (f k)) → Plain (modify f)
unfolding modify
modify-Plain f c k o = c k o

recover-Off :
    (h : Host) (e : TraException) (k : Kernel) → OffKernel k → OffKernel (change (recover h e) k)
unfolding change recover log
recover-Off h e k o = o

flush-Off : (k : Kernel) → OffKernel k → OffKernel (flush_audit k)
unfolding flush_audit change
flush-Off k o = o

transition-Plain : (next : KernelState) → Plain (transition next)
unfolding transition enter
transition-Plain next k o = ground (arith, o)

After-attempted :
    {A : Type 0} (k : Kernel) (p : Outcome A × Vm)
    → After (λ _. Off) Tra p
    → let q = caught p.0 p.1 in After (λ _. OffKernel) TraKernel (q.0, record k { vm = q.1 })
unfolding caught
After-attempted k (ok a, v) c = c
After-attempted k (err (tra e), v) c = c.1
After-attempted k (err (other e), v) c = absurd c.0

attempt-Plain : {A : Type 0} (m : Exec Vm A) → Quiet m → Plain (on_vm (attempt m))
unfolding on_vm attempt
attempt-Plain m q k o = After-attempted k (m k.vm) (q k.vm o)

handled-Plain : (h : Host) {A : Type 0} (instead : A) (r : Attempt A) → Plain (handled h instead r)
unfolding handled
handled-Plain h instead (returned a) = pure-Plain a
handled-Plain h instead (thrown e) =
    bind _ _ (modify-Plain _ (recover-Off h e)) (λ _. pure-Plain instead)

try_or-Plain :
    (h : Host) {A : Type 0} (instead : A) (m : Exec Vm A) → Quiet m → Plain (try_or h instead m)
unfolding try_or
try_or-Plain h instead m q = bind _ _ (attempt-Plain m q) (handled-Plain h instead)

raise-Plain : (A : Type 0) (e : TraException) → Plain (raise {A = A} e)
unfolding raise
raise-Plain A e k o = tt

decide-Plain : (o : Option TraException) → Plain (decide o)
unfolding decide
decide-Plain none = pure-Plain tt
decide-Plain (some e) = bind _ _ (modify-Plain flush_audit flush-Off) (λ _. raise-Plain _ e)

gate_at-Plain : (h : Host) (target source : String) (b : Bool) → Plain (gate_at h target source b)
unfolding gate_at
gate_at-Plain h target source false = pure-Plain tt
gate_at-Plain h target source true =
    bind _ _ (from_frame _ (verify_or-Calm h _ target source))
      (λ ds. bind _ _ (gets-Plain _) (λ links. decide-Plain _))

finish-Plain : (target : String) → Plain (finish target)
unfolding finish
finish-Plain target =
    bind _ _
      (bind _ _
        (bind _ _ (transition-Plain audit_diagnostics) (λ _. modify-Plain flush_audit flush-Off))
        (λ _. transition-Plain emit_payload))
      (λ _. pure-Plain target)

check_analysis-Plain : Plain check_analysis
unfolding check_analysis
check_analysis-Plain k o = ground (arith, o)

seed_clock-Off :
    (h : Host) (source : String) (k : Kernel) → OffKernel k → OffKernel (seed_clock h source k)
unfolding seed_clock change
seed_clock-Off h source k o = ground (arith, o)

module _ (h : Host) (reviewer : Reviewer) (llm : Option Llm) (source : String) where
  emit-Plain :
      (target : String) (ds : List Diagnostic) → Plain (repair_and_emit h reviewer source target ds)
  unfolding repair_and_emit rewrite gate
  emit-Plain target ds =
      bind _ _ (from_frame _ (repair_loop-Calm h reviewer source target ds)) (λ repaired.
        bind _ _
          (bind _ _ (transition-Plain repair_if_needed)
            (λ _. from_frame _ (Calm-on_vm kept IsNone _ (rewrite_anchors-kept h repaired))))
          (λ final.
            bind _ _ (bind _ _ (gets-Plain _) (gate_at-Plain h final source))
              (λ _. finish-Plain final)))

  verified-Plain : (target : String) → Plain (verify_and_emit h reviewer source target)
  unfolding verify_and_emit
  verified-Plain target =
      bind _ _
        (bind _ _ (transition-Plain (Kernel.execute_translation))
          (λ _. from_frame _ (verify_or-Calm h _ target source)))
        (λ ds. bind _ _ (gets-Plain _) (λ diagnostics.
          bind _ _ (transition-Plain (Kernel.verify_output)) (λ _. emit-Plain target diagnostics)))

  continued-Plain : Plain (continue_run h reviewer llm source)
  unfolding continue_run
  continued-Plain =
      bind _ _
        (bind _ _
          (bind _ _
            (bind _ _
              (bind _ _
                (bind _ _ (transition-Plain (Kernel.analyze_document)) (λ _. check_analysis-Plain))
                (λ _. try_or-Plain h [] _ (
                  from_calm _
                    (Calm-project steady (λ t. t.0.1) IsTra _ (build_glossary-Calm h source)))))
              (λ _. try_or-Plain h [] _ (
                from_calm _
                  (Calm-project stable (λ t. t.0.0.1) IsTra _ (build_entity_table-Calm h source)))))
            (λ _. transition-Plain (Kernel.build_artifacts)))
          (λ _. try_or-Plain h "" _ (execute_translation-Quiet h llm source)))
        verified-Plain

  outcome-Plain : (e : TraException) (b : Bool) → Plain (analysis_outcome e b)
  unfolding analysis_outcome
  outcome-Plain e false = pure-Plain ""
  outcome-Plain e true = raise-Plain String _

  resumed-Plain : (r : Attempt (Unit {0})) → Plain (after_analysis h reviewer llm source r)
  unfolding after_analysis analysis_failed
  resumed-Plain (returned u) = continued-Plain
  resumed-Plain (thrown e) =
      bind _ _
        (bind _ _
          (bind _ _ (modify-Plain _ (recover-Off h e)) (λ _. modify-Plain flush_audit flush-Off))
          (λ _. gets-Plain _))
        (outcome-Plain e)

  run-Plain : Plain (run h reviewer llm source)
  unfolding run
  run-Plain =
      bind _ _
        (bind _ _
          (bind _ _ (modify-Plain _ (seed_clock-Off h source))
            (λ _. transition-Plain initialize_runtime))
          (λ _. attempt-Plain _ (
            from_calm _
              (Calm-project steady (λ t. t.0.1) IsTra _ (analyze_document-Calm h source)))))
        resumed-Plain

only_fault : (e : Exception) → Allowed false e → IsTra e → ⊥
unfolding Allowed
only_fault (tra e) a t = a
only_fault (other q) a t = t

-- what ends a run at the levels without a gate is no `TRAException`, and with the cache off nothing else
returns :
    (h : Host) (source : String) (l : ConformanceLevel) (p : Outcome String × Kernel)
    → is_strict l ≡ false
    → After (RunDone h source l) (RunError l) p
    → After (λ _. OffKernel) TraKernel p
    → After (RunDone h source l) (λ e k. ⊥) p
unfolding RunError
returns h source l (ok target, k) s d q = d
returns h source l (err e, k) s d q = only_fault e (subst (λ b. Allowed b e) s d.0) q

-- With the cache switched off, a run of a fresh kernel at L1 or L2 returns: no exception leaves it.
-- It ends in EMIT_PAYLOAD with all eight states logged in their order, or, if ANALYZE_DOCUMENT
-- failed, in INITIALIZE_RUNTIME with the empty text.
pub run-returns :
    (h : Host) (reviewer : Reviewer) (llm : Option Llm) (source : String) (l : ConformanceLevel)
    (k : Kernel)
    → At bootstrap l k
    → is_strict l ≡ false
    → k.vm.cache.enabled ≡ false
    → After (RunDone h source l) (λ e k'. ⊥) (run h reviewer llm source k)
run-returns h reviewer llm source l k p s o =
    returns h source l (run h reviewer llm source k) s (run-ends h source l reviewer llm k p)
      (run-Plain h reviewer llm source k o)
