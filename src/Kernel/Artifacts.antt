-- ===== src/Kernel/Artifacts.antt =====
-- The artifacts of the source stay as they are from BUILD_ARTIFACTS to the end of a run.
use translation_runtime_arch.Prelude.{
  none, some, String, ◌≡◌, refl, Bool, true, false, List, Option, arith,
}
use translation_runtime_arch.Exceptions.{Exception, TraException}
use translation_runtime_arch.Memory.{Entity, GlossaryEntry}
use translation_runtime_arch.Modules.{LanguageModule}
use translation_runtime_arch.Diagnostics.{Diagnostic}
use translation_runtime_arch.Vm.{Host, Vm}
use translation_runtime_arch.Vm.Exec.{raise, Exec, Attempt, returned, thrown, gets, ◌>>=◌}
use translation_runtime_arch.Vm.Triple.{
  Calm, IsAny, IsNone, IsFault, Calm-bind, Calm-attempt, Calm-modify, Calm-project, Calm-weaken,
}
use translation_runtime_arch.Isa.Logs.{kept}
use translation_runtime_arch.Kernel.{
  Kernel, KernelState, transition, enter, change, recover, repair_if_needed, audit_diagnostics,
  emit_payload,
}
use translation_runtime_arch.Kernel
use translation_runtime_arch.Kernel.Hitl.{Reviewer}
use translation_runtime_arch.Kernel.Calm.Translated.{rewrite_anchors-kept}
use translation_runtime_arch.Kernel.Calm.{
  frame, Calm-on_vm, Calm-pure, change-frame, recover-kept, verify_or-Calm, repair_loop-Calm,
}
use translation_runtime_arch.Kernel.Run.{
  repair_and_emit, verify_and_emit, try_or, handled, flush_audit, gate, gate_at, decide, finish,
  rewrite,
}

abbrev pub artifacts : Vm → (Option LanguageModule × List GlossaryEntry) × List Entity
artifacts v = ((v.ctx.module_, v.ctx.glossary_cache), v.ctx.entity_table)

abbrev pub kernel_artifacts : Kernel → (Option LanguageModule × List GlossaryEntry) × List Entity
kernel_artifacts k = artifacts k.vm

-- the actions that leave them alone
abbrev pub Leaves : {A : Type 0} → Exec Kernel A → Type 0
Leaves m = Calm kernel_artifacts IsAny m

from_frame : {A : Type 0} (E : Exception → Type 0) (m : Exec Kernel A) → Calm frame E m → Leaves m
from_frame E m c =
    Calm-weaken kernel_artifacts E IsAny (λ e x. tt) m
      (Calm-project frame (λ t. ((t.1.0.0.1, t.1.0.1), t.1.1)) E m c)

bind :
    {A B : Type 0} (m : Exec Kernel A) (f : A → Exec Kernel B)
    → Leaves m
    → ((a : A) → Leaves (f a))
    → Leaves (m >>= f)
bind m f = Calm-bind kernel_artifacts IsAny m f

pub transition-Leaves : (next : KernelState) → Leaves (transition next)
unfolding transition enter
transition-Leaves next k = ground arith

flush_audit-Leaves : (k : Kernel) → kernel_artifacts (flush_audit k) ≡ kernel_artifacts k
unfolding flush_audit change
flush_audit-Leaves k = refl

handled-Leaves :
    (h : Host) {A : Type 0} (instead : A) (r : Attempt A) → Leaves (handled h instead r)
unfolding handled
handled-Leaves h instead (returned a) = Calm-pure kernel_artifacts IsAny a
handled-Leaves h instead (thrown e) =
    bind _ _
      (from_frame IsNone _
        (Calm-modify frame IsNone _ (change-frame (recover h e) (recover-kept h e))))
      (λ _. Calm-pure kernel_artifacts IsAny instead)

decide-Leaves : (o : Option TraException) → Leaves (decide o)
unfolding decide raise
decide-Leaves none = Calm-pure kernel_artifacts IsAny tt
decide-Leaves (some e) =
    bind _ _ (Calm-modify kernel_artifacts IsAny flush_audit flush_audit-Leaves) (λ _ k. (tt, refl))

gets-Leaves : {A : Type 0} (f : Kernel → A) → Leaves (gets f)
unfolding gets
gets-Leaves f k = refl

gate_at-Leaves : (h : Host) (target source : String) (b : Bool) → Leaves (gate_at h target source b)
unfolding gate_at
gate_at-Leaves h target source false = Calm-pure kernel_artifacts IsAny tt
gate_at-Leaves h target source true =
    bind _ _ (from_frame IsNone _ (verify_or-Calm h _ target source))
      (λ ds. bind _ _ (gets-Leaves _) (λ links. decide-Leaves _))

gate-Leaves : (h : Host) (target source : String) → Leaves (gate h target source)
unfolding gate
gate-Leaves h target source = bind _ _ (gets-Leaves _) (gate_at-Leaves h target source)

finish-Leaves : (target : String) → Leaves (finish target)
unfolding finish
finish-Leaves target =
    bind _ _
      (bind _ _
        (bind _ _ (transition-Leaves audit_diagnostics)
          (λ _. Calm-modify kernel_artifacts IsAny flush_audit flush_audit-Leaves))
        (λ _. transition-Leaves emit_payload))
      (λ _. Calm-pure kernel_artifacts IsAny target)

repair_and_emit-Leaves :
    (h : Host) (reviewer : Reviewer) (source target : String) (ds : List Diagnostic)
    → Leaves (repair_and_emit h reviewer source target ds)
unfolding repair_and_emit rewrite
repair_and_emit-Leaves h reviewer source target ds =
    bind _ _ (from_frame IsNone _ (repair_loop-Calm h reviewer source target ds)) (λ repaired.
      bind _ _
        (bind _ _ (transition-Leaves repair_if_needed)
          (λ _. from_frame IsNone _ (Calm-on_vm kept IsNone _ (rewrite_anchors-kept h repaired))))
        (λ final. bind _ _ (gate-Leaves h final source) (λ _. finish-Leaves final)))

pub verify_and_emit-Leaves :
    (h : Host) (reviewer : Reviewer) (source target : String)
    → Leaves (verify_and_emit h reviewer source target)
unfolding verify_and_emit
verify_and_emit-Leaves h reviewer source target =
    bind _ _
      (bind _ _ (transition-Leaves (Kernel.execute_translation))
        (λ _. from_frame IsNone _ (verify_or-Calm h _ target source)))
      (λ ds. bind _ _ (gets-Leaves _) (λ diagnostics.
        bind _ _ (transition-Leaves (Kernel.verify_output))
          (λ _. repair_and_emit-Leaves h reviewer source target diagnostics)))

pub try_or-Leaves :
    (h : Host) {A : Type 0} (instead : A) (m : Exec Vm A)
    → Calm kept IsAny m
    → Leaves (try_or h instead m)
unfolding try_or
try_or-Leaves h instead m c =
    bind _ _ (from_frame IsFault _ (Calm-on_vm kept IsFault _ (Calm-attempt kept m c)))
      (handled-Leaves h instead)
