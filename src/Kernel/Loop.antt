-- ===== src/Kernel/Loop.antt =====
-- `_repair_loop` of kernel.py.
use translation_runtime_arch.Prelude.{
  ℕ, zero, suc, ◌+◌, String, Bool, true, false, List, [], ◌∷◌, ◌++◌, map, filter, leb, from_option,
}
use translation_runtime_arch.Text.{◌+++◌}
use translation_runtime_arch.Exceptions.{tra, TraException, unrecoverable}
use translation_runtime_arch.Memory.{Severity, blocking, warning, info, GlossaryEntry}
use translation_runtime_arch.Diagnostics.{Diagnostic}
use translation_runtime_arch.Vm.{Host}
use translation_runtime_arch.Vm.Exec.{
  Exec, Outcome, ok, err, attempt, Attempt, returned, thrown, modify, pure, ◌>>=◌, ◌>>◌,
}
use translation_runtime_arch.Isa.Verify.{verify_output}
use translation_runtime_arch.Isa.Repair.{repair_segment, is_blocking}
use translation_runtime_arch.Kernel.{Kernel, on_vm, change, add_ambiguity, recover}
use translation_runtime_arch.Kernel.Hitl.{Reviewer, review_decision, format_unrecoverable}

-- `d.severity == Severity.WARNING`
warns : Severity → Bool
warns warning = true
warns blocking = false
warns info = false

is_warning : Diagnostic → Bool
unfolding warns
is_warning d = warns d.severity

-- `blocking + warnings`
unfoldable pub by_severity : List Diagnostic → List Diagnostic
unfolding is_warning
by_severity ds = filter is_blocking ds ++ filter is_warning ds

-- `verify_output` under a `try` that recovers from a `TRAException`, with what it then gives
unfoldable pub recovered :
    Host
    → (TraException → List Diagnostic)
    → Attempt (List Diagnostic)
    → Exec Kernel (List Diagnostic)
recovered h instead (returned ds) = pure ds
recovered h instead (thrown e) = modify (change (recover h e)) >> pure (instead e)

unfoldable pub verify_or :
    Host → (TraException → List Diagnostic) → String → String → Exec Kernel (List Diagnostic)
unfolding recovered
verify_or h instead target source =
    on_vm (attempt (verify_output h target source)) >>= recovered h instead

-- the reviewer's text, if the kernel is interactive
unfoldable pub consult : Reviewer → Bool → String → String → Diagnostic → Kernel → String × Kernel
consult reviewer false target source d k = (target, k)
consult reviewer true target source d k =
    let (uncertainty, excerpt) = format_unrecoverable d source in
    let (resolution, text) =
      review_decision reviewer uncertainty excerpt target
        (map (λ (g : GlossaryEntry). g.source) k.vm.ctx.glossary_cache) in
    (text, change (add_ambiguity ("HITL[" +++ resolution +++ "]: " +++ d.issue)) k)

-- the handler of `Unrecoverable`
unfoldable pub hand_off : Host → Reviewer → String → String → Diagnostic → Kernel → String × Kernel
unfolding consult
hand_off h reviewer target source d k =
    let issue = "UNRECOVERABLE: " +++ d.issue in
    consult reviewer k.interactive target source d
      (change (recover h (unrecoverable issue)) (change (add_ambiguity issue) k))

-- one round, up to the second verification: to go on with the text and its diagnostics, or to stop
pub data Round : Type 0 where
  again : String → List Diagnostic → Round
  stop : String → Round

unfoldable pub judge :
    Host → Reviewer → String → String → Diagnostic → Outcome String → Exec Kernel Round
judge h reviewer target source d (ok repaired) k =
    (verify_or h (λ _. []) repaired source >>= λ ds. pure (again repaired ds)) k
judge h reviewer target source d (err (tra (unrecoverable m))) k =
    let (text, k') = hand_off h reviewer target source d k in (ok (stop text), k')
judge h reviewer target source d (err e) k = (err e, k)

unfoldable pub round : Host → Reviewer → ℕ → String → String → Diagnostic → ℕ → Exec Kernel Round
unfolding judge
round h reviewer max_retries target source d n k =
    let (r, k') =
      on_vm (repair_segment h target source d n max_retries (from_option 0 d.segment_index)) k in
    judge h reviewer target source d r k'

-- a round and what follows it, unless the budget is used up
unfoldable pub follow_round :
    (String → List Diagnostic → Exec Kernel String) → Round → Exec Kernel String
follow_round next (again target pending) = next target pending
follow_round next (stop target) = pure target

unfoldable pub guarded :
    Bool
    → String
    → Exec Kernel Round
    → (String → List Diagnostic → Exec Kernel String)
    → Exec Kernel String
unfolding follow_round
guarded false target m next = pure target
guarded true target m next = m >>= follow_round next

-- the `while` loop, from the round `n` on
unfoldable pub rounds :
    ℕ → Host → Reviewer → ℕ → String → String → List Diagnostic → ℕ → Exec Kernel String
unfolding guarded
rounds zero h reviewer max_retries target source pending n k = pure target k
rounds (suc fuel) h reviewer max_retries target source [] n k = pure target k
rounds (suc fuel) h reviewer max_retries target source (d ∷ ds) n k =
    guarded (leb n max_retries) target (round h reviewer max_retries target source d n)
      (λ next pending. rounds fuel h reviewer max_retries next source pending (n + 1)) k

-- `max_retries` rounds are enough
unfoldable pub repair_loop :
    Host → Reviewer → String → String → List Diagnostic → Exec Kernel String
repair_loop h reviewer target source ds k =
    rounds k.max_retries h reviewer k.max_retries target source (by_severity ds) 1 k
