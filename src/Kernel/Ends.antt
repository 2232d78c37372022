-- ===== src/Kernel/Ends.antt =====
-- How a run ends.
mod Stages
use translation_runtime_arch.Prelude.{
  String, ◌≡◌, refl, sym, ap, Bool, true, false, Option, List, [], inr,
}
use translation_runtime_arch.Exceptions.{TraException, new_conformance_failure}
use translation_runtime_arch.Memory.{ConformanceLevel}
use translation_runtime_arch.Diagnostics.{Diagnostic}
use translation_runtime_arch.Vm.{Host}
use translation_runtime_arch.Vm.Exec.{Attempt, returned, thrown, pure, raise, gets, ◌>>◌}
use translation_runtime_arch.Vm.Triple.{After, Triple, IsFault, triple-bind, Calm-modify}
use translation_runtime_arch.Isa.Analyze.{analyze_document}
use translation_runtime_arch.Isa.Translate.{Llm}
use translation_runtime_arch.Isa.Logs.{build_glossary-Calm, build_entity_table-Calm}
use translation_runtime_arch.Kernel.{
  Kernel, KernelState, repair_if_needed, build_artifacts, bootstrap, initialize_runtime,
}
use translation_runtime_arch.Kernel.Hitl.{Reviewer}
use translation_runtime_arch.Kernel.Calm.Translated.{execute_translation-Calm}
use translation_runtime_arch.Kernel.Calm.{status, recover-status, verify_or-Calm, repair_loop-Calm}
use translation_runtime_arch.Kernel.Run.{
  analysis_outcome, repair_and_emit, verify_and_emit, after_analysis, run, is_strict, flush_audit,
  gate, finish, continue_run, analysis_failed,
}
use translation_runtime_arch.Kernel
use translation_runtime_arch.Kernel.Lifecycle.{At, Certified, RunDone, RunError, to, stay}
use translation_runtime_arch.Kernel.Ends.Stages.{
  Analyzed, Populated, logged, listed, quiet, untouched, flush_audit-status, seed_clock-status,
  analyzed, checked, try_or-Calm, rewrite-Calm, chain,
}
use translation_runtime_arch.Kernel.Gate.{conformance-Allowed, gate-Certified, finish-RunDone}

module _ (h : Host) (source : String) (l : ConformanceLevel) (reviewer : Reviewer)
    (llm : Option Llm) where
  emitted :
      (final : String)
      → Triple
          (At repair_if_needed l)
          (gate h final source >> finish final)
          (RunDone h source l)
          (RunError l)
  emitted final =
      triple-bind (λ _ k. At repair_if_needed l k × Certified (is_strict l) h source final k)
        (RunDone h source l) (RunError l) _ _ (gate-Certified h source l final)
        (λ _. finish-RunDone h source l final)

  repaired :
      (target : String) (ds : List Diagnostic)
      → Triple
          (At (Kernel.verify_output) l)
          (repair_and_emit h reviewer source target ds)
          (RunDone h source l)
          (RunError l)
  unfolding repair_and_emit
  repaired target ds =
      chain l _ _ (Kernel.verify_output) _ _
        (stay (Kernel.verify_output) l _ (quiet _ (repair_loop-Calm h reviewer source target ds)))
        (λ text.
          chain l _ _ repair_if_needed _ _
            (chain l _ _ repair_if_needed _ _
              (to (Kernel.verify_output) repair_if_needed l refl refl)
              (λ _. stay repair_if_needed l _ (rewrite-Calm h text)))
            emitted)

  verified :
      (target : String)
      → Triple
          (At build_artifacts l)
          (verify_and_emit h reviewer source target)
          (RunDone h source l)
          (RunError l)
  unfolding verify_and_emit gets
  verified target =
      chain l _ _ (Kernel.execute_translation) _ _
        (chain l _ _ (Kernel.execute_translation) _ _
          (to build_artifacts (Kernel.execute_translation) l refl refl)
          (λ _. stay (Kernel.execute_translation) l _ (quiet _ (verify_or-Calm h _ target source))))
        (λ ds.
          chain l _ _ (Kernel.execute_translation) _ _ (λ k p. p)
            (λ diagnostics.
              chain l _ _ (Kernel.verify_output) _ _
                (to (Kernel.execute_translation) (Kernel.verify_output) l refl refl)
                (λ _. repaired target diagnostics)))

  continued :
      Triple
        (λ k. At initialize_runtime l k × Populated k)
        (continue_run h reviewer llm source)
        (RunDone h source l)
        (RunError l)
  unfolding continue_run
  continued =
      let A = Kernel.analyze_document in
      chain l _ _ build_artifacts _ _
        (chain l _ _ build_artifacts _ _
          (chain l _ _ A _ _
            (chain l _ _ A _ _
              (chain l _ _ A _ _ (checked h source l)
                (λ _. stay A l _ (try_or-Calm h [] _ (logged _ (build_glossary-Calm h source)))))
              (λ _. stay A l _ (try_or-Calm h [] _ (listed _ (build_entity_table-Calm h source)))))
            (λ _. to A build_artifacts l refl refl))
          (λ _.
            stay build_artifacts l _
              (try_or-Calm h "" _ (untouched _ (execute_translation-Calm h llm source)))))
        verified

  outcome :
      (e : TraException) (b : Bool)
      → is_strict l ≡ b
      → Triple (At initialize_runtime l) (analysis_outcome e b) (RunDone h source l) (RunError l)
  unfolding analysis_outcome RunDone RunError raise pure new_conformance_failure
  outcome e false s k p = inr (p, refl, s)
  outcome e true s k p = (conformance-Allowed (is_strict l) _ _ s, initialize_runtime, p)

  failed_analysis :
      (e : TraException)
      → Triple (At initialize_runtime l) (analysis_failed h e) (RunDone h source l) (RunError l)
  unfolding analysis_failed gets
  failed_analysis e =
      triple-bind (λ b k. At initialize_runtime l k × (is_strict l ≡ b)) _ (RunError l) _ _
        (chain l _ _ initialize_runtime _ _
          (chain l _ _ initialize_runtime _ _
            (stay initialize_runtime l _ (Calm-modify status IsFault _ (recover-status h e)))
            (λ _.
              stay initialize_runtime l _
                (Calm-modify status IsFault flush_audit flush_audit-status)))
          (λ _ k p.
            (p, sym (ap (λ (t : KernelState × List String × ConformanceLevel). is_strict t.2) p))))
        (λ b k p. outcome e b p.1 k p.0)

  resumed :
      (r : Attempt (Unit {0}))
      → Triple
          (Analyzed h source l r)
          (after_analysis h reviewer llm source r)
          (RunDone h source l)
          (RunError l)
  unfolding after_analysis Analyzed
  resumed (returned u) = continued
  resumed (thrown e) = failed_analysis e

  -- A run of a fresh kernel ends in one of three ways. It returns a target from EMIT_PAYLOAD, with
  -- all eight states logged in their order, and at L3 and L4 the target has no blocking diagnostic
  -- under the final context and no broken link is registered. Or it returns the empty text from
  -- INITIALIZE_RUNTIME, at L1 and L2 only. Or it raises, in a state whose predecessors are all
  -- logged in their order, and the exception is no `TRAException` or, at L3 and L4, a
  -- `ConformanceFailure`.
  pub run-ends :
      (k : Kernel)
      → At bootstrap l k
      → After (RunDone h source l) (RunError l) (run h reviewer llm source k)
  unfolding run
  run-ends =
      triple-bind (Analyzed h source l) _ (RunError l) _ _
        (chain l _ _ initialize_runtime _ _
          (chain l _ _ bootstrap _ _
            (stay bootstrap l _ (Calm-modify status IsFault _ (seed_clock-status h source)))
            (λ _. to bootstrap initialize_runtime l refl refl))
          (λ _. analyzed h source l))
        resumed
