-- ===== src/Kernel/Run.antt =====
-- `run` of kernel.py.
use translation_runtime_arch.Prelude.{
  String, Bool, true, false, Option, none, some, List, [], ◌∷◌, ◌++◌, length, filter, is_some,
  if◌then◌else◌,
}
use translation_runtime_arch.Text.{◌+++◌, contains, show}
use translation_runtime_arch.Exceptions.{
  tra, TraException, tra_error, new_conformance_failure, exception_code, to_text,
}
use translation_runtime_arch.Memory.{
  ConformanceLevel, l1_basic, l2_professional, l3_strict, l4_forensic, blocking,
}
use translation_runtime_arch.Diagnostics.{Diagnostic, flush}
use translation_runtime_arch.Vm.{Host, Vm}
use translation_runtime_arch.Vm.Exec.{
  Exec, Attempt, returned, thrown, ok, err, attempt, pure, raise, gets, modify, ◌>>=◌, ◌>>◌,
}
use translation_runtime_arch.Isa.Analyze.{analyze_document}
use translation_runtime_arch.Isa.Glossary.{build_glossary}
use translation_runtime_arch.Isa.Entities.{build_entity_table}
use translation_runtime_arch.Isa.Translate.{Llm}
use translation_runtime_arch.Isa.Repair.{is_blocking}
use translation_runtime_arch.Kernel.{
  Kernel, on_vm, change, recover, transition, initialize_runtime, build_artifacts, repair_if_needed,
  audit_diagnostics, emit_payload, deterministic_clock,
}
use translation_runtime_arch.Kernel.Hitl.{Reviewer}
use translation_runtime_arch.Kernel.Translation.{execute_translation}
use translation_runtime_arch.Kernel.Links.{rewrite_anchors}
use translation_runtime_arch.Kernel.Loop.{repair_loop, verify_or}
use translation_runtime_arch.Kernel

-- `conformance_level in (L3_STRICT, L4_FORENSIC)`
unfoldable pub is_strict : ConformanceLevel → Bool
is_strict l1_basic = false
is_strict l2_professional = false
is_strict l3_strict = true
is_strict l4_forensic = true

unfoldable pub handled : Host → {A : Type 0} → A → Attempt A → Exec Kernel A
handled h instead (returned a) = pure a
handled h instead (thrown e) = modify (change (recover h e)) >> pure instead

-- `try: m except TRAException as exc: self._recover(exc)`, with the value that is used instead
unfoldable pub try_or : Host → {A : Type 0} → A → Exec Vm A → Exec Kernel A
unfolding handled
try_or h instead m = on_vm (attempt m) >>= handled h instead

unfoldable pub flush_audit : Kernel → Kernel
flush_audit = change (λ v. record v { audit = flush v.audit })

-- the seed of the clock
unfoldable pub seed_clock : Host → String → Kernel → Kernel
seed_clock h source k =
    if k.deterministic
    then change
        (λ v. record v {
          audit = record v.audit { clock = deterministic_clock (h.digest.sha256 source) };
        })
        k
    else k

-- a run that ends behind a failed ANALYZE_DOCUMENT: what is raised, or the empty output
unfoldable pub analysis_outcome : TraException → Bool → Exec Kernel String
analysis_outcome e false = pure ""
analysis_outcome e true = raise (
    new_conformance_failure
      ("BROKEN_MARKDOWN: analyze_document failed ("
        +++ exception_code e
        +++ ") — output is not L3-conformant")
      1)

unfoldable pub analysis_failed : Host → TraException → Exec Kernel String
unfolding analysis_outcome
analysis_failed h e =
    modify (change (recover h e))
    >> modify flush_audit
    >> gets (λ (k : Kernel). is_strict k.level)
    >>= analysis_outcome e

-- the runtime invariants behind ANALYZE_DOCUMENT
unfoldable pub check_analysis : Exec Kernel (Unit {0})
check_analysis k =
    if is_some k.vm.ctx.document_profile
    then (if is_some k.vm.ctx.structural_map
        then (ok tt, k)
        else (err (tra (tra_error "ANALYZE_DOCUMENT did not populate structural_map")), k))
    else (err (tra (tra_error "ANALYZE_DOCUMENT did not populate document_profile")), k)

-- `diagnostics.append(...)` under `--force-unrecoverable`
unfoldable pub forced : Bool → List Diagnostic → List Diagnostic
forced false ds = ds
forced true ds =
    ds
    ++ record {
      severity = blocking;
      subsystem = "force_unrecoverable";
      issue = "Synthetic BLOCKING diagnostic for HITL testing";
      evidence = "--force-unrecoverable flag was set";
      action = "RAISE_FLAG";
      segment_index = none;
    }
      ∷ []

-- the entries of the ambiguity register with `"BROKEN_LINK" in a`
unfoldable pub broken_links : Kernel → List String
broken_links k = filter (contains "BROKEN_LINK") k.vm.ctx.unresolved_ambiguities

-- the verdict on the blocking diagnostics and the broken links: what is raised
unfoldable pub verdict : List Diagnostic → List String → Option TraException
verdict [] [] = none
verdict [] (l ∷ ls) = some (
    new_conformance_failure
      ("CONFORMANCE_FAILURE: "
        +++ show (length (l ∷ ls))
        +++ " BROKEN_LINK entry/entries in unresolved_ambiguities — output is not L3-conformant (internal link target missing)")
      (length (l ∷ ls)))
verdict (d ∷ ds) links = some (
    new_conformance_failure
      ("CONFORMANCE_FAILURE: "
        +++ show (length (d ∷ ds))
        +++ " BLOCKING diagnostic(s) remain after repair loop — output is not L3-conformant")
      (length (d ∷ ds)))

-- what a verification that raises counts as in the gate
unfoldable pub unverified : TraException → List Diagnostic
unverified e =
    record {
      severity = blocking;
      subsystem = "verify_output_failed";
      issue = "verify_output raised: " +++ to_text e;
      evidence = to_text e;
      action = "RAISE_FLAG";
      segment_index = none;
    }
    ∷ []

unfoldable pub decide : Option TraException → Exec Kernel (Unit {0})
decide none = pure tt
decide (some e) = modify flush_audit >> raise e

-- the L3+ conformance gate
unfoldable pub gate_at : Host → String → String → Bool → Exec Kernel (Unit {0})
unfolding unverified
gate_at h target source false = pure tt
gate_at h target source true = verify_or h unverified target source >>= λ ds.
    gets broken_links >>= λ links. decide (verdict (filter is_blocking ds) links)

unfoldable pub gate : Host → String → String → Exec Kernel (Unit {0})
unfolding gate_at
gate h target source = gets (λ (k : Kernel). is_strict k.level) >>= gate_at h target source

unfoldable pub rewrite : Host → String → Exec Kernel String
rewrite h target = on_vm (λ v. let (s, w) = rewrite_anchors h target v in (ok s, w))

-- behind the gate
unfoldable pub finish : String → Exec Kernel String
finish target =
    transition audit_diagnostics >> modify flush_audit >> transition emit_payload >> pure target

-- from the repair loop on
unfoldable pub repair_and_emit :
    Host → Reviewer → String → String → List Diagnostic → Exec Kernel String
unfolding rewrite finish
repair_and_emit h reviewer source target diagnostics =
    repair_loop h reviewer target source diagnostics >>= λ repaired.
    transition repair_if_needed >> rewrite h repaired >>= λ final.
    gate h final source >> finish final

-- from the first verification on
unfoldable pub verify_and_emit : Host → Reviewer → String → String → Exec Kernel String
unfolding forced repair_and_emit
verify_and_emit h reviewer source target =
    transition (Kernel.execute_translation) >> verify_or h (λ _. []) target source >>= λ ds.
    gets (λ (k : Kernel). forced k.force_unrecoverable ds) >>= λ diagnostics.
    transition (Kernel.verify_output) >> repair_and_emit h reviewer source target diagnostics

-- behind a successful ANALYZE_DOCUMENT
unfoldable pub continue_run : Host → Reviewer → Option Llm → String → Exec Kernel String
unfolding verify_and_emit
continue_run h reviewer llm source =
    transition (Kernel.analyze_document)
    >> check_analysis
    >> try_or h [] (build_glossary h source)
    >> try_or h [] (build_entity_table h source)
    >> transition build_artifacts
    >> try_or h "" (execute_translation h llm source)
    >>= verify_and_emit h reviewer source

unfoldable pub after_analysis :
    Host → Reviewer → Option Llm → String → Attempt (Unit {0}) → Exec Kernel String
unfolding analysis_failed continue_run
after_analysis h reviewer llm source (returned u) = continue_run h reviewer llm source
after_analysis h reviewer llm source (thrown e) = analysis_failed h e

-- `run` on a text
unfoldable pub run : Host → Reviewer → Option Llm → String → Exec Kernel String
unfolding seed_clock after_analysis
run h reviewer llm source =
    modify (seed_clock h source)
    >> transition initialize_runtime
    >> on_vm (attempt (analyze_document h source))
    >>= after_analysis h reviewer llm source
