-- ===== src/Validate/Published.antt =====
-- What the kernel publishes passes the standalone validation.
use translation_runtime_arch.Prelude.{
  if-holds, String, ◌≡◌, refl, ap, ◌∙◌, subst, subst⁻¹, true, List, [], filter, Option, arith, inl,
  inr, from_option,
}
use translation_runtime_arch.Exceptions.{Exception, TraException, tra, other}
use translation_runtime_arch.Memory.{ConformanceLevel}
use translation_runtime_arch.Modules.ZhEn.{zh_en}
use translation_runtime_arch.Diagnostics.{AuditTrail}
use translation_runtime_arch.Vm.{Host, Vm, active_module}
use translation_runtime_arch.Vm.Exec.{
  Exec, Outcome, ok, err, Attempt, returned, thrown, attempt, caught, pure, raise, gets, modify,
  ◌>>=◌, ◌>>◌, continue,
}
use translation_runtime_arch.Vm.Triple.{After, Triple, IsAny, IsTra, triple-bind}
use translation_runtime_arch.Isa.Analyze.{analyze_document}
use translation_runtime_arch.Isa.Logs.{steady, analyze_document-Calm}
use translation_runtime_arch.Isa.Translate.{Llm}
use translation_runtime_arch.Kernel.{
  Kernel, KernelState, bootstrap, initialize_runtime, transition, enter, on_vm, change, recover,
}
use translation_runtime_arch.Kernel
use translation_runtime_arch.Kernel.Hitl.{Reviewer}
use translation_runtime_arch.Kernel.Calm.Translated.{execute_translation-Calm}
use translation_runtime_arch.Kernel.Run.{
  run, is_strict, seed_clock, check_analysis, try_or, handled, after_analysis, continue_run,
  analysis_failed, analysis_outcome, flush_audit,
}
use translation_runtime_arch.Kernel.Lifecycle.{At, Allowed, Certified, RunDone, RunError}
use translation_runtime_arch.Kernel.Ends.{run-ends}
use translation_runtime_arch.Validate.Agreement.{Passes, validate_translation-Passes}
use translation_runtime_arch.Isa.Repair.{is_blocking}
use translation_runtime_arch.Validate.{validate_translation}
use translation_runtime_arch.Isa.Verify.{diagnose}
use translation_runtime_arch.Kernel.Artifacts.{
  kernel_artifacts, Leaves, transition-Leaves, try_or-Leaves, verify_and_emit-Leaves,
}
use translation_runtime_arch.Validate.Artifacts.{
  analyze_document-source, Never, IsZhEn, HasGlossary, HasArtifacts, makes_glossary, makes_table,
  from_steady,
}

-- any exception
abbrev Any : Exception → Kernel → Type 0
Any e k = Unit

-- beside a fact that no action can change
module _ (C : Type 0) {S A : Type 0} (P : S → Type 0) (Q : S → Type 0) where
  After-also : (p : Outcome A × S) → After (λ _. Q) Never p → C → After (λ _ s. Q s × C) Never p
  After-also (ok a, s) q c = (q, c)
  After-also (err e, s) q c = q

  also : (m : Exec S A) → Triple P m (λ _. Q) Never → Triple (λ s. P s × C) m (λ _ s. Q s × C) Never
  also m t s p = After-also (m s) (t s p.0) p.1

-- a fact on the artifacts, behind an action that leaves them alone
module _ (F : Kernel → Type 0)
    (respects : (k k' : Kernel) → kernel_artifacts k' ≡ kernel_artifacts k → F k → F k') where
  After-kept :
      {A : Type 0} (k : Kernel) (p : Outcome A × Kernel)
      → F k
      → After
          (λ _ k'. kernel_artifacts k' ≡ kernel_artifacts k)
          (λ e k'. IsAny e × (kernel_artifacts k' ≡ kernel_artifacts k))
          p
      → After (λ _. F) Any p
  After-kept k (ok a, k') f c = respects k k' c f
  After-kept k (err e, k') f c = tt

  keeps : {A : Type 0} (m : Exec Kernel A) → Leaves m → Triple F m (λ _. F) Any
  keeps m c k f = After-kept k (m k) f (c k)

-- an instruction that does not raise, under the kernel's handler
module _ (h : Host) (P Q : Vm → Type 0) where
  After-handled :
      {A : Type 0} (instead : A) (k : Kernel) (p : Outcome A × Vm)
      → After (λ _. Q) Never p
      → let q = caught p.0 p.1 in
        After (λ _ k'. Q k'.vm) Any (continue q.0 (handled h instead) (record k { vm = q.1 }))
  unfolding caught continue handled pure
  After-handled instead k (ok a, v) c = c
  After-handled instead k (err e, v) c = absurd c

  handles :
      {A : Type 0} (instead : A) (m : Exec Vm A)
      → Triple P m (λ _. Q) Never
      → Triple (λ k. P k.vm) (try_or h instead m) (λ _ k. Q k.vm) Any
  unfolding try_or on_vm attempt ◌>>=◌
  handles instead m t k p = After-handled instead k (m k.vm) (t k.vm p)

module _ (h : Host) (source : String) where
  -- the analysis of the source succeeds
  abbrev pub Analyzes : Type 0
  Analyzes = (v : Vm) → (analyze_document h source v).0 ≡ ok tt

  abbrev Ready : Kernel → Type 0
  Ready k = IsZhEn h source k.vm × (is_strict k.level ≡ true)

  abbrev pub Made : Kernel → Type 0
  Made k = HasArtifacts h source k.vm × Analyzes

  Analyzed : Attempt (Unit {0}) → Kernel → Type 0
  Analyzed (returned u) k = Ready k × Analyzes
  Analyzed (thrown e) k = Ready k

  After-Analyzed :
      (k : Kernel) (p : Outcome (Unit {0}) × Vm)
      → Ready k
      → After (λ _ w. steady w ≡ steady k.vm) (λ e w. IsTra e × (steady w ≡ steady k.vm)) p
      → (p.0 ≡ ok tt → Analyzes)
      → let q = caught p.0 p.1 in After Analyzed Any (q.0, record k { vm = q.1 })
  unfolding caught Analyzed
  After-Analyzed k (ok u, v) r c o = ((from_steady h source k.vm v c r.0, r.1), o refl)
  After-Analyzed k (err (tra e), v) r c o = (from_steady h source k.vm v c.1 r.0, r.1)
  After-Analyzed k (err (other e), v) r c o = tt

  analyzed : Triple Ready (on_vm (attempt (analyze_document h source))) Analyzed Any
  unfolding on_vm attempt
  analyzed k r =
      After-Analyzed k (analyze_document h source k.vm) r (analyze_document-Calm h source k.vm)
        (λ o v. analyze_document-source h source v k.vm ∙ o)

  failed : (e : TraException) → Triple Ready (analysis_failed h e) (λ _. Made) Any
  unfolding analysis_failed analysis_outcome ◌>>=◌ continue modify gets change flush_audit raise
  failed e k r =
      subst⁻¹
        (λ b. After (λ _. Made) Any (analysis_outcome e b (flush_audit (change (recover h e) k))))
        r.1 tt

  After-and :
      (C : Type 0) (p : Outcome (Unit {0}) × Kernel)
      → After (λ _. Ready) Any p
      → C
      → After (λ _ k. IsZhEn h source k.vm × C) Any p
  After-and C (ok a, k) r c = (r.0, c)
  After-and C (err e, k) r c = tt

  Made-respects : (k k' : Kernel) → kernel_artifacts k' ≡ kernel_artifacts k → Made k → Made k'
  unfolding HasArtifacts HasGlossary IsZhEn active_module
  Made-respects k k' e ((g, t), o) = (
    (
      (ap (λ x. from_option (zh_en h.unicode) x.0.0) e ∙ g.0, ap (λ x. x.0.1) e ∙ g.1),
      ap (λ x. x.1) e ∙ t,
    ),
    o,
  )

  -- a transition, if it is accepted, and the clock
  enters : (next : KernelState) → Triple Ready (transition next) (λ _. Ready) Any
  unfolding transition enter IsZhEn active_module
  enters next k r = ground (arith, r.0, r.1)

  seeds : (k : Kernel) → Ready k → Ready (seed_clock h source k)
  unfolding seed_clock change IsZhEn active_module
  seeds k r = if-holds Ready k.deterministic _ _ r r

  checks : Triple Ready check_analysis (λ _. Ready) Any
  unfolding check_analysis
  checks k r = ground (arith, r.0, r.1)

  module _ (reviewer : Reviewer) (llm : Option Llm) where
    continued :
        Triple (λ k. Ready k × Analyzes) (continue_run h reviewer llm source) (λ _. Made) Any
    unfolding continue_run
    continued =
        triple-bind (λ _. Made) _ Any _ _
          (triple-bind (λ _. Made) _ Any _ _
            (triple-bind (λ _. Made) _ Any _ _
              (triple-bind (λ _ k. HasGlossary h source k.vm × Analyzes) _ Any _ _
                (triple-bind (λ _ k. IsZhEn h source k.vm × Analyzes) _ Any _ _
                  (λ k r.
                    After-and Analyzes _
                      (triple-bind (λ _. Ready) _ Any _ _ (enters (Kernel.analyze_document))
                        (λ _. checks) k r.0)
                      r.1)
                  (λ _. handles h _ _ [] _ (also Analyzes _ _ _ (makes_glossary h source))))
                (λ _. handles h _ _ [] _ (also Analyzes _ _ _ (makes_table h source))))
              (λ _. keeps Made Made-respects _ (transition-Leaves (Kernel.build_artifacts))))
            (λ _.
              keeps Made Made-respects _
                (try_or-Leaves h "" _ (execute_translation-Calm h llm source))))
          (λ target. keeps Made Made-respects _ (verify_and_emit-Leaves h reviewer source target))

    resumed :
        (r : Attempt (Unit {0}))
        → Triple (Analyzed r) (after_analysis h reviewer llm source r) (λ _. Made) Any
    unfolding after_analysis Analyzed
    resumed (returned u) = continued
    resumed (thrown e) = failed e

    started :
        Triple Ready
          (modify (seed_clock h source) >> transition initialize_runtime)
          (λ _. Ready)
          Any
    unfolding ◌>>=◌ modify continue
    started k r = enters initialize_runtime (seed_clock h source k) (seeds k r)

    pub run-Made : Triple Ready (run h reviewer llm source) (λ _. Made) Any
    unfolding run
    run-Made =
        triple-bind Analyzed _ Any _ _ (triple-bind (λ _. Ready) _ Any _ _ started (λ _. analyzed))
          resumed

-- what the gate has certified
certified :
    (h : Host) (source target : String) (l : ConformanceLevel) (k : Kernel)
    → is_strict l ≡ true
    → RunDone h source l target k
    → filter is_blocking (diagnose h k.vm.ctx target source) ≡ []
unfolding RunDone Certified
certified h source target l k s (inl (p, c)) = (subst (λ b. Certified b h source target k) s c).0
certified h source target l k s (inr (p, e, f)) = absurd (ground (arith, s, f))

published :
    (h : Host) (source : String) (l level : ConformanceLevel) (audit : AuditTrail)
    → is_strict l ≡ true
    → (p : Outcome String × Kernel) → After (λ _. Made h source) Any p
    → After (RunDone h source l) (RunError l) p
    → After
        (λ target k'. Passes (validate_translation h source target level audit))
        (λ e k'. Allowed (is_strict l) e)
        p
unfolding RunError
published h source l level audit s (ok target, k) made done =
    validate_translation-Passes h source target level audit k.vm k.vm (made.1 k.vm) made.0
      (certified h source target l k s done)
published h source l level audit s (err e, k) made done = done.0

-- A run of a fresh kernel at L3 or L4 with the ZH <-> EN module either returns a target that passes
-- the standalone validation of the source and that target at any level, which does not raise, or it
-- raises, and the exception is a `ConformanceFailure` or no `TRAException`.
pub run-Passes :
    (h : Host) (reviewer : Reviewer) (llm : Option Llm) (source : String)
    (l level : ConformanceLevel) (k : Kernel) (audit : AuditTrail)
    → At bootstrap l k
    → is_strict l ≡ true
    → active_module h k.vm.ctx ≡ zh_en h.unicode
    → After
        (λ target k'. Passes (validate_translation h source target level audit))
        (λ e k'. Allowed (is_strict l) e)
        (run h reviewer llm source k)
unfolding IsZhEn
run-Passes h reviewer llm source l level k audit p s z =
    let strict = ap (λ (t : KernelState × List String × ConformanceLevel). is_strict t.2) p ∙ s in
    published h source l level audit s (run h reviewer llm source k)
      (run-Made h source reviewer llm k (z, strict)) (run-ends h source l reviewer llm k p)
