-- ===== src/Kernel/Ends/Stages.antt =====
-- The stages of a run: what each part of it leaves alone, and the analysis.
use translation_runtime_arch.Prelude.{String, ◌≡◌, refl, ap, ◌∙◌, subst⁻¹, true, arith, is_some}
use translation_runtime_arch.Exceptions.{tra, other}
use translation_runtime_arch.Memory.{ConformanceLevel}
use translation_runtime_arch.Vm.{Host, Vm, log}
use translation_runtime_arch.Vm.Exec.{
  Exec, Outcome, ok, err, Attempt, returned, thrown, attempt, caught, ◌>>=◌, ◌>>◌,
}
use translation_runtime_arch.Vm.Triple.{
  IsNone, Calm-weaken, IsTra, Calm-project, After, Triple, Calm, IsAny, IsFault, triple-bind,
  Calm-bind, Calm-attempt, Calm-modify,
}
use translation_runtime_arch.Isa.Analyze.{analyze_document, accept}
use translation_runtime_arch.Isa.Logs.{kept, stable, steady, execution, analyze_document-Calm}
use translation_runtime_arch.Kernel.{
  Kernel, KernelState, initialize_runtime, transition, enter, on_vm, change,
}
use translation_runtime_arch.Kernel.Calm.Translated.{rewrite_anchors-kept}
use translation_runtime_arch.Kernel.Calm.{
  frame, status, Calm-on_vm, Calm-pure, recover-status, Calm-status,
}
use translation_runtime_arch.Kernel.Run.{
  handled, is_strict, try_or, flush_audit, check_analysis, seed_clock, rewrite,
}
use translation_runtime_arch.Kernel
use translation_runtime_arch.Kernel.Lifecycle.{fault-Allowed, At, Allowed, RunError, to_with}

populates :
    (h : Host) (s : String) (v : Vm)
    → After
        (λ _ w. (is_some w.ctx.document_profile ≡ true) × (is_some w.ctx.structural_map ≡ true))
        (λ e w. Unit)
        (analyze_document h s v)
unfolding analyze_document accept log
populates h s v = ground arith

-- ANALYZE_DOCUMENT has filled the profile and the map
abbrev pub Populated : Kernel → Type 0
Populated k = (is_some k.vm.ctx.document_profile ≡ true) × (is_some k.vm.ctx.structural_map ≡ true)

check_analysis-passes : (k : Kernel) → Populated k → check_analysis k ≡ (ok tt, k)
unfolding check_analysis
check_analysis-passes k p = ground arith

-- the log, of what an instruction leaves alone
pub logged : {A : Type 0} (m : Exec Vm A) → Calm steady IsTra m → Calm execution IsAny m
logged m c =
    Calm-weaken execution IsTra IsAny (λ e x. tt) m (Calm-project steady (λ t. t.0.0) IsTra m c)

pub listed : {A : Type 0} (m : Exec Vm A) → Calm stable IsTra m → Calm execution IsAny m
listed m c =
    Calm-weaken execution IsTra IsAny (λ e x. tt) m (Calm-project stable (λ t. t.0.0.0) IsTra m c)

-- a part that does not raise
pub quiet : {A : Type 0} (m : Exec Kernel A) → Calm frame IsNone m → Calm status IsFault m
quiet m c = Calm-status IsFault m (Calm-weaken frame IsNone IsFault (λ e x. absurd x) m c)

pub untouched : {A : Type 0} (m : Exec Vm A) → Calm kept IsAny m → Calm execution IsAny m
untouched m c = Calm-project kept (λ t. t.0.0.0.0) IsAny m c

pub handled-Calm :
    (h : Host) {A : Type 0} (instead : A) (r : Attempt A)
    → Calm status IsFault (handled h instead r)
unfolding handled
handled-Calm h instead (returned a) = Calm-pure status IsFault a
handled-Calm h instead (thrown e) =
    Calm-bind status IsFault _ _ (Calm-modify status IsFault _ (recover-status h e))
      (λ _. Calm-pure status IsFault instead)

pub flush_audit-status : (k : Kernel) → status (flush_audit k) ≡ status k
unfolding flush_audit change
flush_audit-status k = refl

pub seed_clock-status :
    (h : Host) (source : String) (k : Kernel) → status (seed_clock h source k) ≡ status k
unfolding seed_clock change
seed_clock-status h source k = ground arith

module _ (h : Host) (source : String) (l : ConformanceLevel) where
  -- behind ANALYZE_DOCUMENT, which is done or raised
  unfoldable pub Analyzed : Attempt (Unit {0}) → Kernel → Type 0
  Analyzed (returned u) k = At initialize_runtime l k × Populated k
  Analyzed (thrown e) k = At initialize_runtime l k

  After-analysis :
      (k : Kernel) (p : Outcome (Unit {0}) × Vm)
      → At initialize_runtime l k
      → After
          (λ _ v. execution v ≡ execution k.vm)
          (λ e v. IsAny e × (execution v ≡ execution k.vm))
          p
      → After
          (λ _ w. (is_some w.ctx.document_profile ≡ true) × (is_some w.ctx.structural_map ≡ true))
          (λ e w. Unit)
          p
      → let q = caught p.0 p.1 in After Analyzed (RunError l) (q.0, record k { vm = q.1 })
  unfolding caught Analyzed RunError Allowed
  After-analysis k (ok u, v) p c d = (ap (λ x. (k.state, x, k.level)) c ∙ p, d)
  After-analysis k (err (tra e), v) p c d = ap (λ x. (k.state, x, k.level)) c.1 ∙ p
  After-analysis k (err (other e), v) p c d =
      (fault-Allowed (is_strict l) e, initialize_runtime, ap (λ x. (k.state, x, k.level)) c.1 ∙ p)

  pub analyzed :
      Triple
        (At initialize_runtime l)
        (on_vm (attempt (analyze_document h source)))
        Analyzed
        (RunError l)
  unfolding on_vm attempt
  analyzed k p =
      After-analysis k (analyze_document h source k.vm) p
        (logged _ (analyze_document-Calm h source) k.vm) (populates h source k.vm)

  pub checked :
      Triple
        (λ k. At initialize_runtime l k × Populated k)
        (transition (Kernel.analyze_document) >> check_analysis)
        (λ _. At (Kernel.analyze_document) l)
        (RunError l)
  unfolding enter
  checked =
      triple-bind (λ _ k. At (Kernel.analyze_document) l k × Populated k) _ (RunError l) _ _
        (to_with initialize_runtime (Kernel.analyze_document) l refl refl Populated (λ k p. p))
        (λ _ k p.
          subst⁻¹ (After (λ _. At (Kernel.analyze_document) l) (RunError l))
            (check_analysis-passes k p.1) p.0)

module _ (h : Host) where
  pub try_or-Calm :
      {A : Type 0} (instead : A) (m : Exec Vm A)
      → Calm execution IsAny m
      → Calm status IsFault (try_or h instead m)
  unfolding try_or
  try_or-Calm instead m c =
      Calm-bind status IsFault _ _ (Calm-on_vm execution IsFault _ (Calm-attempt execution m c))
        (handled-Calm h instead)

  pub rewrite-Calm : (target : String) → Calm status IsFault (rewrite h target)
  unfolding rewrite
  rewrite-Calm target =
      Calm-on_vm execution IsFault _ (λ v. ap (λ t. t.0.0.0.0) (rewrite_anchors-kept h target v))

module _ (l : ConformanceLevel) where
  -- an action, and what follows it in a known state
  pub chain :
      {A B : Type 0} (P : Kernel → Type 0) (Q : B → Kernel → Type 0) (x : KernelState)
      (m : Exec Kernel A) (f : A → Exec Kernel B)
      → Triple P m (λ _. At x l) (RunError l)
      → ((a : A) → Triple (At x l) (f a) Q (RunError l))
      → Triple P (m >>= f) Q (RunError l)
  chain P Q x m f = triple-bind (λ _. At x l) Q (RunError l) f m
