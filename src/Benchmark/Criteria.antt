-- ===== src/Benchmark/Criteria.antt =====
-- The criteria of a case, and what the gate of the kernel says of them.
use translation_runtime_arch.Prelude.{
  ℕ, ◌+◌, ◌≡◌, refl, subst⁻¹, String, Bool, true, false, not, ◌&&◌, none, some, List, [], ◌∷◌, ◌++◌,
  length, filter, any, is_empty, arith,
}
use translation_runtime_arch.Text.{contains}
use translation_runtime_arch.Memory.{ConformanceLevel, level_named, blocking}
use translation_runtime_arch.Diagnostics.{Diagnostic, AuditTrail}
use translation_runtime_arch.Cache.{TranslationCache}
use translation_runtime_arch.Vm.{Host, Vm, active_module}
use translation_runtime_arch.Vm.Exec.{Outcome, ok, err, pure, continue, ◌>>=◌}
use translation_runtime_arch.Vm.Triple.{After}
use translation_runtime_arch.Kernel.{Kernel, new_kernel, select_module}
use translation_runtime_arch.Kernel.Hitl.{Reviewer}
use translation_runtime_arch.Kernel.Run.{is_strict}
use translation_runtime_arch.Kernel.Lifecycle.{Allowed}
use translation_runtime_arch.Validate
use translation_runtime_arch.Validate.{
  of_severity, judged, validation_vm, validate_translation, blocking_of,
}
use translation_runtime_arch.Validate.Agreement.{Passes}
use translation_runtime_arch.Validate.Published.{run-Passes}
use translation_runtime_arch.Benchmark.{
  BenchmarkCase, CaseResult, passed, missing, forbidden, blocked, case_result, case_diagnostics,
  judged_case, ended_case, case_kernel, case_at, run_case, summarize,
}

-- the substrings that a case asks for, and those that it forbids
unfoldable pub has_substrings : BenchmarkCase → String → Bool
has_substrings c output =
    not (any (λ s. not (contains s output)) c.must_contain)
    && not (any (λ s. contains s output) c.must_not_contain)

missing-empty :
    (output : String) (subs : List String)
    → is_empty (missing output subs) ≡ not (any (λ s. not (contains s output)) subs)
unfolding missing any
missing-empty output [] = refl
missing-empty output (s ∷ subs) = ground (arith, missing-empty output subs)

forbidden-empty :
    (output : String) (subs : List String)
    → is_empty (forbidden output subs) ≡ not (any (λ s. contains s output) subs)
unfolding forbidden any
forbidden-empty output [] = refl
forbidden-empty output (s ∷ subs) = ground (arith, forbidden-empty output subs)

is_empty-append : {A : Type 0} (xs ys : List A) → is_empty (xs ++ ys) ≡ (is_empty xs && is_empty ys)
is_empty-append [] ys = refl
is_empty-append (x ∷ xs) ys = refl

is_empty-blocked : (ds : List Diagnostic) → is_empty (blocked (length ds)) ≡ is_empty ds
unfolding blocked
is_empty-blocked [] = refl
is_empty-blocked (d ∷ ds) = ground arith

-- A result passes exactly if the output has every substring that the case asks for and none that it
-- forbids, and no diagnostic is blocking.
pub case_result-passed :
    (c : BenchmarkCase) (output : String) (ds : List Diagnostic)
    → passed (case_result c output ds)
      ≡ (has_substrings c output && is_empty (of_severity blocking ds))
unfolding passed case_result has_substrings
case_result-passed c output ds =
    let m = missing output c.must_contain in
    let f = forbidden output c.must_not_contain in
    let b = blocked (length (of_severity blocking ds)) in
    ground (
      arith,
      is_empty-append m (f ++ b),
      is_empty-append f b,
      missing-empty output c.must_contain,
      forbidden-empty output c.must_not_contain,
      is_empty-blocked (of_severity blocking ds),
    )

is_empty-length : {A : Type 0} (xs : List A) → is_empty xs ≡ true → length xs ≡ 0
is_empty-length [] e = refl
is_empty-length (x ∷ xs) e = ground (arith, e)

-- what a case yields whose level is strict
abbrev pub Cleared :
    BenchmarkCase → ConformanceLevel → Outcome CaseResult × TranslationCache → Type 0
Cleared c l (ok r, cache) = (r.blocking_count ≡ 0) × (passed r ≡ has_substrings c r.output)
Cleared c l (err e, cache) = Allowed (is_strict l) e

cleared :
    (c : BenchmarkCase) (l : ConformanceLevel) (output : String) (ds : List Diagnostic)
    (cache : TranslationCache)
    → is_empty (of_severity blocking ds) ≡ true
    → Cleared c l (ok (case_result c output ds), cache)
unfolding case_result
cleared c l output ds cache e =
    (is_empty-length (of_severity blocking ds) e, ground (arith, case_result-passed c output ds, e))

-- the validation of an output, behind what the report makes of it
diagnosed :
    (c : BenchmarkCase) (l : ConformanceLevel) (output : String) (cache : TranslationCache)
    (p : Outcome (List Diagnostic) × Vm)
    → Passes (continue p.0 (λ ds. pure (record { diagnostics = ds; level = l })) p.1)
    → Cleared c l (judged_case c output p.0, cache)
unfolding continue pure judged_case blocking_of Validate.passed
diagnosed c l output cache (ok ds, v) h = cleared c l output ds cache h
diagnosed c l output cache (err e, v) h = absurd h

asked :
    (h : Host) (c : BenchmarkCase) (l : ConformanceLevel) (audit : AuditTrail) (output : String)
    (cache : TranslationCache) (b : Bool)
    → Passes (validate_translation h c.source output l audit)
    → Cleared c l (judged_case c output (case_diagnostics h c audit b output), cache)
unfolding case_diagnostics validate_translation ◌>>=◌ judged_case of_severity filter
asked h c l audit output cache false p = cleared c l output [] cache refl
asked h c l audit output cache true p =
    diagnosed c l output cache (judged h c.source output (validation_vm audit)) p

ended :
    (h : Host) (c : BenchmarkCase) (l : ConformanceLevel) (audit : AuditTrail)
    (p : Outcome String × Kernel)
    → After
        (λ target k'. Passes (validate_translation h c.source target l audit))
        (λ e k'. Allowed (is_strict l) e)
        p
    → Cleared c l (ended_case h c audit p.0, p.1.vm.cache)
unfolding ended_case
ended h c l audit (ok output, k) a = asked h c l audit output k.vm.cache c.zero_blocking a
ended h c l audit (err e, k) a = a

-- A case at L3 or L4 ends with a result without blocking diagnostics, which passes exactly if the
-- output has the substrings that the case asks for and none that it forbids, or it raises what the
-- kernel's run raises, a `ConformanceFailure` or no `TRAException`; the criterion `zero_blocking`
-- never fails it.
pub run_case-Cleared :
    (h : Host) (reviewer : Reviewer) (max_retries : ℕ) (pair : String) (audit : AuditTrail)
    (c : BenchmarkCase) (cache : TranslationCache) (l : ConformanceLevel)
    → level_named c.level ≡ some l
    → is_strict l ≡ true
    → Cleared c l (run_case h reviewer max_retries pair audit c cache)
unfolding run_case case_at case_kernel new_kernel active_module select_module
run_case-Cleared h reviewer max_retries pair audit c cache l e s =
    subst⁻¹ (λ o. Cleared c l (case_at h reviewer max_retries pair audit c cache o)) e
      (ended h c l audit _ (
        run-Passes h reviewer none c.source l l (case_kernel h l max_retries pair cache) audit refl
          s refl))

partition :
    {A : Type 0} (p : A → Bool) (xs : List A)
    → length (filter p xs) + length (filter (λ x. not (p x)) xs) ≡ length xs
unfolding filter
partition p [] = omega arith
partition p (x ∷ xs) = ground (arith, partition p xs)

-- The results that pass and those that fail add up to all results, and the failed ones are those
-- with a failed check.
pub summarize-adds_up :
    (rs : List CaseResult)
    → let s = summarize rs in
      (s.passed_count + s.failed_count ≡ s.total)
      × (s.failed_count ≡ length (filter (λ r. not (passed r)) rs))
unfolding summarize filter
summarize-adds_up rs = let e = partition passed rs in (omega (arith, e), omega (arith, e))
