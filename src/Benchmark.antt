-- ===== src/Benchmark.antt =====
-- benchmark.py: the cases of the benchmark suite, run through the kernel and judged by substrings
-- and by the validation of the output.
pub mod Criteria
use translation_runtime_arch.Prelude.{
  ℕ, ◌+◌, ◌-◌, String, Bool, true, false, Option, none, some, List, [], ◌∷◌, ◌++◌, length, filter,
  map, is_empty, eqb, if◌then◌else◌,
}
use translation_runtime_arch.Text.{◌+++◌, contains, show, strip, truthy}
use translation_runtime_arch.Reporting.{split_lines}
use translation_runtime_arch.Text.Repr.{repr}
use translation_runtime_arch.Exceptions.{other}
use translation_runtime_arch.Memory.{ConformanceLevel, level_named, blocking, warning}
use translation_runtime_arch.Diagnostics.{Diagnostic, AuditTrail}
use translation_runtime_arch.Cache.{TranslationCache}
use translation_runtime_arch.Vm.{Host}
use translation_runtime_arch.Vm.Exec.{Outcome, ok, err}
use translation_runtime_arch.Kernel.{Kernel, new_kernel}
use translation_runtime_arch.Kernel.Hitl.{Reviewer}
use translation_runtime_arch.Kernel.Run.{run}
use translation_runtime_arch.Validate.{of_severity, judged, validation_vm}

pub record BenchmarkCase : Type 0 where
  pub id : String
  pub category : String
  pub source : String
  pub level : String
  pub must_contain : List String
  pub must_not_contain : List String
  pub zero_blocking : Bool

pub record CaseResult : Type 0 where
  pub case_id : String
  pub category : String
  pub output : String
  pub blocking_count : ℕ
  pub warning_count : ℕ
  pub failed_checks : List String

unfoldable pub passed : CaseResult → Bool
passed r = is_empty r.failed_checks

-- the loops over the substrings
unfoldable pub missing : String → List String → List String
missing output [] = []
missing output (sub ∷ subs) =
    let rest = missing output subs in
    if contains sub output then rest else ("missing expected substring " +++ repr sub) ∷ rest

unfoldable pub forbidden : String → List String → List String
forbidden output [] = []
forbidden output (sub ∷ subs) =
    let rest = forbidden output subs in
    if contains sub output then ("forbidden substring present " +++ repr sub) ∷ rest else rest

unfoldable pub blocked : ℕ → List String
blocked n = if eqb n 0 then [] else (show n +++ " BLOCKING diagnostic(s) raised") ∷ []

unfoldable pub case_result : BenchmarkCase → String → List Diagnostic → CaseResult
case_result c output ds =
    let n = length (of_severity blocking ds) in
    record {
      case_id = c.id;
      category = c.category;
      output = output;
      blocking_count = n;
      warning_count = length (of_severity warning ds);
      failed_checks =
          missing output c.must_contain ++ forbidden output c.must_not_contain ++ blocked n;
    }

-- the diagnostics of the output, without any if the case does not ask for them
unfoldable pub case_diagnostics :
    Host → BenchmarkCase → AuditTrail → Bool → String → Outcome (List Diagnostic)
case_diagnostics h c audit false output = ok []
case_diagnostics h c audit true output = (judged h c.source output (validation_vm audit)).0

unfoldable pub judged_case : BenchmarkCase → String → Outcome (List Diagnostic) → Outcome CaseResult
judged_case c output (ok ds) = ok (case_result c output ds)
judged_case c output (err e) = err e

unfoldable pub ended_case : Host → BenchmarkCase → AuditTrail → Outcome String → Outcome CaseResult
unfolding judged_case case_diagnostics
ended_case h c audit (ok output) =
    judged_case c output (case_diagnostics h c audit c.zero_blocking output)
ended_case h c audit (err e) = err e

-- `TRAKernel(cfg)` with the fields of the configuration that it reads
unfoldable pub case_kernel : Host → ConformanceLevel → ℕ → String → TranslationCache → Kernel
case_kernel h level max_retries pair cache =
    new_kernel h level max_retries false true false pair none cache

-- a case at the level that its text names
unfoldable pub case_at :
    Host
    → Reviewer
    → ℕ
    → String
    → AuditTrail
    → BenchmarkCase
    → TranslationCache
    → Option ConformanceLevel
    → Outcome CaseResult × TranslationCache
unfolding ended_case
case_at h reviewer max_retries pair audit c cache none = (
  err (
      other ("ValueError(" +++ repr (repr c.level +++ " is not a valid ConformanceLevel") +++ ")")),
  cache,
)
case_at h reviewer max_retries pair audit c cache (some level) =
    let (r, k) = run h reviewer none c.source (case_kernel h level max_retries pair cache) in
    (ended_case h c audit r, k.vm.cache)

-- `run_case`; the cache is that of the directory, which the cases share
unfoldable pub run_case :
    Host
    → Reviewer
    → ℕ
    → String
    → AuditTrail
    → BenchmarkCase
    → TranslationCache
    → Outcome CaseResult × TranslationCache
run_case h reviewer max_retries pair audit c cache =
    case_at h reviewer max_retries pair audit c cache (level_named c.level)

-- `run_all`: a case that raises ends it
unfoldable pub and_rest : Outcome CaseResult → Outcome (List CaseResult) → Outcome (List CaseResult)
and_rest (err e) rs = err e
and_rest (ok r) (err e) = err e
and_rest (ok r) (ok rs) = ok (r ∷ rs)

unfoldable pub run_all :
    Host
    → Reviewer
    → ℕ
    → String
    → AuditTrail
    → List BenchmarkCase
    → TranslationCache
    → Outcome (List CaseResult)
unfolding and_rest
run_all h reviewer max_retries pair audit [] cache = ok []
run_all h reviewer max_retries pair audit (c ∷ cs) cache =
    let (r, cache') = run_case h reviewer max_retries pair audit c cache in
    and_rest r (run_all h reviewer max_retries pair audit cs cache')

unfoldable pub sum : List ℕ → ℕ
sum [] = 0
sum (n ∷ ns) = n + sum ns

pub record SuiteSummary : Type 0 where
  pub total : ℕ
  pub passed_count : ℕ
  pub failed_count : ℕ
  pub blocking_total : ℕ

-- `len(results) - passed`; no more results pass than there are
unfoldable pub summarize : List CaseResult → SuiteSummary
summarize rs =
    let n = length (filter passed rs) in
    record {
      total = length rs;
      passed_count = n;
      failed_count = length rs - n;
      blocking_total = sum (map (λ (r : CaseResult). r.blocking_count) rs);
    }

-- `load_cases`: `validate` is `model_validate_json`, where `none` is a `ValidationError`
add_case : Option BenchmarkCase → Option (List BenchmarkCase) → Option (List BenchmarkCase)
add_case (some c) (some cs) = some (c ∷ cs)
add_case _ _ = none

cases_of : (String → Option BenchmarkCase) → List String → Option (List BenchmarkCase)
unfolding add_case
cases_of validate [] = some []
cases_of validate (l ∷ ls) =
    let rest = cases_of validate ls in
    if truthy (strip l) then add_case (validate (strip l)) rest else rest

unfoldable pub load_cases : (String → Option BenchmarkCase) → String → Option (List BenchmarkCase)
unfolding cases_of
load_cases validate text = cases_of validate (split_lines text)
