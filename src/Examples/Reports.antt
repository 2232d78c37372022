-- ===== src/Examples/Reports.antt =====
-- Validations, benchmark cases, reports and command lines on concrete inputs.
use translation_runtime_arch.Prelude.{
  ◌==◌, ◌≤◌, ◌+◌, ◌≡◌, refl, ◌⊎◌, true, false, none, some, List, [], ◌∷◌,
}
use translation_runtime_arch.Text.{strip_prefix, strip, contains}
use translation_runtime_arch.Regex.Tests.{ascii}
use translation_runtime_arch.Memory.{l1_basic, l3_strict, level_named}
use translation_runtime_arch.Diagnostics.{AuditTrail, new_trail, append}
use translation_runtime_arch.Cache.{TranslationCache}
use translation_runtime_arch.Vm.{active_module}
use translation_runtime_arch.Cache.{lookup}
use translation_runtime_arch.Cache.Refinement
use translation_runtime_arch.Cache.Refinement.{Call, stored, dropped, replay, run-replay}
use translation_runtime_arch.Kernel.{Kernel}
use translation_runtime_arch.Kernel.Lifecycle.{RunDone}
use translation_runtime_arch.Kernel.Returns.{run-returns}
use translation_runtime_arch.Kernel.Loop.{repair_loop}
use translation_runtime_arch.Kernel.Budget.{repairs_of, repair_loop-repairs}
use translation_runtime_arch.Config.{BootstrapConfig}
use translation_runtime_arch.CommandLine.Commands.{
  translate, overridden, override_pair, override_level,
}
use translation_runtime_arch.CommandLine.{resolve_level}
use translation_runtime_arch.CommandLine.Exit.{IsConformant, translate-IsConformant}
use translation_runtime_arch.Vm.Triple.{After}
use translation_runtime_arch.Kernel.Run.{run, is_strict}
use translation_runtime_arch.Kernel.Lifecycle.{Allowed}
use translation_runtime_arch.Validate.{ValidationReport, validate_translation}
use translation_runtime_arch.Validate.Agreement.{Passes}
use translation_runtime_arch.Validate.Published.{run-Passes}
use translation_runtime_arch.Benchmark.{BenchmarkCase, CaseResult, case_result, run_case}
use translation_runtime_arch.Benchmark.Criteria.{Cleared, run_case-Cleared}
use translation_runtime_arch.CommandLine.{pair_of, cut_last, normalize_language_pair}
use translation_runtime_arch.CommandLine.Pairs.{IsRead, normalize_language_pair-IsRead}
use translation_runtime_arch.Examples.{
  sample, sample_law, codec, active_module, host, kernel, reviewer, diagnostic,
}

abbrev no_cache : TranslationCache
no_cache = record { enabled = true; store = [] }

abbrev calls : List Call
calls = stored "k" sample ∷ dropped (λ k. k == "j") ∷ []

run-replay_example :
    (λ k. lookup codec k (Refinement.run codec calls (record { enabled = true; store = [] })))
    ≡ replay calls (λ k. lookup codec k (record { enabled = true; store = [] }))
run-replay_example =
    run-replay codec calls (record { enabled = true; store = [] }) refl (sample_law, (tt, tt))

repair_loop-repairs_example :
    After
      (λ _ k'. repairs_of k' ≤ repairs_of kernel + kernel.max_retries)
      (λ _ k'. repairs_of k' ≤ repairs_of kernel + kernel.max_retries)
      (repair_loop host reviewer "a" "# A" (diagnostic ∷ []) kernel)
repair_loop-repairs_example = repair_loop-repairs host reviewer "a" "# A" (diagnostic ∷ []) kernel

abbrev config : BootstrapConfig
config = record {
  language_pair = "ZH -> EN";
  domain = "Security Advisory";
  conformance_level = l1_basic;
  model_endpoint = "";
  model_version = "";
  cache_enabled = true;
  cache_directory = "./cache";
  repair_max_retries = 3;
  compilation_dir = "./compilation_artifacts";
  audit_trace = "./audit_trace.jsonl";
  base_dir = ".";
}

abbrev strict_config : BootstrapConfig
strict_config = record config { conformance_level = l3_strict }

translate-IsConformant_example :
    IsConformant host strict_config "# A"
      (new_trail 0 true none)
      (translate host reviewer config none (some "L3_STRICT") false false "# A" no_cache)
unfolding overridden override_pair override_level resolve_level level_named is_strict
translate-IsConformant_example =
    translate-IsConformant host reviewer config strict_config none (some "L3_STRICT") false false
      "# A" no_cache (new_trail 0 true none) refl refl

abbrev trail : AuditTrail
trail =
    append "VERIFY_OUTPUT" "h" [] [] (some ("BLOCKING" ∷ "WARNING" ∷ [])) (new_trail 0 true none)

abbrev report : ValidationReport
report = record { diagnostics = diagnostic ∷ []; level = l3_strict }

abbrev case_ : BenchmarkCase
case_ = record {
  id = "S1";
  category = "S";
  source = "# A";
  level = "L3_STRICT";
  must_contain = "A" ∷ [];
  must_not_contain = "runtime" ∷ [];
  zero_blocking = true;
}

run-Passes_example :
    After
      (λ target k'. Passes (validate_translation host "# A" target l3_strict trail))
      (λ e k'. Allowed (is_strict l3_strict) e)
      (run host reviewer none "# A" kernel)
unfolding is_strict active_module
run-Passes_example =
    run-Passes host reviewer none "# A" l3_strict l3_strict kernel trail refl refl refl

run_case-Cleared_example :
    Cleared case_ l3_strict (run_case host reviewer 3 "ZH -> EN" trail case_ no_cache)
unfolding is_strict level_named
run_case-Cleared_example =
    run_case-Cleared host reviewer 3 "ZH -> EN" trail case_ no_cache l3_strict refl refl

abbrev results : List CaseResult
results = case_result case_ "# A" [] ∷ case_result case_ "runtime" (diagnostic ∷ []) ∷ []

normalize_language_pair-IsRead_example :
    IsRead ascii (strip " zh-en") "->" "zh -> en"
    ⊎ ((contains "->" (strip " zh-en") ≡ false) × IsRead ascii (strip " zh-en") "-" "zh -> en")
unfolding normalize_language_pair cut_last pair_of strip contains strip_prefix
normalize_language_pair-IsRead_example =
    normalize_language_pair-IsRead ascii " zh-en" "zh -> en" refl

-- the kernel at L1, without a cache
abbrev basic : Kernel
basic = record kernel {
  level = l1_basic;
  vm = record kernel.vm { cache = record { enabled = false; store = [] } };
}

run-returns_example :
    After (RunDone host "# A" l1_basic) (λ e k'. ⊥) (run host reviewer none "# A" basic)
unfolding is_strict
run-returns_example = run-returns host reviewer none "# A" l1_basic basic refl refl refl
