-- ===== src/CommandLine/Commands.antt =====
-- The commands `translate`, `validate` and `cache-clear` of tra_cli.py. A file is the text
-- that is read from it; what is printed is left out.
use translation_runtime_arch.Prelude.{ℕ, String, Bool, true, Option, none, some, if◌then◌else◌}
use translation_runtime_arch.Text.{truthy}
use translation_runtime_arch.Exceptions.{Exception, tra, conformance_failure}
use translation_runtime_arch.Memory.{ConformanceLevel}
use translation_runtime_arch.Diagnostics.{AuditTrail}
use translation_runtime_arch.Modules.{Registered, done, refused}
use translation_runtime_arch.Modules.Bundled.{build_default_registry}
use translation_runtime_arch.Regex.{Unicode}
use translation_runtime_arch.Cache.{TranslationCache, invalidate}
use translation_runtime_arch.Vm.{Host}
use translation_runtime_arch.Vm.Exec.{Outcome, ok, err}
use translation_runtime_arch.Kernel.{new_kernel}
use translation_runtime_arch.Kernel.Hitl.{Reviewer}
use translation_runtime_arch.Kernel.Run.{run}
use translation_runtime_arch.Validate.{ValidationReport, passed, validate_translation}
use translation_runtime_arch.Config.{BootstrapConfig}
use translation_runtime_arch.CommandLine.{resolve_level, normalize_language_pair}

-- How a command ends: with a written file, with an exit code, or with an exception that it lets
-- through, where `bad_level` is the `BadParameter` of click.
pub data Ended : Type 0 where
  wrote : String → Ended
  exited : ℕ → Ended
  bad_level bad_pair bad_registry : Ended
  crashed : Exception → Ended

-- a configuration, or why there is none
pub data Configured : Type 0 where
  configured : BootstrapConfig → Configured
  misused : Ended → Configured

with_level : Option ConformanceLevel → BootstrapConfig → Configured
with_level none cfg = misused bad_level
with_level (some l) cfg = configured (record cfg { conformance_level = l })

-- `if level: …`
unfoldable pub override_level : Unicode → Option String → BootstrapConfig → Configured
unfolding with_level
override_level u none cfg = configured cfg
override_level u (some s) cfg =
    if truthy s then with_level (resolve_level u s) cfg else configured cfg

with_pair : Option String → BootstrapConfig → Configured
with_pair none cfg = misused bad_pair
with_pair (some p) cfg = configured (record cfg { language_pair = p })

-- `if lang: …`
unfoldable pub override_pair : Unicode → Option String → BootstrapConfig → Configured
unfolding with_pair
override_pair u none cfg = configured cfg
override_pair u (some s) cfg =
    if truthy s then with_pair (normalize_language_pair u s) cfg else configured cfg

and_level : Unicode → Option String → Configured → Configured
and_level u level (misused e) = misused e
and_level u level (configured cfg) = override_level u level cfg

-- the options of `translate`, the language pair first
unfoldable pub overridden : Unicode → Option String → Option String → BootstrapConfig → Configured
unfolding and_level
overridden u lang level cfg = and_level u level (override_pair u lang cfg)

-- the end of a run: the target is written, or the exit code is 1
unfoldable pub emitted : Outcome String → Ended
emitted (ok target) = wrote target
emitted (err (tra (conformance_failure m n))) = exited 1
emitted (err e) = crashed e

unfoldable pub translate_in :
    Host → Reviewer → Bool → Bool → String → TranslationCache → BootstrapConfig → Registered → Ended
translate_in h reviewer interactive force source cache cfg (refused e) = bad_registry
translate_in h reviewer interactive force source cache cfg (done registry) =
    emitted
      (run h reviewer none source (
        new_kernel h cfg.conformance_level cfg.repair_max_retries interactive true force
          cfg.language_pair (some registry) cache)).0

unfoldable pub translate_configured :
    Host → Reviewer → Bool → Bool → String → TranslationCache → Configured → Ended
translate_configured h reviewer interactive force source cache (misused e) = e
translate_configured h reviewer interactive force source cache (configured cfg) =
    translate_in h reviewer interactive force source cache cfg (build_default_registry h.unicode)

-- `translate`
unfoldable pub translate :
    Host
    → Reviewer
    → BootstrapConfig
    → Option String
    → Option String
    → Bool
    → Bool
    → String
    → TranslationCache
    → Ended
translate h reviewer cfg lang level interactive force source cache =
    translate_configured h reviewer interactive force source cache
      (overridden h.unicode lang level cfg)

-- `_print_validation`
unfoldable pub print_validation : Outcome ValidationReport → Ended
print_validation (ok report) = if passed report then exited 0 else exited 1
print_validation (err e) = crashed e

unfoldable pub validate_configured : Host → String → String → AuditTrail → Configured → Ended
validate_configured h source candidate audit (misused e) = e
validate_configured h source candidate audit (configured cfg) =
    print_validation (validate_translation h source candidate cfg.conformance_level audit).0

-- `validate`
unfoldable pub validate :
    Host → BootstrapConfig → Option String → String → String → AuditTrail → Ended
validate h cfg level source candidate audit =
    validate_configured h source candidate audit (override_level h.unicode level cfg)

-- `cache_clear`: the number of entries that it reports, and the cache
unfoldable pub cache_clear : Option (String → Bool) → TranslationCache → ℕ × TranslationCache
cache_clear pattern_ cache = invalidate pattern_ cache
