-- ===== src/Kernel.antt =====
-- kernel.py: the lifecycle of a run. Its parts are the child modules; Kernel.Export has the artifacts
-- that a run writes beside the audit trail.
pub mod Hitl
pub mod Translation
pub mod Links
pub mod Loop
pub mod Run
pub mod Calm
pub mod Lifecycle
pub mod Path
pub mod Gate
pub mod Ends
pub mod Artifacts
pub mod Quiet
pub mod Returns
pub mod Rounds
pub mod Budget
pub mod Selection
pub mod Bundled
pub mod Export
use translation_runtime_arch.Prelude.{
  ℕ, ◌+◌, ◌*◌, ◌-◌, ◌%◌, String, code, Bool, true, false, not, ◌&&◌, Option, none, some, List, [],
  ◌∷◌, ◌++◌, leb, if◌then◌else◌, ◌==◌, from_option, is_some,
}
use translation_runtime_arch.Text.{◌+++◌, strip, contains, before_first, truthy, take_text}
use translation_runtime_arch.Exceptions.{
  TraException, tra, tra_error, glossary_conflict, exception_repr,
}
use translation_runtime_arch.Memory.{ConformanceLevel, severity_value}
use translation_runtime_arch.Recovery.{route_exception, action_value}
use translation_runtime_arch.Diagnostics.{Datum, text, nothing, no_evidence, new_trail}
use translation_runtime_arch.Cache.{TranslationCache}
use translation_runtime_arch.Modules.{LanguageModule, ModuleRegistry, all_modules}
use translation_runtime_arch.Modules.ZhEn.{zh_en}
use translation_runtime_arch.Redaction.{redact}
use translation_runtime_arch.Vm.{Host, Vm, new_context, log}
use translation_runtime_arch.Vm.Exec.{Exec, ok, err}
use Prim.Native.String

pub data KernelState : Type 0 where
  bootstrap initialize_runtime analyze_document build_artifacts execute_translation : KernelState
  verify_output repair_if_needed audit_diagnostics emit_payload : KernelState

-- `_KERNEL_ORDER.index(state)`
abbrev pub order : KernelState → ℕ
order bootstrap = 0
order initialize_runtime = 1
order analyze_document = 2
order build_artifacts = 3
order execute_translation = 4
order verify_output = 5
order repair_if_needed = 6
order audit_diagnostics = 7
order emit_payload = 8

abbrev pub state_value : KernelState → String
state_value bootstrap = "BOOTSTRAP"
state_value initialize_runtime = "INITIALIZE_RUNTIME"
state_value analyze_document = "ANALYZE_DOCUMENT"
state_value build_artifacts = "BUILD_ARTIFACTS"
state_value execute_translation = "EXECUTE_TRANSLATION"
state_value verify_output = "VERIFY_OUTPUT"
state_value repair_if_needed = "REPAIR_IF_NEEDED"
state_value audit_diagnostics = "AUDIT_DIAGNOSTICS"
state_value emit_payload = "EMIT_PAYLOAD"

-- `TRAKernel` with the fields of its configuration that a run reads
pub record Kernel : Type 0 where
  pub level : ConformanceLevel
  pub max_retries : ℕ
  pub interactive : Bool
  pub deterministic : Bool
  pub force_unrecoverable : Bool
  pub state : KernelState
  pub vm : Vm

-- `s.split("->", 1)[0].strip() if "->" in s else ""`
unfoldable pub source_language : String → String
source_language direction =
    if contains "->" direction then strip (before_first "->" direction) else ""

unfoldable pub normalized_direction : Host → LanguageModule → String
normalized_direction h m = h.unicode.lower (strip m.direction)

-- the loop over the registry, with the first module that matches by source language only
unfoldable pub select_from :
    Host → String → Option LanguageModule → List LanguageModule → Option LanguageModule
unfolding source_language normalized_direction
select_from h request fallback [] = fallback
select_from h request fallback (m ∷ ms) =
    let skip = select_from h request fallback ms in
    let keep = select_from h request (some m) ms in
    let direction = normalized_direction h m in
    let source = source_language request in
    if not (m.kind == "language")
    then skip
    else if truthy direction && direction == request
    then some m
    else if not (is_some fallback) && truthy source && source_language direction == source
    then keep
    else skip

-- `_select_module`
unfoldable pub select_module : Host → String → Option ModuleRegistry → LanguageModule
unfolding select_from
select_module h language_pair none = zh_en h.unicode
select_module h language_pair (some registry) =
    from_option (zh_en h.unicode)
      (select_from h (h.unicode.lower (strip language_pair)) none (all_modules registry))

-- `int(s, 16)` of hexadecimal digits, from the value of the digits before them
hex_digit : ℕ → ℕ
hex_digit c =
    if leb b'0' c && leb c b'9' then c - b'0' else if leb b'a' c && leb c b'f' then c - 87 else 0

hex_from : ℕ → String → ℕ
unfolding hex_digit
hex_from n String.[] = n
hex_from n (String.◌∷◌ c s) = hex_from (n * 16 + hex_digit (code c)) s

-- `_deterministic_clock`, in seconds since 2024-01-01
unfoldable pub deterministic_clock : String → ℕ
unfolding hex_from
deterministic_clock seed = hex_from 0 (take_text 8 seed) % 31536000

-- `__init__`, which truncates the file of the audit trail
unfoldable pub new_kernel :
    Host
    → ConformanceLevel
    → ℕ
    → Bool
    → Bool
    → Bool
    → String
    → Option ModuleRegistry
    → TranslationCache
    → Kernel
new_kernel h level max_retries interactive deterministic force language_pair registry cache =
    record {
      level = level;
      max_retries = max_retries;
      interactive = interactive;
      deterministic = deterministic;
      force_unrecoverable = force;
      state = bootstrap;
      vm = record {
        ctx = new_context (some (select_module h language_pair registry));
        audit = new_trail (deterministic_clock "0000000000000000") true none;
        evidence = no_evidence;
        cache = cache;
      };
    }

-- an instruction on the state of the kernel
unfoldable pub on_vm : {A : Type 0} → Exec Vm A → Exec Kernel A
on_vm m k = let (r, v) = m k.vm in (r, record k { vm = v })

-- a change of the shared state
unfoldable pub change : (Vm → Vm) → Kernel → Kernel
change f k = record k { vm = f k.vm }

unfoldable pub add_ambiguity : String → Vm → Vm
add_ambiguity s v = record v {
  ctx = record v.ctx { unresolved_ambiguities = v.ctx.unresolved_ambiguities ++ s ∷ [] };
}

unfoldable pub enter : KernelState → Kernel → Kernel
enter next k = record k {
  state = next;
  vm = record k.vm {
    ctx = record k.vm.ctx { execution_log = k.vm.ctx.execution_log ++ state_value next ∷ [] };
  };
}

-- `_transition`; every state is in the order
unfoldable pub transition : KernelState → Exec Kernel (Unit {0})
transition next k =
    if leb (order next) (order k.state)
    then (
      err (
          tra (
            tra_error (
              "Illegal backward or same-state transition: "
              +++ state_value k.state
              +++ " -> "
              +++ state_value next))),
      k,
    )
    else (ok tt, enter next k)

-- `getattr(exc, "canonical_target", "")`
canonical_target : TraException → String
canonical_target (glossary_conflict m term canonical) = canonical
canonical_target _ = ""

optional_datum : Option String → Datum
optional_datum none = nothing
optional_datum (some s) = text s

-- `_recover`
unfoldable pub recover : Host → TraException → Vm → Vm
unfolding canonical_target optional_datum
recover h e v =
    let (report, ambiguities) =
      route_exception e v.ctx.unresolved_ambiguities false (canonical_target e) in
    log "EXCEPTION_HANDLER" report.code []
      (("severity", text (severity_value report.severity))
        ∷ ("action", text (action_value report.action))
        ∷ ("detail", text (redact h.unicode report.detail))
        ∷ ("source_term", optional_datum report.source_term)
        ∷ ("reason", text (redact h.unicode (exception_repr e)))
        ∷ [])
      (some (severity_value report.severity ∷ []))
      (record v { ctx = record v.ctx { unresolved_ambiguities = ambiguities } })
