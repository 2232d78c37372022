-- ===== src/Kernel/Export.antt =====
-- kernel.py: `_export_artifacts` and `_export_forensics`, on files that can be written, and `run` with
-- the exports at its end. How an artifact is dumped (YAML, JSON) is a parameter. The file of the audit
-- trace and the directory of the cache are not among these files: they are parts of the kernel's state,
-- and lie elsewhere.
pub mod Files
use translation_runtime_arch.Prelude.{String, Option, none, some, List, [], ◌∷◌, ◌++◌}
use translation_runtime_arch.Text.{◌+++◌}
use translation_runtime_arch.Dict.{Dict, put}
use translation_runtime_arch.Memory.{
  ConformanceLevel, l4_forensic, GlossaryEntry, Entity, Nodes, RepairAttempt,
}
use translation_runtime_arch.Modules.{LanguageModule}
use translation_runtime_arch.Reporting.{TraceLine, line_by_line_trace}
use translation_runtime_arch.Vm.{Host, Vm, Context}
use translation_runtime_arch.Vm.Exec.{Outcome, ok, err}
use translation_runtime_arch.Isa.Translate.{Llm}
use translation_runtime_arch.Kernel.{Kernel, KernelState, emit_payload}
use translation_runtime_arch.Kernel.Hitl.{Reviewer}
use translation_runtime_arch.Kernel.Run.{run}

-- how the artifacts are dumped; the style profile is that of the selected module
pub record Dumps : Type 0 where
  pub glossary : List GlossaryEntry → String
  pub entities : List Entity → String
  pub structural_map : Nodes → String
  pub style_profile : Option LanguageModule → String
  pub execution_log : List String → List String → String
  pub repair : RepairAttempt → String
  pub trace_line : TraceLine → String
  pub ambiguities : List String → String

-- the files besides the audit trace and the cache, by their paths
abbrev pub Files : Type 0
Files = Dict String

-- `base / name`
abbrev pub at : String → String → String
at base name = base +++ "/" +++ name

-- one line for each item
lines_of : {A : Type 0} → (A → String) → List A → String
lines_of dump [] = ""
lines_of dump (x ∷ xs) = dump x +++ "\n" +++ lines_of dump xs

map_artifact : Dumps → Option Nodes → List (String × String)
map_artifact d none = []
map_artifact d (some nodes) = ("structural_map.json", d.structural_map nodes) ∷ []

-- what `_export_artifacts` writes, in its order
unfoldable pub artifacts : Dumps → Context → List (String × String)
unfolding map_artifact lines_of
artifacts d ctx =
    ("glossary.yaml", d.glossary ctx.glossary_cache)
    ∷ ("entity_table.yaml", d.entities ctx.entity_table)
    ∷ (map_artifact d ctx.structural_map
        ++ ("style_profile.yaml", d.style_profile ctx.module_)
          ∷ ("execution_log.json", d.execution_log ctx.execution_log ctx.unresolved_ambiguities)
          ∷ ("repair_history.jsonl", lines_of d.repair ctx.repair_history)
          ∷ [])

-- what `_export_forensics` writes
unfoldable pub forensics : Dumps → ConformanceLevel → String → Vm → List (String × String)
unfolding lines_of
forensics d l4_forensic target v =
    ("evidence_trace.jsonl", lines_of d.trace_line (line_by_line_trace target v.evidence))
    ∷ ("ambiguity_register.json", d.ambiguities v.ctx.unresolved_ambiguities)
    ∷ []
forensics d level target v = []

unfoldable pub write_all : String → List (String × String) → Files → Files
write_all base [] files = files
write_all base ((name, text) ∷ rest) files = write_all base rest (put (at base name) text files)

-- both exports
unfoldable pub export_all : Dumps → String → String → Kernel → Files → Files
export_all d base target k files =
    write_all base (forensics d k.level target k.vm) (write_all base (artifacts d k.vm.ctx) files)

exports_in : Dumps → String → String → KernelState → Kernel → Files → Files
exports_in d base target emit_payload k files = export_all d base target k files
exports_in d base target state k files = files

exported : Dumps → String → Files → Outcome String × Kernel → Outcome String × (Kernel × Files)
unfolding exports_in
exported d base files (ok target, k) = (ok target, (k, exports_in d base target k.state k files))
exported d base files (err e, k) = (err e, (k, files))

-- `run` with the exports: they stand behind the transition to EMIT_PAYLOAD, so that a run which
-- returns from another state has not come to them.
unfoldable pub run_and_export :
    Host
    → Reviewer
    → Option Llm
    → String
    → Dumps
    → String
    → Kernel
    → Files
    → Outcome String × (Kernel × Files)
unfolding exported
run_and_export h reviewer llm source d base k files =
    exported d base files (run h reviewer llm source k)
