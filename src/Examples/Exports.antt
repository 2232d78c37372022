-- ===== src/Examples/Exports.antt =====
-- The export of artifacts on a concrete run.
use translation_runtime_arch.Prelude.{refl, none, [], ◌∷◌}
use translation_runtime_arch.Memory.{l3_strict}
use translation_runtime_arch.Text.{join}
use translation_runtime_arch.Kernel.Export.{Dumps, Files, run_and_export}
use translation_runtime_arch.Kernel.Export.Files.{Leaves, run_and_export-Leaves}
use translation_runtime_arch.Examples.{host, kernel, reviewer}

abbrev dumps : Dumps
dumps = record {
  glossary = λ g. "glossary";
  entities = λ e. "entities";
  structural_map = λ m. "map";
  style_profile = λ m. "style";
  execution_log = λ log ambiguities. join "," log;
  repair = λ r. "repair";
  trace_line = λ t. t.text;
  ambiguities = join ",";
}

abbrev files : Files
files = ("out/glossary.yaml", "old") ∷ ("README.md", "text") ∷ []

run_and_export-Leaves_example :
    Leaves dumps "out" files l3_strict
      (run_and_export host reviewer none "# A" dumps "out" kernel files)
run_and_export-Leaves_example =
    run_and_export-Leaves dumps "out" files l3_strict host reviewer none "# A" kernel refl
