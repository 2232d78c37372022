-- ===== src/Examples/Configs.antt =====
-- The configuration on concrete files and paths.
use translation_runtime_arch.Prelude.{
  false, filter, ℕ, ◌≡◌, refl, ◌↔◌, String, Bool, true, Option, none, some, List, [], ◌∷◌, ◌++◌,
  ◌==◌, if◌then◌else◌,
}
use translation_runtime_arch.Memory.{level_named, l3_strict}
use translation_runtime_arch.Text.{starts_with, strip_prefix, split}
use translation_runtime_arch.Config.{
  end, mapping, find, text, section, field, optional, required, Fields, escapes, err, parts,
  is_below, resolved, check_path, BootstrapConfig, FileSystem, Coercion, Value, flag, number,
  from_yaml, validate_paths, ok,
}
use translation_runtime_arch.Config.Paths.{IsContained, validate_paths_iff}
use translation_runtime_arch.Config.Yaml.{IsRead, from_yaml-IsRead}

abbrev config : BootstrapConfig
config = record {
  language_pair = "ZH -> EN";
  domain = "Security Advisory";
  conformance_level = l3_strict;
  model_endpoint = "openai/gpt-4o-mini";
  model_version = "2024-07-18";
  cache_enabled = true;
  cache_directory = "./cache";
  repair_max_retries = 3;
  compilation_dir = "./compilation_artifacts";
  audit_trace = "./audit_trace.jsonl";
  base_dir = ".";
}

abbrev parent : List String → List String
parent [] = []
parent (p ∷ []) = []
parent (p ∷ q ∷ ps) = p ∷ parent (q ∷ ps)

-- a file system without links: two dots take back the part before them
abbrev plain : List String → List String → List String
plain done [] = done
plain done (p ∷ path) = plain (if p == ".." then parent done else done ++ p ∷ []) path

abbrev files : FileSystem
files = record { cwd = "srv" ∷ []; resolve = plain [] }

abbrev own_bool : Value → Option Bool
own_bool (flag b) = some b
own_bool v = none

abbrev own_int : Value → Option ℕ
own_int (number n) = some n
own_int v = none

abbrev pydantic : Coercion
pydantic = record { as_bool = own_bool; as_int = own_int }

-- a file with the required keys and one section
abbrev raw : Fields
raw = field "language_pair" (text "ZH -> EN") (
    field "domain" (text "Security Advisory") (
      field "conformance_level" (text "L3_STRICT")
        (field "cache" (mapping (field "enabled" (flag false) end)) end)))

abbrev read : BootstrapConfig
read = record config { model_endpoint = ""; model_version = ""; cache_enabled = false }

from_yaml-IsRead_example : IsRead files pydantic raw read
unfolding from_yaml required optional section find level_named validate_paths check_path resolved
    is_below parts filter starts_with strip_prefix split
from_yaml-IsRead_example = from_yaml-IsRead files pydantic raw read refl

validate_paths_iff_example : (validate_paths files config ≡ ok config) ↔ IsContained files config
validate_paths_iff_example = validate_paths_iff files config

accepted : validate_paths files config ≡ ok config
unfolding validate_paths check_path resolved is_below parts filter starts_with strip_prefix split
accepted = refl

-- a cache directory outside of the base directory is refused
refused :
    validate_paths files (record config { cache_directory = "./cache/../../x" })
    ≡ err (escapes "cache_directory" "./cache/../../x")
unfolding validate_paths check_path resolved is_below parts filter starts_with strip_prefix split
refused = refl
