-- ===== src/Kernel/Bundled.antt =====
-- The module that a kernel selects from the default registry.
use translation_runtime_arch.Prelude.{String, ◌≡◌, refl, some, [], ◌∷◌, arith}
use translation_runtime_arch.Text.{strip}
use translation_runtime_arch.Dict.{put, get, has}
use translation_runtime_arch.Regex.{Unicode}
use translation_runtime_arch.Modules.{ModuleRegistry, done, register, all_modules}
use translation_runtime_arch.Modules.ZhEn.{zh_en}
use translation_runtime_arch.Modules.Bundled.{build_default_registry}
use translation_runtime_arch.Vm.{Host}
use translation_runtime_arch.Kernel.{select_module, select_from}

-- the registry with the ZH <-> EN module
abbrev pub with_zh_en : Unicode → ModuleRegistry
with_zh_en u = record { modules = ("zh_en", zh_en u) ∷ []; directions = ("ZH -> EN", "zh_en") ∷ [] }

pub default_registry : (u : Unicode) → build_default_registry u ≡ done (with_zh_en u)
unfolding build_default_registry register zh_en strip has put get
default_registry u = refl

pub selected_default :
    (h : Host) (request : String)
    → select_module h request (some (with_zh_en h.unicode)) ≡ zh_en h.unicode
unfolding select_module select_from all_modules
selected_default h request = ground arith
