-- ===== src/Modules/Bundled.antt =====
-- The registries of modules/registry.py with the modules that come with the engine.
use translation_runtime_arch.Prelude.{String, Bool, true, List, [], ◌∷◌, if◌then◌else◌, ◌==◌}
use translation_runtime_arch.Text.{contains, before_first, strip}
use translation_runtime_arch.Regex.{Unicode}
use translation_runtime_arch.Modules.{
  LanguageModule, Registered, done, refused, empty_registry, register, all_modules,
}
use translation_runtime_arch.Modules.ZhEn.{zh_en}

-- `build_default_registry`
unfoldable pub build_default_registry : Unicode → Registered
build_default_registry u = register (zh_en u) empty_registry

-- `s.split("->", 1)[0].strip().lower()`
side : Unicode → String → String
side u s = u.lower (strip (before_first "->" s))

-- whether the registry of a pair keeps a module
unfoldable pub serves : Unicode → String → LanguageModule → Bool
unfolding side
serves u pair m = if m.kind == "language" then side u m.direction == side u pair else true

-- the loop over the modules, up to a registration that is refused
unfoldable pub scoped : Unicode → String → List LanguageModule → Registered → Registered
scoped u pair ms (refused e) = refused e
scoped u pair [] (done r) = done r
scoped u pair (m ∷ ms) (done r) =
    scoped u pair ms (if serves u pair m then register m r else done r)

unfoldable pub restricted : Unicode → String → Registered → Registered
restricted u pair (refused e) = refused e
restricted u pair (done r) =
    if contains "->" pair then scoped u pair (all_modules r) (done empty_registry) else done r

-- `registry_for_language_pair`
unfoldable pub registry_for_language_pair : Unicode → String → Registered
unfolding restricted
registry_for_language_pair u pair = restricted u pair (build_default_registry u)
