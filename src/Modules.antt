-- ===== src/Modules.antt =====
-- modules/base.py, modules/registry.py: the contract of a language module and the registry. A module
-- that lacks a method cannot be written here, so the `isinstance` test of `register` is left out.
pub mod ZhEn
pub mod Registration
pub mod Bundled
use translation_runtime_arch.Prelude.{
  String, Bool, false, not, ◌&&◌, Option, none, some, List, [], map, if◌then◌else◌, ◌==◌,
}
use translation_runtime_arch.Text.{strip, truthy}
use translation_runtime_arch.Dict.{Dict, put, get, delete, has}
use translation_runtime_arch.Memory.{EntityType}

-- What a call of `get_style_profile` does: it raises, returns `None`, or returns a profile, of which
-- the engine only exports the epistemic mapping.
pub data StyleResult : Type 0 where
  raised missing : StyleResult
  profile : Dict String → StyleResult

-- `ModuleInterface`; `direction` is `metadata.get("direction", "")`
-- A module whose methods do not raise and do not change, and whose hint is an entity type, as that of
-- the module that the repository has; the protocol allows any object.
pub record LanguageModule : Type 0 where
  pub name : String
  pub kind : String
  pub direction : String
  pub glossary_mappings : Dict String
  pub style_profile : StyleResult
  pub forbidden_targets : Dict String
  pub is_forbidden : String → String → Bool
  pub entity_type_hint : String → Option EntityType
  pub apply_zh_rules : String → String
  pub apply_rules : String → String → String

pub record ModuleRegistry : Type 0 where
  pub modules : Dict LanguageModule
  pub directions : Dict String

abbrev pub empty_registry : ModuleRegistry
empty_registry = record { modules = []; directions = [] }

pub data RegistryError : Type 0 where
  style_raised style_missing duplicate_name no_direction not_registered : RegistryError
  direction_conflict : String → RegistryError  -- the module that has the direction

pub data Registered : Type 0 where
  done : ModuleRegistry → Registered
  refused : RegistryError → Registered

-- the part of `register` for a language module, and the assignment at its end
index_direction : LanguageModule → String → ModuleRegistry → Registered
index_direction m direction r =
    if not (truthy direction) then refused no_direction else elim (get direction r.directions) [
      | some existing ↦ refused (direction_conflict existing)
      | none ↦ done (record {
        modules = put m.name m r.modules;
        directions = put direction m.name r.directions;
      })
    ]

insert : LanguageModule → ModuleRegistry → Registered
unfolding index_direction
insert m r =
    if has m.name r.modules
    then refused duplicate_name
    else if m.kind == "language"
    then index_direction m (strip m.direction) r
    else done (record r { modules = put m.name m r.modules })

unfoldable pub register : LanguageModule → ModuleRegistry → Registered
unfolding insert
register m r = elim m.style_profile [
  | raised ↦ refused style_raised
  | missing ↦ refused style_missing
  | profile p ↦ insert m r
]

-- `direction and self._directions.get(direction) == name`; here the direction is not stripped
forget_direction : String → LanguageModule → Dict String → Dict String
forget_direction name m directions =
    if m.kind == "language"
    then (if truthy m.direction
          && elim (get m.direction directions) [ none ↦ false | some n ↦ n == name ]
        then delete m.direction directions
        else directions)
    else directions

unfoldable pub unregister : String → ModuleRegistry → Registered
unfolding forget_direction
unregister name r = elim (get name r.modules) [
  | none ↦ refused not_registered
  | some m ↦ done (record {
    modules = delete name r.modules;
    directions = forget_direction name m r.directions;
  })
]

unfoldable pub get_module : String → ModuleRegistry → Option LanguageModule
get_module name r = get name r.modules

unfoldable pub all_modules : ModuleRegistry → List LanguageModule
all_modules r = map (λ p. p.1) r.modules
