-- ===== src/Config.antt =====
-- config.py: the bootstrap configuration, the check of its paths, and how it is read from a file.
pub mod Paths
pub mod Yaml
use translation_runtime_arch.Prelude.{
  ℕ, String, Bool, true, false, not, ◌&&◌, ◌==◌, Option, none, some, List, [], ◌∷◌, ◌++◌,
  if◌then◌else◌, filter,
}
use translation_runtime_arch.Text.{truthy, starts_with, split}
use translation_runtime_arch.Memory.{
  ConformanceLevel, PolicyPriority, level_named, factual_integrity, structural_integrity,
  entity_preservation, terminological_consistency, epistemic_fidelity, target_fluency,
}

abbrev pub default_policy_stack : List PolicyPriority
default_policy_stack =
    factual_integrity ∷ structural_integrity ∷ entity_preservation ∷ terminological_consistency
    ∷ epistemic_fidelity ∷ target_fluency ∷ []

pub record BootstrapConfig : Type 0 where
  pub language_pair : String
  pub domain : String
  pub conformance_level : ConformanceLevel
  pub model_endpoint : String
  pub model_version : String
  pub cache_enabled : Bool
  pub cache_directory : String
  pub repair_max_retries : ℕ
  pub compilation_dir : String
  pub audit_trace : String
  pub base_dir : String

-- The file system: the working directory, and `resolve`, which follows links and dots, on the parts
-- of an absolute path.
pub record FileSystem : Type 0 where
  pub cwd : List String
  pub resolve : List String → List String

-- the parts of a POSIX path
unfoldable pub parts : String → List String
parts path = filter (λ s. truthy s && not (s == ".")) (split b'/' path)

-- `(base / path).resolve()`, where an absolute path stands for itself
unfoldable pub resolved : FileSystem → List String → String → List String
resolved fs base path = fs.resolve (if starts_with path "/" then parts path else base ++ parts path)

-- `relative_to` does not raise
unfoldable pub is_below : List String → List String → Bool
is_below [] path = true
is_below (b ∷ base) [] = false
is_below (b ∷ base) (p ∷ path) = b == p && is_below base path

-- why there is no configuration
pub data Failure : Type 0 where
  missing_key no_mapping unknown_level invalid : String → Failure
  escapes : String → String → Failure

pub data Loaded {ℓ} (A : Type ℓ) : Type ℓ where
  ok : A → Loaded A
  err : Failure → Loaded A

infixl 5 ◌>>=◌ ◌>>◌
abbrev pub ◌>>=◌ {ℓ κ} : {A : Type ℓ} {B : Type κ} → Loaded A → (A → Loaded B) → Loaded B
ok a >>= f = f a
err e >>= f = err e

abbrev pub ◌>>◌ {ℓ κ} : {A : Type ℓ} {B : Type κ} → Loaded A → Loaded B → Loaded B
m >> k = m >>= λ _. k

-- one path of the configuration
unfoldable pub check_path : FileSystem → List String → String → String → Loaded (Unit {0})
check_path fs base field path =
    if is_below base (resolved fs base path) then ok tt else err (escapes field path)

-- `_validate_paths_within_base_dir`
unfoldable pub validate_paths : FileSystem → BootstrapConfig → Loaded BootstrapConfig
validate_paths fs c =
    let base = resolved fs fs.cwd c.base_dir in
    check_path fs base "cache_directory" c.cache_directory
    >> check_path fs base "compilation_dir" c.compilation_dir
    >> check_path fs base "audit_trace" c.audit_trace
    >> ok c

-- what YAML makes of a file
mutual
  pub data Value : Type 0 where
    null other : Value
    text : String → Value
    flag : Bool → Value
    number : ℕ → Value
    mapping : Fields → Value

  pub data Fields : Type 0 where
    end : Fields
    field : String → Value → Fields → Fields

unfoldable pub find : String → Fields → Option Value
find key end = none
find key (field k v fields) = if k == key then some v else find key fields

-- What pydantic makes of a value where a Boolean or a number is wanted. A negative number, which
-- allows no repair either, counts as 0.
pub record Coercion : Type 0 where
  pub as_bool : Value → Option Bool
  pub as_int : Value → Option ℕ

-- `raw[key]`
unfoldable pub required : String → Fields → Loaded Value
required key raw = elim (find key raw) [ none ↦ err (missing_key key) | some v ↦ ok v ]

-- `raw.get(key, default)`
unfoldable pub optional : String → Value → Fields → Value
optional key default raw = elim (find key raw) [ none ↦ default | some v ↦ v ]

-- `raw.get(key, {})` where its `get` is called
unfoldable pub section : String → Fields → Loaded Fields
section key raw = elim (optional key (mapping end) raw) [
  | mapping fields ↦ ok fields
  | _ ↦ err (no_mapping key)
]

as_text : String → Value → Loaded String
as_text name (text s) = ok s
as_text name _ = err (invalid name)

checked {ℓ} : {A : Type ℓ} → String → Option A → Loaded A
checked name none = err (invalid name)
checked name (some a) = ok a

named : Option ConformanceLevel → Loaded ConformanceLevel
named none = err (unknown_level "")
named (some l) = ok l

-- `ConformanceLevel(value)`
as_level : Value → Loaded ConformanceLevel
unfolding named
as_level (text s) = named (level_named s)
as_level _ = err (unknown_level "")

-- `from_yaml` on the mapping that a file holds
unfoldable pub from_yaml : FileSystem → Coercion → Fields → Loaded BootstrapConfig
unfolding as_text checked as_level
from_yaml fs co raw = do
  pair ← required "language_pair" raw
  domain ← required "domain" raw
  level ← required "conformance_level" raw
  conformance_level ← as_level level
  cache ← section "cache" raw
  repair ← section "repair" raw
  artifacts ← section "artifacts" raw
  pair' ← as_text "language_pair" pair
  domain' ← as_text "domain" domain
  endpoint ← as_text "model_endpoint" (optional "model_endpoint" (text "") raw)
  version ← as_text "model_version" (optional "model_version" (text "") raw)
  enabled ← checked "cache_enabled" (co.as_bool (optional "enabled" (flag true) cache))
  directory ← as_text "cache_directory" (optional "directory" (text "./cache") cache)
  retries ← checked "repair_max_retries" (co.as_int (optional "max_retries" (number 3) repair))
  compilation ←
      as_text "compilation_dir"
        (optional "compilation_dir" (text "./compilation_artifacts") artifacts)
  trace ← as_text "audit_trace" (optional "audit_trace" (text "./audit_trace.jsonl") artifacts)
  base ← as_text "base_dir" (optional "base_dir" (text ".") raw)
  validate_paths fs (record {
    language_pair = pair';
    domain = domain';
    conformance_level = conformance_level;
    model_endpoint = endpoint;
    model_version = version;
    cache_enabled = enabled;
    cache_directory = directory;
    repair_max_retries = retries;
    compilation_dir = compilation;
    audit_trace = trace;
    base_dir = base;
  })
