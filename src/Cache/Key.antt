-- ===== src/Cache/Key.antt =====
-- cache.py: canonical JSON payloads and the cache key.
use translation_runtime_arch.Prelude.{ℕ, String, Bool, Option, none, some, List, [], ◌∷◌, map}
use translation_runtime_arch.Text.Order.{sorted}
use translation_runtime_arch.Memory.{
  GlossaryEntry, Entity, GlossaryStatus, canonical, context_sensitive, PolicyPriority,
  entity_type_value,
}
use translation_runtime_arch.Policy.{value}

mutual
  pub data Json : Type 0 where
    null : Json
    boolean : Bool → Json
    number : ℕ → Json
    text : String → Json
    array : Items → Json
    object : Fields → Json

  pub data Items : Type 0 where
    nil : Items
    item : Json → Items → Items

  pub data Fields : Type 0 where
    end : Fields
    field : String → Json → Fields → Fields

abbrev array_of : List Json → Items
array_of [] = nil
array_of (j ∷ js) = item j (array_of js)

optional_text : Option String → Json
optional_text none = null
optional_text (some s) = text s

status_value : GlossaryStatus → String
status_value canonical = "canonical"
status_value context_sensitive = "context_sensitive"

-- `model_dump()`
dump_glossary : GlossaryEntry → Json
unfolding optional_text status_value
dump_glossary g = object (
    field "source" (text g.source) (
      field "target" (text g.target) (
        field "status" (text (status_value g.status))
          (field "rule_id" (optional_text g.rule_id) (field "confidence_note" null end)))))

dump_entity : Entity → Json
unfolding optional_text
dump_entity e = object (
    field "name" (text e.name) (
      field "type" (text (entity_type_value e.kind))
        (field "mutable" (boolean e.mutable_) (field "context" (optional_text e.context) end))))

pub record CacheKeyContext : Type 0 where
  pub source_text : String
  pub glossary : List GlossaryEntry
  pub entities : List Entity
  pub model_endpoint : String
  pub model_version : String
  pub policy_stack : List PolicyPriority

-- The digest of a text, and `json.dumps` with sorted keys.
pub record Hashing : Type 0 where
  pub sha256 : String → String
  pub canonical_json : Json → String

module _ (h : Hashing) where
  unfoldable pub hash_canonical_json : Json → String
  hash_canonical_json j = h.sha256 (h.canonical_json j)

  unfoldable pub hash_set : List Json → String
  hash_set items =
      hash_canonical_json (array (array_of (map text (sorted (map hash_canonical_json items)))))

  -- `CacheKeyContext.key`
  unfoldable pub key : CacheKeyContext → String
  unfolding dump_glossary dump_entity
  key k = hash_canonical_json (
      object (
        field "source" (text k.source_text) (
          field "glossary_hash" (text (hash_set (map dump_glossary k.glossary))) (
            field "entity_hash" (text (hash_set (map dump_entity k.entities))) (
              field "model_endpoint" (text k.model_endpoint) (
                field "model_version" (text k.model_version) (
                  field "policy_stack_hash"
                    (text (
                      hash_canonical_json
                        (array (array_of (map (λ p. number (value p)) k.policy_stack)))))
                    end)))))))
