-- ===== src/Vm.antt =====
-- The state that the instructions of isa.py share, `RuntimeContext` with the registries that they are
-- handed, and actions that change it and may raise.
pub mod Exec
pub mod Triple
use translation_runtime_arch.Prelude.{String, Option, none, List, [], from_option}
use translation_runtime_arch.Regex.{Unicode}
use translation_runtime_arch.Memory.{DocumentProfile, GlossaryEntry, Entity, Nodes, RepairAttempt}
use translation_runtime_arch.Diagnostics.{
  Digest, AuditTrail, EvidenceRegistry, EvidenceRecord, Snapshot, append, add,
}
use translation_runtime_arch.Anchor.{AnchorRegistry}
use translation_runtime_arch.Builder.{Tokenized}
use translation_runtime_arch.Cache.{Codec, TranslationCache}
use translation_runtime_arch.Cache.Key.{Hashing}
use translation_runtime_arch.Modules.{LanguageModule}
use translation_runtime_arch.Modules.ZhEn.{zh_en}

-- What the engine takes from the standard library and from third-party packages: the Unicode
-- database, SHA-256 and JSON, the codec of the cache, and markdown-it's parser.
pub record Host : Type 0 where
  pub unicode : Unicode
  pub digest : Digest
  pub hashing : Hashing
  pub codec : Codec
  pub parse : String → Tokenized

-- `RuntimeContext`; the configuration and the style profile in it are only exported
pub record Context : Type 0 where
  pub document_profile : Option DocumentProfile
  pub glossary_cache : List GlossaryEntry
  pub entity_table : List Entity
  pub structural_map : Option Nodes
  pub unresolved_ambiguities : List String
  pub execution_log : List String
  pub repair_history : List RepairAttempt
  pub module_ : Option LanguageModule
  pub anchor_registry : Option AnchorRegistry

abbrev pub new_context : Option LanguageModule → Context
new_context m = record {
  document_profile = none;
  glossary_cache = [];
  entity_table = [];
  structural_map = none;
  unresolved_ambiguities = [];
  execution_log = [];
  repair_history = [];
  module_ = m;
  anchor_registry = none;
}

pub record Vm : Type 0 where
  pub ctx : Context
  pub audit : AuditTrail
  pub evidence : EvidenceRegistry
  pub cache : TranslationCache

-- `audit.append(...)`
unfoldable pub log : String → String → List String → Snapshot → Option (List String) → Vm → Vm
log instruction hash chain snapshot flags v = record v {
  audit = append instruction hash chain snapshot flags v.audit;
}

-- `evidence.add(...)`
unfoldable pub add_evidence : Host → EvidenceRecord → Vm → String × Vm
add_evidence h r v = let (i, e) = add h.digest r v.evidence in (i, record v { evidence = e })

-- `_module(ctx)` of isa.py
unfoldable pub active_module : Host → Context → LanguageModule
active_module h ctx = from_option (zh_en h.unicode) ctx.module_
