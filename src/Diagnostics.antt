-- ===== src/Diagnostics.antt =====
-- diagnostics.py: evidence records, diagnostics, the evidence registry and the audit trail. The file
-- of the trail is the list of the records that were written to it.
pub mod Trail
pub mod Registry
use translation_runtime_arch.Prelude.{
  ℕ, ◌+◌, String, Bool, Option, none, some, List, [], ◌∷◌, ◌++◌, drop, length, is_empty,
  if◌then◌else◌, map,
}
use translation_runtime_arch.Text.{◌+++◌, truthy, take_text}
use translation_runtime_arch.Memory.{Severity}
use translation_runtime_arch.Dict.{Dict, put, get}

pub data EvidenceType : Type 0 where
  term_match entity_preserved policy_arbitration structural_mapping : EvidenceType
  llm_decision human_override contextual_inference : EvidenceType

abbrev pub evidence_type_value : EvidenceType → String
evidence_type_value term_match = "term_match"
evidence_type_value entity_preserved = "entity_preserved"
evidence_type_value policy_arbitration = "policy_arbitration"
evidence_type_value structural_mapping = "structural_mapping"
evidence_type_value llm_decision = "llm_decision"
evidence_type_value human_override = "human_override"
evidence_type_value contextual_inference = "contextual_inference"

-- `EvidenceRecord`; `confidence_note` is always `None` in the engine
pub record EvidenceRecord : Type 0 where
  pub id : String
  pub type_ : EvidenceType
  pub rule_id : Option String
  pub module_ : String
  pub source_span : String
  pub target_span : String
  pub rationale : String

-- A field of an artifact snapshot.
pub data Datum : Type 0 where
  text : String → Datum
  number : ℕ → Datum
  flag : Bool → Datum
  nothing : Datum

abbrev pub Snapshot : Type 0
Snapshot = List (String × Datum)

pub record AuditRecord : Type 0 where
  pub sequence_id : ℕ
  pub timestamp : ℕ
  pub isa_instruction : String
  pub input_hash : String
  pub artifact_snapshot : Snapshot
  pub evidence_chain : List String
  pub flags_raised : Option (List String)

pub record Diagnostic : Type 0 where
  pub severity : Severity
  pub subsystem : String
  pub issue : String
  pub evidence : String
  pub action : String
  pub segment_index : Option ℕ

-- `EvidenceRegistry._records`
pub record EvidenceRegistry : Type 0 where
  pub records : Dict EvidenceRecord

abbrev pub no_evidence : EvidenceRegistry
no_evidence = record { records = [] }

-- The SHA-256 digest of a text, in hexadecimal.
pub record Digest : Type 0 where
  pub sha256 : String → String
  -- the canonical JSON text of an evidence record's content, its `id` left out
  pub canonical_record : EvidenceRecord → String

module _ (h : Digest) where
  unfoldable pub content_addressed_id : EvidenceRecord → String
  content_addressed_id r = "ev_" +++ take_text 12 (h.sha256 (h.canonical_record r))

  -- `EvidenceRegistry.add`
  pub with_id : EvidenceRecord → EvidenceRecord
  unfolding content_addressed_id
  with_id r = if truthy r.id then r else record r { id = content_addressed_id r }

  unfoldable pub add : EvidenceRecord → EvidenceRegistry → String × EvidenceRegistry
  unfolding with_id
  add r e = let r' = with_id r in (r'.id, record { records = put r'.id r' e.records })

-- `EvidenceRegistry.get`, where `none` is a `KeyError`, and `all`
unfoldable pub get_record : String → EvidenceRegistry → Option EvidenceRecord
get_record i e = get i e.records

unfoldable pub all : EvidenceRegistry → List EvidenceRecord
all e = map (λ p. p.1) e.records

-- `AuditTrail`; `file` is what its path holds, `none` if there is no such file
pub record AuditTrail : Type 0 where
  pub seq : ℕ
  pub buffer : List AuditRecord
  pub flushed : ℕ
  pub clock : ℕ
  pub file : Option (List AuditRecord)

unfoldable pub new_trail : ℕ → Bool → Option (List AuditRecord) → AuditTrail
new_trail clock truncate file = record {
  seq = 0;
  buffer = [];
  flushed = 0;
  clock = clock;
  file = if truncate then none else file;
}

unfoldable pub append :
    String → String → List String → Snapshot → Option (List String) → AuditTrail → AuditTrail
append instruction hash chain snapshot flags t = record t {
  seq = t.seq + 1;
  buffer =
      t.buffer
      ++ record {
        sequence_id = t.seq;
        timestamp = t.clock;
        isa_instruction = instruction;
        input_hash = hash;
        artifact_snapshot = snapshot;
        evidence_chain = chain;
        flags_raised = flags;
      }
        ∷ [];
}

-- `AuditTrail.load`
unfoldable pub load : AuditTrail → List AuditRecord
load t = elim t.file [ none ↦ [] | some l ↦ l ]

unfoldable pub flush : AuditTrail → AuditTrail
unfolding load
flush t =
    if is_empty t.buffer
    then t
    else record t { file = some (load t ++ drop t.flushed t.buffer); flushed = length t.buffer }
