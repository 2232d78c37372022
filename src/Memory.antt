-- ===== src/Memory.antt =====
-- memory.py: the data of the runtime context. Types of values that only go into the exported
-- artifacts and steer nothing (`metadata`, `confidence_note`) are left out.
pub mod Leaves
use translation_runtime_arch.Prelude.{
  ℕ, String, Bool, false, Option, none, some, ◌==◌, if◌then◌else◌,
}

pub data Severity : Type 0 where
  blocking warning info : Severity

pub data PolicyPriority : Type 0 where
  factual_integrity structural_integrity entity_preservation : PolicyPriority
  terminological_consistency epistemic_fidelity target_fluency : PolicyPriority

pub data ConformanceLevel : Type 0 where
  l1_basic l2_professional l3_strict l4_forensic : ConformanceLevel

pub data EntityType : Type 0 where
  product api cli version acronym : EntityType

pub data GlossaryStatus : Type 0 where
  canonical context_sensitive : GlossaryStatus

pub data NodeKind : Type 0 where
  heading paragraph list list_item table table_row table_cell code_block : NodeKind
  inline_code link anchor blockquote hr : NodeKind

abbrev pub severity_value : Severity → String
severity_value blocking = "BLOCKING"
severity_value warning = "WARNING"
severity_value info = "INFO"

abbrev pub level_value : ConformanceLevel → String
level_value l1_basic = "L1_BASIC"
level_value l2_professional = "L2_PROFESSIONAL"
level_value l3_strict = "L3_STRICT"
level_value l4_forensic = "L4_FORENSIC"

-- `ConformanceLevel(value)`, where `none` is a `ValueError`
unfoldable pub level_named : String → Option ConformanceLevel
level_named s =
    if s == "L1_BASIC"
    then some l1_basic
    else if s == "L2_PROFESSIONAL"
    then some l2_professional
    else if s == "L3_STRICT"
    then some l3_strict
    else if s == "L4_FORENSIC"
    then some l4_forensic
    else none

abbrev pub entity_type_value : EntityType → String
entity_type_value product = "product"
entity_type_value api = "api"
entity_type_value cli = "cli"
entity_type_value version = "version"
entity_type_value acronym = "acronym"

pub record DocumentProfile : Type 0 where
  pub type_ : String
  pub register_ : String
  pub intent : String
  pub audience : String
  pub evidence_style : Option String

-- `StructuralNode`; its `children` are a list of the block
mutual
  pub data StructuralNode : Type 0 where
    node :
        NodeKind  -- kind
        → Option ℕ  -- level
        → Option String  -- text
        → Nodes  -- children
        → Option String  -- original_slug
        → Option String  -- placeholder
        → Bool  -- is_no_translate_zone
        → StructuralNode

  pub data Nodes : Type 0 where
    no_nodes : Nodes
    next_node : StructuralNode → Nodes → Nodes

pub record GlossaryEntry : Type 0 where
  pub source : String
  pub target : String
  pub status : GlossaryStatus
  pub rule_id : Option String

pub record ForbiddenMapping : Type 0 where
  pub source : String
  pub forbidden_target : String
  pub rationale : String

pub record Entity : Type 0 where
  pub name : String
  pub kind : EntityType
  pub mutable_ : Bool
  pub context : Option String

pub record RepairAttempt : Type 0 where
  pub segment_index : ℕ
  pub attempt : ℕ
  pub subsystem : String
  pub issue : String
  pub before : String
  pub after : String
  pub evidence_id : Option String
  pub resolved : Bool

abbrev pub kind_of : StructuralNode → NodeKind
kind_of (node k l t cs s p z) = k

abbrev pub text_of : StructuralNode → Option String
text_of (node k l t cs s p z) = t

abbrev pub children_of : StructuralNode → Nodes
children_of (node k l t cs s p z) = cs

abbrev pub is_no_translate_zone : StructuralNode → Bool
is_no_translate_zone (node k l t cs s p z) = z

-- a node with the defaults of the class
abbrev pub plain_node : NodeKind → Option String → Nodes → StructuralNode
plain_node k t cs = node k none t cs none none false
