-- ===== src/Isa/Entities.antt =====
-- BUILD_ENTITY_TABLE of isa.py.
pub mod Table
use translation_runtime_arch.Prelude.{
  String, Bool, false, Option, none, some, List, [], ◌∷◌, ◌++◌, map, length, elem, ltb, from_option,
  if◌then◌else◌,
}
use translation_runtime_arch.Text.{◌+++◌, join, show}
use translation_runtime_arch.Text.Repr.{repr}
use translation_runtime_arch.Regex.{Unicode, full_match}
use translation_runtime_arch.Memory.{Entity, EntityType, entity_type_value, severity_value}
use translation_runtime_arch.Recovery.{recover_entity_ambiguity, action_value}
use translation_runtime_arch.Diagnostics.{EvidenceRecord, entity_preserved, all, text, number}
use translation_runtime_arch.Modules.{LanguageModule}
use translation_runtime_arch.Utils.{version_re, acronym_re, product_re, extract_entities}
use translation_runtime_arch.Vm.{Host, Vm, log, add_evidence, active_module}
use translation_runtime_arch.Vm.Exec.{Exec, ok}
use translation_runtime_arch.Isa.Common.{hash, slice_last}

named_if : Bool → String → List String
named_if b name = if b then name ∷ [] else []

-- the names of the patterns that match the whole token
unfoldable pub pattern_matches : Unicode → String → List String
unfolding named_if
pattern_matches u token =
    named_if (full_match u (version_re u) token) "VERSION_RE"
    ++ named_if (full_match u acronym_re token) "ACRONYM_RE"
    ++ named_if (full_match u product_re token) "PRODUCT_RE"

-- `repr` of a list of texts
list_repr : List String → String
list_repr names = "[" +++ join ", " (map repr names) +++ "]"

unfoldable pub log_ambiguity : String → List String → Vm → Vm
unfolding list_repr
log_ambiguity token matches v =
    let (report, ambiguities) = recover_entity_ambiguity token v.ctx.unresolved_ambiguities in
    log "EXCEPTION_HANDLER" report.code []
      (("severity", text (severity_value report.severity))
        ∷ ("action", text (action_value report.action))
        ∷ ("detail", text report.detail)
        ∷ ("source_term", text token)
        ∷ (
          "reason",
          text (
              "Token matches "
              +++ show (length matches)
              +++ " entity patterns: "
              +++ list_repr matches),
        )
        ∷ [])
      none (record v { ctx = record v.ctx { unresolved_ambiguities = ambiguities } })

-- the record of a token that the module does not classify and several patterns match
unfoldable pub check_ambiguity : Host → String → Option EntityType → Vm → Vm
unfolding pattern_matches log_ambiguity
check_ambiguity h token (some k) v = v
check_ambiguity h token none v =
    let matches = pattern_matches h.unicode token in
    if ltb 1 (length matches) then log_ambiguity token matches v else v

unfoldable pub final_entity : LanguageModule → Entity → Entity
final_entity m e = record e {
  kind = from_option e.kind (m.entity_type_hint e.name);
  mutable_ = false;
  context = some "source-document";
}

unfoldable pub entity_evidence : Entity → EvidenceRecord
entity_evidence e = record {
  id = "";
  type_ = entity_preserved;
  rule_id = none;
  module_ = "modules.zh_en";
  source_span = e.name;
  target_span = e.name;
  rationale = "Entity preserved verbatim (mutable=False), type=" +++ entity_type_value e.kind;
}

-- the loop over the candidates; the names of `table` are the set `seen`
unfoldable pub collect_table :
    Host → LanguageModule → List Entity → List Entity → Vm → List Entity × Vm
unfolding check_ambiguity final_entity entity_evidence
collect_table h m table [] v = (table, v)
collect_table h m table (e ∷ es) v =
    let skip = collect_table h m table es v in
    let w = check_ambiguity h e.name (m.entity_type_hint e.name) v in
    let final = final_entity m e in
    let keep =
      collect_table h m (table ++ final ∷ []) es (add_evidence h (entity_evidence final) w).1 in
    if elem e.name (map (λ (t : Entity). t.name) table) then skip else keep

unfoldable pub finish_table : Host → String → List Entity → Vm → Vm
finish_table h source table v =
    log "BUILD_ENTITY_TABLE" (hash h source)
      (slice_last (length table) (map (λ (r : EvidenceRecord). r.id) (all v.evidence)))
      (("entity_count", number (length table)) ∷ []) none
      (record v { ctx = record v.ctx { entity_table = table } })

unfoldable pub build_entity_table : Host → String → Exec Vm (List Entity)
unfolding collect_table finish_table
build_entity_table h source v =
    let (table, w) =
      collect_table h (active_module h v.ctx) [] (extract_entities h.unicode source) v in
    (ok table, finish_table h source table w)
