-- ===== src/Isa/Glossary.antt =====
-- BUILD_GLOSSARY of isa.py. The forbidden mappings that it also returns are not used by its callers.
pub mod Mappings
pub mod Seen
pub mod Conflicts
use translation_runtime_arch.Prelude.{
  String, Option, none, some, List, [], ◌∷◌, ◌++◌, map, length, if◌then◌else◌, ◌==◌,
}
use translation_runtime_arch.Text.{◌+++◌}
use translation_runtime_arch.Text.Repr.{repr}
use translation_runtime_arch.Dict.{Dict, put, get}
use translation_runtime_arch.Exceptions.{TraException, new_glossary_conflict}
use translation_runtime_arch.Memory.{GlossaryEntry, canonical}
use translation_runtime_arch.Diagnostics.{EvidenceRecord, term_match, all, number}
use translation_runtime_arch.Modules.{LanguageModule}
use translation_runtime_arch.Vm.{Host, Vm, log, add_evidence, active_module}
use translation_runtime_arch.Vm.Exec.{Exec, raise, pure, modify, ◌>>=◌, ◌>>◌}
use translation_runtime_arch.Isa.Common.{hash, slice_last}

abbrev pub entry_of : String → String → GlossaryEntry
entry_of src tgt = record {
  source = src;
  target = tgt;
  status = canonical;
  rule_id = some "ZH-EN-RULE#CANON";
}

unfoldable pub term_evidence : String → String → EvidenceRecord
term_evidence src tgt = record {
  id = "";
  type_ = term_match;
  rule_id = some "ZH-EN-RULE#CANON";
  module_ = "modules.zh_en";
  source_span = src;
  target_span = tgt;
  rationale = "Matched ZH-EN canonical lexicon: " +++ src +++ " -> " +++ tgt;
}

unfoldable pub drift_conflict : String → String → TraException
drift_conflict src tgt =
    new_glossary_conflict
      ("CONFLICTING_MAPPINGS: " +++ repr src +++ " -> " +++ repr tgt +++ " is a known drift") src ""

unfoldable pub double_conflict : String → String → String → TraException
double_conflict src first tgt =
    new_glossary_conflict
      ("CONFLICTING_MAPPINGS: "
        +++ repr src
        +++ " maps to both "
        +++ repr first
        +++ " and "
        +++ repr tgt)
      src first

unfoldable pub set_glossary : List GlossaryEntry → Vm → Vm
set_glossary entries v = record v { ctx = record v.ctx { glossary_cache = entries } }

-- `src in seen and seen[src] != tgt`, with `seen[src]`
unfoldable pub conflicting : String → Option String → Option String
conflicting tgt none = none
conflicting tgt (some first) = if first == tgt then none else some first

-- the two outcomes of the second test
unfoldable pub add_entry :
    Host
    → List GlossaryEntry
    → String
    → String
    → Option String
    → Exec Vm (List GlossaryEntry)
    → Exec Vm (List GlossaryEntry)
unfolding double_conflict set_glossary term_evidence
add_entry h entries src tgt (some first) next =
    modify (set_glossary entries) >> raise (double_conflict src first tgt)
add_entry h entries src tgt none next =
    modify (λ v. (add_evidence h (term_evidence src tgt) v).1) >> next

-- the loop over the mappings: the entries made so far, and the dict `seen`
unfoldable pub collect_entries :
    Host
    → LanguageModule
    → List GlossaryEntry
    → Dict String
    → Dict String
    → Exec Vm (List GlossaryEntry)
unfolding add_entry conflicting drift_conflict set_glossary
collect_entries h m entries seen [] = pure entries
collect_entries h m entries seen ((src, tgt) ∷ mappings) =
    let next = collect_entries h m (entries ++ entry_of src tgt ∷ []) (put src tgt seen) mappings in
    if m.is_forbidden src tgt
    then modify (set_glossary entries) >> raise (drift_conflict src tgt)
    else add_entry h entries src tgt (conflicting tgt (get src seen)) next

unfoldable pub finish_glossary : Host → String → List GlossaryEntry → Vm → Vm
unfolding set_glossary
finish_glossary h source entries v =
    log "BUILD_GLOSSARY" (hash h source)
      (slice_last (length entries) (map (λ (r : EvidenceRecord). r.id) (all v.evidence)))
      (("glossary_size", number (length entries)) ∷ []) none (set_glossary entries v)

unfoldable pub build_glossary : Host → String → Exec Vm (List GlossaryEntry)
unfolding collect_entries finish_glossary
build_glossary h source v =
    (collect_entries h (active_module h v.ctx) [] [] (active_module h v.ctx).glossary_mappings
        >>= λ entries. modify (finish_glossary h source entries) >> pure entries)
      v
