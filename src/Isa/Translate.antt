-- ===== src/Isa/Translate.antt =====
-- TRANSLATE_SEGMENT of isa.py.
mod StopWords
pub mod Repeat
use translation_runtime_arch.Prelude.{
  String, Bool, true, false, ◌&&◌, ◌||◌, Option, none, some, List, [], ◌∷◌, ◌++◌, map, length, drop,
  elem, any, leb, is_empty, from_option, if◌then◌else◌, ◌==◌,
}
use translation_runtime_arch.Text.{◌+++◌, contains, strip, split, truthy, len}
use translation_runtime_arch.Text.Repr.{repr}
use translation_runtime_arch.Regex.{Regex, plus, range, find_all, Match}
use translation_runtime_arch.Dict.{Dict, get}
use translation_runtime_arch.Exceptions.{TraException, tra, other, new_certainty_conflict}
use translation_runtime_arch.Memory.{Entity}
use translation_runtime_arch.Policy.{default_stack}
use translation_runtime_arch.Recovery.{recover_unknown_term}
use translation_runtime_arch.Diagnostics.{
  AuditRecord, EvidenceRecord, llm_decision, Snapshot, text, flag,
}
use translation_runtime_arch.Cache.{
  SideEffect, TranslationResult, Lookup, miss, found, raised, lookup, store_result,
}
use translation_runtime_arch.Cache.Key.{key}
use translation_runtime_arch.Modules.{LanguageModule}
use translation_runtime_arch.Modules.ZhEn.{zh_en, epistemic_lexicon, forbidden_targets, replace_all}
use translation_runtime_arch.Utils.{sanitize_input}
use translation_runtime_arch.Redaction.{redact}
use translation_runtime_arch.Vm.{Host, Context, Vm, log, add_evidence}
use translation_runtime_arch.Vm.Exec.{Exec, ok, err}
use translation_runtime_arch.Isa.Common.{glossary_dict}
use StopWords.{cjk_stop_words}

-- What the callback `llm_translate` does: it returns a text, or raises. An exception that is no
-- `TRAException` is its `repr`; `None` for a text is such an exception, raised by `sanitize_input`.
pub data Reply : Type 0 where
  answer : String → Reply
  tra_raised : TraException → Reply
  failed : String → Reply

abbrev pub Llm : Type 0
Llm = String → Context → Reply

-- `_CJK_RE`
cjk_re : Regex
cjk_re = plus (range 0x4e00 0x9fff)

-- `any(src in token for src in known_sources if len(src) >= 2)`
holds_known : List String → String → Bool
holds_known known token = any (λ src. leb 2 (len src) && contains src token) known

-- the loop of `_log_unknown_cjk`: the ambiguities and the unknown tokens so far
unfoldable pub log_tokens :
    List String → List Match → List String → List String → List String × List String
unfolding holds_known
log_tokens known [] ambiguities unknown = (unknown, ambiguities)
log_tokens known (m ∷ ms) ambiguities unknown =
    let token = m.text in
    let skip = log_tokens known ms ambiguities unknown in
    let noted =
      log_tokens known ms (recover_unknown_term token ambiguities).1
        (if elem token unknown then unknown else unknown ++ token ∷ []) in
    if elem token cjk_stop_words || elem token known || holds_known known token then skip else noted

-- `_log_unknown_cjk`
unfoldable pub log_unknown_cjk :
    Host → String → Dict String → List Entity → List String → List String × List String
unfolding cjk_re log_tokens
log_unknown_cjk h target glossary entities ambiguities =
    log_tokens
      (map (λ p. p.0) glossary
        ++ map (λ p. p.0) epistemic_lexicon
        ++ map (λ (e : Entity). e.name) entities)
      (find_all h.unicode cjk_re target) ambiguities []

-- the three substitution passes of `_rule_translate`
unfoldable pub substitute : Host → Option LanguageModule → String → Dict String → String
substitute h m segment glossary =
    replace_all glossary
      (replace_all epistemic_lexicon ((from_option (zh_en h.unicode) m).apply_zh_rules segment))

-- `_rule_translate`: the target and the unknown tokens
unfoldable pub rule_translate :
    Host → Option LanguageModule → String → Vm → String × List String × Vm
rule_translate h m segment v =
    let glossary = glossary_dict v.ctx.glossary_cache in
    let target = substitute h m segment glossary in
    let (unknown, ambiguities) =
      log_unknown_cjk h target glossary v.ctx.entity_table v.ctx.unresolved_ambiguities in
    (target, unknown, record v { ctx = record v.ctx { unresolved_ambiguities = ambiguities } })

-- `EXCEPTION_HANDLER` records of unknown terms
unfoldable pub emit_unknown : List String → Vm → Vm
emit_unknown [] v = v
emit_unknown (token ∷ tokens) v = emit_unknown tokens (
    log "EXCEPTION_HANDLER" "UNKNOWN_TERM" []
      (("severity", text "WARNING")
        ∷ ("action", text "PRESERVE_SOURCE")
        ∷ ("detail", text "Term not in glossary or domain module; source preserved.")
        ∷ ("source_term", text token)
        ∷ (
          "reason",
          text ("UnknownTerm(\"UNKNOWN_TERM: " +++ repr token +++ " not in glossary/module\")"),
        )
        ∷ [])
      (some ("WARNING" ∷ [])) v)

-- the records of this call that a cache hit emits again
side_effects : List AuditRecord → List SideEffect
side_effects [] = []
side_effects (r ∷ rs) =
    let rest = side_effects rs in
    if r.isa_instruction == "EXCEPTION_HANDLER" && r.input_hash == "UNKNOWN_TERM"
    then record {
      isa_instruction = r.isa_instruction;
      input_hash = r.input_hash;
      evidence_chain = r.evidence_chain;
      artifact_snapshot = r.artifact_snapshot;
      flags_raised = from_option [] r.flags_raised;
    }
      ∷ rest
    else rest

-- the records of a cache hit
unfoldable pub emit_again : List SideEffect → Vm → Vm
emit_again [] v = v
emit_again (s ∷ ss) v = emit_again ss (
    log s.isa_instruction s.input_hash s.evidence_chain s.artifact_snapshot
      (if is_empty s.flags_raised then none else some s.flags_raised) v)

-- `key_ctx.key()`
unfoldable pub cache_key : Host → Bool → String → Context → String
cache_key h with_llm segment ctx = key h.hashing (record {
  source_text = segment;
  glossary = ctx.glossary_cache;
  entities = ctx.entity_table;
  model_endpoint = if with_llm then "llm" else "rule-based";
  model_version = "zh-en-1.0";
  policy_stack = default_stack;
})

decision : String → String → String → EvidenceRecord
decision segment target rationale = record {
  id = "";
  type_ = llm_decision;
  rule_id = none;
  module_ = "isa.translate_segment";
  source_span = segment;
  target_span = target;
  rationale = rationale;
}

-- evidence, cache entry and audit record of a translation
unfoldable pub conclude :
    Host
    → String
    → String
    → String
    → String
    → List SideEffect
    → Snapshot
    → Exec Vm TranslationResult
unfolding decision
conclude h k segment target rationale effects snapshot v =
    let (i, w) = add_evidence h (decision segment target rationale) v in
    let result : TranslationResult = record {
      translation = target;
      evidence_ids = i ∷ [];
      cache_hit = false;
      audit_side_effects = effects;
    } in
    (
      ok result,
      log "TRANSLATE_SEGMENT" k (i ∷ []) snapshot none
          (record w { cache = store_result h.codec k result w.cache }),
    )

-- the path without a callback; `_rule_translate` is called without the module of the context
unfoldable pub translate_rules : Host → String → String → Exec Vm TranslationResult
unfolding emit_unknown side_effects conclude
translate_rules h k segment v =
    let (target, unknown, w) = rule_translate h none segment v in
    let w' = emit_unknown unknown w in
    conclude h k segment target "rule-based (glossary + entity + epistemic substitution)"
      (side_effects (drop (length v.audit.buffer) w'.audit.buffer)) [] w'

-- the path of an exception that is no `TRAException`
unfoldable pub degrade : Host → String → String → String → Exec Vm TranslationResult
unfolding conclude
degrade h k segment problem v =
    let (target, unknown, w) = rule_translate h v.ctx.module_ segment v in
    let safe = redact h.unicode problem in
    conclude h k segment target
      ("rule-based (glossary + entity + epistemic substitution; degraded from llm_unavailable: "
        +++ safe +++ ")")
      [] (("degraded", flag true) ∷ ("reason", text ("llm_unavailable: " +++ safe)) ∷ []) w

-- the stripped and nonempty forbidden targets of a term
banned_targets : List String → List String
banned_targets [] = []
banned_targets (t ∷ ts) =
    let rest = banned_targets ts in if truthy (strip t) then strip t ∷ rest else rest

-- `_raise_on_certainty_conflict` over the rest of the lexicon: the term that is raised
unfoldable pub certainty_conflict_in : Dict String → String → String → Option String
unfolding banned_targets
certainty_conflict_in [] segment target = none
certainty_conflict_in ((term, canonical) ∷ lexicon) segment target =
    let rest = certainty_conflict_in lexicon segment target in
    let banned = from_option "" (get term forbidden_targets) in
    if contains term segment && any (λ t. contains t target) (banned_targets (split b'/' banned))
    then some term
    else rest

-- what becomes of the callback's text: it is sanitized, must not be empty and must not drift
unfoldable pub judge : String → Reply → Reply
judge segment (tra_raised e) = tra_raised e
judge segment (failed problem) = failed problem
judge segment (answer t) =
    let target = sanitize_input t in
    if truthy target
    then elim (certainty_conflict_in epistemic_lexicon segment target) [
      | none ↦ answer target
      | some term ↦ tra_raised (new_certainty_conflict "" term)
    ]
    else failed "ValueError('llm_translate returned empty/None output')"

unfoldable pub follow : Host → String → String → Reply → Exec Vm TranslationResult
unfolding degrade conclude
follow h k segment (answer target) v =
    conclude h k segment target "LLM decision (glossary + entity + epistemic substitution)" [] [] v
follow h k segment (tra_raised e) v = (err (tra e), v)
follow h k segment (failed problem) v = degrade h k segment problem v

-- behind a miss
unfoldable pub translate_fresh : Host → Option Llm → String → String → Exec Vm TranslationResult
unfolding follow translate_rules
translate_fresh h none k segment v = translate_rules h k segment v
translate_fresh h (some llm) k segment v = follow h k segment (judge segment (llm segment v.ctx)) v

-- behind the look-up of the cache
unfoldable pub resume : Host → Option Llm → String → String → Lookup → Exec Vm TranslationResult
resume h llm k segment raised v = (err (other "cache"), v)
resume h llm k segment (found r) v =
    (ok r, emit_again r.audit_side_effects (log "TRANSLATE_SEGMENT" k r.evidence_ids [] none v))
resume h llm k segment miss v = translate_fresh h llm k segment v

with_callback : Option Llm → Bool
with_callback none = false
with_callback (some llm) = true

unfoldable pub translate_segment : Host → Option Llm → String → Exec Vm TranslationResult
unfolding resume with_callback
translate_segment h llm segment v =
    let k = cache_key h (with_callback llm) segment v.ctx in
    resume h llm k segment (lookup h.codec k v.cache) v
