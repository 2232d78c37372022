-- ===== src/Isa/Logs/Segments.antt =====
-- TRANSLATE_SEGMENT leaves them alone, too, and with the cache off it raises only a `TRAException`.
use translation_runtime_arch.Prelude.{
  subst⁻¹, false, ap, ◌∙◌, String, ◌≡◌, refl, Option, none, some, List, [], ◌∷◌, arith,
}
use translation_runtime_arch.Modules.{LanguageModule}
use translation_runtime_arch.Diagnostics.{Snapshot}
use translation_runtime_arch.Cache.{
  lookup, TranslationCache, TranslationResult, Codec, store_result, Lookup, miss, found, raised,
  SideEffect,
}
use translation_runtime_arch.Vm.{Host, Vm, log, add_evidence}
use translation_runtime_arch.Vm.Triple.{Calm-weaken, Calm, After, IsAny, IsTra, IsNone}
use translation_runtime_arch.Isa.Translate.{
  Llm, Reply, translate_segment, translate_fresh, translate_rules, rule_translate, emit_again,
  emit_unknown, conclude, follow, degrade, resume, judge, answer, tra_raised, failed,
}
use translation_runtime_arch.Isa.Logs.{execution, kept}

emit_unknown-kept : (ts : List String) (v : Vm) → kept (emit_unknown ts v) ≡ kept v
unfolding emit_unknown log
emit_unknown-kept [] v = refl
emit_unknown-kept (t ∷ ts) v = emit_unknown-kept ts _

emit_again-kept : (ss : List SideEffect) (v : Vm) → kept (emit_again ss v) ≡ kept v
unfolding emit_again log
emit_again-kept [] v = refl
emit_again-kept (s ∷ ss) v = emit_again-kept ss _

store_result-enabled :
    (c : Codec) (k : String) (r : TranslationResult) (cache : TranslationCache)
    → (store_result c k r cache).enabled ≡ cache.enabled
unfolding store_result
store_result-enabled c k r cache = ground arith

conclude-Calm :
    (h : Host) (k s target rationale : String) (effects : List SideEffect) (snapshot : Snapshot)
    → Calm kept IsNone (conclude h k s target rationale effects snapshot)
unfolding conclude add_evidence log
conclude-Calm h k s target rationale effects snapshot v =
    ap (λ b. ((((execution v, b), v.ctx.module_), v.ctx.glossary_cache), v.ctx.entity_table))
      (store_result-enabled h.codec k _ v.cache)

rule_translate-kept :
    (h : Host) (m : Option LanguageModule) (s : String) (v : Vm)
    → kept (rule_translate h m s v).2 ≡ kept v
unfolding rule_translate add_evidence
rule_translate-kept h m s v = refl

translate_rules-Calm : (h : Host) (k s : String) → Calm kept IsNone (translate_rules h k s)
unfolding translate_rules
translate_rules-Calm h k s v =
    let w = rule_translate h none s v in
    conclude-Calm h k s w.0 _ _ _ (emit_unknown w.1 w.2)
    ∙ emit_unknown-kept w.1 w.2
    ∙ rule_translate-kept h none s v

follow-Calm : (h : Host) (k s : String) (r : Reply) → Calm kept IsTra (follow h k s r)
unfolding follow degrade
follow-Calm h k s (answer t) v = conclude-Calm h k s t _ [] [] v
follow-Calm h k s (tra_raised e) v = (tt, refl)
follow-Calm h k s (failed p) v =
    let w = rule_translate h v.ctx.module_ s v in
    conclude-Calm h k s w.0 _ [] _ w.2 ∙ rule_translate-kept h v.ctx.module_ s v

translate_fresh-Calm :
    (h : Host) (llm : Option Llm) (k s : String) → Calm kept IsTra (translate_fresh h llm k s)
unfolding translate_fresh
translate_fresh-Calm h none k s v =
    Calm-weaken kept IsNone IsTra (λ e x. absurd x) (translate_rules h k s)
      (translate_rules-Calm h k s) v
translate_fresh-Calm h (some llm) k s v = follow-Calm h k s (judge s (llm s v.ctx)) v

resume-Calm :
    (h : Host) (llm : Option Llm) (k s : String) (r : Lookup) → Calm kept IsAny (resume h llm k s r)
unfolding resume log
resume-Calm h llm k s raised v = (tt, refl)
resume-Calm h llm k s (found r) v = emit_again-kept r.audit_side_effects _
resume-Calm h llm k s miss v =
    Calm-weaken kept IsTra IsAny (λ e x. tt) (translate_fresh h llm k s)
      (translate_fresh-Calm h llm k s) v

pub translate_segment-Calm :
    (h : Host) (llm : Option Llm) (s : String) → Calm kept IsAny (translate_segment h llm s)
unfolding translate_segment
translate_segment-Calm h llm s v = resume-Calm h llm _ s _ v

missed :
    (h : Host) (llm : Option Llm) (k s : String) (l : Lookup) (v : Vm)
    → l ≡ miss
    → After (λ _ w. kept w ≡ kept v) (λ e w. IsTra e × (kept w ≡ kept v)) (resume h llm k s l v)
unfolding resume
missed h llm k s l v e =
    subst⁻¹
      (λ l.
        After (λ _ w. kept w ≡ kept v) (λ e w. IsTra e × (kept w ≡ kept v)) (resume h llm k s l v))
      e (translate_fresh-Calm h llm k s v)

lookup-disabled :
    (c : Codec) (k : String) (cache : TranslationCache)
    → cache.enabled ≡ false
    → lookup c k cache ≡ miss
unfolding lookup
lookup-disabled c k cache e = ground (arith, e)

-- only the cache raises what is no `TRAException`
pub translate_segment-off :
    (h : Host) (llm : Option Llm) (s : String) (v : Vm)
    → v.cache.enabled ≡ false
    → After
        (λ _ w. kept w ≡ kept v)
        (λ e w. IsTra e × (kept w ≡ kept v))
        (translate_segment h llm s v)
unfolding translate_segment
translate_segment-off h llm s v e = missed h llm _ s _ v (lookup-disabled h.codec _ v.cache e)
