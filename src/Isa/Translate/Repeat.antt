-- ===== src/Isa/Translate/Repeat.antt =====
-- A segment that is translated twice.
use translation_runtime_arch.Prelude.{
  String, ◌≡◌, refl, ◌∙◌, ap, sym, true, false, none, List, [], ◌∷◌, arith,
}
use translation_runtime_arch.Dict.{eq_self}
use translation_runtime_arch.Diagnostics.{Snapshot}
use translation_runtime_arch.Cache.{
  IsCodec, SideEffect, TranslationCache, TranslationResult, miss, found, lookup, store_result,
}
use translation_runtime_arch.Cache.Integrity.{lookup-store_result}
use translation_runtime_arch.Vm.{Host, Vm, log, add_evidence}
use translation_runtime_arch.Vm.Exec.{Outcome, ok, err}
use translation_runtime_arch.Isa.Translate.{
  ◌∷◌, translate_segment, translate_rules, cache_key, resume, emit_unknown, rule_translate,
  conclude, translate_fresh, with_callback,
}

emit_unknown-cache : (ts : List String) (v : Vm) → (emit_unknown ts v).cache ≡ v.cache
unfolding emit_unknown log
emit_unknown-cache [] v = refl
emit_unknown-cache (t ∷ ts) v = emit_unknown-cache ts _

enabled :
    (h : Host) (segment : String) (v : Vm)
    → v.cache.enabled ≡ true
    → let w = rule_translate h none segment v in (emit_unknown w.1 w.2).cache.enabled ≡ true
unfolding rule_translate
enabled h segment v e =
    let w = rule_translate h none segment v in
    ap (λ (c : TranslationCache). c.enabled) (emit_unknown-cache w.1 w.2) ∙ e

behind_miss :
    (h : Host) (k segment : String) (v : Vm)
    → lookup h.codec k v.cache ≡ miss
    → resume h none k segment (lookup h.codec k v.cache) v ≡ translate_rules h k segment v
unfolding resume translate_fresh
behind_miss h k segment v m = ap (λ l. resume h none k segment l v) m

abbrev value_of : TranslationResult → Outcome TranslationResult → TranslationResult
value_of r (ok a) = a
value_of r (err e) = r

-- a result that comes from the cache
abbrev pub as_hit : TranslationResult → TranslationResult
as_hit r = record r { cache_hit = true }

module _ (h : Host) (r : TranslationResult) (law : IsCodec h.codec r) (k segment : String) where
  hit :
      (cache : TranslationCache)
      → cache.enabled ≡ true
      → lookup h.codec k (store_result h.codec k r cache) ≡ found (as_hit r)
  hit cache e = lookup-store_result h.codec r law k k cache ∙ ground (arith, eq_self k)

  conclude-as_hit :
      (target rationale : String) (effects : List SideEffect) (snapshot : Snapshot) (v u : Vm)
      → v.cache.enabled ≡ true
      → (conclude h k segment target rationale effects snapshot v).0 ≡ ok r
      → u.cache ≡ (conclude h k segment target rationale effects snapshot v).1.cache
      → (resume h none k segment (lookup h.codec k u.cache) u).0 ≡ ok (as_hit r)
  unfolding conclude add_evidence log resume
  conclude-as_hit target rationale effects snapshot v u e q p =
      ap (λ l. (resume h none k segment l u).0)
        (ap (λ c. lookup h.codec k c) p
          ∙ ap (λ x. lookup h.codec k (store_result h.codec k x v.cache)) (ap (value_of r) q)
          ∙ hit v.cache e)

  rules-as_hit :
      (v u : Vm)
      → v.cache.enabled ≡ true
      → (translate_rules h k segment v).0 ≡ ok r
      → u.cache ≡ (translate_rules h k segment v).1.cache
      → (resume h none k segment (lookup h.codec k u.cache) u).0 ≡ ok (as_hit r)
  unfolding translate_rules
  rules-as_hit v u e q p =
      let w = rule_translate h none segment v in
      conclude-as_hit _ _ _ _ (emit_unknown w.1 w.2) u (enabled h segment v e) q p

-- On the rule path a translation is reproduced from the cache: where the first call misses in an
-- enabled cache and returns a result that its dump gives back, a second call with the same key and
-- the cache that the first one left returns that result, marked as a hit.
pub translate_segment-as_hit :
    (h : Host) (segment : String) (v u : Vm) (r : TranslationResult)
    → IsCodec h.codec r
    → v.cache.enabled ≡ true
    → lookup h.codec (cache_key h false segment v.ctx) v.cache ≡ miss
    → (translate_segment h none segment v).0 ≡ ok r
    → cache_key h false segment u.ctx ≡ cache_key h false segment v.ctx
    → u.cache ≡ (translate_segment h none segment v).1.cache
    → (translate_segment h none segment u).0 ≡ ok (as_hit r)
unfolding translate_segment with_callback
translate_segment-as_hit h segment v u r law e m q same p =
    let k = cache_key h false segment v.ctx in
    let first = behind_miss h k segment v m in
    ap (λ j. (resume h none j segment (lookup h.codec j u.cache) u).0) same
    ∙ rules-as_hit h r law k segment v u e (sym (ap (λ x. x.0) first) ∙ q)
        (p ∙ ap (λ x. x.1.cache) first)
