-- ===== src/Cache/Refinement.antt =====
-- The signed store as a partial map: what a client of the cache sees over any sequence of calls.
use translation_runtime_arch.Prelude.{
  String, ◌≡◌, refl, ap, ◌∙◌, Bool, true, none, some, List, [], ◌∷◌, All, arith, if◌then◌else◌,
  ◌==◌, eq_iff, Bool-cases, inl, inr, fun_ext,
}
use translation_runtime_arch.Dict.{Dict, get}
use translation_runtime_arch.Cache.{
  TranslationResult, Codec, IsCodec, Raw, TranslationCache, Lookup, miss, found, lookup,
  store_result, invalidate, without,
}
use translation_runtime_arch.Cache.Integrity.{lookup-store_result}

-- `set`, `invalidate()` and `invalidate(pattern)`
pub data Call : Type 0 where
  stored : String → TranslationResult → Call
  cleared : Call
  dropped : (String → Bool) → Call

unfoldable pub perform : Codec → Call → TranslationCache → TranslationCache
perform c (stored key r) cache = store_result c key r cache
perform c cleared cache = (invalidate none cache).1
perform c (dropped matches) cache = (invalidate (some matches) cache).1

unfoldable pub run : Codec → List Call → TranslationCache → TranslationCache
unfolding perform
run c [] cache = cache
run c (x ∷ xs) cache = run c xs (perform c x cache)

-- the same calls on a map from keys to what is read
unfoldable pub effect : Call → (String → Lookup) → String → Lookup
effect (stored key r) f j = if key == j then found (record r { cache_hit = true }) else f j
effect cleared f j = miss
effect (dropped matches) f j = if matches j then miss else f j

unfoldable pub replay : List Call → (String → Lookup) → String → Lookup
unfolding effect
replay [] f = f
replay (x ∷ xs) f = replay xs (effect x f)

-- the results that are stored are read back by the parser
abbrev pub IsReadable : Codec → Call → Type 0
IsReadable c (stored key r) = IsCodec c r
IsReadable c cleared = Unit
IsReadable c (dropped matches) = Unit

get-without :
    (matches : String → Bool) (j : String) (d : Dict Raw)
    → get j (without matches d).1 ≡ (if matches j then none else get j d)
unfolding get without
get-without matches j [] = ground arith
get-without matches j ((k, v) ∷ d) = elim (Bool-cases (k == j)) [
  | inl e ↦ ground (arith, get-without matches j d, e, ap matches ((eq_iff k j).0 e))
  | inr e ↦ ground (arith, get-without matches j d, e)
]

perform-enabled :
    (c : Codec) (x : Call) (cache : TranslationCache) → (perform c x cache).enabled ≡ cache.enabled
unfolding perform store_result invalidate
perform-enabled c (stored key r) cache = ground arith
perform-enabled c cleared cache = ground arith
perform-enabled c (dropped matches) cache = ground arith

perform-lookup :
    (c : Codec) (x : Call) (cache : TranslationCache) (j : String)
    → cache.enabled ≡ true
    → IsReadable c x
    → lookup c j (perform c x cache) ≡ effect x (λ k. lookup c k cache) j
unfolding perform effect
perform-lookup c (stored key r) cache j e law =
    ground (arith, lookup-store_result c r law key j cache, e)
perform-lookup c cleared cache j e law = unfold lookup invalidate get in ground (arith, e)
perform-lookup c (dropped matches) cache j e law =
    unfold lookup invalidate in ground (arith, e, get-without matches j cache.store)

-- Over any sequence of calls an enabled cache reads as a map from keys to results on which the same
-- calls are performed: a stored result is read back as a hit until it is stored anew or invalidated.
pub run-replay :
    (c : Codec) (calls : List Call) (cache : TranslationCache)
    → cache.enabled ≡ true
    → All (IsReadable c) calls
    → (λ k. lookup c k (run c calls cache)) ≡ replay calls (λ k. lookup c k cache)
unfolding run replay
run-replay c [] cache e laws = refl
run-replay c (x ∷ xs) cache e laws =
    run-replay c xs (perform c x cache) (perform-enabled c x cache ∙ e) laws.1
    ∙ ap (replay xs) (fun_ext (λ j. perform-lookup c x cache j e laws.0))
