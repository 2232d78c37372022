-- ===== src/Cache/Integrity.antt =====
-- What the signed store of cache.py guarantees.
use translation_runtime_arch.Prelude.{
  suc, String, ◌≡◌, sym, ap, ◌∙◌, true, not, some, arith, if◌then◌else◌, ◌==◌, eq_iff,
}
use translation_runtime_arch.Text.{◌+++◌, len, contains, before_first, drop_text}
use translation_runtime_arch.Text.Parts.{
  contains_colon, before_first_colon, drop_text_colon, cut_at_colon,
}
use translation_runtime_arch.Dict.{get-put, eq_self}
use translation_runtime_arch.Cache.{
  TranslationResult, Codec, IsCodec, Raw, str, object, TranslationCache, miss, found, sign_value,
  verify_signature, read_raw, lookup, store_result,
}

module _ (c : Codec) (r : TranslationResult) (law : IsCodec c r) where
  signed : String → String
  signed value = sign_value c value +++ ":" +++ value

  read_raw-signed : read_raw c (str (signed (c.dump r))) ≡ found (record r { cache_hit = true })
  unfolding read_raw verify_signature signed
  read_raw-signed =
      let value = c.dump r in
      let no_colon = law.hmac_no_colon value in
      let signature = c.hmac value in
      ground (
        arith,
        contains_colon value signature,
        before_first_colon value signature no_colon,
        drop_text_colon value signature,
        law.hmac_length value,
        law.hmac_ascii value,
        eq_self signature,
        law.parse-dump,
      )

  -- In an enabled cache a stored result is read back, marked as a hit, and the other keys read as
  -- before; in a disabled one every key is a miss.
  pub lookup-store_result :
      (key j : String) (cache : TranslationCache)
      → lookup c j (store_result c key r cache) ≡ (
          if not cache.enabled
          then miss
          else if key == j
          then found (record r { cache_hit = true })
          else lookup c j cache)
  unfolding lookup store_result signed
  lookup-store_result key j cache =
      ground (arith, get-put key j (str (signed (c.dump r))) cache.store, read_raw-signed)

-- what `read_raw` has tested of a text that it accepts
read_raw_accepts :
    (c : Codec) (raw : String) (r : TranslationResult)
    → read_raw c (str raw) ≡ found r
    → let prefix = before_first ":" raw in
      let value = drop_text (suc (len prefix)) raw in
      (contains ":" raw ≡ true)
      × (c.hmac value ≡ prefix)
      × (r' : TranslationResult) × (c.parse value ≡ some r')
      × (r ≡ record r' { cache_hit = true })
unfolding read_raw verify_signature
read_raw_accepts c raw r h =
    let prefix = before_first ":" raw in
    ground (arith, eq_iff (c.hmac (drop_text (suc (len prefix)) raw)) prefix)

-- A value is accepted only if it is a text, namely a signature, a colon and a value with that
-- signature which `json.loads` and the model accept: whatever else is in the store is never served.
pub read_raw_signed_only :
    (c : Codec) (raw : Raw) (r : TranslationResult)
    → read_raw c raw ≡ found r
    → (value : String) × (r' : TranslationResult) × (raw ≡ str (c.hmac value +++ ":" +++ value))
      × (c.parse value ≡ some r')
      × (r ≡ record r' { cache_hit = true })
unfolding read_raw verify_signature
read_raw_signed_only c object r h = absurd (ground arith)
read_raw_signed_only c (str raw) r h =
    let (colon, signature, r', read, marked) = read_raw_accepts c raw r h in
    let before = λ (t : String). t +++ ":" +++ drop_text (suc (len (before_first ":" raw))) raw in
    (
      drop_text (suc (len (before_first ":" raw))) raw,
      r',
      ap str (cut_at_colon raw colon ∙ ap before (sym signature)),
      read,
      marked,
    )
