-- ===== src/Cache.antt =====
-- cache.py: the cache key, and the signed store. Of the `diskcache.Cache` of the directory the model
-- takes the part of a dictionary: a value stays until it is set anew or deleted, so that the store is
-- below the size at which diskcache begins to cull it.
pub mod Integrity
pub mod Refinement
pub mod Key
use translation_runtime_arch.Prelude.{
  ◌≡◌, ℕ, suc, String, code, Bool, true, false, not, ◌&&◌, Option, none, some, List, [], ◌∷◌, ltb,
  eqb, if◌then◌else◌, ◌==◌, length,
}
use translation_runtime_arch.Text.{◌+++◌, len, contains, before_first, drop_text}
use translation_runtime_arch.Dict.{Dict, get, put}
use translation_runtime_arch.Diagnostics.{Snapshot}
use Prim.Native.String

-- An entry of `audit_side_effects`.
pub record SideEffect : Type 0 where
  pub isa_instruction : String
  pub input_hash : String
  pub evidence_chain : List String
  pub artifact_snapshot : Snapshot
  pub flags_raised : List String

-- `TranslationResult`; `created_at` is always `None` in the engine
pub record TranslationResult : Type 0 where
  pub translation : String
  pub evidence_ids : List String
  pub cache_hit : Bool
  pub audit_side_effects : List SideEffect

-- What the cache uses of the standard library and of pydantic: the hexadecimal HMAC-SHA256 under
-- the fixed key, `model_dump_json`, and `json.loads` with `model_validate`, where `none` is raised.
pub record Codec : Type 0 where
  pub hmac : String → String
  pub dump : TranslationResult → String
  pub parse : String → Option TranslationResult

-- `s.isascii()`
unfoldable pub is_ascii : String → Bool
is_ascii String.[] = true
is_ascii (String.◌∷◌ c s) = ltb (code c) 128 && is_ascii s

-- what is documented of them: 64 hexadecimal digits, and the dump of the result is read back
pub record IsCodec (c : Codec) (r : TranslationResult) : Type 0 where
  pub hmac_length : (s : String) → len (c.hmac s) ≡ 64
  pub hmac_no_colon : (s : String) → contains ":" (c.hmac s) ≡ false
  pub hmac_ascii : (s : String) → is_ascii (c.hmac s) ≡ true
  pub parse-dump : c.parse (c.dump r) ≡ some r

-- a value of the store: a text, or an object that was pickled
pub data Raw : Type 0 where
  str : String → Raw
  object : Raw

pub record TranslationCache : Type 0 where
  pub enabled : Bool
  pub store : Dict Raw

pub data Lookup : Type 0 where
  miss : Lookup
  found : TranslationResult → Lookup
  raised : Lookup  -- an exception that `get` does not catch

module _ (c : Codec) where
  abbrev pub sign_value : String → String
  sign_value value = c.hmac value

  -- `hmac.compare_digest`: a `TypeError` (`none`) on a text that is not ASCII
  unfoldable pub verify_signature : String → String → Option Bool
  verify_signature value expected =
      if is_ascii expected && is_ascii (sign_value value)
      then some (sign_value value == expected)
      else none

  parsed : Option TranslationResult → Lookup
  parsed none = raised
  parsed (some r) = found (record r { cache_hit = true })

  -- behind the test of the format: `raw.partition(":")`, the signature, the value
  read_signed : String → Lookup
  unfolding parsed verify_signature
  read_signed raw =
      let hmac_part = before_first ":" raw in
      let value_part = drop_text (suc (len hmac_part)) raw in
      elim (verify_signature value_part hmac_part) [
        | none ↦ raised
        | some true ↦ parsed (c.parse value_part)
        | some false ↦ miss
      ]

  unfoldable pub read_raw : Raw → Lookup
  unfolding read_signed
  read_raw object = miss
  read_raw (str raw) =
      if contains ":" raw && eqb (len (before_first ":" raw)) 64 then read_signed raw else miss

  unfoldable pub lookup : String → TranslationCache → Lookup
  lookup key cache =
      if not cache.enabled
      then miss
      else elim (get key cache.store) [ none ↦ miss | some raw ↦ read_raw raw ]

  unfoldable pub store_result : String → TranslationResult → TranslationCache → TranslationCache
  store_result key result cache =
      if not cache.enabled
      then cache
      else (let value = c.dump result in
          record cache { store = put key (str (sign_value value +++ ":" +++ value)) cache.store })

-- `invalidate`: the number of entries deleted, and the store without them; `matches` is `fnmatch`
-- with the pattern, if one is given
without : (String → Bool) → Dict Raw → ℕ × Dict Raw
without matches [] = (0, [])
without matches ((k, v) ∷ d) =
    let (n, rest) = without matches d in if matches k then (suc n, rest) else (n, (k, v) ∷ rest)

unfoldable pub invalidate : Option (String → Bool) → TranslationCache → ℕ × TranslationCache
unfolding without
invalidate pattern_ cache = if not cache.enabled then (0, cache) else elim pattern_ [
  | none ↦ (length cache.store, record cache { store = [] })
  | some matches ↦ let (n, rest) = without matches cache.store in (n, record cache { store = rest })
]
