-- ===== src/Utils.antt =====
-- utils.py: input sanitization, and the candidates for entities.
use translation_runtime_arch.Prelude.{
  ℕ, String, code, Bool, true, false, not, ◌&&◌, ◌||◌, none, List, [], ◌∷◌, ◌++◌, map, leb, ltb,
  eqb, elem, if◌then◌else◌,
}
use translation_runtime_arch.Text.{len, starts_with, lstrip, rstrip, truthy}
use translation_runtime_arch.Regex.{
  Unicode, Regex, class, seq, seqs, alt, star, plus, optional, literal, range, between, at_least,
  word_boundary, line_start, line_end, find_all, full_match, matches_start, found, Match,
}
use translation_runtime_arch.Text.{is_space}
use translation_runtime_arch.Memory.{Entity, EntityType, product, cli, version, acronym}

-- `_CONTROL_RE`
is_control : ℕ → Bool
is_control c =
    leb c 8
    || eqb c 0x0b
    || eqb c 0x0c
    || (leb 0x0e c && leb c 0x1f)
    || eqb c 0x7f
    || (leb 0x202a c && leb c 0x202e)
    || eqb c 0xfeff

unfoldable pub sanitize_input : String → String
unfolding is_control
sanitize_input String.[] = String.[]
sanitize_input (String.◌∷◌ c s) =
    let rest = sanitize_input s in if is_control (code c) then rest else String.◌∷◌ c rest

upper : Regex
upper = range b'A' b'Z'

lower : Regex
lower = range b'a' b'z'

alphanumeric : Regex
alphanumeric =
    class
      (λ c. (leb b'a' c && leb c b'z') || (leb b'A' c && leb c b'Z') || (leb b'0' c && leb c b'9'))

any_of : List String → Regex
any_of [] = class (λ _. false)
any_of (s ∷ []) = literal s
any_of (s ∷ t ∷ ts) = alt (literal s) (any_of (t ∷ ts))

-- `\b[A-Z][A-Za-z0-9]*(?:VMM|VM|DB|API|SDK)?\b`
unfoldable pub product_re : Regex
unfolding upper alphanumeric any_of
product_re = seqs (
    word_boundary
    ∷ upper
    ∷ star alphanumeric
    ∷ optional (any_of ("VMM" ∷ "VM" ∷ "DB" ∷ "API" ∷ "SDK" ∷ []))
    ∷ word_boundary
    ∷ [])

-- `\b[A-Z]{2,5}\b`
unfoldable pub acronym_re : Regex
unfolding upper
acronym_re = seqs (word_boundary ∷ between 2 3 upper ∷ word_boundary ∷ [])

-- `(?:--[a-z][a-z0-9-]*|`[^`\s]+`)`
unfoldable pub cli_re : Regex
unfolding lower
cli_re =
    alt
      (seqs (
        literal "--"
        ∷ lower
        ∷ star (class (λ c. (leb b'a' c && leb c b'z') || (leb b'0' c && leb c b'9') || eqb c b'-'))
        ∷ []))
      (seqs (literal "`" ∷ plus (class (λ c. not (eqb c b'`' || is_space c))) ∷ literal "`" ∷ []))

-- `^[A-Z][a-z]{2,}$`; the flag MULTILINE is off, and no token holds a line break
plain_word_re : Regex
unfolding upper lower
plain_word_re = seqs (line_start ∷ upper ∷ at_least 2 lower ∷ line_end ∷ [])

module _ (u : Unicode) where
  digit : Regex
  digit = class u.is_digit

  -- `\bv?\d+\.\d+(?:\.\d+)?\b`
  unfoldable pub version_re : Regex
  unfolding digit
  version_re = seqs (
      word_boundary
      ∷ optional (literal "v")
      ∷ plus digit
      ∷ literal "."
      ∷ plus digit
      ∷ optional (seq (literal ".") (plus digit))
      ∷ word_boundary
      ∷ [])

  -- `(?:\d|[a-z][A-Z]|VMM|VM|DB|API|SDK|Kit|Engine)`
  product_signal_re : Regex
  unfolding digit lower upper any_of
  product_signal_re =
      alt digit (
        alt (seq lower upper)
          (any_of ("VMM" ∷ "VM" ∷ "DB" ∷ "API" ∷ "SDK" ∷ "Kit" ∷ "Engine" ∷ [])))

  ends_with_backtick : String → Bool
  ends_with_backtick String.[] = false
  ends_with_backtick (String.◌∷◌ c s) =
      (eqb (code c) b'`' && not (truthy s)) || ends_with_backtick s

  unfoldable pub classify_entity : String → EntityType
  unfolding ends_with_backtick plain_word_re
  classify_entity token =
      if full_match u version_re token
      then version
      else if full_match u acronym_re token && not (matches_start u plain_word_re token)
      then acronym
      else if starts_with token "--"
          || (starts_with token "`" && ends_with_backtick token && ltb 2 (len token))
      then cli
      else product

  unfoldable pub is_product_entity : String → Bool
  unfolding product_signal_re
  is_product_entity token = found u product_signal_re token

  -- `tok.strip("`")`
  strip_backticks : String → String
  strip_backticks s = rstrip (λ c. eqb c b'`') (lstrip (λ c. eqb c b'`') s)

  -- the inner loop, over the matches of one pattern; `found_so_far` is also the set `seen`
  collect : Bool → List Match → List String → List String
  unfolding strip_backticks
  collect products [] found_so_far = found_so_far
  collect products (m ∷ ms) found_so_far =
      let tok = strip_backticks m.text in
      collect products ms (
        if not (truthy tok) || elem tok found_so_far
        then found_so_far
        else if products && not (is_product_entity tok)
        then found_so_far
        else found_so_far ++ tok ∷ [])

  entity_of : String → Entity
  entity_of t = record { name = t; kind = classify_entity t; mutable_ = false; context = none }

  unfoldable pub extract_entities : String → List Entity
  unfolding collect entity_of
  extract_entities text =
      let versions = collect false (find_all u version_re text) [] in
      let products = collect true (find_all u product_re text) versions in
      let acronyms = collect false (find_all u acronym_re text) products in
      map entity_of (collect false (find_all u cli_re text) acronyms)
