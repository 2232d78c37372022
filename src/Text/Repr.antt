-- ===== src/Text/Repr.antt =====
-- `repr(s)` of a text. Code points above 0x7f are kept as they are.
use translation_runtime_arch.Prelude.{
  ℕ, zero, suc, ◌-◌, ◌/◌, ◌%◌, Char, code, String, true, false, not, ◌&&◌, ◌||◌, ltb, eqb,
  if◌then◌else◌, ◌≡◌, refl,
}
use translation_runtime_arch.Text.{◌+++◌, contains}

hex_digit : ℕ → String
hex_digit zero = "0"
hex_digit (suc zero) = "1"
hex_digit n = elim (ltb n 10) [
  | true ↦ digit_at n "0123456789"
  | false ↦ digit_at (n - 10) "abcdef"
]
  where
    digit_at : ℕ → String → String
    digit_at k String.[] = String.[]
    digit_at zero (String.◌∷◌ c s) = String.◌∷◌ c String.[]
    digit_at (suc k) (String.◌∷◌ c s) = digit_at k s

escape : ℕ → Char → String
unfolding hex_digit
escape quote c =
    let n = code c in
    if eqb n b'\\'
    then "\\\\"
    else if eqb n quote
    then "\\" +++ String.◌∷◌ c String.[]
    else if eqb n 10
    then "\\n"
    else if eqb n 13
    then "\\r"
    else if eqb n 9
    then "\\t"
    else if ltb n 32 || eqb n 127
    then "\\x" +++ hex_digit (n / 16) +++ hex_digit (n % 16)
    else String.◌∷◌ c String.[]

escapes : ℕ → String → String
unfolding escape
escapes quote String.[] = String.[]
escapes quote (String.◌∷◌ c s) = escape quote c +++ escapes quote s

-- single quotes, unless the text holds one and no double quote
unfoldable pub repr : String → String
unfolding escapes contains
repr s =
    if contains "'" s && not (contains "\"" s)
    then "\"" +++ escapes 34 s +++ "\""
    else "'" +++ escapes 39 s +++ "'"

repr_test : (repr "a\n成" ≡ "'a\\n成'") × (repr "it's" ≡ "\"it's\"")
unfolding repr
repr_test = (refl, refl)
