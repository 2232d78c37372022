-- ===== src/Text/Shell.antt =====
-- `shlex.join` and `shlex.split` of the standard library, on texts: how a list of words is quoted
-- for a POSIX shell, and how a line is cut into words.
pub mod Words
use Prim.Native.String.append
use translation_runtime_arch.Prelude.{
  ℕ, Char, code, String, Bool, true, false, not, ◌&&◌, ◌||◌, Option, none, some, List, [], ◌∷◌, eqb,
  leb, if◌then◌else◌, map,
}
use translation_runtime_arch.Text.{◌+++◌, truthy, join}
use Prim.Native.String

-- the class `[\w@%+=:,./-]` in ASCII mode
unfoldable pub is_safe : ℕ → Bool
is_safe c =
    (leb b'a' c && leb c b'z')
    || (leb b'@' c && leb c b'Z')
    || (leb b'+' c && leb c b':')
    || eqb c b'_'
    || eqb c b'%'
    || eqb c b'='

unfoldable pub all_safe : String → Bool
unfolding is_safe
all_safe String.[] = true
all_safe (String.◌∷◌ c s) = is_safe (code c) && all_safe s

-- what stands for a quotation mark between quotation marks
escape_quotes : String → String
escape_quotes String.[] = String.[]
escape_quotes (String.◌∷◌ c s) =
    let rest = escape_quotes s in
    if eqb (code c) b'\'' then "'\"'\"'" +++ rest else String.◌∷◌ c rest

-- `shlex.quote`
unfoldable pub quote : String → String
unfolding all_safe escape_quotes
quote s = if not (truthy s) then "''" else if all_safe s then s else "'" +++ escape_quotes s +++ "'"

-- `shlex.join`
unfoldable pub join_words : List String → String
unfolding quote
join_words ws = join " " (map quote ws)

-- where the lexer stands: between words, in a word, in quotes, or behind a backslash
pub data Mode : Type 0 where
  between in_word in_single in_double escaped escaped_in_double : Mode

-- a code point is added to the word that stands first
unfoldable pub add_char : Char → Option (List String) → Option (List String)
add_char c none = none
add_char c (some []) = some (String.◌∷◌ c String.[] ∷ [])
add_char c (some (w ∷ ws)) = some (String.◌∷◌ c w ∷ ws)

-- a new word is begun
end_word : Option (List String) → Option (List String)
end_word none = none
end_word (some ws) = some (String.[] ∷ ws)

is_blank : ℕ → Bool
is_blank c = eqb c b' ' || eqb c 9 || eqb c 13 || eqb c 10

-- What is left to read as words: in a word, the first one is the rest of it. `none` is the
-- `ValueError` of a quotation or of an escape that does not end.
unfoldable pub words_from : Mode → String → Option (List String)
unfolding is_blank add_char end_word
words_from between String.[] = some []
words_from in_word String.[] = some (String.[] ∷ [])
words_from in_single String.[] = none
words_from in_double String.[] = none
words_from escaped String.[] = none
words_from escaped_in_double String.[] = none
words_from between (String.◌∷◌ c s) =
    let n = code c in
    elim (is_blank n) [
      | true ↦ words_from between s
      | false ↦ elim (eqb n b'\\') [
        | true ↦ words_from escaped s
        | false ↦ elim (eqb n b'\'') [
          | true ↦ words_from in_single s
          | false ↦ elim (eqb n b'"') [
            | true ↦ words_from in_double s
            | false ↦ add_char c (words_from in_word s)
          ]
        ]
      ]
    ]
words_from in_word (String.◌∷◌ c s) =
    let n = code c in
    elim (is_blank n) [
      | true ↦ end_word (words_from between s)
      | false ↦ elim (eqb n b'\'') [
        | true ↦ words_from in_single s
        | false ↦ elim (eqb n b'"') [
          | true ↦ words_from in_double s
          | false ↦ elim (eqb n b'\\') [
            | true ↦ words_from escaped s
            | false ↦ add_char c (words_from in_word s)
          ]
        ]
      ]
    ]
words_from in_single (String.◌∷◌ c s) = elim (eqb (code c) b'\'') [
  | true ↦ words_from in_word s
  | false ↦ add_char c (words_from in_single s)
]
words_from in_double (String.◌∷◌ c s) = elim (eqb (code c) b'"') [
  | true ↦ words_from in_word s
  | false ↦ elim (eqb (code c) b'\\') [
    | true ↦ words_from escaped_in_double s
    | false ↦ add_char c (words_from in_double s)
  ]
]
words_from escaped (String.◌∷◌ c s) = add_char c (words_from in_word s)
words_from escaped_in_double (String.◌∷◌ c s) =
    let rest = add_char c (words_from in_double s) in
    if eqb (code c) b'"' || eqb (code c) b'\\' then rest else add_char "\\" rest

-- `shlex.split`
unfoldable pub split_words : String → Option (List String)
unfolding words_from
split_words s = words_from between s
