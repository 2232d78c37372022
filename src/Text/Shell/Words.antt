-- ===== src/Text/Shell/Words.antt =====
-- The words of a joined line.
use Prim.Native.String.append
use translation_runtime_arch.Prelude.{
  code, String, ◌≡◌, refl, sym, ap, ◌∙◌, true, Option, some, List, [], ◌∷◌, arith, eqb, map,
  Bool-cases, inl, inr,
}
use translation_runtime_arch.Text.{◌+++◌, truthy, join}
use translation_runtime_arch.Text.Shell.{
  is_safe, all_safe, escape_quotes, quote, join_words, between, in_word, in_single, words_from,
  split_words, add_char, is_blank, end_word,
}
use text.Mathlib.TextEquality.{Char-path}
use text.Mathlib.TextLemmas.{append_assoc, append-nil}

-- a text is put in front of the word that stands first
add_text : String → Option (List String) → Option (List String)
add_text String.[] r = r
add_text (String.◌∷◌ c s) r = add_char c (add_text s r)

words_from-quoted :
    (s rest : String)
    → words_from in_single (escape_quotes s +++ "'" +++ rest) ≡ add_text s (words_from in_word rest)
unfolding words_from escape_quotes add_text is_blank
words_from-quoted String.[] rest = rw append.nil (rw append.cons (rw append.nil refl))
words_from-quoted (String.◌∷◌ c s) rest = elim (Bool-cases (eqb (code c) b'\'')) [
  | inl e ↦ rw e (
      rw (append_assoc "'\"'\"'" (escape_quotes s) ("'" +++ rest)) (
        rw (append.cons, append.cons, append.cons, append.cons, append.cons, append.nil)
          (ap (add_char "'") (words_from-quoted s rest)
            ∙ ap (λ d. add_char d (add_text s (words_from in_word rest)))
                (Char-path "'" c (ground (arith, e))))))
  | inr e ↦ rw e (rw append.cons (ground (arith, words_from-quoted s rest)))
]

words_from-safe :
    (s rest : String)
    → all_safe s ≡ true
    → words_from in_word (s +++ rest) ≡ add_text s (words_from in_word rest)
unfolding words_from all_safe is_safe add_text is_blank
words_from-safe String.[] rest h = rw append.nil refl
words_from-safe (String.◌∷◌ c s) rest h = rw append.cons (ground (arith, words_from-safe s rest))

-- a safe word that is not empty begins a word
begins :
    (s rest : String)
    → all_safe s ≡ true
    → truthy s ≡ true
    → words_from between (s +++ rest) ≡ add_text s (words_from in_word rest)
unfolding words_from all_safe is_safe add_text is_blank
begins String.[] rest h t = ground (arith, t)
begins (String.◌∷◌ c s) rest h t = rw append.cons (ground (arith, words_from-safe s rest))

-- a quoted word is read as that word
words_from-quote :
    (s rest : String) → words_from between (quote s +++ rest) ≡ add_text s (words_from in_word rest)
unfolding quote words_from add_text is_blank
words_from-quote String.[] rest = rw (append.cons, append.cons, append.nil)
words_from-quote (String.◌∷◌ c s) rest =
    let w = String.◌∷◌ c s in
    elim (Bool-cases (all_safe w)) [
      | inl f ↦ rw f (begins w rest f refl)
      | inr f ↦ rw f (
          rw (append_assoc "'" (escape_quotes w +++ "'") rest) (
            rw (append_assoc (escape_quotes w) "'" rest)
              (rw (append.cons, append.nil) (words_from-quoted w rest))))
    ]

add_text-word : (s : String) (ws : List String) → add_text s (some ("" ∷ ws)) ≡ some (s ∷ ws)
unfolding add_text add_char
add_text-word String.[] ws = refl
add_text-word (String.◌∷◌ c s) ws = rw (add_text-word s ws) refl

-- What is joined is split into the words that were joined, whatever stands in them.
pub split_words-join_words : (ws : List String) → split_words (join_words ws) ≡ some ws
unfolding split_words join_words words_from is_blank end_word join
split_words-join_words [] = refl
split_words-join_words (w ∷ []) =
    sym (ap (words_from between) (append-nil (quote w)))
    ∙ words_from-quote w ""
    ∙ add_text-word w []
split_words-join_words (w ∷ v ∷ vs) =
    words_from-quote w (" " +++ join " " (map quote (v ∷ vs)))
    ∙ rw (append.cons, append.nil)
        (ap (λ r. add_text w (end_word r)) (split_words-join_words (v ∷ vs))
          ∙ add_text-word w (v ∷ vs))
