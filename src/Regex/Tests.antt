-- ===== src/Regex/Tests.antt =====
-- Runs of the matcher, over an ASCII alphabet.
use translation_runtime_arch.Prelude.{◌≡◌, refl, [], ◌∷◌, leb, ◌||◌, ◌&&◌, map, eqb}
use translation_runtime_arch.Regex.{
  Unicode, seqs, star, lazy_star, line_start, line_end, group, between, any_but_newline, literal,
  space, plus, find_all, sub, group_of,
}

abbrev pub ascii : Unicode
ascii = record {
  is_word = λ c.
      (leb b'a' c && leb c b'z')
      || (leb b'A' c && leb c b'Z')
      || (leb b'0' c && leb c b'9')
      || eqb c b'_';
  is_digit = λ c. leb b'0' c && leb c b'9';
  digits_value = λ s. 0;
  lower = λ s. s;
  upper = λ s. s;
}

heading_test :
    map
      (λ m. group_of 2 m.groups)
      (find_all ascii
        (seqs (
          line_start
          ∷ group 1 (between 1 5 (literal "#"))
          ∷ plus space
          ∷ group 2 (star any_but_newline)
          ∷ line_end
          ∷ []))
        "# a b\n### c\n####### no\n")
    ≡ "a b" ∷ "c" ∷ []
unfolding find_all group_of
heading_test = refl

fence_test :
    sub ascii
      (seqs (literal "```" ∷ lazy_star any_but_newline ∷ literal "```" ∷ []))
      (λ m. "X")
      "a ```b``` c ```d```"
    ≡ "a X c X"
unfolding sub
fence_test = refl
