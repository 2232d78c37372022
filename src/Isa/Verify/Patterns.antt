-- ===== src/Isa/Verify/Patterns.antt =====
-- The patterns of VERIFY_OUTPUT.
use translation_runtime_arch.Prelude.{[], ◌∷◌}
use translation_runtime_arch.Regex.{
  Unicode, Regex, class, seq, seqs, alt, star, plus, optional, literal, between, at_least, exactly,
  word_boundary, line_start, line_end, any_but_newline, space, one_of,
}

-- `^(#{1,6})\s+(.*)$`
unfoldable pub heading_re : Regex
heading_re =
    seqs
      (line_start ∷ between 1 5 (literal "#") ∷ plus space ∷ star any_but_newline ∷ line_end ∷ [])

-- `^\|.*\|\s*$`
unfoldable pub table_row_re : Regex
table_row_re =
    seqs
      (line_start ∷ literal "|" ∷ star any_but_newline ∷ literal "|" ∷ star space ∷ line_end ∷ [])

-- `^\s*>`
unfoldable pub blockquote_re : Regex
blockquote_re = seqs (line_start ∷ star space ∷ literal ">" ∷ [])

-- `^\s*(?:-{3,}|\*{3,}|_{3,})\s*$`
unfoldable pub hr_re : Regex
hr_re = seqs (
    line_start
    ∷ star space
    ∷ alt (at_least 3 (literal "-")) (alt (at_least 3 (literal "*")) (at_least 3 (literal "_")))
    ∷ star space
    ∷ line_end
    ∷ [])

-- `^\s*(?:```|~~~)`
unfoldable pub code_fence_re : Regex
code_fence_re = seqs (line_start ∷ star space ∷ alt (literal "```") (literal "~~~") ∷ [])

module _ (u : Unicode) where
  digit : Regex
  digit = class u.is_digit

  -- `(?:[-*+]|\d+\.)\s`
  bullet : Regex
  unfolding digit
  bullet = seq (alt (one_of "-*+") (seq (plus digit) (literal "."))) space

  -- `^\s*(?:[-*+]|\d+\.)\s|\n\s*(?:[-*+]|\d+\.)\s`
  unfoldable pub list_item_re : Regex
  unfolding bullet
  list_item_re =
      alt (seqs (line_start ∷ star space ∷ bullet ∷ []))
        (seqs (literal "\n" ∷ star space ∷ bullet ∷ []))

  -- `\bv?\d+\.\d+(?:\.\d+)?\b`
  unfoldable pub version_re : Regex
  unfolding digit
  version_re = seqs (
      word_boundary
      ∷ optional (literal "v")
      ∷ plus digit
      ∷ literal "."
      ∷ plus digit
      ∷ optional (seq (literal ".") (plus digit))
      ∷ word_boundary
      ∷ [])

  -- `\b\d{4}-\d{2}(?:-\d{2})?\b`
  unfoldable pub date_re : Regex
  unfolding digit
  date_re = seqs (
      word_boundary
      ∷ exactly 4 digit
      ∷ literal "-"
      ∷ exactly 2 digit
      ∷ optional (seq (literal "-") (exactly 2 digit))
      ∷ word_boundary
      ∷ [])
