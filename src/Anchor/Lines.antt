-- ===== src/Anchor/Lines.antt =====
-- `rewrite_links` of anchor.py, line by line.
use translation_runtime_arch.Prelude.{
  ℕ, suc, ◌+◌, String, ◌≡◌, refl, ap, Bool, true, false, List, [], ◌∷◌, length, if◌then◌else◌,
  arith, Bool-cases, inl, inr,
}
use translation_runtime_arch.Regex.{Unicode, Piece, plain, hit}
use translation_runtime_arch.Text.{◌+++◌}
use translation_runtime_arch.Anchor.{
  AnchorRegistry, rewrite_pieces, replacement, report, rewrite_line, rewrite_lines, opens_fence,
  closes_fence,
}

pub data LineKind : Type 0 where
  outside opening inside closing : LineKind

module _ (u : Unicode) (r : AnchorRegistry) where
  -- what each line is: a fence opens outside a code block and closes inside one
  unfoldable pub kinds : Bool → List String → List (LineKind × String)
  kinds in_fence [] = []
  kinds true (l ∷ ls) =
      let after = kinds false ls in
      let still = kinds true ls in
      if closes_fence u r l then (closing, l) ∷ after else (inside, l) ∷ still
  kinds false (l ∷ ls) =
      let after = kinds true ls in
      let still = kinds false ls in
      if opens_fence u r l then (opening, l) ∷ after else (outside, l) ∷ still

  -- the line with its links rewritten
  unfoldable pub relinked : String → String
  relinked l = (rewrite_line u r false l []).0

  -- what is written for a line
  unfoldable pub written : List (LineKind × String) → List String
  unfolding relinked
  written [] = []
  written ((outside, l) ∷ ls) = relinked l ∷ written ls
  written ((opening, l) ∷ ls) = l ∷ written ls
  written ((inside, l) ∷ ls) = l ∷ written ls
  written ((closing, l) ∷ ls) = written ls

  unfoldable pub closings : List (LineKind × String) → ℕ
  closings [] = 0
  closings ((closing, l) ∷ ls) = suc (closings ls)
  closings ((_, l) ∷ ls) = closings ls

  -- the text does not depend on what was reported before
  rewrite_pieces_text :
      (flag flag' : Bool) (ps : List Piece) (broken broken' : List String)
      → (rewrite_pieces u r flag ps broken).0 ≡ (rewrite_pieces u r flag' ps broken').0
  unfolding rewrite_pieces
  rewrite_pieces_text flag flag' [] broken broken' = refl
  rewrite_pieces_text flag flag' (plain c ∷ ps) broken broken' =
      ap (String.◌∷◌ c) (rewrite_pieces_text flag flag' ps broken broken')
  rewrite_pieces_text flag flag' (hit m ∷ ps) broken broken' =
      ap (λ t. replacement u r m +++ t)
        (rewrite_pieces_text flag flag' ps (report u r flag m broken) (report u r flag' m broken'))

  rewrite_line_text :
      (flag : Bool) (l : String) (broken : List String)
      → (rewrite_line u r flag l broken).0 ≡ relinked l
  unfolding relinked rewrite_line
  rewrite_line_text flag l broken = rewrite_pieces_text flag false _ broken []

  -- Outside of code blocks every line is written with its links rewritten, a line that opens a code
  -- block and the lines inside one are written as they are, and the line that closes a code block is
  -- not written at all: the output has one line less for each.
  pub rewrite_lines-kinds :
      (flag in_fence : Bool) (lines broken : List String)
      → ((rewrite_lines u r flag in_fence lines broken).0 ≡ written (kinds in_fence lines))
        × (length (rewrite_lines u r flag in_fence lines broken).0 + closings (kinds in_fence lines)
            ≡ length lines)
  unfolding rewrite_lines kinds written closings
  rewrite_lines-kinds flag in_fence [] broken = (refl, omega arith)
  rewrite_lines-kinds flag true (l ∷ ls) broken = elim (Bool-cases (closes_fence u r l)) [
    | inl e ↦ rw e (let (a, b) = rewrite_lines-kinds flag false ls broken in (a, omega arith))
    | inr e ↦
        rw e (let (a, b) = rewrite_lines-kinds flag true ls broken in (ap (◌∷◌ l) a, omega arith))
  ]
  rewrite_lines-kinds flag false (l ∷ ls) broken = elim (Bool-cases (opens_fence u r l)) [
    | inl e ↦
        rw e (let (a, b) = rewrite_lines-kinds flag true ls broken in (ap (◌∷◌ l) a, omega arith))
    | inr e ↦ rw e (
        let (a, b) = rewrite_lines-kinds flag false ls (rewrite_line u r flag l broken).1 in
        (rw (rewrite_line_text flag l broken, a), omega arith))
  ]
