-- ===== src/Anchor.antt =====
-- anchor.py: slugs, the anchor registry and the rewriting of internal links.
pub mod Slugs
pub mod Lines
use translation_runtime_arch.Prelude.{
  ℕ, zero, suc, ◌+◌, String, Bool, true, false, not, ◌&&◌, ◌||◌, Option, none, some, List, [], ◌∷◌,
  ◌++◌, map, ltb, eqb, elem, if◌then◌else◌, length, is_some,
}
use translation_runtime_arch.Text.{◌+++◌, split, strip, join, show, is_space}
use translation_runtime_arch.Regex.{
  Unicode, Regex, class, seqs, star, plus, space, literal, none_of, group, line_start, line_end,
  sub, matches_start, pieces, Piece, plain, hit, Match, group_of,
}
use translation_runtime_arch.Dict.{Dict, get, put}
use Prim.Native.String

pub record AnchorRegistry : Type 0 where
  pub original_to_placeholder : Dict String
  pub original_slug_to_placeholder : Dict String
  pub placeholder_to_translated_slug : Dict String
  pub counter : ℕ
  pub existing_slugs : List String

abbrev pub new_registry : AnchorRegistry
new_registry = record {
  original_to_placeholder = [];
  original_slug_to_placeholder = [];
  placeholder_to_translated_slug = [];
  counter = 0;
  existing_slugs = [];
}

-- `f"{n:03d}"`
pad : ℕ → String
pad n = (if ltb n 10 then "00" else if ltb n 100 then "0" else "") +++ show n

-- `f"{base}-{counter}"`
abbrev pub numbered : String → ℕ → String
numbered base n = base +++ "-" +++ show n

-- the `while` of `resolve_slug`, from `counter` on
unfoldable pub free_slug : ℕ → String → ℕ → List String → String
unfolding elem
free_slug zero base counter existing = numbered base counter
free_slug (suc fuel) base counter existing =
    let next = free_slug fuel base (counter + 1) existing in
    if elem (numbered base counter) existing then next else numbered base counter

-- one round for each slug in use is enough
unfoldable pub choose_slug : String → List String → String
unfolding free_slug
choose_slug base existing =
    if elem base existing then free_slug (length existing) base 1 existing else base

module _ (u : Unicode) where
  unfoldable pub generate_github_slug : String → String
  unfolding strip
  generate_github_slug text =
      sub u (class (λ c. not (u.is_word c || is_space c || eqb c b'-'))) (λ _. "")
        (sub u (plus space) (λ _. "-") (u.lower (strip text)))

  unfoldable pub register : String → AnchorRegistry → String × AnchorRegistry
  unfolding pad
  register text r =
      let placeholder = "__HEADER_" +++ pad r.counter +++ "__" in
      (
        placeholder,
        record r {
          original_to_placeholder = put text placeholder r.original_to_placeholder;
          original_slug_to_placeholder =
              put (generate_github_slug text) placeholder r.original_slug_to_placeholder;
          counter = r.counter + 1;
        },
      )

  unfoldable pub resolve_slug : String → AnchorRegistry → String × AnchorRegistry
  resolve_slug translated_text r =
      let slug = choose_slug (generate_github_slug translated_text) r.existing_slugs in
      (slug, record r { existing_slugs = slug ∷ r.existing_slugs })

unfoldable pub bind : String → String → AnchorRegistry → AnchorRegistry
bind placeholder slug r = record r {
  placeholder_to_translated_slug = put placeholder slug r.placeholder_to_translated_slug;
}

unfoldable pub translated_slug_for : String → AnchorRegistry → Option String
translated_slug_for original_slug r = elim (get original_slug r.original_slug_to_placeholder) [
  | none ↦ none
  | some placeholder ↦ get placeholder r.placeholder_to_translated_slug
]

unfoldable pub is_translated_slug : String → AnchorRegistry → Bool
is_translated_slug slug r = elem slug (map (λ p. p.1) r.placeholder_to_translated_slug)

-- `(\[[^\]]*\])\(#([^)\s]+)\)`
link : Regex
link = seqs (
    group 1 (seqs (literal "[" ∷ star (none_of "]") ∷ literal "]" ∷ []))
    ∷ literal "(#"
    ∷ group 2 (plus (class (λ c. not (eqb c b')' || is_space c))))
    ∷ literal ")"
    ∷ [])

fence_open : Regex
fence_open = seqs (line_start ∷ star space ∷ literal "```" ∷ [])

fence_close : Regex
fence_close = seqs (line_start ∷ star space ∷ literal "```" ∷ star space ∷ line_end ∷ [])

module _ (u : Unicode) (r : AnchorRegistry) where
  -- `_sub`: the replacement of one link, and the slugs found broken so far
  replacement : Match → String
  replacement m = elim (translated_slug_for (group_of 2 m.groups) r) [
    | none ↦ m.text
    | some slug ↦ group_of 1 m.groups +++ "(#" +++ slug +++ ")"
  ]

  report : Bool → Match → List String → List String
  report flag_broken m broken =
      let slug = group_of 2 m.groups in
      if is_some (translated_slug_for slug r) || is_translated_slug slug r
      then broken
      else if flag_broken && not (elem slug broken)
      then broken ++ slug ∷ []
      else broken

  -- `_LINK_RE.sub(_sub, line)`
  rewrite_pieces : Bool → List Piece → List String → String × List String
  unfolding replacement report
  rewrite_pieces flag_broken [] broken = (String.[], broken)
  rewrite_pieces flag_broken (plain c ∷ ps) broken =
      let (text, broken') = rewrite_pieces flag_broken ps broken in (String.◌∷◌ c text, broken')
  rewrite_pieces flag_broken (hit m ∷ ps) broken =
      let (text, broken') = rewrite_pieces flag_broken ps (report flag_broken m broken) in
      (replacement m +++ text, broken')

  unfoldable pub rewrite_line : Bool → String → List String → String × List String
  unfolding rewrite_pieces link
  rewrite_line flag_broken line broken = rewrite_pieces flag_broken (pieces u link line) broken

  unfoldable pub opens_fence : String → Bool
  unfolding fence_open
  opens_fence line = matches_start u fence_open line

  unfoldable pub closes_fence : String → Bool
  unfolding fence_close
  closes_fence line = matches_start u fence_close line

  -- the loop over the lines: the lines written and the broken slugs
  unfoldable pub rewrite_lines : Bool → Bool → List String → List String → List String × List String
  rewrite_lines flag_broken in_fence [] broken = ([], broken)
  rewrite_lines flag_broken true (line ∷ lines) broken =
      let closing = rewrite_lines flag_broken false lines broken in
      let (out, broken') = rewrite_lines flag_broken true lines broken in
      if closes_fence line then closing else (line ∷ out, broken')
  rewrite_lines flag_broken false (line ∷ lines) broken =
      let (out, broken') = rewrite_lines flag_broken true lines broken in
      let (line', found) = rewrite_line flag_broken line broken in
      let (out', found') = rewrite_lines flag_broken false lines found in
      if opens_fence line then (line ∷ out, broken') else (line' ∷ out', found')

  unfoldable pub rewrite_links : String → Bool → String × List String
  unfolding rewrite_lines
  rewrite_links markdown flag_broken =
      let (out, broken) = rewrite_lines flag_broken false (split b'\n' markdown) [] in
      (join "\n" out, broken)
