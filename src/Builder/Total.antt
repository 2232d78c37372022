-- ===== src/Builder/Total.antt =====
-- The walk's rounds are enough: each of them consumes a token.
use translation_runtime_arch.Prelude.{
  subst, ℕ, zero, suc, ◌≤◌, ◌<◌, ◌≢◌, Bool, List, [], ◌∷◌, length, arith,
}
use translation_runtime_arch.Regex.{Unicode}
use translation_runtime_arch.Memory.{Nodes}
use translation_runtime_arch.Anchor.{AnchorRegistry, new_registry}
use translation_runtime_arch.Builder.{
  append_nodes, TokenType, Token, Context, action, Action, stop, skip, as_heading, as_paragraph,
  as_list, as_item, as_blockquote, as_table, as_section, as_row, as_cell, as_fence, as_hr, Walked,
  Walk, at, index_error, exhausted, and_then, close_any, close_if, closes_item, closes_cell,
  cell_text, consume_heading, consume_paragraph, consume_table_cell, enclosed, consume, advance,
  children, walk_top_level, at_top, in_list, in_item, in_blockquote, in_table, in_section, in_row,
  wrap_item,
}

-- a walk that does not run out of rounds, and leaves at most `n` tokens
unfoldable pub Leaves : {A : Type 0} → ℕ → Walked A → Type 0
Leaves n (at a ts r) = length ts ≤ n
Leaves n index_error = Unit
Leaves n exhausted = ⊥

Leaves-weaken : {A : Type 0} (m n : ℕ) (w : Walked A) → m ≤ n → Leaves m w → Leaves n w
unfolding Leaves
Leaves-weaken m n (at a ts r) le h = omega (arith, le, h)
Leaves-weaken m n index_error le h = tt
Leaves-weaken m n exhausted le h = h

Leaves-and_then :
    {A B : Type 0} (m n : ℕ) (w : Walked A) (f : A → Walk B)
    → Leaves m w
    → ((a : A) (ts : List Token) (r : AnchorRegistry) → length ts ≤ m → Leaves n (f a ts r))
    → Leaves n (and_then w f)
unfolding Leaves and_then
Leaves-and_then m n (at a ts r) f h k = k a ts r h
Leaves-and_then m n index_error f h k = tt
Leaves-and_then m n exhausted f h k = h

close_any-Leaves :
    {A : Type 0} (a : A) (ts : List Token) (r : AnchorRegistry)
    → Leaves (length ts) (close_any a ts r)
unfolding Leaves close_any
close_any-Leaves a [] r = omega arith
close_any-Leaves a (t ∷ ts) r = omega arith

close_if-Leaves :
    {A : Type 0} (p : TokenType → Bool) (a : A) (ts : List Token) (r : AnchorRegistry)
    → Leaves (length ts) (close_if p a ts r)
unfolding Leaves close_if
close_if-Leaves p a [] r = omega arith
close_if-Leaves p a (t ∷ ts) r = ground arith

cell_text-shorter : (ts : List Token) → length (cell_text ts).1 ≤ length ts
unfolding cell_text
cell_text-shorter [] = omega arith
cell_text-shorter (t ∷ ts) = ground arith

module _ (u : Unicode) (loop : Context → Walk Nodes) (n : ℕ)
    (bounded : (d : Context) (ts : List Token) (r : AnchorRegistry)
      → length ts < n
      → Leaves (length ts) (loop d ts r)) where
  enclosed-Leaves :
      (d : Context) (f : Nodes → Nodes) (ts : List Token) (r : AnchorRegistry)
      → length ts < n
      → Leaves (length ts) (enclosed u loop d f ts r)
  unfolding enclosed
  enclosed-Leaves d f ts r h =
      Leaves-and_then (length ts) (length ts) (loop d ts r) _ (bounded d ts r h) (λ ns rest r' le.
        Leaves-weaken (length rest) (length ts) _ le (close_any-Leaves (f ns) rest r'))

  pub consume-Leaves :
      (a : Action) (t : Token) (ts : List Token) (r : AnchorRegistry)
      → length ts < n
      → Leaves (length ts) (consume u loop a t ts r)
  unfolding consume Leaves consume_heading consume_paragraph consume_table_cell
  consume-Leaves stop t ts r h = omega arith
  consume-Leaves skip t ts r h = omega arith
  consume-Leaves as_heading t (i ∷ c ∷ ts) r h = omega arith
  consume-Leaves as_heading t (i ∷ []) r h = tt
  consume-Leaves as_heading t [] r h = tt
  consume-Leaves as_paragraph t (i ∷ c ∷ ts) r h = omega arith
  consume-Leaves as_paragraph t (i ∷ []) r h = tt
  consume-Leaves as_paragraph t [] r h = tt
  consume-Leaves as_list t ts r h = enclosed-Leaves in_list _ ts r h
  consume-Leaves as_item t ts r h =
      Leaves-and_then (length ts) (length ts) (loop in_item ts r) _ (bounded in_item ts r h)
        (λ ns rest r' le.
          Leaves-weaken (length rest) (length ts) _ le
            (close_if-Leaves closes_item (wrap_item ns) rest r'))
  consume-Leaves as_blockquote t ts r h = enclosed-Leaves in_blockquote _ ts r h
  consume-Leaves as_table t ts r h = enclosed-Leaves in_table _ ts r h
  consume-Leaves as_section t ts r h = enclosed-Leaves in_section _ ts r h
  consume-Leaves as_row t ts r h = enclosed-Leaves in_row _ ts r h
  consume-Leaves as_cell t ts r h =
      Leaves-weaken (length (cell_text ts).1) (length ts) _ (cell_text-shorter ts)
        (close_if-Leaves closes_cell _ (cell_text ts).1 r)
  consume-Leaves as_fence t ts r h = omega arith
  consume-Leaves as_hr t ts r h = omega arith

  go_on :
      (d : Context) (a : Action) (t : Token) (ts : List Token) (r : AnchorRegistry)
      → length ts < n
      → Leaves (suc (length ts)) (
          and_then
            (consume u loop a t ts r)
            (λ ns rest r'. and_then (loop d rest r') (λ ms. at (append_nodes ns ms))))
  unfolding Leaves
  go_on d a t ts r h =
      Leaves-and_then (length ts) _ (consume u loop a t ts r) _ (consume-Leaves a t ts r h)
        (λ ns rest r' le.
          Leaves-and_then (length rest) _ (loop d rest r') _
            (bounded d rest r' (omega (arith, le, h))) (λ ms rest' r'' le'. omega (arith, le, le')))

  advance-Leaves :
      (d : Context) (a : Action) (t : Token) (ts : List Token) (r : AnchorRegistry)
      → length ts < n
      → Leaves (suc (length ts)) (advance u loop d a t ts r)
  unfolding advance Leaves
  advance-Leaves d stop t ts r h = omega arith
  advance-Leaves d a t ts r h = go_on d a t ts r h

pub children-Leaves :
    (u : Unicode) (fuel : ℕ) (d : Context) (ts : List Token) (r : AnchorRegistry)
    → length ts < fuel
    → Leaves (length ts) (children u fuel d ts r)
unfolding children Leaves
children-Leaves u zero d ts r h = absurd (omega (arith, h))
children-Leaves u (suc fuel) d [] r h = omega arith
children-Leaves u (suc fuel) d (t ∷ ts) r h =
    advance-Leaves u (children u fuel) fuel (children-Leaves u fuel) d (action d t.type_) t ts r
      (omega (arith, h))

-- The walk ends on every stream of tokens: it never runs out of rounds.
pub walk_top_level-ne-exhausted : (u : Unicode) (ts : List Token) → walk_top_level u ts ≢ exhausted
unfolding walk_top_level Leaves
walk_top_level-ne-exhausted u ts p =
    subst (Leaves (length ts)) p
      (children-Leaves u (suc (length ts)) at_top ts new_registry (omega arith))
