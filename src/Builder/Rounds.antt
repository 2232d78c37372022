-- ===== src/Builder/Rounds.antt =====
-- The number of rounds does not matter once it exceeds the number of tokens: the loops without it.
use translation_runtime_arch.Prelude.{
  ℕ, zero, suc, ◌≤◌, ◌<◌, ◌≡◌, refl, ap, ◌∙◌, List, [], ◌∷◌, length, arith,
}
use translation_runtime_arch.Regex.{Unicode}
use translation_runtime_arch.Memory.{Nodes}
use translation_runtime_arch.Anchor.{AnchorRegistry}
use translation_runtime_arch.Builder.{
  append_nodes, Token, Context, action, Action, stop, as_list, as_item, as_blockquote, as_table,
  as_section, as_row, Walked, Walk, at, index_error, exhausted, and_then, close_any, close_if,
  closes_item, enclosed, consume, advance, children, in_list, in_item, in_blockquote, in_table,
  in_section, in_row, wrap_item,
}
use translation_runtime_arch.Builder.Total.{Leaves, children-Leaves, consume-Leaves}

and_then_after :
    {A B : Type 0} (n : ℕ) (w : Walked A) (f g : A → Walk B)
    → Leaves n w
    → ((a : A) (ts : List Token) (r : AnchorRegistry) → length ts ≤ n → f a ts r ≡ g a ts r)
    → and_then w f ≡ and_then w g
unfolding Leaves and_then
and_then_after n (at a ts r) f g h k = k a ts r h
and_then_after n index_error f g h k = refl
and_then_after n exhausted f g h k = refl

-- two loops that agree on at most `n` tokens
module _ (u : Unicode) (loop loop' : Context → Walk Nodes) (n : ℕ)
    (bounded : (d : Context) (ts : List Token) (r : AnchorRegistry)
      → length ts < suc n
      → Leaves (length ts) (loop d ts r))
    (agree : (d : Context) (ts : List Token) (r : AnchorRegistry)
      → length ts < suc n
      → loop d ts r ≡ loop' d ts r) where
  enclosed-agree :
      (d : Context) (f : Nodes → Nodes) (ts : List Token) (r : AnchorRegistry)
      → length ts < suc n
      → enclosed u loop d f ts r ≡ enclosed u loop' d f ts r
  unfolding enclosed
  enclosed-agree d f ts r h = ap (λ w. and_then w (λ ns. close_any (f ns))) (agree d ts r h)

  consume-agree :
      (a : Action) (t : Token) (ts : List Token) (r : AnchorRegistry)
      → length ts < suc n
      → consume u loop a t ts r ≡ consume u loop' a t ts r
  unfolding consume
  consume-agree as_list t ts r h = enclosed-agree in_list _ ts r h
  consume-agree as_item t ts r h =
      ap (λ w. and_then w (λ ns. close_if closes_item (wrap_item ns))) (agree in_item ts r h)
  consume-agree as_blockquote t ts r h = enclosed-agree in_blockquote _ ts r h
  consume-agree as_table t ts r h = enclosed-agree in_table _ ts r h
  consume-agree as_section t ts r h = enclosed-agree in_section _ ts r h
  consume-agree as_row t ts r h = enclosed-agree in_row _ ts r h
  consume-agree _ t ts r h = refl

  go_on-agree :
      (d : Context) (a : Action) (t : Token) (ts : List Token) (r : AnchorRegistry)
      → length ts < suc n
      → and_then
          (consume u loop a t ts r)
          (λ ns rest r'. and_then (loop d rest r') (λ ms. at (append_nodes ns ms)))
        ≡ and_then
            (consume u loop' a t ts r)
            (λ ns rest r'. and_then (loop' d rest r') (λ ms. at (append_nodes ns ms)))
  go_on-agree d a t ts r h =
      and_then_after (length ts) _ _ _ (consume-Leaves u loop (suc n) bounded a t ts r h)
        (λ ns rest r' le.
          ap (λ w. and_then w (λ ms. at (append_nodes ns ms)))
            (agree d rest r' (omega (arith, le, h))))
      ∙ ap
          (λ w.
            and_then w (λ ns rest r'. and_then (loop' d rest r') (λ ms. at (append_nodes ns ms))))
          (consume-agree a t ts r h)

  advance-agree :
      (d : Context) (a : Action) (t : Token) (ts : List Token) (r : AnchorRegistry)
      → length ts < suc n
      → advance u loop d a t ts r ≡ advance u loop' d a t ts r
  unfolding advance
  advance-agree d stop t ts r h = refl
  advance-agree d a t ts r h = go_on-agree d a t ts r h

children-agree :
    (u : Unicode) (f g : ℕ) (c : Context) (ts : List Token) (r : AnchorRegistry)
    → length ts < f
    → length ts < g
    → children u f c ts r ≡ children u g c ts r
unfolding children
children-agree u zero g c ts r h k = absurd (omega (arith, h))
children-agree u (suc f) zero c ts r h k = absurd (omega (arith, k))
children-agree u (suc f) (suc g) c [] r h k = refl
children-agree u (suc f) (suc g) c (t ∷ ts) r h k =
    advance-agree u (children u f) (children u g) (length ts)
      (λ d l r' lt. children-Leaves u f d l r' (omega (arith, lt, h)))
      (λ d l r' lt. children-agree u f g d l r' (omega (arith, lt, h)) (omega (arith, lt, k))) c
      (action c t.type_) t ts r (omega arith)

-- a loop with the rounds that it needs
unfoldable pub walk : Unicode → Context → Walk Nodes
walk u c ts r = children u (suc (length ts)) c ts r

-- its round, with itself for the loops in it
pub walk-step :
    (u : Unicode) (c : Context) (t : Token) (ts : List Token) (r : AnchorRegistry)
    → walk u c (t ∷ ts) r ≡ advance u (walk u) c (action c t.type_) t ts r
unfolding walk children
walk-step u c t ts r =
    advance-agree u (children u (suc (length ts))) (walk u) (length ts)
      (λ d l r' lt. children-Leaves u (suc (length ts)) d l r' lt)
      (λ d l r' lt. children-agree u (suc (length ts)) (suc (length l)) d l r' lt (omega arith)) c
      (action c t.type_) t ts r (omega arith)
