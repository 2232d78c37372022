-- ===== src/Builder/Shape.antt =====
-- The trees that the walk builds.
use translation_runtime_arch.Prelude.{
  ℕ, zero, suc, ◌≡◌, refl, Bool, true, false, Option, none, some, length, List, [], ◌∷◌, arith,
}
use translation_runtime_arch.Regex.{Unicode}
use translation_runtime_arch.Memory.{
  StructuralNode, node, Nodes, no_nodes, next_node, NodeKind, heading, paragraph, list, list_item,
  table, table_row, table_cell, code_block, blockquote, hr,
}
use translation_runtime_arch.Anchor.{AnchorRegistry, new_registry}
use translation_runtime_arch.Builder.Yields.{
  Yields, Yields-and_then, close_any-Yields, close_if-Yields,
}
use translation_runtime_arch.Builder.{
  TokenType, heading_open, Token, Context, action, Action, stop, skip, as_heading, as_paragraph,
  as_list, as_item, as_blockquote, as_table, as_section, as_row, as_cell, as_fence, as_hr, Walked,
  Walk, at, index_error, exhausted, closes_item, closes_cell, cell_text, consume_heading,
  consume_paragraph, consume_table_cell, enclosed, consume, advance, children, walk_top_level,
  at_top, in_list, in_item, in_blockquote, in_table, in_section, in_row, wrap, wrap_item,
  append_nodes, Parsed, built, failed, parsed, Tokenized, tokens, unparsable, build_structural_map,
}

-- the kinds of node that a loop collects
unfoldable pub collects : Context → NodeKind → Bool
collects at_top heading = true
collects at_top paragraph = true
collects at_top list = true
collects at_top blockquote = true
collects at_top table = true
collects at_top code_block = true
collects at_top hr = true
collects in_list list_item = true
collects in_item heading = true
collects in_item paragraph = true
collects in_item list = true
collects in_item blockquote = true
collects in_item table = true
collects in_blockquote heading = true
collects in_blockquote paragraph = true
collects in_blockquote list = true
collects in_blockquote blockquote = true
collects in_table table_row = true
collects in_section table_row = true
collects in_row table_cell = true
collects c k = false

-- the kinds that a node of a kind may have for its children
unfoldable pub holds_kind : NodeKind → NodeKind → Bool
unfolding collects
holds_kind list k = collects in_list k
holds_kind list_item k = collects in_item k
holds_kind blockquote k = collects in_blockquote k
holds_kind table k = collects in_table k
holds_kind table_row k = collects in_row k
holds_kind _ k = false

unfoldable pub is_code : NodeKind → Bool
is_code code_block = true
is_code _ = false

-- Every node's kind is one of the given ones, a code block and nothing else is a no-translate zone,
-- and the same holds of the children for the kinds that their parent may hold.
unfoldable mutual
  pub IsShapedNode : (NodeKind → Bool) → StructuralNode → Type 0
  IsShapedNode p (node k l t cs s h z) = (p k ≡ true) × (z ≡ is_code k) × IsShaped (holds_kind k) cs

  pub IsShaped : (NodeKind → Bool) → Nodes → Type 0
  IsShaped p no_nodes = Unit
  IsShaped p (next_node n ns) = IsShapedNode p n × IsShaped p ns

append_nodes-IsShaped :
    (p : NodeKind → Bool) (ns ms : Nodes)
    → IsShaped p ns
    → IsShaped p ms
    → IsShaped p (append_nodes ns ms)
unfolding append_nodes IsShaped
append_nodes-IsShaped p no_nodes ms h k = k
append_nodes-IsShaped p (next_node n ns) ms h k = (h.0, append_nodes-IsShaped p ns ms h.1 k)

-- whether the nodes of an action are of the kinds that a loop collects
gives : Context → Action → Bool
gives c stop = true
gives c skip = true
gives c as_heading = collects c heading
gives c as_paragraph = collects c paragraph
gives c as_list = collects c list
gives c as_item = collects c list_item
gives c as_blockquote = collects c blockquote
gives c as_table = collects c table
gives c as_section = collects c table_row
gives c as_row = collects c table_row
gives c as_cell = collects c table_cell
gives c as_fence = collects c code_block
gives c as_hr = collects c hr

gives-action : (c : Context) (t : TokenType) → gives c (action c t) ≡ true
unfolding gives action collects
gives-action at_top heading_open = refl
gives-action at_top _ = refl
gives-action in_list heading_open = refl
gives-action in_list _ = refl
gives-action in_item heading_open = refl
gives-action in_item _ = refl
gives-action in_blockquote heading_open = refl
gives-action in_blockquote _ = refl
gives-action in_table heading_open = refl
gives-action in_table _ = refl
gives-action in_section heading_open = refl
gives-action in_section _ = refl
gives-action in_row heading_open = refl
gives-action in_row _ = refl

false-ne-true : false ≡ true → ⊥
false-ne-true e = ground (arith, e)

-- only the kinds of the nodes themselves depend on the predicate
IsShaped-weaken :
    (p q : NodeKind → Bool) (ns : Nodes)
    → ((k : NodeKind) → p k ≡ true → q k ≡ true)
    → IsShaped p ns
    → IsShaped q ns
unfolding IsShaped
IsShaped-weaken p q no_nodes w h = tt
IsShaped-weaken p q (next_node (node k l t cs s a z) ns) w h =
    ((w k h.0.0, h.0.1, h.0.2), IsShaped-weaken p q ns w h.1)

rows_only :
    (c : Context) (k : NodeKind)
    → collects c table_row ≡ true
    → collects in_section k ≡ true
    → collects c k ≡ true
unfolding collects
rows_only c table_row h e = h
rows_only c heading h e = absurd (false-ne-true e)
rows_only c _ h e = absurd (false-ne-true e)

-- a node with its own kind, around nodes that fit it
wrapped :
    (p : NodeKind → Bool) (k : NodeKind) (l : Option ℕ) (ns : Nodes)
    → p k ≡ true
    → false ≡ is_code k
    → IsShaped (holds_kind k) ns
    → IsShaped p (wrap k l ns)
unfolding IsShaped wrap
wrapped p k l ns h z f = ((h, z, f), tt)

module _ (u : Unicode) (loop : Context → Walk Nodes)
    (shaped : (c : Context) (ts : List Token) (r : AnchorRegistry)
      → Yields (IsShaped (collects c)) (loop c ts r)) where
  enclosed-IsShaped :
      (c : Context) (p : NodeKind → Bool) (f : Nodes → Nodes) (ts : List Token) (r : AnchorRegistry)
      → ((ns : Nodes) → IsShaped (collects c) ns → IsShaped p (f ns))
      → Yields (IsShaped p) (enclosed u loop c f ts r)
  unfolding enclosed
  enclosed-IsShaped c p f ts r g =
      Yields-and_then (IsShaped (collects c)) (IsShaped p) (loop c ts r) _ (shaped c ts r)
        (λ ns rest r' h. close_any-Yields (IsShaped p) (f ns) rest r' (g ns h))

  consume-IsShaped :
      (c : Context) (a : Action) (t : Token) (ts : List Token) (r : AnchorRegistry)
      → gives c a ≡ true
      → Yields (IsShaped (collects c)) (consume u loop a t ts r)
  unfolding consume gives IsShaped holds_kind is_code consume_heading consume_paragraph
      consume_table_cell wrap_item
  consume-IsShaped c stop t ts r g = tt
  consume-IsShaped c skip t ts r g = tt
  consume-IsShaped c as_heading t (i ∷ j ∷ ts) r g = ((g, refl, tt), tt)
  consume-IsShaped c as_heading t (i ∷ []) r g = tt
  consume-IsShaped c as_heading t [] r g = tt
  consume-IsShaped c as_paragraph t (i ∷ j ∷ ts) r g = ((g, refl, tt), tt)
  consume-IsShaped c as_paragraph t (i ∷ []) r g = tt
  consume-IsShaped c as_paragraph t [] r g = tt
  consume-IsShaped c as_list t ts r g =
      enclosed-IsShaped in_list _ _ ts r
        (λ ns h. wrapped (collects c) list (some t.level) ns g refl h)
  consume-IsShaped c as_item t ts r g =
      Yields-and_then (IsShaped (collects in_item)) (IsShaped (collects c)) (loop in_item ts r) _
        (shaped in_item ts r)
        (λ ns rest r' h.
          close_if-Yields (IsShaped (collects c)) closes_item (wrap_item ns) rest r'
            ((g, refl, h), tt))
  consume-IsShaped c as_blockquote t ts r g =
      enclosed-IsShaped in_blockquote _ _ ts r
        (λ ns h. wrapped (collects c) blockquote none ns g refl h)
  consume-IsShaped c as_table t ts r g =
      enclosed-IsShaped in_table _ _ ts r (λ ns h. wrapped (collects c) table none ns g refl h)
  consume-IsShaped c as_section t ts r g =
      enclosed-IsShaped in_section _ _ ts r
        (λ ns h. IsShaped-weaken (collects in_section) (collects c) ns (λ k e. rows_only c k g e) h)
  consume-IsShaped c as_row t ts r g =
      enclosed-IsShaped in_row _ _ ts r (λ ns h. wrapped (collects c) table_row none ns g refl h)
  consume-IsShaped c as_cell t ts r g =
      close_if-Yields (IsShaped (collects c)) closes_cell _ (cell_text ts).1 r ((g, refl, tt), tt)
  consume-IsShaped c as_fence t ts r g = ((g, refl, tt), tt)
  consume-IsShaped c as_hr t ts r g = ((g, refl, tt), tt)

  advance-IsShaped :
      (c : Context) (a : Action) (t : Token) (ts : List Token) (r : AnchorRegistry)
      → gives c a ≡ true
      → Yields (IsShaped (collects c)) (advance u loop c a t ts r)
  unfolding advance IsShaped
  advance-IsShaped c stop t ts r g = tt
  advance-IsShaped c a t ts r g =
      Yields-and_then (IsShaped (collects c)) _ (consume u loop a t ts r) _
        (consume-IsShaped c a t ts r g)
        (λ ns rest r' h.
          Yields-and_then (IsShaped (collects c)) (IsShaped (collects c)) (loop c rest r') _
            (shaped c rest r') (λ ms rest' r'' k. append_nodes-IsShaped (collects c) ns ms h k))

children-IsShaped :
    (u : Unicode) (fuel : ℕ) (c : Context) (ts : List Token) (r : AnchorRegistry)
    → Yields (IsShaped (collects c)) (children u fuel c ts r)
unfolding children IsShaped
children-IsShaped u zero c ts r = tt
children-IsShaped u (suc fuel) c [] r = tt
children-IsShaped u (suc fuel) c (t ∷ ts) r =
    advance-IsShaped u (children u fuel) (children-IsShaped u fuel) c (action c t.type_) t ts r
      (gives-action c t.type_)

abbrev pub HasShape : Parsed → Type 0
HasShape (built ns r) = IsShaped (collects at_top) ns
HasShape (failed problem) = Unit

parsed-HasShape : (w : Walked Nodes) → Yields (IsShaped (collects at_top)) w → HasShape (parsed w)
unfolding parsed
parsed-HasShape (at ns ts r) h = h
parsed-HasShape index_error h = tt
parsed-HasShape exhausted h = tt

-- A structural map that is built is well-formed, whatever the tokens: its top-level nodes and the
-- children of every node are of the kinds that can stand there (rows in a table, cells in a row,
-- items in a list), and the no-translate zones are exactly its code blocks, while inline
-- code has no node.
pub build_structural_map-HasShape :
    (u : Unicode) (t : Tokenized) → HasShape (build_structural_map u t)
unfolding build_structural_map walk_top_level
build_structural_map-HasShape u (tokens ts) =
    parsed-HasShape (walk_top_level u ts)
      (children-IsShaped u (suc (length ts)) at_top ts new_registry)
build_structural_map-HasShape u (unparsable problem) = tt
