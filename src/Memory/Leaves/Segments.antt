-- ===== src/Memory/Leaves/Segments.antt =====
-- Which nodes of a structural map are its leaf segments.
use translation_runtime_arch.Prelude.{
  ℕ, ◌≤◌, ◌≡◌, refl, sym, ap, Bool, true, false, not, Option, none, some, List, [], ◌∷◌, ◌++◌,
  length, if◌then◌else◌, arith, String,
}
use translation_runtime_arch.Memory.{
  NodeKind, heading, paragraph, list, list_item, table, table_row, table_cell, code_block,
  inline_code, link, anchor, blockquote, hr, StructuralNode, node, Nodes, no_nodes, next_node,
}
use translation_runtime_arch.Memory.Leaves.{
  node_count, is_list_item, is_yielded, iter_leaf_segments, leaves_of_node, leaves_of_nodes,
  leaves_of_nodes-le, enumerate, walk_nodes-enumerate,
}

-- every node of a tree in document order, with the kind of its parent
unfoldable mutual
  pub preorder_node : Option NodeKind → StructuralNode → List (Option NodeKind × StructuralNode)
  preorder_node parent (node k l t cs s p z) =
      (parent, node k l t cs s p z) ∷ preorder_nodes (some k) cs

  pub preorder_nodes : Option NodeKind → Nodes → List (Option NodeKind × StructuralNode)
  preorder_nodes parent no_nodes = []
  preorder_nodes parent (next_node n ns) = preorder_node parent n ++ preorder_nodes parent ns

-- not in a list item
stands_alone : Option NodeKind → Bool
stands_alone (some list_item) = false
stands_alone _ = true

-- What is translated: the text of a heading, of a table cell, of a list item, and of a paragraph, but
-- not of one in a list item, which has the text already.
unfoldable pub is_segment : Option NodeKind × StructuralNode → Bool
unfolding stands_alone
is_segment (parent, node heading l (some t) cs s p z) = true
is_segment (parent, node table_cell l (some t) cs s p z) = true
is_segment (parent, node list_item l (some t) cs s p z) = true
is_segment (parent, node paragraph l (some t) cs s p z) = stands_alone parent
is_segment _ = false

unfoldable pub segments : List (Option NodeKind × StructuralNode) → List StructuralNode
segments [] = []
segments ((parent, n) ∷ ns) =
    let rest = segments ns in if is_segment (parent, n) then n ∷ rest else rest

segments-append :
    (xs ys : List (Option NodeKind × StructuralNode))
    → segments (xs ++ ys) ≡ segments xs ++ segments ys
unfolding segments
segments-append [] ys = refl
segments-append ((parent, n) ∷ xs) ys = ground (arith, segments-append xs ys)

not-is_list_item : (parent : Option NodeKind) → not (is_list_item parent) ≡ stands_alone parent
unfolding stands_alone
not-is_list_item none = refl
not-is_list_item (some heading) = refl
not-is_list_item (some paragraph) = refl
not-is_list_item (some list) = refl
not-is_list_item (some list_item) = refl
not-is_list_item (some table) = refl
not-is_list_item (some table_row) = refl
not-is_list_item (some table_cell) = refl
not-is_list_item (some code_block) = refl
not-is_list_item (some inline_code) = refl
not-is_list_item (some link) = refl
not-is_list_item (some anchor) = refl
not-is_list_item (some blockquote) = refl
not-is_list_item (some hr) = refl

is_yielded-is_segment :
    (parent : Option NodeKind) (k : NodeKind) (l : Option ℕ) (t : Option String) (cs : Nodes)
    (s p : Option String) (z : Bool)
    → is_yielded parent k t ≡ is_segment (parent, node k l t cs s p z)
unfolding is_segment
is_yielded-is_segment parent heading l none cs s p z = refl
is_yielded-is_segment parent heading l (some t) cs s p z = refl
is_yielded-is_segment parent list l none cs s p z = refl
is_yielded-is_segment parent list l (some t) cs s p z = refl
is_yielded-is_segment parent list_item l none cs s p z = refl
is_yielded-is_segment parent list_item l (some t) cs s p z = refl
is_yielded-is_segment parent table l none cs s p z = refl
is_yielded-is_segment parent table l (some t) cs s p z = refl
is_yielded-is_segment parent table_row l none cs s p z = refl
is_yielded-is_segment parent table_row l (some t) cs s p z = refl
is_yielded-is_segment parent table_cell l none cs s p z = refl
is_yielded-is_segment parent table_cell l (some t) cs s p z = refl
is_yielded-is_segment parent code_block l none cs s p z = refl
is_yielded-is_segment parent code_block l (some t) cs s p z = refl
is_yielded-is_segment parent inline_code l none cs s p z = refl
is_yielded-is_segment parent inline_code l (some t) cs s p z = refl
is_yielded-is_segment parent link l none cs s p z = refl
is_yielded-is_segment parent link l (some t) cs s p z = refl
is_yielded-is_segment parent anchor l none cs s p z = refl
is_yielded-is_segment parent anchor l (some t) cs s p z = refl
is_yielded-is_segment parent blockquote l none cs s p z = refl
is_yielded-is_segment parent blockquote l (some t) cs s p z = refl
is_yielded-is_segment parent hr l none cs s p z = refl
is_yielded-is_segment parent hr l (some t) cs s p z = refl
is_yielded-is_segment parent paragraph l none cs s p z = refl
is_yielded-is_segment parent paragraph l (some t) cs s p z = not-is_list_item parent

mutual
  unfolding leaves_of_node preorder_node segments

  leaves_of_node-segments :
      (parent : Option NodeKind) (n : StructuralNode)
      → leaves_of_node parent n ≡ segments (preorder_node parent n)
  leaves_of_node-segments parent (node k l t cs s p z) =
      rw (is_yielded-is_segment parent k l t cs s p z) (
        ap (λ ns. if is_segment (parent, node k l t cs s p z) then node k l t cs s p z ∷ ns else ns)
          (leaves_of_nodes-segments (some k) cs))

  leaves_of_nodes-segments :
      (parent : Option NodeKind) (ns : Nodes)
      → leaves_of_nodes parent ns ≡ segments (preorder_nodes parent ns)
  leaves_of_nodes-segments parent no_nodes = refl
  leaves_of_nodes-segments parent (next_node n ns) =
      rw (leaves_of_node-segments parent n, leaves_of_nodes-segments parent ns)
        (sym (segments-append (preorder_node parent n) (preorder_nodes parent ns)))

-- The generator yields exactly the segments among the nodes of the tree, in document order, numbered
-- 0, 1, 2, … without a gap: headings, table cells, list items and the paragraphs that are in no list
-- item, each if it has a text. There are at most as many as the tree has nodes.
pub iter_leaf_segments-enumerate :
    (ns : Nodes)
    → (iter_leaf_segments ns ≡ enumerate 0 (segments (preorder_nodes none ns)))
      × (length (segments (preorder_nodes none ns)) ≤ node_count ns)
unfolding iter_leaf_segments
iter_leaf_segments-enumerate ns =
    rw (sym (leaves_of_nodes-segments none ns))
      (ap (λ r. r.0) (walk_nodes-enumerate none 0 ns), leaves_of_nodes-le none ns)
