-- ===== src/Memory/Leaves.antt =====
-- `StructuralMap` of memory.py: the node count, and the leaf segments in document order.
pub mod Segments
use translation_runtime_arch.Prelude.{
  ◌≤◌, length-append, ◌∙◌, ℕ, suc, ◌+◌, ◌≡◌, ap, Bool, true, false, not, ◌&&◌, Option, none, some,
  List, [], ◌∷◌, ◌++◌, length, if◌then◌else◌, is_some, arith, String,
}
use translation_runtime_arch.Memory.{
  NodeKind, heading, paragraph, list_item, table_cell, StructuralNode, node, Nodes, no_nodes,
  next_node,
}

unfoldable mutual
  pub count_node : StructuralNode → ℕ
  count_node (node k l t cs s p z) = suc (count_nodes cs)

  pub count_nodes : Nodes → ℕ
  count_nodes no_nodes = 0
  count_nodes (next_node n ns) = count_node n + count_nodes ns

-- `node_count`
abbrev pub node_count : Nodes → ℕ
node_count = count_nodes

-- `node.kind in leaf_kinds`
abbrev is_leaf_kind : NodeKind → Bool
is_leaf_kind heading = true
is_leaf_kind paragraph = true
is_leaf_kind list_item = true
is_leaf_kind table_cell = true
is_leaf_kind _ = false

-- a paragraph whose parent is a list item; the parent of a top-level node is `none`
abbrev is_list_item : Option NodeKind → Bool
is_list_item (some list_item) = true
is_list_item _ = false

abbrev is_dup_paragraph : Option NodeKind → NodeKind → Bool
is_dup_paragraph parent paragraph = is_list_item parent
is_dup_paragraph _ _ = false

abbrev is_yielded : Option NodeKind → NodeKind → Option String → Bool
is_yielded parent k t = is_leaf_kind k && (is_some t && not (is_dup_paragraph parent k))

-- The generator `walk`, with the counter `idx` passed through.
unfoldable mutual
  pub walk_node : Option NodeKind → ℕ → StructuralNode → List (ℕ × StructuralNode) × ℕ
  walk_node parent idx (node k l t cs s p z) =
      let yielded = is_yielded parent k t in
      let (below, after) = walk_nodes (some k) (if yielded then idx + 1 else idx) cs in
      ((if yielded then (idx, node k l t cs s p z) ∷ below else below), after)

  pub walk_nodes : Option NodeKind → ℕ → Nodes → List (ℕ × StructuralNode) × ℕ
  walk_nodes parent idx no_nodes = ([], idx)
  walk_nodes parent idx (next_node n ns) =
      let (first, between) = walk_node parent idx n in
      let (others, after) = walk_nodes parent between ns in (first ++ others, after)

unfoldable pub iter_leaf_segments : Nodes → List (ℕ × StructuralNode)
unfolding walk_nodes
iter_leaf_segments ns = (walk_nodes none 0 ns).0

-- The nodes that are leaf segments, with no counter: the nodes in document order, less those that
-- are not yielded.
unfoldable mutual
  pub leaves_of_node : Option NodeKind → StructuralNode → List StructuralNode
  leaves_of_node parent (node k l t cs s p z) =
      let below = leaves_of_nodes (some k) cs in
      if is_yielded parent k t then node k l t cs s p z ∷ below else below

  pub leaves_of_nodes : Option NodeKind → Nodes → List StructuralNode
  leaves_of_nodes parent no_nodes = []
  leaves_of_nodes parent (next_node n ns) = leaves_of_node parent n ++ leaves_of_nodes parent ns

unfoldable pub enumerate : ℕ → List StructuralNode → List (ℕ × StructuralNode)
enumerate i [] = []
enumerate i (n ∷ ns) = (i, n) ∷ enumerate (i + 1) ns

enumerate-append :
    (i : ℕ) (xs ys : List StructuralNode)
    → enumerate i (xs ++ ys) ≡ enumerate i xs ++ enumerate (i + length xs) ys
unfolding enumerate
enumerate-append i [] ys = ap (λ k. enumerate k ys) (omega arith)
enumerate-append i (x ∷ xs) ys = ap (◌∷◌ (i, x)) (
    enumerate-append (i + 1) xs ys ∙ ap (λ k. enumerate (i + 1) xs ++ enumerate k ys) (omega arith))

mutual
  unfolding walk_node leaves_of_node enumerate

  walk_node-enumerate :
      (parent : Option NodeKind) (i : ℕ) (n : StructuralNode)
      → walk_node parent i n
        ≡ (enumerate i (leaves_of_node parent n), i + length (leaves_of_node parent n))
  walk_node-enumerate parent i (node k l t cs s p z) =
      ground (arith, walk_nodes-enumerate (some k) (i + 1) cs, walk_nodes-enumerate (some k) i cs)

  walk_nodes-enumerate :
      (parent : Option NodeKind) (i : ℕ) (ns : Nodes)
      → walk_nodes parent i ns
        ≡ (enumerate i (leaves_of_nodes parent ns), i + length (leaves_of_nodes parent ns))
  walk_nodes-enumerate parent i no_nodes = ground arith
  walk_nodes-enumerate parent i (next_node n ns) = rw (walk_node-enumerate parent i n) (
      rw (walk_nodes-enumerate parent (i + length (leaves_of_node parent n)) ns) (
        ground (
          arith,
          enumerate-append i (leaves_of_node parent n) (leaves_of_nodes parent ns),
          length-append {0} (leaves_of_node parent n) (leaves_of_nodes parent ns),
        )))

mutual
  unfolding leaves_of_node count_node

  leaves_of_node-le :
      (parent : Option NodeKind) (n : StructuralNode)
      → length (leaves_of_node parent n) ≤ count_node n
  leaves_of_node-le parent (node k l t cs s p z) = ground (arith, leaves_of_nodes-le (some k) cs)

  leaves_of_nodes-le :
      (parent : Option NodeKind) (ns : Nodes) → length (leaves_of_nodes parent ns) ≤ count_nodes ns
  leaves_of_nodes-le parent no_nodes = omega arith
  leaves_of_nodes-le parent (next_node n ns) = omega (
    arith,
    leaves_of_node-le parent n,
    leaves_of_nodes-le parent ns,
    length-append {0} (leaves_of_node parent n) (leaves_of_nodes parent ns),
  )
