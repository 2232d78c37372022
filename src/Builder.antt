-- ===== src/Builder.antt =====
-- `StructuralMapBuilder` of anchor.py: the walk over markdown-it's tokens. The position in the stream
-- only moves on, so that the walk keeps the tokens that are left. What `_next` raises behind the last
-- token is `index_error`; `exhausted` has no counterpart in the source.
pub mod Total
pub mod Shape
pub mod Yields
pub mod Rounds
pub mod Document
pub mod Steps
pub mod RoundTrip
use translation_runtime_arch.Prelude.{
  ℕ, zero, suc, String, Bool, true, false, Option, none, some, List, [], ◌∷◌, length,
}
use translation_runtime_arch.Regex.{Unicode, class, seq, literal, group, find_all, Match, group_of}
use translation_runtime_arch.Memory.{
  StructuralNode, node, Nodes, no_nodes, next_node, NodeKind, heading, paragraph, list, list_item,
  table, table_row, table_cell, code_block, blockquote, hr, plain_node, kind_of, text_of,
}
use translation_runtime_arch.Anchor.{AnchorRegistry, register, generate_github_slug, new_registry}
use Prim.Native.String

-- The types of token that the walk looks at.
pub data TokenType : Type 0 where
  heading_open heading_close paragraph_open paragraph_close bullet_list_open : TokenType
  bullet_list_close ordered_list_open ordered_list_close list_item_open list_item_close : TokenType
  blockquote_open blockquote_close table_open table_close thead_open thead_close : TokenType
  tbody_open tbody_close tr_open tr_close th_open th_close td_open td_close : TokenType
  inline_ fence_ hr_ : TokenType
  other_type : String → TokenType

pub record Token : Type 0 where
  pub type_ : TokenType
  pub tag : String
  pub content : String
  pub level : ℕ

-- What a loop does with the token that it peeks at.
pub data Action : Type 0 where
  stop skip as_heading as_paragraph as_list as_item as_blockquote as_table : Action
  as_section as_row as_cell as_fence as_hr : Action

-- The loops: `_consume_top` under `_walk_top_level`, `_consume_list`, `_consume_list_item`,
-- `_consume_blockquote`, `_consume_table` with its inner loop over a section, `_consume_table_row`.
pub data Context : Type 0 where
  at_top in_list in_item in_blockquote in_table in_section in_row : Context

-- the conditions of each loop
unfoldable pub action : Context → TokenType → Action
action at_top heading_open = as_heading
action at_top paragraph_open = as_paragraph
action at_top bullet_list_open = as_list
action at_top ordered_list_open = as_list
action at_top blockquote_open = as_blockquote
action at_top table_open = as_table
action at_top fence_ = as_fence
action at_top hr_ = as_hr
action at_top _ = skip
action in_list bullet_list_close = stop
action in_list ordered_list_close = stop
action in_list list_item_open = as_item
action in_list _ = skip
action in_item list_item_close = stop
action in_item bullet_list_close = stop
action in_item ordered_list_close = stop
action in_item paragraph_open = as_paragraph
action in_item bullet_list_open = as_list
action in_item ordered_list_open = as_list
action in_item blockquote_open = as_blockquote
action in_item heading_open = as_heading
action in_item table_open = as_table
action in_item _ = skip
action in_blockquote blockquote_close = stop
action in_blockquote paragraph_open = as_paragraph
action in_blockquote heading_open = as_heading
action in_blockquote bullet_list_open = as_list
action in_blockquote ordered_list_open = as_list
action in_blockquote blockquote_open = as_blockquote
action in_blockquote _ = skip
action in_table table_close = stop
action in_table thead_open = as_section
action in_table tbody_open = as_section
action in_table tr_open = as_row
action in_table _ = skip
action in_section thead_close = stop
action in_section tbody_close = stop
action in_section tr_open = as_row
action in_section _ = skip
action in_row tr_close = stop
action in_row th_open = as_cell
action in_row td_open = as_cell
action in_row _ = skip

pub data Walked (A : Type 0) : Type 0 where
  at : A → List Token → AnchorRegistry → Walked A
  index_error exhausted : Walked A

abbrev pub Walk : Type 0 → Type 0
Walk A = List Token → AnchorRegistry → Walked A

unfoldable pub and_then : {A B : Type 0} → Walked A → (A → Walk B) → Walked B
and_then (at a ts r) f = f a ts r
and_then index_error f = index_error
and_then exhausted f = exhausted

abbrev pub one : StructuralNode → Nodes
one n = next_node n no_nodes

unfoldable pub append_nodes : Nodes → Nodes → Nodes
append_nodes no_nodes ms = ms
append_nodes (next_node n ns) ms = next_node n (append_nodes ns ms)

-- `if self._peek() is not None: self._next()`
unfoldable pub close_any : {A : Type 0} → A → Walk A
close_any a [] r = at a [] r
close_any a (t ∷ ts) r = at a ts r

-- the same for the types that a test names
unfoldable pub close_if : {A : Type 0} → (TokenType → Bool) → A → Walk A
close_if p a [] r = at a [] r
close_if p a (t ∷ ts) r = elim (p t.type_) [ true ↦ at a ts r | false ↦ at a (t ∷ ts) r ]

unfoldable pub closes_item : TokenType → Bool
closes_item list_item_close = true
closes_item _ = false

unfoldable pub closes_cell : TokenType → Bool
closes_cell th_close = true
closes_cell td_close = true
closes_cell _ = false

-- `h(\d)`, and 1 where the tag does not hold it
level_of : Unicode → List Match → ℕ
level_of u [] = 1
level_of u (m ∷ ms) = u.digits_value (group_of 1 m.groups)

unfoldable pub heading_level : Unicode → String → ℕ
unfolding level_of
heading_level u tag = level_of u (find_all u (seq (literal "h") (group 1 (class u.is_digit))) tag)

module _ (u : Unicode) where
  -- behind `heading_open`: the inline token and the closing one, whatever their types
  unfoldable pub consume_heading : Token → Walk Nodes
  consume_heading open_tok (i ∷ c ∷ ts) r =
      let (placeholder, r') = register u i.content r in
      at
        (one (
          node heading (some (heading_level u open_tok.tag)) (some i.content) no_nodes
            (some (generate_github_slug u i.content)) (some placeholder) false))
        ts r'
  consume_heading open_tok _ r = index_error

  unfoldable pub consume_paragraph : Walk Nodes
  consume_paragraph (i ∷ c ∷ ts) r = at (one (plain_node paragraph (some i.content) no_nodes)) ts r
  consume_paragraph _ r = index_error

-- the text of a cell, with the tokens behind it
cell_text : List Token → String × List Token
cell_text [] = ("", [])
cell_text (t ∷ ts) = elim t.type_ [ inline_ ↦ (t.content, ts) | _ ↦ ("", t ∷ ts) ]

unfoldable pub consume_table_cell : Walk Nodes
unfolding cell_text
consume_table_cell ts r =
    let (text, rest) = cell_text ts in
    close_if closes_cell (one (plain_node table_cell (some text) no_nodes)) rest r

-- a list item has its first paragraph's text
unfoldable pub item_text : Nodes → Option String
item_text no_nodes = none
item_text (next_node n ns) = elim (kind_of n) [ paragraph ↦ text_of n | _ ↦ none ]

-- a node around the nodes of a loop
unfoldable pub wrap : NodeKind → Option ℕ → Nodes → Nodes
wrap k level ns = one (node k level none ns none none false)

unfoldable pub wrap_item : Nodes → Nodes
wrap_item ns = one (plain_node list_item (item_text ns) ns)

module _ (u : Unicode) (loop : Context → Walk Nodes) where
  -- a loop up to its closing token, which is consumed too
  pub enclosed : Context → (Nodes → Nodes) → Walk Nodes
  enclosed d f ts r = and_then (loop d ts r) (λ ns. close_any (f ns))

  -- what an action does behind the token that called for it
  unfoldable pub consume : Action → Token → Walk Nodes
  unfolding enclosed
  consume stop t ts r = at no_nodes ts r
  consume skip t ts r = at no_nodes ts r
  consume as_heading t ts r = consume_heading u t ts r
  consume as_paragraph t ts r = consume_paragraph u ts r
  consume as_list t ts r = enclosed in_list (wrap list (some t.level)) ts r
  consume as_item t ts r = and_then (loop in_item ts r) (λ ns. close_if closes_item (wrap_item ns))
  consume as_blockquote t ts r = enclosed in_blockquote (wrap blockquote none) ts r
  consume as_table t ts r = enclosed in_table (wrap table none) ts r
  consume as_section t ts r = enclosed in_section (λ ns. ns) ts r
  consume as_row t ts r = enclosed in_row (wrap table_row none) ts r
  consume as_cell t ts r = consume_table_cell ts r
  consume as_fence t ts r =
      at (one (node code_block none (some t.content) no_nodes none none true)) ts r
  consume as_hr t ts r = at (one (plain_node hr none no_nodes)) ts r

  -- one round of a loop: it stops in front of a closing token
  unfoldable pub advance : Context → Action → Token → Walk Nodes
  unfolding consume
  advance d stop t ts r = at no_nodes (t ∷ ts) r
  advance d a t ts r =
      and_then (consume a t ts r)
        (λ ns rest r'. and_then (loop d rest r') (λ ms. at (append_nodes ns ms)))

-- a loop of the walk: the nodes of the tokens up to the one where it stops, or to the end
unfoldable pub children : Unicode → ℕ → Context → Walk Nodes
unfolding advance
children u zero d ts r = exhausted
children u (suc fuel) d [] r = at no_nodes [] r
children u (suc fuel) d (t ∷ ts) r = advance u (children u fuel) d (action d t.type_) t ts r

-- `_walk_top_level` on a new registry; a round for each token and one more is enough
unfoldable pub walk_top_level : Unicode → List Token → Walked Nodes
walk_top_level u ts = children u (suc (length ts)) at_top ts new_registry

-- What markdown-it does with a source: its tokens, or the text of an exception.
pub data Tokenized : Type 0 where
  tokens : List Token → Tokenized
  unparsable : String → Tokenized

-- What `build_structural_map` does: the map with its registry, or the text of an exception.
pub data Parsed : Type 0 where
  built : Nodes → AnchorRegistry → Parsed
  failed : String → Parsed

parsed : Walked Nodes → Parsed
parsed (at ns ts r) = built ns r
parsed index_error = failed "list index out of range"
parsed exhausted = failed ""

unfoldable pub build_structural_map : Unicode → Tokenized → Parsed
unfolding parsed
build_structural_map u (tokens ts) = parsed (walk_top_level u ts)
build_structural_map u (unparsable problem) = failed problem
