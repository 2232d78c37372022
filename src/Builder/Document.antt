-- ===== src/Builder/Document.antt =====
-- Documents as trees, the tokens that markdown-it makes of them, as far as the walk reads them, and the
-- structural map that stands for them.
use translation_runtime_arch.Prelude.{ℕ, String, Bool, true, false, none, some, List, [], ◌∷◌}
use translation_runtime_arch.Regex.{Unicode}
use translation_runtime_arch.Memory.{
  node, Nodes, no_nodes, next_node, heading, paragraph, list, table, table_row, table_cell,
  code_block, blockquote, hr, plain_node,
}
use translation_runtime_arch.Anchor.{AnchorRegistry, register, generate_github_slug}
use translation_runtime_arch.Builder.{
  TokenType, heading_open, heading_close, paragraph_open, paragraph_close, bullet_list_open,
  bullet_list_close, list_item_open, list_item_close, blockquote_open, blockquote_close, table_open,
  table_close, thead_open, thead_close, tbody_open, tbody_close, tr_open, tr_close, td_open,
  ordered_list_open, ordered_list_close, th_open, th_close, td_close, inline_, fence_, hr_, Token,
  Context, at_top, in_item, in_blockquote, one, append_nodes, wrap, wrap_item, heading_level,
}

mutual
  pub data Block : Type 0 where
    title : String → String → Block  -- the tag and the text of a heading
    text : String → Block
    enumeration : Bool → ℕ → Items → Block  -- ordered or not, and the level of its token
    quote : Blocks → Block
    grid : List (List String) → List (List String) → Block  -- head and body of a table
    code : String → Block
    rule : Block

  pub data Blocks : Type 0 where
    no_blocks : Blocks
    block : Block → Blocks → Blocks

  pub data Items : Type 0 where
    no_items : Items
    item : Blocks → Items → Items

abbrev pub token : TokenType → String → String → ℕ → Token
token k tag content level = record { type_ = k; tag = tag; content = content; level = level }

abbrev pub mark : TokenType → Token
mark k = token k "" "" 0

abbrev pub inline_text : String → Token
inline_text s = token inline_ "" s 0

-- the tokens around a list that is ordered or not, and around a cell of the head or of the body
abbrev pub list_open : Bool → TokenType
list_open true = ordered_list_open
list_open false = bullet_list_open

abbrev pub list_close : Bool → TokenType
list_close true = ordered_list_close
list_close false = bullet_list_close

abbrev pub cell_open : Bool → TokenType
cell_open true = th_open
cell_open false = td_open

abbrev pub cell_close : Bool → TokenType
cell_close true = th_close
cell_close false = td_close

-- the tokens of a cell, of a row and of rows, in front of others
unfoldable pub cell_tokens : Bool → List String → List Token → List Token
cell_tokens head [] ts = ts
cell_tokens head (c ∷ cs) ts =
    mark (cell_open head) ∷ inline_text c ∷ mark (cell_close head) ∷ cell_tokens head cs ts

unfoldable pub row_tokens : Bool → List (List String) → List Token → List Token
unfolding cell_tokens
row_tokens head [] ts = ts
row_tokens head (cs ∷ rows) ts =
    mark tr_open ∷ cell_tokens head cs (mark tr_close ∷ row_tokens head rows ts)

-- a table without rows below its head has no body
unfoldable pub body_tokens : List (List String) → List Token → List Token
body_tokens [] ts = ts
body_tokens (cs ∷ rows) ts = mark tbody_open ∷ row_tokens false (cs ∷ rows) (mark tbody_close ∷ ts)

-- the tokens of a document, in front of others
unfoldable mutual
  unfolding row_tokens body_tokens

  pub block_tokens : Block → List Token → List Token
  block_tokens (title tag s) ts =
      token heading_open tag "" 0 ∷ inline_text s ∷ mark heading_close ∷ ts
  block_tokens (text s) ts = mark paragraph_open ∷ inline_text s ∷ mark paragraph_close ∷ ts
  block_tokens (enumeration ordered level is) ts =
      token (list_open ordered) "" "" level ∷ item_tokens is (mark (list_close ordered) ∷ ts)
  block_tokens (quote bs) ts = mark blockquote_open ∷ tokens_of bs (mark blockquote_close ∷ ts)
  block_tokens (grid head body) ts =
      mark table_open
      ∷ mark thead_open
      ∷ row_tokens true head (mark thead_close ∷ body_tokens body (mark table_close ∷ ts))
  block_tokens (code s) ts = token fence_ "" s 0 ∷ ts
  block_tokens rule ts = mark hr_ ∷ ts

  pub tokens_of : Blocks → List Token → List Token
  tokens_of no_blocks ts = ts
  tokens_of (block b bs) ts = block_tokens b (tokens_of bs ts)

  pub item_tokens : Items → List Token → List Token
  item_tokens no_items ts = ts
  item_tokens (item bs is) ts =
      mark list_item_open ∷ tokens_of bs (mark list_item_close ∷ item_tokens is ts)

unfoldable pub cell_nodes : List String → Nodes
cell_nodes [] = no_nodes
cell_nodes (c ∷ cs) = next_node (plain_node table_cell (some c) no_nodes) (cell_nodes cs)

unfoldable pub row_nodes : List (List String) → Nodes
unfolding cell_nodes
row_nodes [] = no_nodes
row_nodes (cs ∷ rows) = append_nodes (wrap table_row none (cell_nodes cs)) (row_nodes rows)

-- where a block has a node: code and rules at the top only, tables not in a quotation
unfoldable pub has_code : Context → Bool
has_code at_top = true
has_code _ = false

unfoldable pub has_table : Context → Bool
has_table in_blockquote = false
has_table _ = true

abbrev pub only_if : Bool → Nodes → Nodes
only_if true ns = ns
only_if false ns = no_nodes

-- The structural map of a document, with its headings registered in their order.
module _ (u : Unicode) where
  unfoldable mutual
    unfolding row_nodes has_code has_table

    pub block_nodes : Context → Block → AnchorRegistry → Nodes × AnchorRegistry
    block_nodes c (title tag s) r =
        let (placeholder, r') = register u s r in
        (
          one (
              node heading (some (heading_level u tag)) (some s) no_nodes
                (some (generate_github_slug u s)) (some placeholder) false),
          r',
        )
    block_nodes c (text s) r = (one (plain_node paragraph (some s) no_nodes), r)
    block_nodes c (enumeration ordered level is) r =
        let (ns, r') = item_nodes is r in (wrap list (some level) ns, r')
    block_nodes c (quote bs) r =
        let (ns, r') = nodes_of in_blockquote bs r in (wrap blockquote none ns, r')
    block_nodes c (grid head body) r = (
      only_if (has_table c) (wrap table none (append_nodes (row_nodes head) (row_nodes body))),
      r,
    )
    block_nodes c (code s) r =
        (only_if (has_code c) (one (node code_block none (some s) no_nodes none none true)), r)
    block_nodes c rule r = (only_if (has_code c) (one (plain_node hr none no_nodes)), r)

    pub nodes_of : Context → Blocks → AnchorRegistry → Nodes × AnchorRegistry
    nodes_of c no_blocks r = (no_nodes, r)
    nodes_of c (block b bs) r =
        let (ns, r') = block_nodes c b r in
        let (ms, r'') = nodes_of c bs r' in (append_nodes ns ms, r'')

    pub item_nodes : Items → AnchorRegistry → Nodes × AnchorRegistry
    item_nodes no_items r = (no_nodes, r)
    item_nodes (item bs is) r =
        let (ns, r') = nodes_of in_item bs r in
        let (ms, r'') = item_nodes is r' in (append_nodes (wrap_item ns) ms, r'')
