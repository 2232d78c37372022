-- ===== src/Builder/RoundTrip.antt =====
-- The walk over the tokens of a document.
use translation_runtime_arch.Prelude.{ℕ, Bool, true, false, ◌≡◌, refl, sym, ap, ◌∙◌, List, [], ◌∷◌}
use translation_runtime_arch.Regex.{Unicode}
use translation_runtime_arch.Memory.{Nodes}
use translation_runtime_arch.Anchor.{AnchorRegistry, new_registry}
use translation_runtime_arch.Builder.{
  list_item_open, blockquote_open, blockquote, list, consume_paragraph, consume_heading, children,
  none, wrap, some, append_nodes, at_top, Token, Context, action, as_heading, as_paragraph, as_list,
  as_item, as_blockquote, as_table, as_fence, as_hr, at, and_then, close_if, closes_item, consume,
  advance, in_list, in_item, in_blockquote, wrap_item, walk_top_level, list_item_close,
  blockquote_close,
}
use translation_runtime_arch.Builder.Rounds.{walk, walk-step}
use translation_runtime_arch.Builder.Document.{
  list_open, list_close, token, Block, title, text, enumeration, quote, grid, code, rule, Blocks,
  no_blocks, block, Items, no_items, item, mark, block_tokens, tokens_of, item_tokens, has_code,
  has_table, block_nodes, nodes_of, item_nodes,
}
use translation_runtime_arch.Builder.Steps.{
  append_nodes_nil, in_front, in_front_nil, stops, goes_on, followed, closed, grid_tokens,
  skipped_grid,
}

-- the loops over blocks
data IsFlow : Context → Type 0 where
  at_the_top : IsFlow at_top
  itemized : IsFlow in_item
  quoted : IsFlow in_blockquote

-- a list, a quotation and an item, by the walk over what is in them
module _ (u : Unicode) where
  walk-enumeration :
      (c : Context) (f : IsFlow c) (ordered : Bool) (l : ℕ) (ts rest : List Token)
      (r r' : AnchorRegistry) (ns : Nodes)
      → walk u in_list ts r ≡ in_front ns (walk u in_list (mark (list_close ordered) ∷ rest) r')
      → walk u c (token (list_open ordered) "" "" l ∷ ts) r
        ≡ in_front (wrap list (some l) ns) (walk u c rest r')
  unfolding advance action consume in_front
  walk-enumeration c at_the_top true l ts rest r r' ns e =
      goes_on u c as_list _ ts rest r r' _ refl refl (closed u in_list _ ts _ rest r r' ns e refl)
  walk-enumeration c at_the_top false l ts rest r r' ns e =
      goes_on u c as_list _ ts rest r r' _ refl refl (closed u in_list _ ts _ rest r r' ns e refl)
  walk-enumeration c itemized true l ts rest r r' ns e =
      goes_on u c as_list _ ts rest r r' _ refl refl (closed u in_list _ ts _ rest r r' ns e refl)
  walk-enumeration c itemized false l ts rest r r' ns e =
      goes_on u c as_list _ ts rest r r' _ refl refl (closed u in_list _ ts _ rest r r' ns e refl)
  walk-enumeration c quoted true l ts rest r r' ns e =
      goes_on u c as_list _ ts rest r r' _ refl refl (closed u in_list _ ts _ rest r r' ns e refl)
  walk-enumeration c quoted false l ts rest r r' ns e =
      goes_on u c as_list _ ts rest r r' _ refl refl (closed u in_list _ ts _ rest r r' ns e refl)

  walk-quote :
      (c : Context) (f : IsFlow c) (ts rest : List Token) (r r' : AnchorRegistry) (ns : Nodes)
      → walk u in_blockquote ts r
        ≡ in_front ns (walk u in_blockquote (mark blockquote_close ∷ rest) r')
      → walk u c (mark blockquote_open ∷ ts) r
        ≡ in_front (wrap blockquote none ns) (walk u c rest r')
  unfolding advance action consume in_front
  walk-quote c at_the_top ts rest r r' ns e =
      goes_on u c as_blockquote _ ts rest r r' _ refl refl
        (closed u in_blockquote _ ts _ rest r r' ns e refl)
  walk-quote c itemized ts rest r r' ns e =
      goes_on u c as_blockquote _ ts rest r r' _ refl refl
        (closed u in_blockquote _ ts _ rest r r' ns e refl)
  walk-quote c quoted ts rest r r' ns e =
      goes_on u c as_blockquote _ ts rest r r' _ refl refl
        (closed u in_blockquote _ ts _ rest r r' ns e refl)

  walk-item :
      (ts rest : List Token) (r r' : AnchorRegistry) (ns : Nodes)
      → walk u in_item ts r ≡ in_front ns (walk u in_item (mark list_item_close ∷ rest) r')
      → walk u in_list (mark list_item_open ∷ ts) r
        ≡ in_front (wrap_item ns) (walk u in_list rest r')
  unfolding advance action consume in_front close_if closes_item and_then
  walk-item ts rest r r' ns e = goes_on u in_list as_item _ ts rest r r' _ refl refl (
      ap (λ w. and_then w (λ ns. close_if closes_item (wrap_item ns)))
        (e ∙ stops u in_item (mark list_item_close) rest r' refl ns))

module _ (u : Unicode) where
  mutual
    unfolding tokens_of nodes_of item_tokens item_nodes append_nodes closes_item close_if
        block_tokens block_nodes has_code has_table advance action consume consume_heading
        consume_paragraph in_front and_then

    walk-block :
        (b : Block) (c : Context) (f : IsFlow c) (ts : List Token) (r : AnchorRegistry)
        → walk u c (block_tokens b ts) r
          ≡ in_front (block_nodes u c b r).0 (walk u c ts (block_nodes u c b r).1)
    walk-block (title tag s) c at_the_top ts r = goes_on u c as_heading _ _ ts r _ _ refl refl refl
    walk-block (title tag s) c itemized ts r = goes_on u c as_heading _ _ ts r _ _ refl refl refl
    walk-block (title tag s) c quoted ts r = goes_on u c as_heading _ _ ts r _ _ refl refl refl
    walk-block (text s) c at_the_top ts r = goes_on u c as_paragraph _ _ ts r _ _ refl refl refl
    walk-block (text s) c itemized ts r = goes_on u c as_paragraph _ _ ts r _ _ refl refl refl
    walk-block (text s) c quoted ts r = goes_on u c as_paragraph _ _ ts r _ _ refl refl refl
    walk-block (enumeration o l is) c f ts r =
        walk-enumeration u c f o l _ ts r _ _ (walk-items is (mark (list_close o) ∷ ts) r)
    walk-block (quote bs) c f ts r =
        walk-quote u c f _ ts r _ _
          (walk-blocks bs in_blockquote quoted (mark blockquote_close ∷ ts) r)
    walk-block (grid head body) c at_the_top ts r =
        goes_on u c as_table _ _ ts r _ _ refl refl (grid_tokens u head body ts r)
    walk-block (grid head body) c itemized ts r =
        goes_on u c as_table _ _ ts r _ _ refl refl (grid_tokens u head body ts r)
    walk-block (grid head body) c quoted ts r =
        skipped_grid u head body ts r ∙ sym (in_front_nil (walk u in_blockquote ts r))
    walk-block (code s) c at_the_top ts r = goes_on u c as_fence _ _ ts r _ _ refl refl refl
    walk-block (code s) c itemized ts r = walk-step u c _ ts r
    walk-block (code s) c quoted ts r = walk-step u c _ ts r
    walk-block rule c at_the_top ts r = goes_on u c as_hr _ _ ts r _ _ refl refl refl
    walk-block rule c itemized ts r = walk-step u c _ ts r
    walk-block rule c quoted ts r = walk-step u c _ ts r

    walk-blocks :
        (bs : Blocks) (c : Context) (f : IsFlow c) (ts : List Token) (r : AnchorRegistry)
        → walk u c (tokens_of bs ts) r
          ≡ in_front (nodes_of u c bs r).0 (walk u c ts (nodes_of u c bs r).1)
    walk-blocks no_blocks c f ts r = sym (in_front_nil (walk u c ts r))
    walk-blocks (block b bs) c f ts r =
        followed u c _ _ r _ (block_nodes u c b r).0 _ _ (walk-block b c f (tokens_of bs ts) r)
          (walk-blocks bs c f ts (block_nodes u c b r).1)

    walk-items :
        (is : Items) (ts : List Token) (r : AnchorRegistry)
        → walk u in_list (item_tokens is ts) r
          ≡ in_front (item_nodes u is r).0 (walk u in_list ts (item_nodes u is r).1)
    walk-items no_items ts r = sym (in_front_nil (walk u in_list ts r))
    walk-items (item bs is) ts r =
        followed u in_list _ _ r _ (wrap_item (nodes_of u in_item bs r).0) _ _
          (walk-item u _ (item_tokens is ts) r _ _
            (walk-blocks bs in_item itemized (mark list_item_close ∷ item_tokens is ts) r))
          (walk-items is ts (nodes_of u in_item bs r).1)

-- The walk over the tokens of a document ends behind them with the structural map of the document:
-- every heading, paragraph, list, ordered or not, quotation and table in its place and in its order, with the
-- placeholders of the headings registered in their order, and without what it skips, which is code
-- and rules below the top and tables in a quotation.
pub walk_top_level-tokens_of :
    (u : Unicode) (bs : Blocks)
    → walk_top_level u (tokens_of bs [])
      ≡ at (nodes_of u at_top bs new_registry).0 [] (nodes_of u at_top bs new_registry).1
unfolding walk_top_level walk children in_front and_then
walk_top_level-tokens_of u bs =
    walk-blocks u bs at_top at_the_top [] new_registry
    ∙ ap (λ ns. at ns [] (nodes_of u at_top bs new_registry).1)
        (append_nodes_nil (nodes_of u at_top bs new_registry).0)
