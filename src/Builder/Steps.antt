-- ===== src/Builder/Steps.antt =====
-- Rounds of the walk, the loops that a token closes, and the tokens of a table.
use translation_runtime_arch.Prelude.{◌≡◌, refl, sym, ap, ◌∙◌, String, List, [], ◌∷◌}
use translation_runtime_arch.Regex.{Unicode}
use translation_runtime_arch.Memory.{Nodes, no_nodes, next_node}
use translation_runtime_arch.Anchor.{AnchorRegistry}
use translation_runtime_arch.Builder.{
  th_close, th_open, false, Bool, true, td_close, tbody_open, thead_open, table, table_open,
  tr_open, td_open, none, table_row, Action, wrap, some, table_cell, plain_node, one, cell_text,
  consume_table_cell, append_nodes, TokenType, Token, Context, action, stop, as_section, as_row,
  as_cell, Walked, at, index_error, exhausted, and_then, close_any, close_if, closes_cell, enclosed,
  consume, advance, in_blockquote, in_table, in_section, in_row, table_close, thead_close,
  tbody_close, tr_close,
}
use translation_runtime_arch.Builder.Rounds.{walk, walk-step}
use translation_runtime_arch.Builder.Document.{
  body_tokens, inline_text, grid, mark, cell_tokens, row_tokens, block_tokens, cell_nodes,
  row_nodes,
}

append_nodes_assoc :
    (ns ms ks : Nodes) → append_nodes (append_nodes ns ms) ks ≡ append_nodes ns (append_nodes ms ks)
unfolding append_nodes
append_nodes_assoc no_nodes ms ks = refl
append_nodes_assoc (next_node n ns) ms ks = ap (next_node n) (append_nodes_assoc ns ms ks)

pub append_nodes_nil : (ns : Nodes) → append_nodes ns no_nodes ≡ ns
unfolding append_nodes
append_nodes_nil no_nodes = refl
append_nodes_nil (next_node n ns) = ap (next_node n) (append_nodes_nil ns)

-- nodes in front of those of a walk
unfoldable pub in_front : Nodes → Walked Nodes → Walked Nodes
in_front ns w = and_then w (λ ms. at (append_nodes ns ms))

pub in_front_nil : (w : Walked Nodes) → in_front no_nodes w ≡ w
unfolding in_front and_then append_nodes
in_front_nil (at ms ts r) = refl
in_front_nil index_error = refl
in_front_nil exhausted = refl

pub in_front-append :
    (ns ms : Nodes) (w : Walked Nodes)
    → in_front ns (in_front ms w) ≡ in_front (append_nodes ns ms) w
unfolding in_front and_then
in_front-append ns ms (at ks ts r) = ap (λ l. at l ts r) (sym (append_nodes_assoc ns ms ks))
in_front-append ns ms index_error = refl
in_front-append ns ms exhausted = refl

module _ (u : Unicode) where
  -- what a loop does with tokens that it skips, and where it stops
  skipped :
      (c : Context) (t : Token) (ts : List Token) (r : AnchorRegistry)
      → advance u (walk u) c (action c t.type_) t ts r ≡ in_front no_nodes (walk u c ts r)
      → walk u c (t ∷ ts) r ≡ walk u c ts r
  skipped c t ts r e = walk-step u c t ts r ∙ e ∙ in_front_nil (walk u c ts r)

  pub stops :
      (c : Context) (t : Token) (ts : List Token) (r : AnchorRegistry)
      → advance u (walk u) c (action c t.type_) t ts r ≡ at no_nodes (t ∷ ts) r
      → (ns : Nodes) → in_front ns (walk u c (t ∷ ts) r) ≡ at ns (t ∷ ts) r
  unfolding in_front and_then
  stops c t ts r e ns =
      ap (in_front ns) (walk-step u c t ts r ∙ e) ∙ ap (λ l. at l (t ∷ ts) r) (append_nodes_nil ns)

  -- a round that yields nodes, and the rest of its loop
  pub goes_on :
      (c : Context) (a : Action) (t : Token) (ts rest : List Token) (r r' : AnchorRegistry)
      (ns : Nodes)
      → advance u (walk u) c (action c t.type_) t ts r ≡ advance u (walk u) c a t ts r
      → advance u (walk u) c a t ts r
        ≡ and_then (consume u (walk u) a t ts r) (λ ns rest r'. in_front ns (walk u c rest r'))
      → consume u (walk u) a t ts r ≡ at ns rest r'
      → walk u c (t ∷ ts) r ≡ in_front ns (walk u c rest r')
  unfolding and_then
  goes_on c a t ts rest r r' ns e f g =
      walk-step u c t ts r
      ∙ e
      ∙ f
      ∙ ap (λ w. and_then w (λ ns rest r'. in_front ns (walk u c rest r'))) g

  pub followed :
      (c : Context) (l rest : List Token) (r r' : AnchorRegistry) (ns ms : Nodes) (w : Walked Nodes)
      → walk u c l r ≡ in_front ns (walk u c rest r')
      → walk u c rest r' ≡ in_front ms w
      → walk u c l r ≡ in_front (append_nodes ns ms) w
  followed c l rest r r' ns ms w e f = e ∙ ap (in_front ns) f ∙ in_front-append ns ms w

  -- a loop whose nodes are known up to the token that closes it
  pub closed :
      (d : Context) (f : Nodes → Nodes) (ts : List Token) (t : Token) (rest : List Token)
      (r r' : AnchorRegistry) (ns : Nodes)
      → walk u d ts r ≡ in_front ns (walk u d (t ∷ rest) r')
      → advance u (walk u) d (action d t.type_) t rest r' ≡ at no_nodes (t ∷ rest) r'
      → enclosed u (walk u) d f ts r ≡ at (f ns) rest r'
  unfolding enclosed and_then close_any
  closed d f ts t rest r r' ns e s =
      ap (λ w. and_then w (λ ns. close_any (f ns))) (e ∙ stops d t rest r' s ns)

  cells :
      (head : Bool) (cs : List String) (ts : List Token) (r : AnchorRegistry)
      → walk u in_row (cell_tokens head cs ts) r ≡ in_front (cell_nodes cs) (walk u in_row ts r)
  unfolding cell_tokens cell_nodes advance consume consume_table_cell cell_text close_if closes_cell
      in_front and_then action append_nodes
  cells head [] ts r = sym (in_front_nil (walk u in_row ts r))
  cells true (c ∷ cs) ts r =
      followed in_row _ (cell_tokens true cs ts) r r (one (plain_node table_cell (some c) no_nodes))
        (cell_nodes cs) _
        (goes_on in_row as_cell _ _ (cell_tokens true cs ts) r r
          (one (plain_node table_cell (some c) no_nodes)) refl refl refl)
        (cells true cs ts r)
  cells false (c ∷ cs) ts r =
      followed in_row _ (cell_tokens false cs ts) r r
        (one (plain_node table_cell (some c) no_nodes)) (cell_nodes cs) _
        (goes_on in_row as_cell _ _ (cell_tokens false cs ts) r r
          (one (plain_node table_cell (some c) no_nodes)) refl refl refl)
        (cells false cs ts r)

  rows :
      (head : Bool) (l : List (List String)) (ts : List Token) (r : AnchorRegistry)
      → walk u in_section (row_tokens head l ts) r ≡ in_front (row_nodes l) (walk u in_section ts r)
  unfolding row_tokens row_nodes advance action consume in_front
  rows head [] ts r = sym (in_front_nil (walk u in_section ts r))
  rows head (cs ∷ l) ts r =
      followed in_section _ (row_tokens head l ts) r r (wrap table_row none (cell_nodes cs))
        (row_nodes l) _
        (goes_on in_section as_row _ _ (row_tokens head l ts) r r
          (wrap table_row none (cell_nodes cs)) refl refl
          (closed in_row _ _ _ _ r r (cell_nodes cs)
            (cells head cs (mark tr_close ∷ row_tokens head l ts) r) refl))
        (rows head l ts r)

  -- a section of a table
  section_ :
      (o k : TokenType) (head : Bool) (l : List (List String)) (ts : List Token)
      (r : AnchorRegistry)
      → action in_table o ≡ as_section
      → action in_section k ≡ stop
      → walk u in_table (mark o ∷ row_tokens head l (mark k ∷ ts)) r
        ≡ in_front (row_nodes l) (walk u in_table ts r)
  unfolding advance consume in_front
  section_ o k head l ts r e f =
      goes_on in_table as_section _ _ ts r r (row_nodes l)
        (ap (λ a. advance u (walk u) in_table a (mark o) (row_tokens head l (mark k ∷ ts)) r) e)
        refl
        (closed in_section _ _ _ _ r r (row_nodes l) (rows head l (mark k ∷ ts) r)
          (ap (λ a. advance u (walk u) in_section a (mark k) ts r) f))

  body_section :
      (body : List (List String)) (ts : List Token) (r : AnchorRegistry)
      → walk u in_table (body_tokens body ts) r ≡ in_front (row_nodes body) (walk u in_table ts r)
  unfolding body_tokens action row_nodes
  body_section [] ts r = sym (in_front_nil (walk u in_table ts r))
  body_section (cs ∷ rows) ts r = section_ tbody_open tbody_close false (cs ∷ rows) ts r refl refl

  pub grid_tokens :
      (head body : List (List String)) (ts : List Token) (r : AnchorRegistry)
      → enclosed u
          (walk u)
          in_table
          (wrap table none)
          (mark thead_open
            ∷ row_tokens true head (mark thead_close ∷ body_tokens body (mark table_close ∷ ts)))
          r
        ≡ at (wrap table none (append_nodes (row_nodes head) (row_nodes body))) ts r
  unfolding action advance
  grid_tokens head body ts r =
      closed in_table _ _ (mark table_close) ts r r _
        (followed in_table _ _ r r (row_nodes head) (row_nodes body) _
          (section_ thead_open thead_close true head _ r refl refl)
          (body_section body (mark table_close ∷ ts) r))
        refl

  -- a quotation skips the tokens of a table
  skipped_cells :
      (head : Bool) (cs : List String) (ts : List Token) (r : AnchorRegistry)
      → walk u in_blockquote (cell_tokens head cs ts) r ≡ walk u in_blockquote ts r
  unfolding cell_tokens advance action consume in_front and_then
  skipped_cells head [] ts r = refl
  skipped_cells true (c ∷ cs) ts r =
      skipped in_blockquote (mark th_open) _ r refl
      ∙ skipped in_blockquote (inline_text c) _ r refl
      ∙ skipped in_blockquote (mark th_close) _ r refl
      ∙ skipped_cells true cs ts r
  skipped_cells false (c ∷ cs) ts r =
      skipped in_blockquote (mark td_open) _ r refl
      ∙ skipped in_blockquote (inline_text c) _ r refl
      ∙ skipped in_blockquote (mark td_close) _ r refl
      ∙ skipped_cells false cs ts r

  skipped_rows :
      (head : Bool) (l : List (List String)) (ts : List Token) (r : AnchorRegistry)
      → walk u in_blockquote (row_tokens head l ts) r ≡ walk u in_blockquote ts r
  unfolding row_tokens advance action consume in_front and_then
  skipped_rows head [] ts r = refl
  skipped_rows head (cs ∷ l) ts r =
      skipped in_blockquote (mark tr_open) _ r refl
      ∙ skipped_cells head cs _ r
      ∙ skipped in_blockquote (mark tr_close) _ r refl
      ∙ skipped_rows head l ts r

  skipped_body :
      (body : List (List String)) (ts : List Token) (r : AnchorRegistry)
      → walk u in_blockquote (body_tokens body ts) r ≡ walk u in_blockquote ts r
  unfolding body_tokens advance action consume in_front and_then
  skipped_body [] ts r = refl
  skipped_body (cs ∷ rows) ts r =
      skipped in_blockquote (mark tbody_open) _ r refl
      ∙ skipped_rows false (cs ∷ rows) _ r
      ∙ skipped in_blockquote (mark tbody_close) _ r refl

  pub skipped_grid :
      (head body : List (List String)) (ts : List Token) (r : AnchorRegistry)
      → walk u in_blockquote (block_tokens (grid head body) ts) r ≡ walk u in_blockquote ts r
  unfolding block_tokens advance action consume in_front and_then
  skipped_grid head body ts r =
      skipped in_blockquote (mark table_open) _ r refl
      ∙ skipped in_blockquote (mark thead_open) _ r refl
      ∙ skipped_rows true head _ r
      ∙ skipped in_blockquote (mark thead_close) _ r refl
      ∙ skipped_body body _ r
      ∙ skipped in_blockquote (mark table_close) _ r refl
