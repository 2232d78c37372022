-- ===== src/Examples/Documents.antt =====
-- Walks over the tokens of concrete documents.
use translation_runtime_arch.Prelude.{true, ◌≡◌, ◌≢◌, [], ◌∷◌}
use translation_runtime_arch.Regex.Tests.{ascii}
use translation_runtime_arch.Anchor.{new_registry}
use translation_runtime_arch.Builder.{
  tokens, at, exhausted, walk_top_level, build_structural_map, at_top,
}
use translation_runtime_arch.Builder.Total.{walk_top_level-ne-exhausted}
use translation_runtime_arch.Builder.Shape.{HasShape, build_structural_map-HasShape}
use translation_runtime_arch.Builder.Document.{
  Blocks, no_blocks, block, title, text, enumeration, quote, grid, code, rule, no_items, item,
  tokens_of, nodes_of,
}
use translation_runtime_arch.Builder.RoundTrip.{walk_top_level-tokens_of}

abbrev paragraphs : Blocks
paragraphs = block (text "a") (block (code "b") no_blocks)

-- every kind of block, with a table and code in a quotation
abbrev mixed : Blocks
mixed = block (title "h1" "Intro") (
    block (enumeration true 0 (item paragraphs no_items)) (
      block (quote (block (grid (("c" ∷ []) ∷ []) (("d" ∷ []) ∷ [])) paragraphs))
        (block rule no_blocks)))

walk_top_level-ne-exhausted_example : walk_top_level ascii (tokens_of mixed []) ≢ exhausted
walk_top_level-ne-exhausted_example = walk_top_level-ne-exhausted ascii (tokens_of mixed [])

build_structural_map-HasShape_example :
    HasShape (build_structural_map ascii (tokens (tokens_of mixed [])))
build_structural_map-HasShape_example =
    build_structural_map-HasShape ascii (tokens (tokens_of mixed []))

walk_top_level-tokens_of_example :
    walk_top_level ascii (tokens_of mixed [])
    ≡ at
        (nodes_of ascii at_top mixed new_registry).0
        []
        (nodes_of ascii at_top mixed new_registry).1
walk_top_level-tokens_of_example = walk_top_level-tokens_of ascii mixed
