-- ===== src/Kernel/Links.antt =====
-- `_rewrite_anchors` of kernel.py.
use translation_runtime_arch.Prelude.{
  String, true, not, ◌||◌, Option, none, some, List, [], ◌∷◌, ◌++◌, map, if◌then◌else◌, ◌==◌,
}
use translation_runtime_arch.Text.{◌+++◌, contains, strip, truthy}
use translation_runtime_arch.Regex.{
  Unicode, Regex, seqs, plus, between, none_of, any_but_newline, literal, space, group, line_start,
  line_end, sub, find_all, Match, group_of,
}
use translation_runtime_arch.Dict.{get}
use translation_runtime_arch.Memory.{
  StructuralNode, Nodes, node, no_nodes, next_node, NodeKind, heading,
}
use translation_runtime_arch.Anchor.{
  AnchorRegistry, generate_github_slug, resolve_slug, bind, rewrite_links,
}
use translation_runtime_arch.Vm.{Host, Vm}

-- `\]\(#([^)]+)\)`
link_target : Regex
link_target = seqs (literal "](#" ∷ group 1 (plus (none_of ")")) ∷ literal ")" ∷ [])

-- `_slugify_link`
slugify_link : Unicode → Match → String
slugify_link u m =
    let slug = group_of 1 m.groups in
    if contains " " slug || not (slug == u.lower slug)
    then "](#" +++ generate_github_slug u slug +++ ")"
    else m.text

heading_text : NodeKind → Option String → List String
heading_text heading (some t) = if truthy t then t ∷ [] else []
heading_text _ _ = []

mutual
  unfolding heading_text

  pub headings_of_node : StructuralNode → List String
  headings_of_node (node k l t cs s p z) = heading_text k t ++ headings_of cs

  -- `_collect_headings`
  pub headings_of : Nodes → List String
  headings_of no_nodes = []
  headings_of (next_node n ns) = headings_of_node n ++ headings_of ns

-- `^(#{1,6})\s+(.+)$`
heading_re : Regex
heading_re = seqs (
    line_start
    ∷ between 1 5 (literal "#")
    ∷ plus space
    ∷ group 2 (plus any_but_newline)
    ∷ line_end
    ∷ [])

target_headings : Unicode → String → List String
unfolding heading_re
target_headings u target =
    map (λ (m : Match). strip (group_of 2 m.groups)) (find_all u heading_re target)

-- one round of the `zip` loop
unfoldable pub bind_heading : Unicode → String → String → AnchorRegistry → AnchorRegistry
bind_heading u source target r =
    elim (get (generate_github_slug u source) r.original_slug_to_placeholder) [
      | none ↦ r
      | some placeholder ↦ let (slug, r') = resolve_slug u target r in bind placeholder slug r'
    ]

unfoldable pub bind_headings : Unicode → List String → List String → AnchorRegistry → AnchorRegistry
bind_headings u (s ∷ ss) (t ∷ ts) r = bind_headings u ss ts (bind_heading u s t r)
bind_headings u [] ts r = r
bind_headings u (s ∷ ss) [] r = r

note_broken : List String → List String → List String
note_broken [] ambiguities = ambiguities
note_broken (slug ∷ slugs) ambiguities =
    note_broken slugs (ambiguities ++ ("BROKEN_LINK: #" +++ slug) ∷ [])

unfoldable pub rewrite_with : Host → String → Nodes → AnchorRegistry → Vm → String × Vm
unfolding link_target slugify_link target_headings note_broken
rewrite_with h target nodes registry v =
    let normal = sub h.unicode link_target (slugify_link h.unicode) target in
    let bound =
      bind_headings h.unicode (headings_of nodes) (target_headings h.unicode normal) registry in
    let (rewritten, broken) = rewrite_links h.unicode bound normal true in
    (
      rewritten,
      record v {
        ctx = record v.ctx {
          anchor_registry = some bound;
          unresolved_ambiguities = note_broken broken v.ctx.unresolved_ambiguities;
        };
      },
    )

unfoldable pub rewrite_if : Host → String → Option Nodes → Option AnchorRegistry → Vm → String × Vm
unfolding rewrite_with
rewrite_if h target (some nodes) (some registry) v = rewrite_with h target nodes registry v
rewrite_if h target none registry v = (target, v)
rewrite_if h target (some nodes) none v = (target, v)

unfoldable pub rewrite_anchors : Host → String → Vm → String × Vm
unfolding rewrite_if
rewrite_anchors h target v = rewrite_if h target v.ctx.structural_map v.ctx.anchor_registry v
