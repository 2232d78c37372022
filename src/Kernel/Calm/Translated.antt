-- ===== src/Kernel/Calm/Translated.antt =====
-- What the translation and the rewriting of links leave alone.
use translation_runtime_arch.Prelude.{ℕ, String, ◌≡◌, refl, Bool, Option, none, some, List, [], ◌∷◌}
use translation_runtime_arch.Memory.{StructuralNode, Nodes, text_of, is_no_translate_zone}
use translation_runtime_arch.Memory.Leaves.{iter_leaf_segments}
use translation_runtime_arch.Vm.{Host, Vm}
use translation_runtime_arch.Vm.Exec.{Exec}
use translation_runtime_arch.Vm.Triple.{Calm, IsAny, Calm-bind, Calm-if}
use translation_runtime_arch.Isa.Translate.{Llm}
use translation_runtime_arch.Isa.Logs.{kept}
use translation_runtime_arch.Isa.Logs.Segments.{translate_segment-Calm}
use translation_runtime_arch.Kernel.Translation.{
  execute_translation, translate_leaves, translate_some, translate_segments, translate_leaf,
  translate_whole, translate_protected,
}
use translation_runtime_arch.Kernel.Links.{rewrite_anchors, rewrite_if, rewrite_with}
use translation_runtime_arch.Anchor.{AnchorRegistry}
use translation_runtime_arch.Kernel.Calm.{Calm-pure}

translate_leaf-Calm :
    (h : Host) (leaf translated : String) → Calm kept IsAny (translate_leaf h leaf translated)
unfolding translate_leaf
translate_leaf-Calm h leaf translated =
    Calm-bind kept IsAny _ _ (translate_segment-Calm h none _) (λ r. Calm-pure kept IsAny _)

leaf-Calm :
    (h : Host) (o : Option String) (z : Bool) (translated : String) (next : String → Exec Vm String)
    → ((s : String) → Calm kept IsAny (next s))
    → Calm kept IsAny (translate_some h o z translated next)
unfolding translate_some
leaf-Calm h none z translated next c = c translated
leaf-Calm h (some leaf) z translated next c =
    Calm-if kept IsAny _ _ _ (c translated)
      (Calm-bind kept IsAny _ _ (translate_leaf-Calm h leaf translated) c)

translate_leaves-Calm :
    (h : Host) (ns : List (ℕ × StructuralNode)) (translated : String)
    → Calm kept IsAny (translate_leaves h ns translated)
unfolding translate_leaves
translate_leaves-Calm h [] translated = Calm-pure kept IsAny translated
translate_leaves-Calm h ((i, n) ∷ ns) translated =
    leaf-Calm h (text_of n) (is_no_translate_zone n) translated (translate_leaves h ns)
      (translate_leaves-Calm h ns)

translate_whole-Calm :
    (h : Host) (llm : Option Llm) (s : String) → Calm kept IsAny (translate_whole h llm s)
unfolding translate_whole
translate_whole-Calm h llm s =
    Calm-bind kept IsAny _ _ (translate_segment-Calm h llm s) (λ r. Calm-pure kept IsAny _)

translate_segments-Calm :
    (h : Host) (ns : List (ℕ × StructuralNode)) (s : String)
    → Calm kept IsAny (translate_segments h ns s)
unfolding translate_segments
translate_segments-Calm h [] s = translate_whole-Calm h none s
translate_segments-Calm h (n ∷ ns) s = translate_leaves-Calm h (n ∷ ns) s

translate_protected-Calm :
    (h : Host) (llm : Option Llm) (map : Option Nodes) (s : String)
    → Calm kept IsAny (translate_protected h llm map s)
unfolding translate_protected
translate_protected-Calm h (some llm) map s = translate_whole-Calm h (some llm) s
translate_protected-Calm h none none s = translate_whole-Calm h none s
translate_protected-Calm h none (some nodes) s =
    translate_segments-Calm h (iter_leaf_segments nodes) s

pub execute_translation-Calm :
    (h : Host) (llm : Option Llm) (s : String) → Calm kept IsAny (execute_translation h llm s)
unfolding execute_translation
execute_translation-Calm h llm s v =
    Calm-bind kept IsAny _ _ (translate_protected-Calm h llm v.ctx.structural_map _)
      (λ t. Calm-pure kept IsAny _) v

rewrite_if-kept :
    (h : Host) (t : String) (ns : Option Nodes) (r : Option AnchorRegistry) (v : Vm)
    → kept (rewrite_if h t ns r v).1 ≡ kept v
unfolding rewrite_if rewrite_with
rewrite_if-kept h t (some ns) (some r) v = refl
rewrite_if-kept h t none r v = refl
rewrite_if-kept h t (some ns) none v = refl

pub rewrite_anchors-kept :
    (h : Host) (t : String) (v : Vm) → kept (rewrite_anchors h t v).1 ≡ kept v
unfolding rewrite_anchors
rewrite_anchors-kept h t v = rewrite_if-kept h t v.ctx.structural_map v.ctx.anchor_registry v
