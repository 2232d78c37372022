-- ===== src/Kernel/Quiet.antt =====
-- With the cache switched off the instructions raise nothing but a `TRAException`.
use translation_runtime_arch.Prelude.{
  ℕ, String, ◌≡◌, ap, ◌∙◌, Bool, true, false, Option, none, some, List, [], ◌∷◌, if◌then◌else◌,
}
use translation_runtime_arch.Exceptions.{Exception}
use translation_runtime_arch.Memory.{StructuralNode, Nodes, text_of, is_no_translate_zone}
use translation_runtime_arch.Memory.Leaves.{iter_leaf_segments}
use translation_runtime_arch.Vm.{Host, Vm}
use translation_runtime_arch.Vm.Exec.{Exec, Outcome, ok, err, pure, ◌>>=◌}
use translation_runtime_arch.Vm.Triple.{After, Triple, Calm, IsTra, triple-bind}
use translation_runtime_arch.Isa.Translate.{Llm, translate_segment}
use translation_runtime_arch.Isa.Logs.{kept}
use translation_runtime_arch.Isa.Logs.Segments.{translate_segment-off}
use translation_runtime_arch.Kernel.Translation.{
  execute_translation, translate_leaves, translate_some, translate_segments, translate_leaf,
  translate_whole, translate_protected,
}

abbrev pub Off : Vm → Type 0
Off v = v.cache.enabled ≡ false

abbrev pub Tra : Exception → Vm → Type 0
Tra e v = IsTra e × Off v

-- an instruction that leaves the switch alone and raises only a `TRAException`
abbrev pub Quiet : {A : Type 0} → Exec Vm A → Type 0
Quiet m = Triple Off m (λ _. Off) Tra

After-Off :
    {A : Type 0} (v : Vm) (p : Outcome A × Vm)
    → Off v
    → After
        (λ _ w. w.cache.enabled ≡ v.cache.enabled)
        (λ e w. IsTra e × (w.cache.enabled ≡ v.cache.enabled))
        p
    → After (λ _. Off) Tra p
After-Off v (ok a, w) o c = c ∙ o
After-Off v (err e, w) o c = (c.0, c.1 ∙ o)

pub from_calm : {A : Type 0} (m : Exec Vm A) → Calm (λ (v : Vm). v.cache.enabled) IsTra m → Quiet m
from_calm m c v o = After-Off v (m v) o (c v)

After-switch :
    {A X : Type 0} (f : Vm → X) (g : X → Bool) (x : X) (p : Outcome A × Vm)
    → After (λ _ w. f w ≡ x) (λ e w. IsTra e × (f w ≡ x)) p
    → After (λ _ w. g (f w) ≡ g x) (λ e w. IsTra e × (g (f w) ≡ g x)) p
After-switch f g x (ok a, w) c = ap g c
After-switch f g x (err e, w) c = (c.0, ap g c.1)

translate_segment-Quiet :
    (h : Host) (llm : Option Llm) (s : String) → Quiet (translate_segment h llm s)
translate_segment-Quiet h llm s v o =
    After-Off v _ o
      (After-switch kept (λ t. t.0.0.0.1) (kept v) _ (translate_segment-off h llm s v o))

bind :
    {A B : Type 0} (m : Exec Vm A) (g : A → Exec Vm B)
    → Quiet m
    → ((a : A) → Quiet (g a))
    → Quiet (m >>= g)
bind m g = triple-bind (λ _. Off) (λ _. Off) Tra g m

pure-Quiet : {A : Type 0} (a : A) → Quiet (pure a)
unfolding pure
pure-Quiet a v o = o

translate_leaf-Quiet :
    (h : Host) (leaf translated : String) → Quiet (translate_leaf h leaf translated)
unfolding translate_leaf
translate_leaf-Quiet h leaf translated =
    bind _ _ (translate_segment-Quiet h none _) (λ r. pure-Quiet _)

if-Quiet :
    {A : Type 0} (b : Bool) (m n : Exec Vm A) → Quiet m → Quiet n → Quiet (if b then m else n)
if-Quiet true m n p q = p
if-Quiet false m n p q = q

some-Quiet :
    (h : Host) (o : Option String) (z : Bool) (translated : String) (next : String → Exec Vm String)
    → ((s : String) → Quiet (next s))
    → Quiet (translate_some h o z translated next)
unfolding translate_some
some-Quiet h none z translated next c = c translated
some-Quiet h (some leaf) z translated next c =
    if-Quiet _ _ _ (c translated) (bind _ _ (translate_leaf-Quiet h leaf translated) c)

leaves-Quiet :
    (h : Host) (ns : List (ℕ × StructuralNode)) (translated : String)
    → Quiet (translate_leaves h ns translated)
unfolding translate_leaves
leaves-Quiet h [] translated = pure-Quiet translated
leaves-Quiet h ((i, n) ∷ ns) translated =
    some-Quiet h (text_of n) (is_no_translate_zone n) translated (translate_leaves h ns)
      (leaves-Quiet h ns)

whole-Quiet : (h : Host) (llm : Option Llm) (s : String) → Quiet (translate_whole h llm s)
unfolding translate_whole
whole-Quiet h llm s = bind _ _ (translate_segment-Quiet h llm s) (λ r. pure-Quiet _)

segments-Quiet :
    (h : Host) (ns : List (ℕ × StructuralNode)) (s : String) → Quiet (translate_segments h ns s)
unfolding translate_segments
segments-Quiet h [] s = whole-Quiet h none s
segments-Quiet h (n ∷ ns) s = leaves-Quiet h (n ∷ ns) s

protected-Quiet :
    (h : Host) (llm : Option Llm) (map : Option Nodes) (s : String)
    → Quiet (translate_protected h llm map s)
unfolding translate_protected
protected-Quiet h (some llm) map s = whole-Quiet h (some llm) s
protected-Quiet h none none s = whole-Quiet h none s
protected-Quiet h none (some nodes) s = segments-Quiet h (iter_leaf_segments nodes) s

pub execute_translation-Quiet :
    (h : Host) (llm : Option Llm) (s : String) → Quiet (execute_translation h llm s)
unfolding execute_translation
execute_translation-Quiet h llm s v =
    bind _ _ (protected-Quiet h llm v.ctx.structural_map _) (λ t. pure-Quiet _) v
