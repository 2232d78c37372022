-- ===== src/Kernel/Translation.antt =====
-- `_execute_translation` of kernel.py.
use translation_runtime_arch.Prelude.{
  ℕ, String, Bool, not, ◌||◌, Option, none, some, List, [], ◌∷◌, length, if◌then◌else◌,
}
use translation_runtime_arch.Text.{◌+++◌, contains, replace, replace_first, strip, truthy, show}
use translation_runtime_arch.Regex.{
  Unicode, Regex, seqs, star, plus, lazy_star, any_char, none_of, literal, pieces, Piece, plain,
  hit, sub,
}
use translation_runtime_arch.Dict.{Dict, put}
use translation_runtime_arch.Memory.{StructuralNode, Nodes, text_of, is_no_translate_zone}
use translation_runtime_arch.Memory.Leaves.{iter_leaf_segments}
use translation_runtime_arch.Cache.{TranslationResult}
use translation_runtime_arch.Vm.{Host, Vm}
use translation_runtime_arch.Vm.Exec.{Exec, pure, ◌>>=◌}
use translation_runtime_arch.Isa.Translate.{Llm, translate_segment}

-- "```[^\n]*\n.*?```" under the flag DOTALL
fence_re : Regex
fence_re =
    seqs
      (literal "```" ∷ star (none_of "\n") ∷ literal "\n" ∷ lazy_star any_char ∷ literal "```" ∷ [])

-- "`[^`\n]+`"
inline_re : Regex
inline_re = seqs (literal "`" ∷ plus (none_of "`\n") ∷ literal "`" ∷ [])

-- a substitution that puts each match into the dict, under a key with the dict's length
stash_pieces : String → List Piece → Dict String → String × Dict String
stash_pieces prefix [] d = (String.[], d)
stash_pieces prefix (plain c ∷ ps) d =
    let (s, d') = stash_pieces prefix ps d in (String.◌∷◌ c s, d')
stash_pieces prefix (hit m ∷ ps) d =
    let name = prefix +++ show (length d) +++ "__" in
    let (s, d') = stash_pieces prefix ps (put name m.text d) in (name +++ s, d')

unfoldable pub stash : Unicode → Regex → String → String → Dict String → String × Dict String
unfolding stash_pieces
stash u r prefix s d = stash_pieces prefix (pieces u r s) d

-- `for key, original in placeholders.items(): …`
unfoldable pub restore : Dict String → String → String
restore [] s = s
restore ((name, original) ∷ d) s = restore d (replace s name original)

-- the leaf's text with every inline code under the first placeholder, as the source has it
as_in_document : Unicode → String → String
unfolding inline_re
as_in_document u s = sub u inline_re (λ _. "__INLINE_CODE_0__") s

put_back : Unicode → String → String → String → String
unfolding as_in_document
put_back u leaf leaf_translated translated =
    let shielded = as_in_document u leaf in
    if contains shielded translated
    then replace_first translated shielded leaf_translated
    else if contains leaf translated
    then replace_first translated leaf leaf_translated
    else translated

unfoldable pub translate_leaf : Host → String → String → Exec Vm String
unfolding inline_re put_back
translate_leaf h leaf translated =
    let (shielded, placeholders) = stash h.unicode inline_re "__LEAF_INLINE_" leaf [] in
    translate_segment h none shielded >>= λ (r : TranslationResult).
    pure (put_back h.unicode leaf (restore placeholders r.translation) translated)

-- one round of the loop: a leaf without text, with blank text, or that is code is passed over
unfoldable pub translate_some :
    Host → Option String → Bool → String → (String → Exec Vm String) → Exec Vm String
translate_some h none zone translated next = next translated
translate_some h (some leaf) zone translated next =
    if not (truthy (strip leaf)) || zone
    then next translated
    else (translate_leaf h leaf translated >>= next)

unfoldable pub translate_leaves : Host → List (ℕ × StructuralNode) → String → Exec Vm String
unfolding translate_some
translate_leaves h [] translated = pure translated
translate_leaves h ((i, n) ∷ ns) translated =
    translate_some h (text_of n) (is_no_translate_zone n) translated (translate_leaves h ns)

unfoldable pub translate_whole : Host → Option Llm → String → Exec Vm String
translate_whole h llm s =
    translate_segment h llm s >>= λ (r : TranslationResult). pure r.translation

-- the leaves if there are any and there is no callback, else the document as a whole
unfoldable pub translate_segments : Host → List (ℕ × StructuralNode) → String → Exec Vm String
unfolding translate_leaves translate_whole
translate_segments h [] s = translate_whole h none s
translate_segments h (leaf ∷ leaves) s = translate_leaves h (leaf ∷ leaves) s

unfoldable pub translate_protected : Host → Option Llm → Option Nodes → String → Exec Vm String
unfolding translate_whole translate_segments
translate_protected h (some llm) map s = translate_whole h (some llm) s
translate_protected h none none s = translate_whole h none s
translate_protected h none (some nodes) s = translate_segments h (iter_leaf_segments nodes) s

unfoldable pub execute_translation : Host → Option Llm → String → Exec Vm String
unfolding fence_re inline_re
execute_translation h llm src v =
    let (fenced, blocks) = stash h.unicode fence_re "__CODE_BLOCK_" src [] in
    let (protected, placeholders) = stash h.unicode inline_re "__INLINE_CODE_" fenced blocks in
    (translate_protected h llm v.ctx.structural_map protected >>= λ t.
    pure (restore placeholders t))
      v
