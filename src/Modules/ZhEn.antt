-- ===== src/Modules/ZhEn.antt =====
-- modules/zh_en.py: the ZH <-> EN language module.
mod Tables
pub mod Rules
pub use Tables.{glossary, epistemic_lexicon, forbidden_targets}
use translation_runtime_arch.Prelude.{
  String, code, Bool, false, ◌&&◌, Option, none, some, [], ◌∷◌, leb, eqb, elem, if◌then◌else◌,
}
use translation_runtime_arch.Text.{len, contains, replace, split, strip, starts_with}
use translation_runtime_arch.Regex.{Unicode, sub}
use translation_runtime_arch.Regex.Case.{any_case}
use translation_runtime_arch.Dict.{Dict, get}
use translation_runtime_arch.Memory.{EntityType, product}
use translation_runtime_arch.Modules.{LanguageModule, profile}
use Tables.{
  topic_comment, nominalization, four_char_map, passive_reduction, full_to_half, half_to_full,
}
use Prim.Native.String

-- `sorted(table, key=len, reverse=True)`: longest key first, the order of the table among equals
insert_longest : String × String → Dict String → Dict String
insert_longest p [] = p ∷ []
insert_longest p (q ∷ d) = if leb (len q.0) (len p.0) then p ∷ q ∷ d else q ∷ insert_longest p d

unfoldable pub longest_first : Dict String → Dict String
unfolding insert_longest len
longest_first [] = []
longest_first (p ∷ d) = insert_longest p (longest_first d)

-- `for key in keys: if key in out: out = out.replace(key, table[key])`
unfoldable pub replace_all : Dict String → String → String
unfolding contains replace
replace_all [] out = out
replace_all ((key, value) ∷ d) out =
    replace_all d (if contains key out then replace out key value else out)

-- `_WS_RE.sub(" ", s)`: a run of spaces becomes one
collapse_spaces : String → String
unfolding starts_with
collapse_spaces String.[] = String.[]
collapse_spaces (String.◌∷◌ c s) =
    let rest = collapse_spaces s in
    if eqb (code c) 32 && starts_with s " " then rest else String.◌∷◌ c rest

unfoldable pub normalize_punctuation : Dict String → String → String
unfolding collapse_spaces longest_first replace_all strip
normalize_punctuation table text = strip (collapse_spaces (replace_all (longest_first table) text))

unfoldable pub apply_zh_rules : String → String
unfolding normalize_punctuation
apply_zh_rules text =
    normalize_punctuation full_to_half
      (replace_all (longest_first nominalization) (replace_all (longest_first topic_comment) text))

module _ (u : Unicode) where
  sub_all : Dict String → String → String
  sub_all [] out = out
  sub_all ((key, value) ∷ d) out = sub_all d (sub u (any_case key) (λ _. value) out)

  unfoldable pub apply_en_rules : String → String
  unfolding sub_all normalize_punctuation any_case
  apply_en_rules text =
      normalize_punctuation half_to_full
        (sub_all (longest_first passive_reduction) (sub_all (longest_first four_char_map) text))

  unfoldable pub apply_rules : String → String → String
  unfolding starts_with
  apply_rules source direction =
      if starts_with direction "ZH"
      then apply_zh_rules source
      else if starts_with direction "EN"
      then apply_en_rules source
      else source

unfoldable pub is_forbidden : String → String → Bool
is_forbidden source target = elim (get source forbidden_targets) [
  | none ↦ false
  | some banned ↦ elem target (split b'/' banned)
]

unfoldable pub entity_type_hint : String → Option EntityType
entity_type_hint token =
    if elem token ("RustVMM" ∷ "Firecracker" ∷ "Containerd" ∷ []) then some product else none

-- `ZHENModule().as_interface()`
unfoldable pub zh_en : Unicode → LanguageModule
zh_en u = record {
  name = "zh_en";
  kind = "language";
  direction = "ZH -> EN";
  glossary_mappings = glossary;
  style_profile = profile epistemic_lexicon;
  forbidden_targets = forbidden_targets;
  is_forbidden = is_forbidden;
  entity_type_hint = entity_type_hint;
  apply_zh_rules = apply_zh_rules;
  apply_rules = apply_rules u;
}
