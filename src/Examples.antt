-- ===== src/Examples.antt =====
-- Concrete runs, on a small host with an ASCII alphabet.
mod Documents
mod Registries
mod Reports
mod Wrapped
mod Configs
mod Exports
mod Findings
use translation_runtime_arch.Prelude.{
  String, ◌≡◌, ◌≤◌, ◌+◌, refl, true, false, none, some, List, [], ◌∷◌, length, if◌then◌else◌, ◌==◌,
  elem, not,
}
use translation_runtime_arch.Text.{take_text, ◌+++◌, contains, len, before_first}
use translation_runtime_arch.Regex.{find_all}
use translation_runtime_arch.Dict.{get}
use translation_runtime_arch.Isa.Common.{glossary_dict}
use translation_runtime_arch.Regex.Tests.{ascii}
use translation_runtime_arch.Memory.{
  blocking, Nodes, no_nodes, next_node, plain_node, heading, paragraph, l3_strict,
}
use translation_runtime_arch.Memory.Leaves.Segments.{
  iter_leaf_segments-enumerate, segments, preorder_nodes,
}
use translation_runtime_arch.Memory.Leaves.{iter_leaf_segments, enumerate, node_count}
use translation_runtime_arch.Policy.{value}
use translation_runtime_arch.Diagnostics.{Diagnostic, new_trail, no_evidence, add}
use translation_runtime_arch.Modules.{LanguageModule, profile}
use translation_runtime_arch.Modules.ZhEn.{zh_en, replace_all, apply_zh_rules}
use translation_runtime_arch.Anchor.{new_registry, resolve_slug, rewrite_lines}
use translation_runtime_arch.Anchor.Slugs.{resolve_slug-free}
use translation_runtime_arch.Anchor.Lines.{rewrite_lines-kinds, kinds, written, closings}
use translation_runtime_arch.Cache.{
  Codec, IsCodec, TranslationResult, miss, found, lookup, store_result, read_raw, str, is_ascii,
}
use translation_runtime_arch.Cache.Integrity.{lookup-store_result, read_raw_signed_only}
use translation_runtime_arch.Vm.{Host, add_evidence, Vm, new_context}
use translation_runtime_arch.Builder.{tokens}
use translation_runtime_arch.Builder.Document.{Blocks, no_blocks, block, title, text, tokens_of}
use translation_runtime_arch.Diagnostics.Trail
use translation_runtime_arch.Vm.Exec.{ok}
use translation_runtime_arch.Vm.Triple.{After}
use translation_runtime_arch.Isa.Translate.{
  translate_segment, cache_key, translate_fresh, rule_translate, substitute, log_unknown_cjk,
  conclude,
}
use translation_runtime_arch.Isa.Translate.Repeat.{translate_segment-as_hit, as_hit}
use translation_runtime_arch.Isa.Repair.{repair_segment}
use translation_runtime_arch.Isa.Repair.Guarantee.{repair_segment-Settled, Settled}
use translation_runtime_arch.Isa.Glossary.{build_glossary}
use translation_runtime_arch.Isa.Glossary.Conflicts.{Built, build_glossary-Built}
use translation_runtime_arch.Vm.{active_module}
use translation_runtime_arch.Isa.Entities.{build_entity_table}
use translation_runtime_arch.Isa.Entities.Table.{build_entity_table-HasTable, HasTable}
use translation_runtime_arch.Kernel.{
  Kernel, bootstrap, analyze_document, build_artifacts, select_from,
}
use translation_runtime_arch.Kernel.Hitl.{Reviewer, skip}
use translation_runtime_arch.Kernel.Loop.{rounds}
use translation_runtime_arch.Kernel.Run.{run}
use translation_runtime_arch.Kernel.Lifecycle.{RunDone, RunError}
use translation_runtime_arch.Kernel.Path.{Followed, follow_lem}
use translation_runtime_arch.Kernel.Ends.{run-ends}
use translation_runtime_arch.Kernel.Rounds.{rounds-enough}
use translation_runtime_arch.Kernel.Selection.{
  select_from-first, first, or_other, in_full, by_source,
}

abbrev tree : Nodes
tree =
    next_node (plain_node heading (some "Intro") no_nodes)
      (next_node (plain_node paragraph (some "text") no_nodes) no_nodes)

abbrev document : Blocks
document = block (title "h1" "Intro") (block (text "text") no_blocks)

abbrev zeros : String
zeros = "0000000000000000000000000000000000000000000000000000000000000000"

abbrev sample : TranslationResult
sample = record {
  translation = "abc";
  evidence_ids = "ev_000000000000" ∷ [];
  cache_hit = false;
  audit_side_effects = [];
}

abbrev codec : Codec
codec = record { hmac = λ s. zeros; dump = λ r. "{}"; parse = λ s. some sample }

abbrev host : Host
host = record {
  unicode = ascii;
  digest = record { sha256 = λ s. zeros; canonical_record = λ r. r.rationale };
  hashing = record { sha256 = λ s. zeros; canonical_json = λ j. "" };
  codec = codec;
  parse = λ s. tokens (tokens_of document []);
}

abbrev vm : Vm
vm = record {
  ctx = new_context (some (zh_en ascii));
  audit = new_trail 0 true none;
  evidence = no_evidence;
  cache = record { enabled = true; store = [] };
}

abbrev kernel : Kernel
kernel = record {
  level = l3_strict;
  max_retries = 3;
  interactive = false;
  deterministic = true;
  force_unrecoverable = false;
  state = bootstrap;
  vm = vm;
}

abbrev reviewer : Reviewer
reviewer a b c d = skip

abbrev diagnostic : Diagnostic
diagnostic = record {
  severity = blocking;
  subsystem = "structural";
  issue = "Heading count mismatch after translation";
  evidence = "source=1 target=0";
  action = "Restore heading hierarchy";
  segment_index = none;
}

sample_law : IsCodec codec sample
unfolding len contains is_ascii
sample_law = record {
  hmac_length = λ s. refl;
  hmac_no_colon = λ s. refl;
  hmac_ascii = λ s. refl;
  parse-dump = refl;
}

translated : (translate_segment host none "abc" vm).0 ≡ ok sample
unfolding translate_segment lookup get translate_fresh rule_translate add_evidence new_trail
    substitute add log_unknown_cjk replace_all take_text find_all glossary_dict zh_en apply_zh_rules
    conclude
translated = refl

iter_leaf_segments-enumerate_example :
    (iter_leaf_segments tree ≡ enumerate 0 (segments (preorder_nodes none tree)))
    × (length (segments (preorder_nodes none tree)) ≤ node_count tree)
iter_leaf_segments-enumerate_example = iter_leaf_segments-enumerate tree

abbrev module_for : String → String → LanguageModule
module_for name direction = record {
  name = name;
  kind = "language";
  direction = direction;
  glossary_mappings = [];
  style_profile = profile [];
  forbidden_targets = [];
  is_forbidden = λ s t. false;
  entity_type_hint = λ s. none;
  apply_zh_rules = λ s. s;
  apply_rules = λ s d. s;
}

abbrev plain : LanguageModule
plain = module_for "plain" "FR -> EN"

abbrev padded : LanguageModule
padded = module_for "padded" " FR -> EN"

resolve_slug-free_example :
    let (slug, r) = resolve_slug ascii "A b" new_registry in
    (elem slug new_registry.existing_slugs ≡ false)
    × (r.existing_slugs ≡ slug ∷ new_registry.existing_slugs)
resolve_slug-free_example = resolve_slug-free ascii "A b" new_registry

abbrev lines : List String
lines = "```" ∷ "[a](#b)" ∷ "```" ∷ "[a](#b)" ∷ []

rewrite_lines-kinds_example :
    ((rewrite_lines ascii new_registry true false lines []).0
      ≡ written ascii new_registry (kinds ascii new_registry false lines))
    × (length (rewrite_lines ascii new_registry true false lines []).0
          + closings ascii new_registry (kinds ascii new_registry false lines)
        ≡ length lines)
rewrite_lines-kinds_example = rewrite_lines-kinds ascii new_registry true false lines []

lookup-store_result_example :
    lookup codec "k" (store_result codec "k" sample (record { enabled = true; store = [] })) ≡ (
      if not true
      then miss
      else if "k" == "k"
      then found (record sample { cache_hit = true })
      else lookup codec "k" (record { enabled = true; store = [] }))
lookup-store_result_example =
    lookup-store_result codec sample sample_law "k" "k" (record { enabled = true; store = [] })

read_raw_signed_only_example :
    (value : String) × (r : TranslationResult) × (str (zeros +++ ":{}")
      ≡ str (codec.hmac value +++ ":" +++ value))
    × (codec.parse value ≡ some r)
    × (record sample { cache_hit = true } ≡ record r { cache_hit = true })
unfolding read_raw contains len before_first is_ascii
read_raw_signed_only_example =
    read_raw_signed_only codec (str (zeros +++ ":{}")) (record sample { cache_hit = true }) refl

abbrev odd_text : String
odd_text = "é000000000000000000000000000000000000000000000000000000000000000:{}"

-- the first context again, with the cache that the first translation left
abbrev later : Vm
later = record vm { cache = (translate_segment host none "abc" vm).1.cache }

translate_segment-as_hit_example : (translate_segment host none "abc" later).0 ≡ ok (as_hit sample)
unfolding cache_key lookup get
translate_segment-as_hit_example =
    translate_segment-as_hit host "abc" vm later sample sample_law refl refl translated refl refl

repair_segment-Settled_example :
    Settled host "# A" "a" vm (repair_segment host "a" "# A" diagnostic 3 3 0 vm)
repair_segment-Settled_example = repair_segment-Settled host "# A" "a" diagnostic 3 3 0 vm

build_entity_table-HasTable_example : HasTable (build_entity_table host "RustVMM v1.2 and CPU" vm)
build_entity_table-HasTable_example = build_entity_table-HasTable host "RustVMM v1.2 and CPU" vm

build_glossary-Built_example :
    Built
      (active_module host vm.ctx)
      (active_module host vm.ctx).glossary_mappings
      (build_glossary host "abc" vm)
build_glossary-Built_example = build_glossary-Built host "abc" vm

-- the third state does not come later
follow_lem_example : Followed (analyze_document ∷ build_artifacts ∷ analyze_document ∷ []) kernel
follow_lem_example = follow_lem (analyze_document ∷ build_artifacts ∷ analyze_document ∷ []) kernel

run-ends_example :
    After (RunDone host "# A" l3_strict) (RunError l3_strict) (run host reviewer none "# A" kernel)
run-ends_example = run-ends host "# A" l3_strict reviewer none kernel refl

rounds-enough_example :
    rounds (2 + 3) host reviewer 3 "# A" "a" (diagnostic ∷ []) 1 kernel
    ≡ rounds 3 host reviewer 3 "# A" "a" (diagnostic ∷ []) 1 kernel
rounds-enough_example = rounds-enough host reviewer 3 "a" 2 "# A" (diagnostic ∷ []) kernel

select_from-first_example :
    select_from host "fr -> en" none (zh_en ascii ∷ padded ∷ [])
    ≡ or_other
        (first (in_full host "fr -> en") (zh_en ascii ∷ padded ∷ []))
        (or_other none (first (by_source host "fr -> en") (zh_en ascii ∷ padded ∷ [])))
select_from-first_example = select_from-first host "fr -> en" none (zh_en ascii ∷ padded ∷ [])
