-- ===== src/Isa/Common.antt =====
-- The helpers that the instructions of isa.py share.
use translation_runtime_arch.Prelude.{
  ℕ, ◌-◌, String, true, some, List, [], ◌∷◌, ◌++◌, length, drop, eqb, if◌then◌else◌,
}
use translation_runtime_arch.Text.{split, take_text}
use translation_runtime_arch.Dict.{Dict, put}
use translation_runtime_arch.Memory.{
  Severity, blocking, warning, ForbiddenMapping, GlossaryEntry, PolicyPriority, target_fluency,
}
use translation_runtime_arch.Policy.{wins, policy_resolver}
use translation_runtime_arch.Vm.{Host}

-- `_hash`
unfoldable pub hash : Host → String → String
hash h s = take_text 16 (h.digest.sha256 s)

-- `xs[-n:]`: everything at `n = 0`
unfoldable pub slice_last {ℓ} : {A : Type ℓ} → ℕ → List A → List A
slice_last n xs = if eqb n 0 then xs else drop (length xs - n) xs

-- `{e.source: e.target for e in ctx.glossary_cache}`
unfoldable pub glossary_dict_from : Dict String → List GlossaryEntry → Dict String
glossary_dict_from d [] = d
glossary_dict_from d (g ∷ gs) = glossary_dict_from (put g.source g.target d) gs

unfoldable pub glossary_dict : List GlossaryEntry → Dict String
unfolding glossary_dict_from
glossary_dict gs = glossary_dict_from [] gs

-- `BLOCKING if _POLICY_RESOLVER.wins(p, TARGET_FLUENCY) else WARNING`; every priority is in the
-- resolver's stack, so the `KeyError` that `none` stands for does not occur
unfoldable pub arbitrated : PolicyPriority → Severity
arbitrated p = elim (wins policy_resolver p target_fluency) [ some true ↦ blocking | _ ↦ warning ]

mappings_to : String → List String → List ForbiddenMapping
mappings_to source [] = []
mappings_to source (t ∷ ts) =
    record {
      source = source;
      forbidden_target = t;
      rationale = "Drift target forbidden by TRA-MODULE-ZH-EN §3";
    }
    ∷ mappings_to source ts

-- `_forbidden_from_module`
unfoldable pub forbidden_mappings : Dict String → List ForbiddenMapping
unfolding mappings_to
forbidden_mappings [] = []
forbidden_mappings ((source, banned) ∷ d) =
    mappings_to source (split b'/' banned) ++ forbidden_mappings d
