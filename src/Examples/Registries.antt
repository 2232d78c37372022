-- ===== src/Examples/Registries.antt =====
-- Recovery, the audit trail, the evidence registry and the module registry on concrete inputs.
use translation_runtime_arch.Prelude.{
  subst, eq_iff, ◌≡◌, refl, false, none, some, List, [], ◌∷◌, ◌++◌, inr, arith,
}
use translation_runtime_arch.Text.{strip}
use translation_runtime_arch.Dict.{get, put, has}
use translation_runtime_arch.Exceptions.{TraException, new_glossary_conflict}
use translation_runtime_arch.Recovery.{route_exception}
use translation_runtime_arch.Recovery.Route.{route_exception-AddsOnce, AddsOnce}
use translation_runtime_arch.Diagnostics.{new_trail, load, flush, EvidenceRecord, term_match}
use translation_runtime_arch.Diagnostics.Trail.{flush_complete, Op, appended, flushed_}
use translation_runtime_arch.Modules.{
  ModuleRegistry, empty_registry, done, register, unregister, get_module, refused,
  direction_conflict,
}
use translation_runtime_arch.Modules.Registration.{
  IsIndexed, register-IsIndexed, unregister-register, unregister-register_stale,
}
use translation_runtime_arch.Diagnostics.Trail
use translation_runtime_arch.Examples.{plain, padded}

abbrev conflict : TraException
conflict = new_glossary_conflict "" "CPU" "cpu"

route_exception-AddsOnce_example :
    AddsOnce (λ b. (route_exception conflict b false "").1) ("x" ∷ [])
route_exception-AddsOnce_example = route_exception-AddsOnce conflict ("x" ∷ []) false ""

abbrev ops : List Op
ops = appended "A" "h" [] [] none ∷ flushed_ ∷ appended "B" "h" [] [] none ∷ []

flush_complete_example :
    let old = new_trail 0 false none in
    let t = Trail.run ops old in
    (load old ≡ [])
    × (load (flush t) ≡ load old ++ Trail.records 0 0 ops)
    × (load (flush (flush t)) ≡ load (flush t))
flush_complete_example = flush_complete 0 false none ops

abbrev evidence_record : EvidenceRecord
evidence_record = record {
  id = "";
  type_ = term_match;
  rule_id = none;
  module_ = "m";
  source_span = "a";
  target_span = "b";
  rationale = "r";
}

none-some : {A : Type 0} (a : A) → none ≡ some a → ⊥
none-some a h = subst (λ o. elim o [ none ↦ Unit | some x ↦ ⊥ ]) h tt

empty-IsIndexed : IsIndexed empty_registry
unfolding get
empty-IsIndexed = record {
  keyed = λ k m h. absurd (none-some m h);
  declared = λ d n h. absurd (none-some n h);
  reachable = λ k m h. absurd (none-some m h);
}

abbrev with_plain : ModuleRegistry
with_plain = record { modules = ("plain", plain) ∷ []; directions = ("FR -> EN", "plain") ∷ [] }

abbrev with_padded : ModuleRegistry
with_padded = record { modules = ("padded", padded) ∷ []; directions = ("FR -> EN", "padded") ∷ [] }

register-IsIndexed_example : IsIndexed with_plain
unfolding register strip has put get
register-IsIndexed_example = register-IsIndexed plain empty_registry with_plain empty-IsIndexed refl

unregister-register_example : unregister "plain" with_plain ≡ done empty_registry
unfolding register strip has put get
unregister-register_example = unregister-register plain empty_registry with_plain refl (inr refl)

unregister-register_stale_example :
    (r : ModuleRegistry) × (unregister "padded" with_padded ≡ done r)
    × (get_module "padded" r ≡ none)
    × (register padded r ≡ refused (direction_conflict "padded"))
unfolding register strip has put get
unregister-register_stale_example =
    unregister-register_stale padded empty_registry with_padded refl refl
      (λ p. ground (arith, (eq_iff "FR -> EN" " FR -> EN").1 p)) refl
