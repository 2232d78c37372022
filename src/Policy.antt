-- ===== src/Policy.antt =====
-- policy.py: arbitration by the precedence map of a stack.
pub mod Order
use translation_runtime_arch.Prelude.{
  ℕ, Bool, true, false, List, [], ◌∷◌, Option, none, some, leb, eqb, if◌then◌else◌,
}
use translation_runtime_arch.Memory.{
  PolicyPriority, factual_integrity, structural_integrity, entity_preservation,
  terminological_consistency, epistemic_fidelity, target_fluency,
}

-- the value of the enumeration
abbrev pub value : PolicyPriority → ℕ
value factual_integrity = 1
value structural_integrity = 2
value entity_preservation = 3
value terminological_consistency = 4
value epistemic_fidelity = 5
value target_fluency = 6

-- `PolicyResolver`: its stack gives the keys of the map `precedence`
pub record PolicyResolver : Type 0 where
  pub stack : List PolicyPriority

lookup : PolicyPriority → List PolicyPriority → Option ℕ
lookup p [] = none
lookup p (q ∷ qs) = if eqb (value q) (value p) then some (value q) else lookup p qs

-- `self.precedence[p]`; `none` is a `KeyError`
unfoldable pub precedence : PolicyResolver → PolicyPriority → Option ℕ
unfolding lookup
precedence r p = lookup p r.stack

compare_with : Option ℕ → Option ℕ → Option Bool
compare_with none b = none
compare_with (some a) none = none
compare_with (some a) (some b) = some (leb a b)

unfoldable pub wins : PolicyResolver → PolicyPriority → PolicyPriority → Option Bool
unfolding precedence compare_with
wins r candidate over = compare_with (precedence r candidate) (precedence r over)

choose : PolicyPriority → PolicyPriority → Option Bool → Option PolicyPriority
choose a b none = none
choose a b (some true) = some a
choose a b (some false) = some b

unfoldable pub resolve : PolicyResolver → PolicyPriority → PolicyPriority → Option PolicyPriority
unfolding precedence compare_with choose
resolve r a b = choose a b (compare_with (precedence r a) (precedence r b))

-- `DEFAULT_POLICY_STACK` of config.py, and `list(PolicyPriority)`
abbrev pub default_stack : List PolicyPriority
default_stack =
    factual_integrity ∷ structural_integrity ∷ entity_preservation ∷ terminological_consistency
    ∷ epistemic_fidelity ∷ target_fluency ∷ []

-- `_POLICY_RESOLVER` of isa.py
abbrev pub policy_resolver : PolicyResolver
policy_resolver = record { stack = default_stack }
