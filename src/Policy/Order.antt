-- ===== src/Policy/Order.antt =====
-- What the arbitration of policy.py guarantees.
use translation_runtime_arch.Prelude.{
  inr, inl, Bool-cases, ◌≡◌, refl, Bool, false, List, [], ◌∷◌, none, some, leb, eqb, if◌then◌else◌,
  arith, min, ◌||◌,
}
use translation_runtime_arch.Memory.{PolicyPriority, factual_integrity}
use translation_runtime_arch.Policy.{value, PolicyResolver, lookup, wins, resolve, policy_resolver}

-- `p in stack`
unfoldable pub holds : PolicyPriority → List PolicyPriority → Bool
holds p [] = false
holds p (q ∷ qs) = eqb (value q) (value p) || holds p qs

lookup-holds :
    (p : PolicyPriority) (qs : List PolicyPriority)
    → lookup p qs ≡ (if holds p qs then some (value p) else none)
unfolding lookup holds
lookup-holds p [] = refl
lookup-holds p (q ∷ qs) = ground (arith, lookup-holds p qs)

-- The stack decides which priorities may be compared and never how they compare: between two of its
-- priorities the lower number wins, whatever the order of the stack, and a priority outside of it
-- is an error.
pub wins-stack :
    (r : PolicyResolver) (a b : PolicyPriority)
    → wins r a b ≡ (
        if holds a r.stack
        then (if holds b r.stack then some (leb (value a) (value b)) else none)
        else none)
unfolding wins
wins-stack r a b = ground (arith, lookup-holds a r.stack, lookup-holds b r.stack)

value_injective : (a b : PolicyPriority) → value a ≡ value b → a ≡ b
value_injective a b h = ground arith

resolve-default :
    (a b : PolicyPriority)
    → resolve policy_resolver a b ≡ some (if leb (value a) (value b) then a else b)
unfolding resolve
resolve-default factual_integrity b = ground arith
resolve-default _ b = ground arith

-- With the canonical stack `resolve` never fails; it answers one of its two arguments, the one with
-- the smaller number, and the order of the arguments does not matter.
pub resolve-min :
    (a b : PolicyPriority)
    → (p : PolicyPriority) × (resolve policy_resolver a b ≡ some p)
      × (resolve policy_resolver b a ≡ some p)
      × (value p ≡ min (value a) (value b))
resolve-min a b =
    let ab = resolve-default a b in
    let ba = resolve-default b a in
    elim (Bool-cases (leb (value a) (value b))) [
      | inl e ↦ (a, ground arith, ground (arith, value_injective a b), ground arith)
      | inr e ↦ (b, ground arith, ground arith, ground arith)
    ]
