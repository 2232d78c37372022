-- ===== src/Kernel/Path.antt =====
-- Sequences of transitions of kernel.py's `_transition`.
use translation_runtime_arch.Prelude.{
  ℕ, ◌+◌, ◌≤◌, ◌<◌, String, ◌≡◌, refl, sym, ap, ◌∙◌, true, false, Bool-cases, List, [], ◌∷◌, ◌++◌,
  map, length, leb, arith, ◌⊎◌, inl, inr,
}
use mathlib.Core.List.{append_assoc, append-nil}
use translation_runtime_arch.Text.{◌+++◌}
use translation_runtime_arch.Exceptions.{TraException, tra, tra_error}
use translation_runtime_arch.Vm.Exec.{Exec, ok, err, pure, ◌>>=◌, ◌>>◌}
use translation_runtime_arch.Kernel.{
  Kernel, KernelState, order, state_value, transition, enter, bootstrap, initialize_runtime,
  analyze_document, build_artifacts, execute_translation, verify_output, repair_if_needed,
  audit_diagnostics, emit_payload,
}

-- the transitions to some states, up to the first that is refused
unfoldable pub follow : List KernelState → Exec Kernel (Unit {0})
follow [] = pure tt
follow (s ∷ ss) = transition s >> follow ss

-- each state comes later in the order than the one before
abbrev pub Ascends : ℕ → List KernelState → Type 0
Ascends n [] = Unit
Ascends n (s ∷ ss) = (n < order s) × Ascends (order s) ss

abbrev pub last_of : KernelState → List KernelState → KernelState
last_of x [] = x
last_of x (s ∷ ss) = last_of s ss

-- the kernel with another state and more names in its log, and nothing else changed
abbrev pub arrived : List KernelState → Kernel → Kernel
arrived path k = record k {
  state = last_of k.state path;
  vm = record k.vm {
    ctx = record k.vm.ctx { execution_log = k.vm.ctx.execution_log ++ map state_value path };
  };
}

-- how a sequence of transitions ends
abbrev pub Followed : List KernelState → Kernel → Type 0
Followed path k =
    (Ascends (order k.state) path
      × (follow path k ≡ (ok tt, arrived path k))
      × (order k.state + length path ≤ 8))
    ⊎ ((front : List KernelState) × (next : KernelState) × (rest : List KernelState) × (path
          ≡ front ++ next ∷ rest)
        × Ascends (order k.state) front
        × (order next ≤ order (last_of k.state front))
        × (e : TraException) × (follow path k ≡ (err (tra e), arrived front k)))

order-le : (s : KernelState) → order s ≤ 8
order-le bootstrap = omega arith
order-le initialize_runtime = omega arith
order-le analyze_document = omega arith
order-le build_artifacts = omega arith
order-le execute_translation = omega arith
order-le verify_output = omega arith
order-le repair_if_needed = omega arith
order-le audit_diagnostics = omega arith
order-le emit_payload = omega arith

with_log : List String → KernelState → Kernel → Kernel
with_log l s k = record k {
  state = s;
  vm = record k.vm { ctx = record k.vm.ctx { execution_log = l } };
}

arrived-nil : (k : Kernel) → arrived [] k ≡ k
unfolding with_log
arrived-nil k = ap (λ l. with_log l k.state k) (append-nil k.vm.ctx.execution_log)

arrived-cons :
    (s : KernelState) (ss : List KernelState) (k : Kernel)
    → arrived ss (arrived (s ∷ []) k) ≡ arrived (s ∷ ss) k
unfolding with_log
arrived-cons s ss k =
    ap (λ l. with_log l (last_of s ss) k)
      (append_assoc k.vm.ctx.execution_log (state_value s ∷ []) (map state_value ss))

module _ (s : KernelState) (k : Kernel) where
  transition-later :
      leb (order s) (order k.state) ≡ false → transition s k ≡ (ok tt, arrived (s ∷ []) k)
  unfolding transition enter
  transition-later h = rw (h, transition) refl

  refused : TraException
  refused = tra_error (
      "Illegal backward or same-state transition: "
      +++ state_value k.state
      +++ " -> "
      +++ state_value s)

  transition-earlier :
      leb (order s) (order k.state) ≡ true → transition s k ≡ (err (tra refused), k)
  unfolding transition refused
  transition-earlier h = rw (h, transition) refl

  follow-later :
      (ss : List KernelState)
      → leb (order s) (order k.state) ≡ false
      → follow (s ∷ ss) k ≡ follow ss (arrived (s ∷ []) k)
  unfolding follow ◌>>=◌
  follow-later ss h = rw (transition-later h) refl

  follow-earlier :
      (ss : List KernelState)
      → leb (order s) (order k.state) ≡ true
      → follow (s ∷ ss) k ≡ (err (tra refused), k)
  unfolding follow ◌>>=◌
  follow-earlier ss h = rw (transition-earlier h) refl

  longer :
      (ss : List KernelState)
      → leb (order s) (order k.state) ≡ false
      → Followed ss (arrived (s ∷ []) k)
      → Followed (s ∷ ss) k
  longer ss h (inl (a, f, n)) = inl (
    (ground (arith, h), a),
    follow-later ss h ∙ f ∙ ap (λ k'. (ok tt, k')) (arrived-cons s ss k),
    ground (arith, h, n),
  )
  longer ss h (inr (front, next, rest, p, a, n, e, f)) = inr (
    s ∷ front,
    next,
    rest,
    ap (◌∷◌ s) p,
    (ground (arith, h), a),
    n,
    e,
    follow-later ss h ∙ f ∙ ap (λ k'. (err (tra e), k')) (arrived-cons s front k),
  )

-- A sequence of transitions goes through exactly if each state comes later in the order than the one
-- before it, from the kernel's own on. It then ends in the last of the states, the log has the names
-- of all of them behind it, in their order, nothing else is changed, and there are at most as many
-- as states are left, of which there are eight behind BOOTSTRAP. Otherwise it raises at the first
-- state that does not come later, and the kernel stands where the states before have led.
pub follow_lem : (path : List KernelState) (k : Kernel) → Followed path k
unfolding follow pure
follow_lem [] k =
    inl (tt, ap (λ k'. (ok tt, k')) (sym (arrived-nil k)), omega (arith, order-le k.state))
follow_lem (s ∷ ss) k = elim (Bool-cases (leb (order s) (order k.state))) [
  | inr h ↦ longer s k ss h (follow_lem ss (arrived (s ∷ []) k))
  | inl h ↦ inr (
    [],
    s,
    ss,
    refl,
    tt,
    ground (arith, h),
    refused s k,
    follow-earlier s k ss h ∙ ap (λ k'. (err (tra (refused s k)), k')) (sym (arrived-nil k)),
  )
]
