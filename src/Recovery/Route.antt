-- ===== src/Recovery/Route.antt =====
-- What `route_exception` guarantees, whatever the exception.
use translation_runtime_arch.Prelude.{
  none, some, Option, String, ◌≡◌, refl, Bool, true, false, Bool-cases, inl, inr, ◌⊎◌, List, [],
  ◌∷◌, ◌++◌, elem, arith, eq_iff,
}
use translation_runtime_arch.Exceptions.{
  TraException, tra_error, unknown_term, broken_markdown, certainty_conflict, entity_ambiguity,
  glossary_conflict, unrecoverable, conformance_failure, exception_code,
}
use translation_runtime_arch.Memory.{Severity, blocking, warning}
use translation_runtime_arch.Recovery.{
  note, RecoveryAction, preserve_source, use_first_occurrence, treat_as_entity,
  prioritize_epistemic, halt, add_once, emit, route_exception,
}

-- The table of Spec §6: severity and action by the class of the exception.
unfoldable pub mandated : TraException → Severity × RecoveryAction
mandated (unknown_term m t) = (warning, preserve_source)
mandated (broken_markdown m d) = (blocking, preserve_source)
mandated (certainty_conflict m t) = (warning, prioritize_epistemic)
mandated (entity_ambiguity m t) = (warning, treat_as_entity)
mandated (glossary_conflict m t c) = (blocking, use_first_occurrence)
mandated (unrecoverable m) = (blocking, halt)
mandated (tra_error m) = (warning, preserve_source)
mandated (conformance_failure m n) = (warning, preserve_source)

-- A report has the exception's code, and the severity and action of the table.
pub route_exception-mandated :
    (e : TraException) (a : List String) (target : String)
    → let r = (route_exception e a false target).0 in
      (r.code ≡ exception_code e) × ((r.severity, r.action) ≡ mandated e)
unfolding route_exception emit mandated exception_code
route_exception-mandated (unknown_term m t) a target = (refl, refl)
route_exception-mandated _ a target = (refl, refl)

elem-append : (n : String) (a : List String) → elem n (a ++ n ∷ []) ≡ true
unfolding elem
elem-append n [] = ground (arith, eq_iff n n)
elem-append n (m ∷ a) = ground (arith, elem-append n a)

-- a procedure on the register adds at most one note, and nothing when it is run again
abbrev pub AddsOnce : (List String → List String) → List String → Type 0
AddsOnce f a = ((f a ≡ a) ⊎ ((n : String) × (f a ≡ a ++ n ∷ []))) × (f (f a) ≡ f a)

add_once-AddsOnce : (n : String) (a : List String) → AddsOnce (add_once n) a
unfolding add_once
add_once-AddsOnce n a = elim (Bool-cases (elem n a)) [
  | inl old ↦ (inl (rw old), rw (old, old))
  | inr new ↦ (inr (n, rw new), rw (new, elem-append n a))
]

emit-AddsOnce :
    (code : String) (s : Severity) (act : RecoveryAction) (detail : String) (term : Option String)
    (add : Bool) (a : List String)
    → AddsOnce (λ b. (emit b code s act detail term add).1) a
unfolding emit note
emit-AddsOnce code s act detail (some (String.◌∷◌ c t)) true a =
    add_once-AddsOnce (note code (String.◌∷◌ c t) detail) a
emit-AddsOnce code s act detail (some String.[]) true a = (inl refl, refl)
emit-AddsOnce code s act detail none true a = (inl refl, refl)
emit-AddsOnce code s act detail _ false a = (inl refl, refl)

-- The register of ambiguities only grows, and by at most one note; routing the same exception again
-- adds nothing.
pub route_exception-AddsOnce :
    (e : TraException) (a : List String) (lost : Bool) (target : String)
    → AddsOnce (λ b. (route_exception e b lost target).1) a
unfolding route_exception
route_exception-AddsOnce (broken_markdown m d) a lost target = (inl refl, refl)
route_exception-AddsOnce (unrecoverable m) a lost target = (inl refl, refl)
route_exception-AddsOnce (unknown_term m t) a lost target = emit-AddsOnce _ _ _ _ _ _ a
route_exception-AddsOnce _ a lost target = emit-AddsOnce _ _ _ _ _ _ a
