-- ===== src/Builder/Yields.antt =====
-- What a step of the walk leaves to the next one.
use translation_runtime_arch.Prelude.{Bool, true, false, List, [], ◌∷◌}
use translation_runtime_arch.Anchor.{AnchorRegistry}
use translation_runtime_arch.Builder.{
  TokenType, Token, Walked, Walk, at, index_error, exhausted, and_then, close_any, close_if,
}

-- what a walk yields, if it does not fail
abbrev pub Yields : {A : Type 0} → (A → Type 0) → Walked A → Type 0
Yields P (at a ts r) = P a
Yields P index_error = Unit
Yields P exhausted = Unit

pub Yields-and_then :
    {A B : Type 0} (P : A → Type 0) (Q : B → Type 0) (w : Walked A) (f : A → Walk B)
    → Yields P w
    → ((a : A) (ts : List Token) (r : AnchorRegistry) → P a → Yields Q (f a ts r))
    → Yields Q (and_then w f)
unfolding and_then
Yields-and_then P Q (at a ts r) f h k = k a ts r h
Yields-and_then P Q index_error f h k = tt
Yields-and_then P Q exhausted f h k = tt

pub close_any-Yields :
    {A : Type 0} (P : A → Type 0) (a : A) (ts : List Token) (r : AnchorRegistry)
    → P a
    → Yields P (close_any a ts r)
unfolding close_any
close_any-Yields P a [] r h = h
close_any-Yields P a (t ∷ ts) r h = h

pub close_if-Yields :
    {A : Type 0} (P : A → Type 0) (p : TokenType → Bool) (a : A) (ts : List Token)
    (r : AnchorRegistry)
    → P a
    → Yields P (close_if p a ts r)
unfolding close_if
close_if-Yields P p a [] r h = h
close_if-Yields P p a (t ∷ ts) r h =
    elim (p t.type_) as (λ b. Yields P (elim b [ true ↦ at a ts r | false ↦ at a (t ∷ ts) r ])) [
      | true ↦ h
      | false ↦ h
    ]
