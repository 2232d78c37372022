-- ===== src/Vm/Triple.antt =====
-- Reasoning about actions: what holds behind an action, and what it leaves alone.
use translation_runtime_arch.Prelude.{◌≡◌, ap, subst, Bool, true, false, if◌then◌else◌}
use translation_runtime_arch.Exceptions.{Exception, tra, other, unrecoverable}
use translation_runtime_arch.Vm.Exec.{
  Exec, Outcome, ok, err, attempt, caught, modify, ◌>>=◌, continue,
}

-- a predicate on the value and the state, and one on the exception and the state
abbrev pub After :
    {S A : Type 0} → (A → S → Type 0) → (Exception → S → Type 0) → Outcome A × S → Type 0
After Q E (ok a, s) = Q a s
After Q E (err e, s) = E e s

abbrev pub Triple :
    {S A : Type 0} → (S → Type 0) → Exec S A → (A → S → Type 0) → (Exception → S → Type 0) → Type 0
Triple P m Q E = (s : _) → P s → After Q E (m s)

module _ {S A B : Type 0} (R : A → S → Type 0) (Q : B → S → Type 0) (E : Exception → S → Type 0)
    (f : A → Exec S B) where
  After-continue :
      (p : Outcome A × S)
      → After R E p
      → ((a : A) → Triple (R a) (f a) Q E)
      → After Q E (continue p.0 f p.1)
  unfolding continue
  After-continue (ok a, s) r g = g a s r
  After-continue (err e, s) r g = r

  pub triple-bind :
      {P : S → Type 0} (m : Exec S A)
      → Triple P m R E
      → ((a : A) → Triple (R a) (f a) Q E)
      → Triple P (m >>= f) Q E
  unfolding ◌>>=◌
  triple-bind m t g s p = After-continue (m s) (t s p) g

-- exceptions that are no `TRAException`, and all of them
unfoldable pub IsFault : Exception → Type 0
IsFault (tra e) = ⊥
IsFault (other p) = Unit

-- an action that leaves a part of the state alone and raises only certain exceptions
abbrev pub Calm : {S A X : Type 0} → (S → X) → (Exception → Type 0) → Exec S A → Type 0
Calm {S} f E m = (s : S) → After (λ _ s'. f s' ≡ f s) (λ e s'. E e × (f s' ≡ f s)) (m s)

-- a `TRAException`
abbrev pub IsTra : Exception → Type 0
IsTra (tra e) = Unit
IsTra (other p) = ⊥

-- no exception at all
abbrev pub IsNone : Exception → Type 0
IsNone e = ⊥

-- `Unrecoverable`
unfoldable pub IsUnrecoverable : Exception → Type 0
IsUnrecoverable (tra (unrecoverable m)) = Unit
IsUnrecoverable _ = ⊥

-- any exception
abbrev pub IsAny : Exception → Type 0
IsAny e = Unit

module _ {S X : Type 0} (f : S → X) (E : Exception → Type 0) where
  Calm-continue :
      {A B : Type 0} (g : A → Exec S B) (x : X) (p : Outcome A × S)
      → After (λ _ s'. f s' ≡ x) (λ e s'. E e × (f s' ≡ x)) p
      → ((a : A) → Calm f E (g a))
      → After (λ _ s'. f s' ≡ x) (λ e s'. E e × (f s' ≡ x)) (continue p.0 g p.1)
  unfolding continue
  Calm-continue g x (ok a, s) h c =
      subst (λ y. After (λ _ s'. f s' ≡ y) (λ e s'. E e × (f s' ≡ y)) (g a s)) h (c a s)
  Calm-continue g x (err e, s) h c = h

  pub Calm-bind :
      {A B : Type 0} (m : Exec S A) (g : A → Exec S B)
      → Calm f E m
      → ((a : A) → Calm f E (g a))
      → Calm f E (m >>= g)
  unfolding ◌>>=◌
  Calm-bind m g h c s = Calm-continue g (f s) (m s) (h s) c

  pub Calm-modify : (g : S → S) → ((s : S) → f (g s) ≡ f s) → Calm f E (modify g)
  unfolding modify
  Calm-modify g h s = h s

module _ {S X : Type 0} (f : S → X) where
  After-caught :
      {A : Type 0} (x : X) (p : Outcome A × S)
      → After (λ _ s'. f s' ≡ x) (λ e s'. IsAny e × (f s' ≡ x)) p
      → After (λ _ s'. f s' ≡ x) (λ e s'. IsFault e × (f s' ≡ x)) (caught p.0 p.1)
  unfolding caught IsFault
  After-caught x (ok a, s) h = h
  After-caught x (err (tra e), s) h = h.1
  After-caught x (err (other e), s) h = (tt, h.1)

  -- under `attempt` only faults go up
  pub Calm-attempt : {A : Type 0} (m : Exec S A) → Calm f IsAny m → Calm f IsFault (attempt m)
  unfolding attempt
  Calm-attempt m h s = After-caught (f s) (m s) (h s)

  After-caught_tra :
      {A : Type 0} (x : X) (p : Outcome A × S)
      → After (λ _ s'. f s' ≡ x) (λ e s'. IsTra e × (f s' ≡ x)) p
      → After (λ _ s'. f s' ≡ x) (λ e s'. IsNone e × (f s' ≡ x)) (caught p.0 p.1)
  unfolding caught
  After-caught_tra x (ok a, s) h = h
  After-caught_tra x (err (tra e), s) h = h.1
  After-caught_tra x (err (other e), s) h = absurd h.0

  -- and nothing goes up if only a `TRAException` is raised
  pub Calm-attempt_tra : {A : Type 0} (m : Exec S A) → Calm f IsTra m → Calm f IsNone (attempt m)
  unfolding attempt
  Calm-attempt_tra m h s = After-caught_tra (f s) (m s) (h s)

module _ {S A X : Type 0} (f : S → X) (E : Exception → Type 0) (m n : Exec S A) where
  pub Calm-if : (b : Bool) → Calm f E m → Calm f E n → Calm f E (if b then m else n)
  Calm-if true p q = p
  Calm-if false p q = q

module _ {S A X : Type 0} (f : S → X) (E D : Exception → Type 0)
    (weaker : (e : Exception) → E e → D e) where
  After-weaken :
      (x : X) (p : Outcome A × S)
      → After (λ _ s'. f s' ≡ x) (λ e s'. E e × (f s' ≡ x)) p
      → After (λ _ s'. f s' ≡ x) (λ e s'. D e × (f s' ≡ x)) p
  After-weaken x (ok a, s) h = h
  After-weaken x (err e, s) h = (weaker e h.0, h.1)

  -- the same with more exceptions
  pub Calm-weaken : (m : Exec S A) → Calm f E m → Calm f D m
  Calm-weaken m h s = After-weaken (f s) (m s) (h s)

-- a part of what is left alone
module _ {S A X Y : Type 0} (f : S → X) (g : X → Y) (E : Exception → Type 0) where
  After-project :
      (x : X) (p : Outcome A × S)
      → After (λ _ s'. f s' ≡ x) (λ e s'. E e × (f s' ≡ x)) p
      → After (λ _ s'. g (f s') ≡ g x) (λ e s'. E e × (g (f s') ≡ g x)) p
  After-project x (ok a, s) h = ap g h
  After-project x (err e, s) h = (h.0, ap g h.1)

  pub Calm-project : (m : Exec S A) → Calm f E m → Calm (λ s. g (f s)) E m
  Calm-project m c s = After-project (f s) (m s) (c s)
