-- ===== src/Vm/Exec.antt =====
-- Actions on a state that may raise. What was written before an exception stays written.
use translation_runtime_arch.Exceptions.{TraException, Exception, tra, other}

pub data Outcome {ℓ} (A : Type ℓ) : Type ℓ where
  ok : A → Outcome A
  err : Exception → Outcome A

-- what a `try` with a handler for `TRAException` sees
pub data Attempt {ℓ} (A : Type ℓ) : Type ℓ where
  returned : A → Attempt A
  thrown : TraException → Attempt A

abbrev pub Exec {ℓ} : Type ℓ → Type ℓ → Type ℓ
Exec S A = S → Outcome A × S

module _ {ℓ} {S A : Type ℓ} where
  unfoldable pub pure : A → Exec S A
  pure a s = (ok a, s)

  unfoldable pub raise : TraException → Exec S A
  raise e s = (err (tra e), s)

  -- `try: … except TRAException`: the exception is handed on as a value; any other goes up
  unfoldable pub caught : Outcome A → S → Outcome (Attempt A) × S
  caught (ok a) s = (ok (returned a), s)
  caught (err (tra e)) s = (ok (thrown e), s)
  caught (err (other e)) s = (err (other e), s)

  unfoldable pub attempt : Exec S A → Exec S (Attempt A)
  unfolding caught
  attempt m s = let (r, s') = m s in caught r s'

  unfoldable pub gets : (S → A) → Exec S A
  gets f s = (ok (f s), s)

module _ {ℓ} {S : Type ℓ} where
  unfoldable pub modify : (S → S) → Exec S (Unit {ℓ})
  modify f s = (ok tt, f s)

module _ {ℓ} {S A B : Type ℓ} where
  unfoldable pub continue : Outcome A → (A → Exec S B) → Exec S B
  continue (ok a) f s = f a s
  continue (err e) f s = (err e, s)

  infixl 10 ◌>>=◌ ◌>>◌
  unfoldable pub ◌>>=◌ : Exec S A → (A → Exec S B) → Exec S B
  unfolding continue
  ◌>>=◌ m f s = let (r, s') = m s in continue r f s'

  abbrev pub ◌>>◌ : Exec S A → Exec S B → Exec S B
  m >> n = m >>= λ _. n
