-- ===== src/Prelude/Action.antt =====
-- Go functions that return a value and an error, over the objects that they change. What was
-- written before an early return stays written, so the state comes back beside the error too.
use mathlib.Core.Bool.{Bool, true, false}

-- `err e` is a non-nil error; the value beside it is the zero value, which no caller reads.
pub data Outcome {ℓ} (E A : Type ℓ) : Type ℓ where
  ok : A → Outcome E A
  err : E → Outcome E A

abbrev pub Action : Type 0 → Type 0 → Type 0 → Type 0
Action S E A = S → Outcome E A × S

module _ {S E A : Type 0} where
  unfoldable pub pure : A → Action S E A
  pure a s = (ok a, s)

  unfoldable pub raise : E → Action S E A
  raise e s = (err e, s)

  unfoldable pub lift : Outcome E A → Action S E A
  lift r s = (r, s)

module _ {S E : Type 0} where
  -- `if b { return e }`
  unfoldable pub return_if : Bool → E → Action S E (Unit {0})
  return_if true e s = (err e, s)
  return_if false e s = (ok tt, s)

  unfoldable pub gets : {A : Type 0} → (S → A) → Action S E A
  gets f s = (ok (f s), s)

  unfoldable pub modify : (S → S) → Action S E (Unit {0})
  modify f s = (ok tt, f s)

module _ {S E A B : Type 0} where
  abbrev pub continue : Outcome E A → (A → Action S E B) → Action S E B
  continue (ok a) f s = f a s
  continue (err e) f s = (err e, s)

  infixl 5 ◌>>=◌ ◌>>◌
  -- Opening this opens the actions above too.
  unfoldable pub ◌>>=◌ : Action S E A → (A → Action S E B) → Action S E B
  unfolding pure raise lift return_if gets modify
  ◌>>=◌ m f s = let (r, s') = m s in continue r f s'

  abbrev pub ◌>>◌ : Action S E A → Action S E B → Action S E B
  m >> n = m >>= λ _. n

  -- `defer cleanup()`, or a clean-up call before a return: it runs whatever `m` returned, and its own
  -- error is dropped.
  unfoldable pub deferring : Action S E A → Action S E B → Action S E A
  deferring m cleanup s = let (r, s') = m s in (r, (cleanup s').1)

  -- A clean-up call on the error path only.
  abbrev pub settle : Outcome E A → Action S E B → S → Outcome E A × S
  settle (ok a) cleanup s = (ok a, s)
  settle (err e) cleanup s = (err e, (cleanup s).1)

  unfoldable pub on_error : Action S E A → Action S E B → Action S E A
  on_error m cleanup s = let (r, s') = m s in settle r cleanup s'

module _ {S E A : Type 0} where
  -- A call whose error is kept as a value.
  unfoldable pub attempt : Action S E A → Action S E (Outcome E A)
  attempt m s = let (r, s') = m s in (ok r, s')
