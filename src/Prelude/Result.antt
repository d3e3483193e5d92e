-- ===== src/Prelude/Result.antt =====
-- Go functions that return a value and an error, and change nothing.
use mathlib.Core.Bool.{Bool, true, false}
use mathlib.Core.Option.{Option, none, some}
use mathlib.Core.Path.{◌≡◌, refl, subst}
use cubesql_go_driver.Prelude.Action.{Outcome, ok, err}

module _ {E A B : Type 0} where
  infixl 5 ◌>>=◌ ◌>>◌
  unfoldable pub ◌>>=◌ : Outcome E A → (A → Outcome E B) → Outcome E B
  ok a >>= f = f a
  err e >>= f = err e

  abbrev pub ◌>>◌ : Outcome E A → Outcome E B → Outcome E B
  m >> n = m >>= λ _. n

-- `if b { return e }`
abbrev pub refuse_if : {E : Type 0} → Bool → E → Outcome E (Unit {0})
refuse_if true e = err e
refuse_if false e = ok tt

-- `if !found { return e }`
abbrev pub require : {E A : Type 0} → Option A → E → Outcome E A
require none e = err e
require (some a) e = ok a

-- What holds of the result, if it is returned without an error.
abbrev pub Holds : {E A : Type 0} → (A → Type 0) → Outcome E A → Type 0
Holds P (ok a) = P a
Holds P (err e) = Unit {0}

module _ {E A : Type 0} (P : A → Type 0) where
  pub Holds-returned : (r : Outcome E A) (a : A) → Holds P r → r ≡ ok a → P a
  Holds-returned r a p same = subst (Holds P) same p

  pub Holds-bind :
      {B : Type 0} (Q : B → Type 0) (m : Outcome E B) (f : B → Outcome E A)
      → Holds Q m
      → ((b : B) → Q b → Holds P (f b))
      → Holds P (m >>= f)
  unfolding ◌>>=◌
  Holds-bind Q (ok b) f q k = k b q
  Holds-bind Q (err e) f q k = tt

module _ {E : Type 0} where
  pub Holds-refuse_if : (b : Bool) (e : E) → Holds (λ _. b ≡ false) (refuse_if b e)
  Holds-refuse_if true e = tt
  Holds-refuse_if false e = refl

  pub Holds-require : {A : Type 0} (o : Option A) (e : E) → Holds (λ a. o ≡ some a) (require o e)
  Holds-require none e = tt
  Holds-require (some a) e = refl
