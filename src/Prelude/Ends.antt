-- ===== src/Prelude/Ends.antt =====
-- What a call leaves, by whether it returned an error.
use cubesql_go_driver.Prelude.Action.{Action, Outcome, ok, err, continue, ◌>>=◌}

-- A call that returned no error left `P`, of its result and the objects; one that returned an error
-- left `Q`.
abbrev pub Ends : {S E A : Type 0} → (A → S → Type 0) → (S → Type 0) → Outcome E A → S → Type 0
Ends P Q (ok a) s = P a s
Ends P Q (err e) s = Q s

module _ {S E A B : Type 0} (O : A → S → Type 0) (P : B → S → Type 0) (Q : S → Type 0) where
  Ends-continue :
      (r : Outcome E A) (f : A → Action S E B) (s : S)
      → Ends O Q r s
      → ((a : A) (t : S) → O a t → Ends P Q (f a t).0 (f a t).1)
      → Ends P Q (continue r f s).0 (continue r f s).1
  Ends-continue (ok a) f s p k = k a s p
  Ends-continue (err e) f s p k = p

  pub Ends-bind :
      (m : Action S E A) (f : A → Action S E B) (s : S)
      → Ends O Q (m s).0 (m s).1
      → ((a : A) (t : S) → O a t → Ends P Q (f a t).0 (f a t).1)
      → Ends P Q ((m >>= f) s).0 ((m >>= f) s).1
  unfolding ◌>>=◌
  Ends-bind m f s p k = Ends-continue (m s).0 f (m s).1 p k
