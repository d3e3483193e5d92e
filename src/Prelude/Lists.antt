-- ===== src/Prelude/Lists.antt =====
-- Lists indexed by native numbers, under the library's names, and the number of their elements
-- that pass a test. A Go object is an element of a list, and its address is its index.
use Prim.Native.Nat.{ℕ, zero, suc, ◌+◌, ◌<◌}
use mathlib.Core.Path.{◌≡◌, refl, ap}
use mathlib.Core.Bool.{Bool, true, false}
use mathlib.Core.List.{List, [], ◌∷◌, ◌++◌}
use native.Mathlib.Omega.{arith}
use cubesql_go_driver.Prelude.Tests.{bit}

module _ {ℓ} {A : Type ℓ} where
  abbrev pub length : List A → ℕ
  length [] = 0
  length (x ∷ xs) = suc (length xs)

  abbrev pub get_or : List A → ℕ → A → A
  get_or [] i d = d
  get_or (x ∷ xs) zero d = x
  get_or (x ∷ xs) (suc i) d = get_or xs i d

  -- A write out of bounds changes nothing.
  abbrev pub set : List A → ℕ → A → List A
  set [] i v = []
  set (x ∷ xs) zero v = v ∷ xs
  set (x ∷ xs) (suc i) v = x ∷ set xs i v

  abbrev pub replicate : ℕ → A → List A
  replicate zero a = []
  replicate (suc n) a = a ∷ replicate n a

  -- The number of elements that pass the test.
  pub count : (A → Bool) → List A → ℕ
  count p [] = 0
  count p (x ∷ xs) = bit (p x) + count p xs

  pub count-push :
      (p : A → Bool) (xs : List A) (v : A) → count p (xs ++ v ∷ []) ≡ count p xs + bit (p v)
  unfolding count
  count-push p [] v = omega arith
  count-push p (x ∷ xs) v = omega (arith, count-push p xs v)

  pub count-nil : (p : A → Bool) → count p [] ≡ 0
  unfolding count
  count-nil p = refl

  -- An element that passes the test is replaced by one that does not.
  pub count-set_drop :
      (p : A → Bool) (d : A) (xs : List A) (i : ℕ) (v : A)
      → p d ≡ false
      → p (get_or xs i d) ≡ true
      → p v ≡ false
      → count p xs ≡ suc (count p (set xs i v))
  unfolding count
  count-set_drop p d [] i v hd old new = ground arith
  count-set_drop p d (x ∷ xs) zero v hd old new = ground arith
  count-set_drop p d (x ∷ xs) (suc i) v hd old new = ground (arith, count-set_drop p d xs i v)

  -- An element is replaced by one that passes or fails the test alike.
  pub count-set_same :
      (p : A → Bool) (d : A) (xs : List A) (i : ℕ) (v : A)
      → p v ≡ p (get_or xs i d)
      → count p (set xs i v) ≡ count p xs
  unfolding count
  count-set_same p d [] i v same = refl
  count-set_same p d (x ∷ xs) zero v same = ap (λ (b : Bool). bit b + count p xs) same
  count-set_same p d (x ∷ xs) (suc i) v same = omega (arith, count-set_same p d xs i v same)

  -- While no element passes the test, none does at any index.
  pub count-eq-zero :
      (p : A → Bool) (d : A) (xs : List A) (i : ℕ)
      → p d ≡ false
      → count p xs ≡ 0
      → p (get_or xs i d) ≡ false
  unfolding count
  count-eq-zero p d [] i hd none_left = hd
  count-eq-zero p d (x ∷ xs) zero hd none_left = ground arith
  count-eq-zero p d (x ∷ xs) (suc i) hd none_left = count-eq-zero p d xs i hd (omega arith)

  -- An element in range that fails the test is replaced by one that passes it.
  pub count-set_raise :
      (p : A → Bool) (d : A) (xs : List A) (i : ℕ) (v : A)
      → i < length xs
      → p (get_or xs i d) ≡ false
      → p v ≡ true
      → count p (set xs i v) ≡ suc (count p xs)
  unfolding count
  count-set_raise p d [] i v inside old new = elim inside [ ]
  count-set_raise p d (x ∷ xs) zero v inside old new = ground arith
  count-set_raise p d (x ∷ xs) (suc i) v inside old new =
      ground (arith, count-set_raise p d xs i v (omega arith))

  pub length-replicate : (n : ℕ) (a : A) → length (replicate n a) ≡ n
  length-replicate zero a = refl
  length-replicate (suc n) a = ap suc (length-replicate n a)

  pub length-set : (xs : List A) (i : ℕ) (v : A) → length (set xs i v) ≡ length xs
  length-set [] i v = refl
  length-set (x ∷ xs) zero v = refl
  length-set (x ∷ xs) (suc i) v = ap suc (length-set xs i v)

  pub length-push : (xs : List A) (v : A) → length (xs ++ v ∷ []) ≡ suc (length xs)
  length-push [] v = refl
  length-push (x ∷ xs) v = ap suc (length-push xs v)

  pub get_or-set_self :
      (xs : List A) (i : ℕ) (v d : A) → i < length xs → get_or (set xs i v) i d ≡ v
  get_or-set_self [] i v d inside = elim inside [ ]
  get_or-set_self (x ∷ xs) zero v d inside = refl
  get_or-set_self (x ∷ xs) (suc i) v d inside = get_or-set_self xs i v d (omega arith)

  pub get_or-push_self : (xs : List A) (v d : A) → get_or (xs ++ v ∷ []) (length xs) d ≡ v
  get_or-push_self [] v d = refl
  get_or-push_self (x ∷ xs) v d = get_or-push_self xs v d

  -- A test that the default fails passes only in range.
  pub inside_of_test :
      (p : A → Bool) (d : A) (xs : List A) (i : ℕ)
      → p d ≡ false
      → p (get_or xs i d) ≡ true
      → i < length xs
  inside_of_test p d [] i hd h = ground arith
  inside_of_test p d (x ∷ xs) zero hd h = omega arith
  inside_of_test p d (x ∷ xs) (suc i) hd h = omega (arith, inside_of_test p d xs i hd h)
