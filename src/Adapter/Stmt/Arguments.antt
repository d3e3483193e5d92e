-- ===== src/Adapter/Stmt/Arguments.antt =====
-- The arguments of the methods without names.
use cubesql_go_driver.Prelude.{
  ℕ, ℤ, pos, true, false, Bytes, Option, none, some, ◌≡◌, refl, List, [], ◌∷◌,
}
use cubesql_go_driver.Prelude.Action.{Outcome, ok, err}
use cubesql_go_driver.Core.Bind.{Any}
use cubesql_go_driver.Adapter.Types.{Error, conversion_failed, unsupported_parameter}
use cubesql_go_driver.Adapter.Values.{
  Input, Converted, named_values, check_input, accept_converted, and_then, accept,
}
use cubesql_go_driver.Adapter.Stmt.{positional_values}

module _ {I : Type 0} (convert : I → Option Converted) where
  -- What the core package binds for an argument, by the type that the converter gives it.
  pub data Accepts : Input I → Any → Type 0 where
    zero_blob : (size : ℤ) → Accepts (Input.zero_blob size) (Any.zero_blob size)
    nil : (v : I) → convert v ≡ some Converted.nil → Accepts (Input.value v) Any.nil
    int64 :
        (v : I) (n : ℤ)
        → convert v ≡ some (Converted.int64 n)
        → Accepts (Input.value v) (Any.int64 n)
    float64 :
        (v : I) (bits : ℕ)
        → convert v ≡ some (Converted.float64 bits)
        → Accepts (Input.value v) (Any.float64 bits)
    string :
        (v : I) (s : Bytes)
        → convert v ≡ some (Converted.string s)
        → Accepts (Input.value v) (Any.string s)
    bytes :
        (v : I) (b : Bytes)
        → convert v ≡ some (Converted.bytes b)
        → Accepts (Input.value v) (Any.bytes b)
    yes :
        (v : I)
        → convert v ≡ some (Converted.bool true)
        → Accepts (Input.value v) (Any.int64 (pos 1))
    no :
        (v : I)
        → convert v ≡ some (Converted.bool false)
        → Accepts (Input.value v) (Any.int64 (pos 0))

  -- The converter has no value for the argument, or a time, which CubeSQL has no type for.
  pub data Refuses : Input I → Error → Type 0 where
    failing : (v : I) → convert v ≡ none → Refuses (Input.value v) conversion_failed
    time : (v : I) → convert v ≡ some Converted.time → Refuses (Input.value v) unsupported_parameter

  -- One value for each argument, in order; or the error of the first one that is refused.
  pub data Positional : List (Input I) → Outcome Error (List Any) → Type 0 where
    done : Positional [] (ok [])
    next :
        {x : Input I} {v : Any} {xs : List (Input I)} {vs : List Any}
        → Accepts x v
        → Positional xs (ok vs)
        → Positional (x ∷ xs) (ok (v ∷ vs))
    stop :
        {x : Input I} {e : Error} {xs : List (Input I)} → Refuses x e → Positional (x ∷ xs) (err e)
    later :
        {x : Input I} {v : Any} {e : Error} {xs : List (Input I)}
        → Accepts x v
        → Positional xs (err e)
        → Positional (x ∷ xs) (err e)

  -- What becomes of one argument.
  data Checked (x : Input I) : Outcome Error Any → Type 0 where
    accepted : {v : Any} → Accepts x v → Checked x (ok v)
    refused : {e : Error} → Refuses x e → Checked x (err e)

  converted-Checked :
      (v : I) (o : Option Converted)
      → convert v ≡ o
      → Checked (Input.value v) (accept_converted convert o)
  unfolding accept
  converted-Checked v none h = refused (failing v h)
  converted-Checked v (some Converted.nil) h = accepted (nil v h)
  converted-Checked v (some Converted.time) h = refused (time v h)
  converted-Checked v (some (Converted.int64 n)) h = accepted (int64 v n h)
  converted-Checked v (some (Converted.float64 bits)) h = accepted (float64 v bits h)
  converted-Checked v (some (Converted.string s)) h = accepted (string v s h)
  converted-Checked v (some (Converted.bytes b)) h = accepted (bytes v b h)
  converted-Checked v (some (Converted.bool true)) h = accepted (yes v h)
  converted-Checked v (some (Converted.bool false)) h = accepted (no v h)

  check_input-Checked : (x : Input I) → Checked x (check_input convert x)
  check_input-Checked (Input.zero_blob size) = accepted (zero_blob size)
  check_input-Checked (Input.value v) = converted-Checked v (convert v) refl

  and_then-Positional :
      (x : Input I) (o : Outcome Error Any) (xs : List (Input I)) (r : Outcome Error (List Any))
      → Checked x o
      → Positional xs r
      → Positional (x ∷ xs) (and_then convert o r)
  and_then-Positional x (ok v) xs (ok vs) (accepted a) p = next a p
  and_then-Positional x (ok v) xs (err e) (accepted a) p = later a p
  and_then-Positional x (err e) xs (ok vs) (refused r) p = stop r
  and_then-Positional x (err e) xs (err f) (refused r) p = stop r

  -- Of arguments without names, namedValues gives the value that each is to be bound as, in their
  -- order: a ZeroBlob as it is, a Boolean as 0 or 1, and the others as the converter gives them; or
  -- it returns the error of the first argument for which the converter fails or gives a time.
  pub named_values-Positional :
      (arguments : List (Input I))
      → Positional arguments (named_values convert (positional_values arguments))
  unfolding named_values positional_values
  named_values-Positional [] = done
  named_values-Positional (x ∷ arguments) =
      and_then-Positional x (check_input convert x) arguments _ (check_input-Checked x)
        (named_values-Positional arguments)
