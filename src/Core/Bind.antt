-- ===== src/Core/Bind.antt =====
-- cubesql/bind.go: arguments of type `any`, and how each is bound.
use cubesql_go_driver.Prelude.{
  ℕ, ℤ, pos, Bool, false, ◌||◌, Bytes, List, [], ◌∷◌, is_empty, if◌then◌else◌,
}
use cubesql_go_driver.Prelude.Action.{return_if, ◌>>◌}
use cubesql_go_driver.Csdk.Types.{Sdk, Pointer}
use cubesql_go_driver.Csdk.Convert.{is_nan, is_inf}
use cubesql_go_driver.Csdk.Bind
use cubesql_go_driver.Csdk.Stmt
use cubesql_go_driver.Core.Errors.{Sentinel, plain}
use cubesql_go_driver.Core.Act.{Act, fail, publicly}

-- The types that the switches of bind.go and conn.go name; `other` is a value of any other type. A
-- `float64` is its IEEE 754 bits.
pub data Any : Type 0 where
  nil other : Any
  int64 zero_blob : ℤ → Any
  float64 : (bits : ℕ) → Any
  string bytes : Bytes → Any

-- hasEmptyBlob of conn.go
abbrev is_empty_blob : Any → Bool
is_empty_blob (bytes value) = is_empty value
is_empty_blob _ = false

unfoldable pub has_empty_blob : List Any → Bool
has_empty_blob [] = false
has_empty_blob (arg ∷ args) = is_empty_blob arg || has_empty_blob args

module _ (sdk : Sdk) where
  unfoldable pub set_one_shot : Pointer → ℤ → Any → Act (Unit {0})
  set_one_shot bind index Any.nil = publicly (Bind.set_null sdk bind index)
  set_one_shot bind index (int64 value) = publicly (Bind.set_int64 sdk bind index value)
  set_one_shot bind index (float64 bits) = publicly (Bind.set_double sdk bind index bits)
  set_one_shot bind index (string value) = publicly (Bind.set_text sdk bind index value)
  set_one_shot bind index (bytes value) = publicly (Bind.set_blob sdk bind index value)
  set_one_shot bind index (zero_blob size) = publicly (Bind.set_zero_blob sdk bind index size)
  set_one_shot bind index other = fail Sentinel.invalid_argument

  unfoldable pub set_prepared : Pointer → ℤ → Any → Act (Unit {0})
  set_prepared stmt index Any.nil = publicly (Stmt.bind_null sdk stmt index)
  set_prepared stmt index (int64 value) = publicly (Stmt.bind_int64 sdk stmt index value)
  set_prepared stmt index (float64 bits) = do
    return_if (is_nan bits || is_inf bits) (plain Sentinel.invalid_argument)
    publicly (Stmt.bind_double sdk stmt index bits)
  set_prepared stmt index (string value) = publicly (Stmt.bind_text sdk stmt index value)
  set_prepared stmt index (bytes value) =
      if is_empty value
      then publicly (Stmt.bind_zero_blob sdk stmt index (pos 0))
      else publicly (Stmt.bind_blob sdk stmt index value)
  set_prepared stmt index (zero_blob size) = publicly (Stmt.bind_zero_blob sdk stmt index size)
  set_prepared stmt index other = fail Sentinel.invalid_argument
