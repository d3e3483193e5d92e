-- ===== src/Adapter/Values.antt =====
-- checkNamedValue and namedValues of database/cubesql/conn.go, and driverValue of
-- database/cubesql/rows.go. `driver.DefaultParameterConverter.ConvertValue` and
-- `strconv.ParseFloat`, of the standard library, are parameters.
use cubesql_go_driver.Prelude.{
  ℕ, ℤ, pos, Bool, Bytes, List, [], ◌∷◌, Option, none, some, is_empty, if◌then◌else◌,
}
use cubesql_go_driver.Prelude.Action.{Outcome, ok, err}
use cubesql_go_driver.Core.Errors
use cubesql_go_driver.Core.Errors.{Sentinel, plain}
use cubesql_go_driver.Core.Bind.{Any}
use cubesql_go_driver.Core.Decimal.{parse_int}
use cubesql_go_driver.Core.Scan.{
  Value, Scanned, integer, boolean, float, currency, blob, or_scan_error,
}
use cubesql_go_driver.Adapter.Types.{
  Error, named_parameters, conversion_failed, unsupported_parameter,
}

-- What the converter returns: one of the types of `driver.Value`.
pub data Converted : Type 0 where
  nil time : Converted
  int64 : ℤ → Converted
  float64 : (bits : ℕ) → Converted
  string bytes : Bytes → Converted
  bool : Bool → Converted

-- `value.Value`: a `ZeroBlob`, or anything else, which only the converter looks into.
pub data Input (I : Type 0) : Type 0 where
  zero_blob : ℤ → Input I
  value : I → Input I

pub record NamedValue (I : Type 0) : Type 0 where
  pub name : Bytes
  pub value : Input I

-- The switch on the converted value.
unfoldable pub accept : Converted → Outcome Error Any
accept Converted.nil = ok Any.nil
accept (Converted.int64 n) = ok (Any.int64 n)
accept (Converted.float64 bits) = ok (Any.float64 bits)
accept (Converted.string s) = ok (Any.string s)
accept (Converted.bytes b) = ok (Any.bytes b)
accept (bool b) = ok (Any.int64 (if b then pos 1 else pos 0))
accept time = err unsupported_parameter

module _ {I : Type 0} (convert : I → Option Converted) where
  abbrev pub accept_converted : Option Converted → Outcome Error Any
  accept_converted none = err conversion_failed
  accept_converted (some c) = accept c

  abbrev pub check_input : Input I → Outcome Error Any
  check_input (Input.zero_blob size) = ok (Any.zero_blob size)
  check_input (value v) = accept_converted (convert v)

  -- The value that is left in `value.Value`.
  unfoldable pub check_named_value : NamedValue I → Outcome Error Any
  unfolding accept
  check_named_value v = if is_empty v.name then check_input v.value else err named_parameters

  abbrev pub and_then : Outcome Error Any → Outcome Error (List Any) → Outcome Error (List Any)
  and_then (ok v) (ok vs) = ok (v ∷ vs)
  and_then (ok v) (err e) = err e
  and_then (err e) rest = err e

  unfoldable pub named_values : List (NamedValue I) → Outcome Error (List Any)
  unfolding check_named_value
  named_values [] = ok []
  named_values (argument ∷ arguments) =
      and_then (check_named_value argument) (named_values arguments)

module _ (parse_float : Bytes → Option ℕ) where
  -- An empty BLOB is a slice of length 0 that is not nil.
  unfoldable pub driver_value : Value → Outcome Errors.Error Scanned
  unfolding parse_int
  driver_value v = if v.null then ok Scanned.nil else elim v.type [
    | integer ↦ or_scan_error Scanned.int64 (parse_int v.raw)
    | boolean ↦ or_scan_error Scanned.int64 (parse_int v.raw)
    | float ↦ or_scan_error Scanned.float64 (parse_float v.raw)
    | currency ↦ or_scan_error Scanned.float64 (parse_float v.raw)
    | blob ↦ ok (Scanned.bytes (some v.raw))
    | _ ↦ ok (Scanned.string v.raw)
  ]
