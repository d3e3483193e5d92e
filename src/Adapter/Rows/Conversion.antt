-- ===== src/Adapter/Rows/Conversion.antt =====
-- The values that Next hands to `database/sql`.
use cubesql_go_driver.Core.Decimal.Print.{print_int, parse_int-print}
use cubesql_go_driver.Prelude.{
  ℤ, pos, negsuc, ◌≤ℤ◌, ◌^◌, ◌-◌, ℕ, Bool, true, false, Option, none, some, [], Bytes, ◌≡◌, arith,
  refl,
}
use cubesql_go_driver.Prelude.Action.{Outcome, ok, err}
use cubesql_go_driver.Core.Errors
use cubesql_go_driver.Core.Errors.{Sentinel, plain}
use cubesql_go_driver.Core.Scan.{
  integer, Value, Scanned, scan_value, to_any, to_int64, in_int64, into_any,
}
use cubesql_go_driver.Adapter.Values.{driver_value}
use cubesql_go_driver.Adapter.Rows.Metadata.{
  ScanType, any_type, int64_type, float64_type, string_type, bytes_type, type_of,
}

-- The Go value is of the type, or NULL.
abbrev pub Fits : ScanType → Scanned → Type 0
Fits any_type s = Unit {0}
Fits t Scanned.nil = Unit {0}
Fits int64_type (Scanned.int64 n) = Unit {0}
Fits float64_type (Scanned.float64 bits) = Unit {0}
Fits string_type (Scanned.string s) = Unit {0}
Fits bytes_type (Scanned.bytes b) = Unit {0}
Fits t s = ⊥

-- A nil slice in place of an empty one.
abbrev pub nil_if_empty : Outcome Errors.Error Scanned → Outcome Errors.Error Scanned
nil_if_empty (ok (Scanned.bytes (some []))) = ok (Scanned.bytes none)
nil_if_empty o = o

abbrev pub gives_nil_slice : Outcome Errors.Error Scanned → Bool
gives_nil_slice (ok (Scanned.bytes none)) = true
gives_nil_slice o = false

module _ (parse_float : Bytes → Option ℕ) where
  -- A value that Next hands out is NULL, or of the type that ColumnTypeScanType names for the type
  -- of its column.
  pub driver_value-Fits :
      (v : Value) (s : Scanned) → driver_value parse_float v ≡ ok s → Fits (type_of v.type) s
  unfolding driver_value type_of
  driver_value-Fits v s h = ground arith

  -- The adapter converts a value as the core package scans it into an `any`, with the same errors,
  -- but for an empty BLOB that is not NULL: the core package gives a nil slice for it, and the
  -- adapter an empty one. The adapter never gives a nil slice.
  pub driver_value-Scan :
      (v : Value)
      → (scan_value parse_float v to_any
          ≡ into_any parse_float (nil_if_empty (driver_value parse_float v)))
        × (gives_nil_slice (driver_value parse_float v) ≡ false)
  unfolding driver_value scan_value
  driver_value-Scan v = ground arith

  pub driver_value-ErrScan :
      (v : Value) (e : Errors.Error) → driver_value parse_float v ≡ err e → e ≡ plain Sentinel.scan
  unfolding driver_value
  driver_value-ErrScan v e h = ground arith

  -- An integer field whose text is the decimal of an `int64` is read as this number, by a scan of the
  -- core package into an `int64` as by the adapter.
  pub driver_value-print :
      (n : ℤ)
      → (negsuc (2 ^ 63 - 1) ≤ℤ n) × (n ≤ℤ pos (2 ^ 63 - 1))
      → let field : Value = record { type = integer; raw = print_int n; null = false } in
        (driver_value parse_float field ≡ ok (Scanned.int64 n))
        × (scan_value parse_float field to_int64 ≡ ok (in_int64 n))
  unfolding driver_value scan_value
  driver_value-print n range =
      let parsed = parse_int-print n range in (rw parsed refl, rw parsed refl)
