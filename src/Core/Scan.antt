-- ===== src/Core/Scan.antt =====
-- The values of cubesql/rows.go: valueLocked, scanValue, valueInterface and ScanContext.
-- `strconv.ParseFloat` is a parameter, from the text to the IEEE 754 bits.
use cubesql_go_driver.Prelude.{
  ℕ, zero, suc, ◌-◌, ℤ, pos, pos_part, Bool, true, false, not, ◌||◌, ◌&&◌, Option, none, some,
  Bytes, List, [], ◌∷◌, if◌then◌else◌, inc, positive, get_or, length, ltb_ℤ, ◌==◌,
}
use cubesql_go_driver.Prelude.Action.{Outcome, ok, err, pure, return_if, gets, lift, ◌>>=◌, ◌>>◌}
use cubesql_go_driver.Csdk.Types.{Sdk, Pointer}
use cubesql_go_driver.Csdk
use cubesql_go_driver.Core.Errors.{Sentinel, Error, plain}
use cubesql_go_driver.Core.Types.{World, Context, rows_at}
use cubesql_go_driver.Core.Act.{Act, fail, context_error, publicly}
use cubesql_go_driver.Core.Decimal.{parse_int}
use cubesql_go_driver.Core.Rows.{open_rows}

-- The constants of ColumnType, from TypeInteger on.
pub data ColumnType : Type 0 where
  none_type integer float text blob boolean date time timestamp currency : ColumnType
  unlisted : ℕ → ColumnType

-- The constant that a byte is.
unfoldable pub column_type : ℕ → ColumnType
column_type zero = none_type
column_type (suc zero) = integer
column_type (suc (suc zero)) = float
column_type (suc (suc (suc zero))) = text
column_type (suc (suc (suc (suc zero)))) = blob
column_type (suc (suc (suc (suc (suc zero))))) = boolean
column_type (suc (suc (suc (suc (suc (suc zero)))))) = date
column_type (suc (suc (suc (suc (suc (suc (suc zero))))))) = time
column_type (suc (suc (suc (suc (suc (suc (suc (suc zero)))))))) = timestamp
column_type (suc (suc (suc (suc (suc (suc (suc (suc (suc zero))))))))) = currency
column_type n = unlisted n

pub record Value : Type 0 where
  pub type : ColumnType
  pub raw : Bytes
  pub null : Bool

-- What valueInterface puts in an `any`, and what a scan writes. A slice is `none` if it is nil.
pub data Scanned : Type 0 where
  nil : Scanned
  int64 : ℤ → Scanned
  float64 : (bits : ℕ) → Scanned
  string : Bytes → Scanned
  bytes : Option Bytes → Scanned

-- `append(slice[:0], raw...)`, which keeps a nil slice if there is nothing to append.
unfoldable pub append_to : (is_nil : Bool) → Bytes → Option Bytes
append_to true [] = none
append_to true (b ∷ raw) = some (b ∷ raw)
append_to false raw = some raw

-- The types of destination that scanValue knows; whether a slice is nil before the scan matters.
pub data Destination : Type 0 where
  nil other : Destination
  to_any to_int64 to_float64 to_string to_value : Destination
  to_bytes : (is_nil : Bool) → Destination
  to_null_int64 to_null_float64 to_null_string to_null_bytes : Destination

-- What stands behind the pointer after the write. The `Null…` structs are `none` if not valid, and
-- slices if they are nil; a `Value` is its type, its slice and its flag.
pub data Written : Type 0 where
  in_any : Scanned → Written
  in_int64 : ℤ → Written
  in_float64 : (bits : ℕ) → Written
  in_string : Bytes → Written
  in_bytes : Option Bytes → Written
  in_value : ColumnType → Option Bytes → (null : Bool) → Written
  in_null_int64 : Option ℤ → Written
  in_null_float64 : Option ℕ → Written
  in_null_string : Option Bytes → Written
  in_null_bytes : Option (Option Bytes) → Written

abbrev pub or_scan_error : {A B : Type 0} → (A → B) → Option A → Outcome Error B
or_scan_error f none = err (plain Sentinel.scan)
or_scan_error f (some a) = ok (f a)

-- A NULL fits `any`, `[]byte`, the `Null…` structs and `Value`, and nothing else. The `Value` is
-- passed on as it is; valueLocked gives a NULL a nil slice.
unfoldable pub scan_null : Value → Destination → Outcome Error Written
unfolding append_to
scan_null v to_any = ok (in_any Scanned.nil)
scan_null v (to_bytes is_nil) = ok (in_bytes none)
scan_null v to_null_int64 = ok (in_null_int64 none)
scan_null v to_null_float64 = ok (in_null_float64 none)
scan_null v to_null_string = ok (in_null_string none)
scan_null v to_null_bytes = ok (in_null_bytes none)
scan_null v to_value = ok (in_value v.type (append_to true v.raw) true)
scan_null v _ = err (plain Sentinel.scan)

module _ (parse_float : Bytes → Option ℕ) where
  unfoldable pub value_interface : Value → Outcome Error Scanned
  unfolding parse_int append_to
  value_interface v = elim v.type [
    | integer ↦ or_scan_error Scanned.int64 (parse_int v.raw)
    | boolean ↦ or_scan_error Scanned.int64 (parse_int v.raw)
    | float ↦ or_scan_error Scanned.float64 (parse_float v.raw)
    | currency ↦ or_scan_error Scanned.float64 (parse_float v.raw)
    | blob ↦ ok (Scanned.bytes (append_to true v.raw))
    | _ ↦ ok (Scanned.string v.raw)
  ]

  abbrev pub into_any : Outcome Error Scanned → Outcome Error Written
  into_any (ok s) = ok (in_any s)
  into_any (err e) = err e

  unfoldable pub scan_present : Value → Destination → Outcome Error Written
  unfolding value_interface parse_int append_to
  scan_present v to_any = into_any (value_interface v)
  scan_present v to_int64 = or_scan_error in_int64 (parse_int v.raw)
  scan_present v to_float64 = or_scan_error in_float64 (parse_float v.raw)
  scan_present v to_string = ok (in_string v.raw)
  scan_present v (to_bytes is_nil) = ok (in_bytes (append_to is_nil v.raw))
  scan_present v to_null_int64 = or_scan_error (λ n. in_null_int64 (some n)) (parse_int v.raw)
  scan_present v to_null_float64 = or_scan_error (λ n. in_null_float64 (some n)) (parse_float v.raw)
  scan_present v to_null_string = ok (in_null_string (some v.raw))
  scan_present v to_null_bytes = ok (in_null_bytes (some (append_to true v.raw)))
  scan_present v to_value = ok (in_value v.type (append_to true v.raw) false)
  scan_present v _ = err (plain Sentinel.scan)

  unfoldable pub scan_value : Value → Destination → Outcome Error Written
  unfolding scan_null scan_present
  scan_value v Destination.nil = err (plain Sentinel.scan)
  scan_value v destination = if v.null then scan_null v destination else scan_present v destination

module _ (sdk : Sdk) where
  -- The guards of valueLocked on the row and the column.
  unfoldable pub in_range : World → ℕ → ℤ → Bool
  in_range w i column =
      positive (rows_at w i).current
      && not (ltb_ℤ (rows_at w i).total (rows_at w i).current)
      && positive column
      && not (ltb_ℤ (pos (length (rows_at w i).columns)) column)

  abbrev with_type : ℕ → Option Bytes → Value
  with_type byte none = record { type = column_type byte; raw = []; null = true }
  with_type byte (some raw) = record { type = column_type byte; raw = raw; null = false }

  unfoldable pub value_locked : Context → ℕ → ℤ → Act Value
  unfolding open_rows in_range column_type
  value_locked ctx i column = do
    open_rows (some i)
    valid ← gets (λ w. in_range w i column)
    return_if (not valid) (plain Sentinel.invalid_argument)
    context_error ctx
    rows ← gets (λ w. rows_at w i)
    field ← publicly (Csdk.Rows.field sdk rows.native rows.current column)
    pure (with_type (get_or rows.types (pos_part column - 1) 0) field)

  unfoldable pub value_context : Context → Pointer → ℤ → Act Value
  unfolding value_locked
  value_context ctx none column = do context_error ctx; fail Sentinel.closed
  value_context ctx (some i) column = do context_error ctx; value_locked ctx i column

-- The writes that a scan has made, and the error that stopped it.
pub record Progress : Type 0 where
  pub written : List Written
  pub error : Option Error

abbrev pub also : Written → Progress → Progress
also x p = record p { written = x ∷ p.written }

abbrev pub address : Pointer → ℕ
address none = 0
address (some i) = i

abbrev pub fail_if_nil : Pointer → Act (Unit {0})
fail_if_nil none = fail Sentinel.closed
fail_if_nil (some i) = pure tt

module _ (sdk : Sdk) (parse_float : Bytes → Option ℕ) where
  -- One destination: the context, the field, the conversion.
  unfoldable pub scan_column : Context → ℕ → ℤ → Destination → Act Written
  unfolding value_locked scan_value
  scan_column ctx i column destination = do
    context_error ctx
    value ← value_locked sdk ctx i column
    lift (scan_value parse_float value destination)

  -- The loop over the destinations.
  unfoldable pub scan_all : Context → ℕ → ℤ → List Destination → World → Progress × World
  unfolding scan_column
  scan_all ctx i column [] w = (record { written = []; error = none }, w)
  scan_all ctx i column (d ∷ ds) w =
      let (r, v) = scan_column ctx i column d w in
      let rest : Progress × World = scan_all ctx i (inc column) ds v in
      elim r [
        | ok x ↦ (also x rest.0, rest.1)
        | err e ↦ (record { written = []; error = some e }, v)
      ]

  -- The guards of ScanContext on the cursor and the number of destinations.
  unfoldable pub scannable : ℕ → ℕ → Act (Unit {0})
  unfolding open_rows
  scannable i n = do
    open_rows (some i)
    rows ← gets (λ w. rows_at w i)
    return_if (not (positive rows.current) || ltb_ℤ rows.total rows.current) (plain Sentinel.scan)
    return_if (not (n == length rows.columns)) (plain Sentinel.scan)

  unfoldable pub scan_context : Context → Pointer → List Destination → World → Progress × World
  unfolding scannable scan_all
  scan_context ctx rows destinations w =
      let i : ℕ = address rows in
      let (r, v) = (do context_error ctx; fail_if_nil rows; scannable i (length destinations)) w in
      elim r [
        | ok _ ↦ scan_all ctx i (pos 1) destinations v
        | err e ↦ (record { written = []; error = some e }, v)
      ]
