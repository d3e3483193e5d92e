-- ===== src/Adapter/Rows.antt =====
-- database/cubesql/rows.go: the rows that `database/sql` reads, their Close and Next. The conversion
-- of a value stands in Adapter/Values.antt.
pub mod Metadata
pub mod Closing
pub mod Conversion
pub mod Reading
pub mod Ending
use cubesql_go_driver.Prelude.{
  ℕ, zero, suc, ℤ, pos, inc, Bool, true, false, not, Option, none, some, Bytes, List, [], ◌∷◌,
  length, ◌==◌, if◌then◌else◌,
}
use cubesql_go_driver.Prelude.Action.{Outcome, ok, err}
use cubesql_go_driver.Csdk.Types.{Ref, Sdk, Pointer}
use cubesql_go_driver.Core.Errors
use cubesql_go_driver.Core.Errors.{Sentinel, plain}
use cubesql_go_driver.Core.Types.{World, background, rows_at}
use cubesql_go_driver.Core.Act.{error_of}
use cubesql_go_driver.Core.Rows as CoreRows
use cubesql_go_driver.Core.Scan
use cubesql_go_driver.Core.Scan.{ColumnType, Scanned, Value, column_type}
use cubesql_go_driver.Adapter.Types.{Error, core, Session}
use cubesql_go_driver.Adapter.Conn.{core_call, observe_locked, as_error}
use cubesql_go_driver.Adapter.Values.{driver_value}

-- `native` is the address of the core cursor.
pub record Rows : Type 0 where
  pub connection : Ref
  pub native : Pointer
  pub columns : List Bytes
  pub types : List ColumnType

-- The rows, which may be nil, and the connection they came from.
pub record Reader : Type 0 where
  pub rows : Option Rows
  pub session : Session

-- What Next returns besides nil: `io.EOF`, or an error of the package cubesql.
pub data Stop : Type 0 where
  eof : Stop
  stopped : Errors.Error → Stop

-- The values that Next has written, and what it returned.
pub record Fetched : Type 0 where
  pub written : List Scanned
  pub stop : Option Stop

abbrev pub column_types : List ℕ → List ColumnType
unfolding column_type
column_types [] = []
column_types (b ∷ bytes) = column_type b ∷ column_types bytes

unfoldable pub new_rows : Ref → ℕ → World → Rows
new_rows connection i w = record {
  connection = connection;
  native = some i;
  columns = (rows_at w i).columns;
  types = column_types (rows_at w i).types;
}

-- `observe` of conn.go.
unfoldable pub observe : Ref → Option Errors.Error → Session → Session
unfolding observe_locked
observe Ref.nil e s = s
observe Ref.self none s = s
observe Ref.self (some e) s = observe_locked e s

abbrev pub failed : Errors.Error → Fetched
failed e = record { written = []; stop = some (stopped e) }

abbrev pub also : Scanned → Fetched → Fetched
also v f = record f { written = v ∷ f.written }

module _ (sdk : Sdk) where
  abbrev pub close_native : Option Rows → Session → Outcome Error (Unit {0}) × Reader
  close_native none s = (ok tt, record { rows = none; session = s })
  close_native (some rows) s = elim rows.native [
    | none ↦ (ok tt, record { rows = some rows; session = s })
    | some i ↦
        let (r, t) = core_call (CoreRows.close sdk (some i)) s in
        (
          as_error (error_of r),
          record {
            rows = some (record rows { native = none });
            session = observe rows.connection (error_of r) t;
          },
        )
  ]

  unfoldable pub close : Reader → Outcome Error (Unit {0}) × Reader
  unfolding core_call observe
  close reader = close_native reader.rows reader.session

-- A value was read, and converted; `rest` is what the further columns give. The assignment to the
-- destination writes nil if the conversion fails.
abbrev pub after_conversion :
    Outcome Errors.Error Scanned → Session → Fetched × Session → Fetched × Session
after_conversion (err e) s rest = (also Scanned.nil (failed e), s)
after_conversion (ok x) s (f, t) = (also x f, t)

unfoldable pub after_value :
    (Bytes → Option ℕ)
    → Ref
    → Outcome Errors.Error Value
    → Session
    → Fetched × Session
    → Fetched × Session
unfolding observe driver_value
after_value parse_float connection (err e) s rest = (failed e, observe connection (some e) s)
after_value parse_float connection (ok v) s rest =
    after_conversion (driver_value parse_float v) s rest

module _ (sdk : Sdk) (parse_float : Bytes → Option ℕ) where
  -- The loop over the destinations; `n` are left, and `column` is `index + 1`.
  unfoldable pub fill : (rows : Rows) (i n : ℕ) (column : ℤ) → Session → Fetched × Session
  unfolding core_call after_value
  fill rows i zero column s = (record { written = []; stop = none }, s)
  fill rows i (suc n) column s =
      let (r, t) = core_call (Scan.value_context sdk background (some i) column) s in
      let rest = fill rows i n (inc column) t in after_value parse_float rows.connection r t rest

  -- Next returned false: the error of the cursor, or the end.
  abbrev pub ended : Ref → Option Errors.Error → Session → Fetched × Session
  ended connection none s = (record { written = []; stop = some eof }, s)
  ended connection (some e) s = (failed e, observe connection (some e) s)

  -- What the core cursor's `Next` returned; it gives no error beside the Boolean.
  unfoldable pub after_next :
      Rows → (n i : ℕ) → Outcome Errors.Error Bool → Session → Fetched × Session
  unfolding fill
  after_next rows n i (ok true) s = fill rows i n (pos 1) s
  after_next rows n i (ok false) s = ended rows.connection (CoreRows.rows_error (some i) s.world) s
  after_next rows n i (err e) s = ended rows.connection (CoreRows.rows_error (some i) s.world) s

  unfoldable pub next_row : Rows → (n i : ℕ) → Session → Fetched × Session
  unfolding after_next
  next_row rows n i s =
      if not (n == length rows.columns)
      then (failed (plain Sentinel.scan), s)
      else let (r, t) = core_call (CoreRows.next_context sdk background (some i)) s in
        after_next rows n i r t

  abbrev pub next_of : Option Rows → ℕ → Session → Fetched × Session
  next_of none n s = (record { written = []; stop = some eof }, s)
  next_of (some rows) n s = elim rows.native [
    | none ↦ (record { written = []; stop = some eof }, s)
    | some i ↦ next_row rows n i s
  ]

  -- `Next`, of a destination of length `n`.
  unfoldable pub next : ℕ → Reader → Fetched × Reader
  unfolding next_row
  next n reader =
      let (f, s) = next_of reader.rows n reader.session in (f, record reader { session = s })
