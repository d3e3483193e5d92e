-- ===== src/Examples/Reading.antt =====
-- The rows, statements and values of the adapter at concrete inputs.
use cubesql_go_driver.Core.Conn
use cubesql_go_driver.Core.Rows.Lifecycle
use cubesql_go_driver.Core.Rows.Lifecycle.{Steps, cursor_of, seek, closing}
use cubesql_go_driver.Core.Rows.Lifecycle.Runs.{
  CursorCall, call_next, call_seek, call_close, calls, calls-Steps, Refused, closed-Refused,
}
use cubesql_go_driver.Prelude.{
  ℕ, pos, negsuc, true, false, ascii, List, [], ◌∷◌, Option, none, some, ◌≡◌, refl, arith, leb,
  if◌then◌else◌,
}
use cubesql_go_driver.Prelude.Action.{ok, err, ◌>>=◌, attempt}
use cubesql_go_driver.Csdk
use cubesql_go_driver.Csdk.Types.{Ref, Sdk, Call, fresh}
use cubesql_go_driver.Core.Errors.{Sentinel, ErrorKind, plain, sdk, classify_error}
use cubesql_go_driver.Core.Types.{World, background, never, start, caller, rows_at}
use cubesql_go_driver.Core.Act.{publicly, context_error}
use cubesql_go_driver.Core.Rows as CoreRows
use cubesql_go_driver.Core.Decimal.Print.{print_int}
use cubesql_go_driver.Core.Scan
use cubesql_go_driver.Core.Scan.{
  Value, Scanned, integer, text, scan_value, into_any, to_any, to_int64, in_int64, blob, in_any,
  to_bytes,
}
use cubesql_go_driver.Adapter.Types.{core, conversion_failed, Session}
use cubesql_go_driver.Adapter.Conn.{is_fatal}
use cubesql_go_driver.Adapter.Values.{Input, value, Converted, named_values, driver_value}
use cubesql_go_driver.Adapter.Stmt.{Statement, exec_statement, query_statement, positional_values}
use cubesql_go_driver.Adapter.Stmt as Stmt
use cubesql_go_driver.Adapter.Stmt.Closed.{close-ErrClosed}
use cubesql_go_driver.Adapter.Stmt.Arguments.{Positional, named_values-Positional}
use cubesql_go_driver.Adapter.Rows.{Rows, close, next, eof, stopped}
use cubesql_go_driver.Adapter.Rows.Metadata.{type_of}
use cubesql_go_driver.Adapter.Rows.Closing.{close-Ended}
use cubesql_go_driver.Adapter.Rows.Conversion.{
  Fits, driver_value-Fits, driver_value-Scan, driver_value-print, nil_if_empty, gives_nil_slice,
}
use cubesql_go_driver.Adapter.Rows.Ending.{
  read_rows, reading, Stopped, read_rows-Stopped, next-Noted,
}
use cubesql_go_driver.Examples.{no_floats, accepting, sql}
use cubesql_go_driver.Examples.Adapter.{idle_session}

-- A server whose cursor has two rows of one integer column.
abbrev answering : Sdk
answering history (Call.cursor_seek h row) = record { code = pos 1; is_set = true; bytes = [] }
answering history (Call.cursor_copy_field h row column) = record {
  code = pos 0;
  is_set = true;
  bytes = ascii "7";
}
answering history call = record { code = pos 0; is_set = true; bytes = [] }

abbrev cursor_world : World
cursor_world = record (start never) {
  native = record fresh {
    conn = record { ptr = some 0; children = pos 1 };
    rows = record { conn = Ref.self; ptr = some 1 } ∷ [];
  };
  conn = record { native = Ref.self; tx_active = false; children = pos 1 };
  rows =
      record {
        native = some 0;
        parent_conn = Ref.self;
        parent_stmt = none;
        close_stmt = false;
        columns = ascii "n" ∷ [];
        types = 1 ∷ [];
        total = pos 2;
        current = pos 0;
        error = none;
      }
      ∷ [];
}

abbrev cursor_session : Session
cursor_session = record idle_session { world = cursor_world }

abbrev rows : Rows
rows = record {
  connection = Ref.self;
  native = some 0;
  columns = ascii "n" ∷ [];
  types = integer ∷ [];
}

read_both :
    read_rows answering no_floats 3 1 (reading rows 0 cursor_session)
    ≡ some ((Scanned.int64 (pos 7) ∷ []) ∷ (Scanned.int64 (pos 7) ∷ []) ∷ [], eof)
unfolding read_rows ◌>>=◌ CoreRows.next_context context_error publicly attempt Csdk.Rows.seek
    Scan.value_context Csdk.Rows.field CoreRows.rows_error
read_both = refl

read_rows-Stopped_example :
    Stopped 2 1 (read_rows answering no_floats 3 1 (reading rows 0 cursor_session))
read_rows-Stopped_example =
    read_rows-Stopped answering no_floats rows 1 0 2 0 cursor_session refl (omega arith)

close-Ended_example :
    (next answering no_floats 1 (close answering (reading rows 0 cursor_session)).1 ≡ (
      record { written = []; stop = some eof },
      (close answering (reading rows 0 cursor_session)).1,
    ))
    × (close answering (close answering (reading rows 0 cursor_session)).1
        ≡ (ok tt, (close answering (reading rows 0 cursor_session)).1))
close-Ended_example = close-Ended answering no_floats 1 (reading rows 0 cursor_session)

-- The same cursor, on a server that stops answering.
abbrev silent : Sdk
silent history (Call.cursor_seek h row) = record { code = pos 1; is_set = true; bytes = [] }
silent history call = record { code = pos 810; is_set = true; bytes = [] }

silent_stop :
    (next silent no_floats 1 (reading rows 0 cursor_session)).0.stop
    ≡ some (stopped (sdk (pos 810) [] ErrorKind.timeout))
unfolding next ◌>>=◌ CoreRows.next_context context_error publicly attempt Csdk.Rows.seek
    Scan.value_context Csdk.Rows.field CoreRows.rows_error classify_error
silent_stop = refl

timeout_fatal : is_fatal (sdk (pos 810) [] ErrorKind.timeout) ≡ true
unfolding is_fatal
timeout_fatal = refl

next-Noted_example :
    (next silent no_floats 1 (reading rows 0 cursor_session)).1.session.broken ≡ true
next-Noted_example =
    next-Noted silent no_floats rows 1 0 cursor_session (sdk (pos 810) [] ErrorKind.timeout) refl
      silent_stop timeout_fatal

abbrev seven : Value
seven = record { type = integer; raw = ascii "7"; null = false }

seven_read : driver_value no_floats seven ≡ ok (Scanned.int64 (pos 7))
unfolding driver_value
seven_read = refl

driver_value-Fits_example : Fits (type_of seven.type) (Scanned.int64 (pos 7))
driver_value-Fits_example = driver_value-Fits no_floats seven (Scanned.int64 (pos 7)) seven_read

-- A BLOB of length 0 that is not NULL.
abbrev empty_blob : Value
empty_blob = record { type = blob; raw = []; null = false }

empty_blob_of_core : scan_value no_floats empty_blob to_any ≡ ok (in_any (Scanned.bytes none))
unfolding scan_value
empty_blob_of_core = refl

empty_blob_of_adapter : driver_value no_floats empty_blob ≡ ok (Scanned.bytes (some []))
unfolding driver_value
empty_blob_of_adapter = refl

-- A scan into a slice that is nil does not tell it from NULL.
empty_like_null :
    scan_value no_floats empty_blob (to_bytes true)
    ≡ scan_value no_floats (record empty_blob { null = true }) (to_bytes true)
unfolding scan_value
empty_like_null = refl

driver_value-Scan_example :
    (scan_value no_floats empty_blob to_any
      ≡ into_any no_floats (nil_if_empty (driver_value no_floats empty_blob)))
    × (gives_nil_slice (driver_value no_floats empty_blob) ≡ false)
driver_value-Scan_example = driver_value-Scan no_floats empty_blob

abbrev minus_forty_two : Value
minus_forty_two = record { type = integer; raw = print_int (negsuc 41); null = false }

driver_value-print_example :
    (driver_value no_floats minus_forty_two ≡ ok (Scanned.int64 (negsuc 41)))
    × (scan_value no_floats minus_forty_two to_int64 ≡ ok (in_int64 (negsuc 41)))
driver_value-print_example = driver_value-print no_floats (negsuc 41) (omega arith, omega arith)

abbrev statement : Statement
statement = record { connection = Ref.self; query = sql; closed = false }

abbrev closed_statement : Statement
closed_statement = record { connection = Ref.nil; query = sql; closed = true }

statement_closed : Stmt.close (some statement) ≡ some closed_statement
unfolding Stmt.close
statement_closed = refl

-- A converter that takes numbers and refuses the others.
abbrev numbers : ℕ → Option Converted
numbers n = some (Converted.int64 (pos n))

close-ErrClosed_example :
    (exec_statement accepting numbers background closed_statement [] idle_session
      ≡ (err (core (plain Sentinel.closed)), idle_session))
    × (query_statement accepting numbers background closed_statement [] idle_session
        ≡ (err (core (plain Sentinel.closed)), idle_session))
    × (Stmt.close (some closed_statement) ≡ some closed_statement)
close-ErrClosed_example =
    close-ErrClosed accepting numbers background statement closed_statement [] idle_session
      statement_closed

-- One that takes small numbers, and has no value for the others.
abbrev small_numbers : ℕ → Option Converted
small_numbers n = if leb n 4 then some (Converted.int64 (pos n)) else none

abbrev arguments : List (Input ℕ)
arguments = value 4 ∷ Input.zero_blob (pos 3) ∷ value 5 ∷ []

one_refused : named_values small_numbers (positional_values arguments) ≡ err conversion_failed
unfolding named_values positional_values
one_refused = refl

named_values-Positional_example :
    Positional small_numbers arguments (named_values small_numbers (positional_values arguments))
named_values-Positional_example = named_values-Positional small_numbers arguments

-- The cursor is read past its end, moved back, and closed.
abbrev cursor_calls : List CursorCall
cursor_calls =
    call_next background
    ∷ call_next background
    ∷ call_next background
    ∷ call_seek background (pos 1)
    ∷ call_next caller
    ∷ call_close
    ∷ call_next background
    ∷ []

labels :
    (calls answering 0 cursor_calls cursor_world).0
    ≡ Lifecycle.next true
      ∷ Lifecycle.next true
      ∷ Lifecycle.next false
      ∷ seek (pos 1) true
      ∷ Lifecycle.next true
      ∷ closing
      ∷ Lifecycle.next false
      ∷ []
unfolding calls ◌>>=◌ CoreRows.next_context context_error publicly attempt Csdk.Rows.seek
    CoreRows.seek_context CoreRows.close Conn.release_child
labels = refl

calls-Steps_example :
    Steps
      (Lifecycle.at (pos 0) (pos 2))
      (calls answering 0 cursor_calls cursor_world).0
      (cursor_of (rows_at (calls answering 0 cursor_calls cursor_world).1 0))
calls-Steps_example = calls-Steps answering 0 cursor_calls cursor_world

closed-Refused_example :
    (cursor_of (
        rows_at
          (calls answering 0 cursor_calls (CoreRows.close answering (some 0) cursor_world).1).1
          0)
      ≡ Lifecycle.closed)
    × Refused (calls answering 0 cursor_calls (CoreRows.close answering (some 0) cursor_world).1).0
closed-Refused_example = closed-Refused answering 0 cursor_calls cursor_world
