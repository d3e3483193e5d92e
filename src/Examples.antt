-- ===== src/Examples.antt =====
-- The definitions and theorems of Csdk and Core at concrete inputs.
pub mod Adapter
pub mod Handles
pub mod Reading
pub mod Dsn
use cubesql_go_driver.Prelude.{
  ◌++◌, ℕ, suc, ◌+◌, ◌-◌, ◌*◌, ◌^◌, ◌≤◌, ◌<◌, ℤ, pos, negsuc, Bool, true, false, Bytes, ascii, List,
  [], ◌∷◌, Option, none, some, ◌≡◌, refl, count, is_some, ◌≤ℤ◌,
}
use cubesql_go_driver.Prelude.Action.{Outcome, ok, err, ◌>>=◌}
use cubesql_go_driver.Csdk
use cubesql_go_driver.Csdk.Types
use cubesql_go_driver.Csdk.Types.{Ref, Sdk, Call, Reply, Native, fresh}
use cubesql_go_driver.Csdk.Session
use cubesql_go_driver.Csdk.Session.{Method}
use cubesql_go_driver.Csdk.Ledger.{Ledger}
use cubesql_go_driver.Csdk.Ledger.Sessions.{session-Ledger}
use cubesql_go_driver.Core.Errors
use cubesql_go_driver.Core.Errors.{Sentinel, ErrorKind, plain, sdk}
use cubesql_go_driver.Core.Types.{World, Context, background, caller, Cancel, never, after, start}
use cubesql_go_driver.Core.Act.{context_error, publicly}
use cubesql_go_driver.Core.Options
use cubesql_go_driver.Core.Options.{Options, clear}
use cubesql_go_driver.Core.Bind.{Any}
use cubesql_go_driver.Core.Conn
use cubesql_go_driver.Core.Tx
use cubesql_go_driver.Core.Counts.{Balanced}
use cubesql_go_driver.Core.Rows
use cubesql_go_driver.Core.Stmt
use cubesql_go_driver.Core.Query
use cubesql_go_driver.Core.Counts.{owned_children, running}
use cubesql_go_driver.Core.Session.Closing.{close-Idle}
use cubesql_go_driver.Core.Frame.{Frame}
use cubesql_go_driver.Core.Tx.Failure.{Frame-finish_failed}
use cubesql_go_driver.Core.Options.{native, timeout_seconds}
use cubesql_go_driver.Core.Options.Limits.{Faithful, native-Faithful, InSeconds, timeout-Ceiling}
use cubesql_go_driver.Core.Errors.{ErrorKind, unwrap, classify_error}
use cubesql_go_driver.Core.Errors.Classes.{positive-Classified}
use cubesql_go_driver.Core.Decimal.{parse_int}
use cubesql_go_driver.Core.Decimal.Range.{parse_int-InRange}
use cubesql_go_driver.Core.Session.{Op, session, perform}
use cubesql_go_driver.Core.Session.Balance.{session-Balanced}
use cubesql_go_driver.Core.Session.Preflight.{perform_done}

-- A server that accepts everything and answers with empty results.
abbrev pub accepting : Sdk
accepting history call = record { code = pos 0; is_set = true; bytes = [] }

abbrev pub no_floats : Bytes → Option ℕ
no_floats text = none

abbrev pub options : Options
options = record {
  host = ascii "db";
  port = pos 4430;
  username = ascii "me";
  password = ascii "x";
  timeout = pos 1500000000;
  encryption = clear;
}

abbrev pub native_options : Types.Options
native_options = record {
  host = ascii "db";
  port = pos 4430;
  username = ascii "me";
  password = ascii "x";
  timeout = pos 2;
  encryption = pos 0;
}

abbrev pub sql : Bytes
sql = ascii "select 1"

-- A transaction with a statement, a cursor that outlives its context, and a close that is refused.
abbrev pub operations : List Op
operations =
    Op.begin background Ref.self
    ∷ Op.tx_prepare background (some 0) sql
    ∷ Op.stmt_query background (some 0)
    ∷ Op.conn_close Ref.self
    ∷ Op.rows_close (some 0)
    ∷ Op.rows_close (some 0)
    ∷ Op.stmt_close (some 0)
    ∷ Op.query caller Ref.self sql (Any.int64 (pos 7) ∷ [])
    ∷ Op.tx_finish background (some 0) true
    ∷ []

abbrev pub used : World
used = session accepting no_floats (after 3 Sentinel.canceled) background options operations

session-Balanced_example : Balanced used
session-Balanced_example =
    session-Balanced accepting no_floats (after 3 Sentinel.canceled) background options operations

abbrev pub methods : List Method
methods =
    Method.prepare Ref.self sql
    ∷ Method.stmt_query (some 0)
    ∷ Method.stmt_close (some 0)
    ∷ Method.rows_close (some 0)
    ∷ Method.close Ref.self
    ∷ Method.rows_close (some 0)
    ∷ []

session-Ledger_example : Ledger (Session.session accepting native_options methods)
session-Ledger_example = session-Ledger accepting native_options methods

abbrev pub opened : World
opened = session accepting no_floats (after 0 Sentinel.canceled) background options []

opened_canceled : opened.cancel ≡ after 0 Sentinel.canceled
unfolding session Conn.open_context ◌>>=◌ context_error native publicly Csdk.Conn.open_conn
opened_canceled = refl

perform_done_example :
    (perform accepting no_floats (Op.query caller Ref.self sql []) opened).native ≡ opened.native
perform_done_example =
    perform_done accepting no_floats Sentinel.canceled opened (Op.query caller Ref.self sql []) refl
      opened_canceled

abbrev unused : World
unused = session accepting no_floats never background options []

unused_native : unused.conn.native ≡ Ref.self
unfolding session Conn.open_context ◌>>=◌ context_error native publicly Csdk.Conn.open_conn
unused_native = refl

unused_closed : (Conn.close accepting Ref.self unused).0 ≡ ok tt
unfolding session Conn.open_context ◌>>=◌ context_error native publicly Csdk.Conn.open_conn
    Conn.close Csdk.Conn.close
unused_closed = refl

close-Idle_example : (owned_children unused ≡ 0) × (count running unused.txs ≡ 0)
close-Idle_example =
    close-Idle accepting no_floats never background options [] unused_native unused_closed

-- A server that loses the connection at the end of a transaction.
abbrev pub losing : Sdk
losing history (Call.conn_commit h) = record { code = pos 810; is_set = true; bytes = [] }
losing history (Call.conn_rollback h) = record { code = pos 810; is_set = true; bytes = [] }
losing history call = accepting history call

abbrev pub begun : World
begun = session losing no_floats never background options (Op.begin background Ref.self ∷ [])

commit_failed :
    (Tx.finish losing background (some 0) true begun).0 ≡ err (sdk (pos 810) [] ErrorKind.timeout)
unfolding session Conn.open_context ◌>>=◌ context_error native publicly Csdk.Conn.open_conn perform
    Tx.begin_context Tx.finish Tx.running Tx.finishable Tx.end_native Csdk.Conn.begin
    Csdk.Conn.commit classify_error
commit_failed = refl

finish_failed_example : Frame begun (Tx.finish losing background (some 0) true begun).1
finish_failed_example = Frame-finish_failed losing background (some 0) true begun _ commit_failed

native_accepted : native options ≡ ok native_options
unfolding native
native_accepted = refl

native-Faithful_example : Faithful options native_options
native-Faithful_example = native-Faithful options native_options native_accepted

timeout-Ceiling_example : InSeconds 1500000000 (timeout_seconds 1500000000)
timeout-Ceiling_example = timeout-Ceiling 1500000000

positive-Classified_example :
    is_some (unwrap (classify_error (pos 7061) (ascii "no such table"))) ≡ true
positive-Classified_example = positive-Classified (pos 7061) (ascii "no such table") refl

-- `sock_read` with the Kelvin sign, U+212A, as its k.
kelvin_sign :
    classify_error (pos 1) (ascii "SOC" ++ 226 ∷ 132 ∷ 170 ∷ ascii "_READ") ≡ ErrorKind.network
unfolding classify_error
kelvin_sign = refl

parsed : parse_int (ascii "-42") ≡ some (negsuc 41)
unfolding parse_int
parsed = refl

parse_int-InRange_example : (negsuc (2 ^ 63 - 1) ≤ℤ negsuc 41) × (negsuc 41 ≤ℤ pos (2 ^ 63 - 1))
parse_int-InRange_example = parse_int-InRange (ascii "-42") (negsuc 41) parsed
