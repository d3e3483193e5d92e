-- ===== src/Examples/Adapter.antt =====
-- The definitions and theorems of Adapter and the size limits of Csdk at concrete inputs.
use cubesql_go_driver.Prelude.{
  ◌++◌, ℕ, ◌+◌, ◌^◌, pos, true, false, Bytes, ascii, List, Option, [], ◌∷◌, none, some, ◌≡◌, refl,
  length, replicate, length-replicate, ◌<◌, arith,
}
use cubesql_go_driver.Prelude.Action.{ok, err, ◌>>=◌, attempt}
use cubesql_go_driver.Csdk
use cubesql_go_driver.Csdk.Types.{Ref, Call, fresh}
use cubesql_go_driver.Csdk.Convert.{c_int}
use cubesql_go_driver.Csdk.Texts.{exec-at_nul}
use cubesql_go_driver.Csdk.Sizes.{bind_text-of_long}
use cubesql_go_driver.Core.Errors
use cubesql_go_driver.Core.Errors.{Sentinel, ErrorKind, plain, joined_one, classify_error}
use cubesql_go_driver.Core.Act.{context_error, publicly}
use cubesql_go_driver.Core.Options.{native}
use cubesql_go_driver.Core.Types.{background, caller}
use cubesql_go_driver.Core.Conn
use cubesql_go_driver.Core.Tx
use cubesql_go_driver.Core.Session
use cubesql_go_driver.Adapter.Types.{bad_conn, named_parameters, core, Session, transaction_at}
use cubesql_go_driver.Adapter.Conn.{
  is_valid, prepare_context, begin_tx, ping, exec_context, query_context, reset_session,
  exec_values, close,
}
use cubesql_go_driver.Adapter.Values.{NamedValue, value, Converted, named_values}
use cubesql_go_driver.Adapter.Conn.Unusable.{refusal, invalid-BadConn}
use cubesql_go_driver.Adapter.Conn.Reset.{IsIdle, Settled, reset_session-Settled}
use cubesql_go_driver.Adapter.Conn.Autocommit.{just_committed, exec_values-Commits}
use cubesql_go_driver.Adapter.Conn.Leak.{close_after_failed_rollback}
use cubesql_go_driver.Adapter.Tx.{commit, rollback, is_over}
use cubesql_go_driver.Adapter.Tx.Once.{Ended, commit-Once, rollback-Once, end-Settled}
use cubesql_go_driver.Examples.{accepting, losing, unused, begun, sql}

-- A connection of the pool that is idle, and one in a transaction.
abbrev pub idle_session : Session
idle_session = record {
  world = unused;
  native = Ref.self;
  database = ascii "db";
  active_tx = none;
  closed = false;
  broken = false;
  transactions = [];
}

abbrev session_in_tx : Session
session_in_tx = record idle_session {
  world = begun;
  active_tx = some 0;
  transactions = record { connection = Ref.self; native = some 0; done = false } ∷ [];
}

abbrev broken_session : Session
broken_session = record idle_session { broken = true }

broken_invalid : is_valid Ref.self broken_session ≡ false
unfolding is_valid
broken_invalid = refl

-- A converter that takes numbers, and an argument with a name.
abbrev numbers : ℕ → Option Converted
numbers n = some (Converted.int64 (pos n))

abbrev named : List (NamedValue ℕ)
named = record { name = ascii "id"; value = value 4 } ∷ []

named_refused : named_values numbers named ≡ err named_parameters
unfolding named_values
named_refused = refl

invalid-BadConn_example :
    (prepare_context losing background sql broken_session ≡ (err bad_conn, broken_session))
    × (begin_tx losing background (record { isolation = 0; read_only = false }) broken_session
        ≡ (err bad_conn, broken_session))
    × (ping losing background broken_session ≡ (err bad_conn, broken_session))
    × (reset_session losing background broken_session ≡ (err bad_conn, broken_session))
    × (exec_context losing numbers background sql named broken_session
        ≡ (refusal (named_values numbers named), broken_session))
    × (query_context losing numbers background sql named broken_session
        ≡ (refusal (named_values numbers named), broken_session))
invalid-BadConn_example =
    invalid-BadConn losing numbers background sql named broken_session broken_invalid

reset_session-Settled_example :
    Settled IsIdle
      (reset_session accepting caller idle_session).0
      (reset_session accepting caller idle_session).1
reset_session-Settled_example = reset_session-Settled accepting caller idle_session

executed :
    (exec_values accepting background sql [] idle_session).0
    ≡ ok (record {
      rows_affected = pos 0;
      rows_error = none;
      last_insert_id = pos 0;
      last_error = none;
    })
unfolding exec_values ◌>>=◌ Conn.exec_context context_error Session.session Conn.open_context native
    publicly Csdk.Conn.open_conn Csdk.Conn.exec attempt Tx.finish_implicit Csdk.Conn.commit
    Csdk.Conn.last_insert_id Csdk.Conn.affected_rows
executed = refl

exec_values-Commits_example :
    just_committed (exec_values accepting background sql [] idle_session).1.world.native.history
    ≡ true
exec_values-Commits_example =
    exec_values-Commits accepting background sql [] idle_session _ refl executed

commit-Once_example :
    (commit losing 0 (commit losing 0 session_in_tx).1
      ≡ (err (core (plain Sentinel.tx_done)), (commit losing 0 session_in_tx).1))
    × (rollback losing 0 (commit losing 0 session_in_tx).1
        ≡ (err (core (plain Sentinel.tx_done)), (commit losing 0 session_in_tx).1))
commit-Once_example = commit-Once losing 0 session_in_tx

rollback-Once_example :
    (commit losing 0 (rollback losing 0 session_in_tx).1
      ≡ (err (core (plain Sentinel.tx_done)), (rollback losing 0 session_in_tx).1))
    × (rollback losing 0 (rollback losing 0 session_in_tx).1
        ≡ (err (core (plain Sentinel.tx_done)), (rollback losing 0 session_in_tx).1))
rollback-Once_example = rollback-Once losing 0 session_in_tx

in_tx_live : is_over (transaction_at session_in_tx 0) ≡ false
unfolding is_over
in_tx_live = refl

end-Settled_example :
    Ended (commit losing 0 session_in_tx).0 (commit losing 0 session_in_tx).1
    × Ended (rollback losing 0 session_in_tx).0 (rollback losing 0 session_in_tx).1
end-Settled_example = end-Settled losing 0 session_in_tx in_tx_live refl

begun_open : begun.conn.native ≡ Ref.self
unfolding Session.session Session.perform Tx.begin_context ◌>>=◌ context_error Conn.open_context
    native publicly Csdk.Conn.open_conn Csdk.Conn.begin
begun_open = refl

begun_active : begun.conn.tx_active ≡ true
unfolding Session.session Session.perform Tx.begin_context ◌>>=◌ context_error Conn.open_context
    native publicly Csdk.Conn.open_conn Csdk.Conn.begin
begun_active = refl

rollback_failed :
    (Tx.finish losing background (some 0) false begun).0
    ≡ err (Errors.sdk (pos 810) [] ErrorKind.timeout)
unfolding Session.session Session.perform Tx.begin_context ◌>>=◌ context_error Conn.open_context
    native publicly Csdk.Conn.open_conn Csdk.Conn.begin Tx.finish Tx.running Tx.finishable
    Tx.end_native Csdk.Conn.rollback classify_error
rollback_failed = refl

leak_example :
    ((close losing Ref.self session_in_tx).1.world.conn.native ≡ Ref.self)
    × (close losing Ref.self (close losing Ref.self session_in_tx).1
        ≡ (err (core (joined_one (plain Sentinel.busy))), (close losing Ref.self session_in_tx).1))
leak_example =
    close_after_failed_rollback losing session_in_tx 0 _ refl refl refl begun_open begun_active
      rollback_failed

-- A text of a given size, which nothing here has to write out.
record Sized (n : ℕ) : Type 0 where
  text : Bytes
  size : length text ≡ n

sized : (n : ℕ) → Sized n
sized n = record { text = replicate n 65; size = length-replicate n 65 }

bind_text-of_long_example :
    Csdk.Stmt.bind_text accepting (some 0) (pos 1) (sized (3 + 2 ^ 32)).text fresh
    ≡ Csdk.Stmt.call accepting
        (some 0)
        (λ h. Call.stmt_bind_text h (c_int (pos 1)) (sized (3 + 2 ^ 32)).text (pos 3))
        fresh
bind_text-of_long_example =
    bind_text-of_long accepting (some 0) 0 (sized (3 + 2 ^ 32)).text 3 fresh
      (sized (3 + 2 ^ 32)).size three_small
  where
    three_small : 3 < 2 ^ 31
    three_small = omega arith

exec-at_nul_example :
    Csdk.Conn.exec accepting Ref.self (ascii "delete from t" ++ 0 ∷ ascii " where id = 1") fresh
    ≡ Csdk.Conn.exec accepting Ref.self (ascii "delete from t") fresh
exec-at_nul_example =
    exec-at_nul accepting Ref.self b'd' (ascii "elete from t") (ascii " where id = 1") fresh
