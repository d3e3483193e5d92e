-- ===== src/Adapter/Tx.antt =====
-- `transaction` of database/cubesql/tx.go.
pub mod Once
use cubesql_go_driver.Prelude.{
  ℕ, Bool, true, false, ◌||◌, Option, none, some, is_none, set, if◌then◌else◌,
}
use cubesql_go_driver.Prelude.Action.{Outcome, ok, err}
use cubesql_go_driver.Csdk.Types.{Ref, is_nil, Pointer, Sdk}
use cubesql_go_driver.Core.Errors
use cubesql_go_driver.Core.Errors.{Sentinel, plain, join}
use cubesql_go_driver.Core.Types.{background}
use cubesql_go_driver.Core.Act.{error_of}
use cubesql_go_driver.Core.Tx
use cubesql_go_driver.Adapter.Types.{Error, core, Session, Transaction, Sql, transaction_at}
use cubesql_go_driver.Adapter.Conn.{core_call, finish_transaction, as_error}

-- `transaction.done = true`
abbrev mark_done : ℕ → Session → Session
mark_done t s = record s {
  transactions = set s.transactions t (record (transaction_at s t) { done = true });
}

-- `transaction.done || transaction.connection == nil || transaction.native == nil`
unfoldable pub is_over : Transaction → Bool
is_over t = t.done || is_nil t.connection || is_none t.native

module _ (sdk : Sdk) where
  abbrev settle_commit :
      ℕ → Pointer → Outcome Errors.Error (Unit {0}) → Session → Outcome Error (Unit {0}) × Session
  settle_commit t native (ok _) s = (ok tt, mark_done t (finish_transaction native false true s))
  settle_commit t native (err e) s =
      let (r, u) = core_call (Tx.finish sdk background native false) s in
      (
        as_error (join (some e) (error_of r)),
        mark_done t (finish_transaction native true (is_none (error_of r)) u),
      )

  unfoldable pub commit : ℕ → Sql (Unit {0})
  unfolding is_over core_call finish_transaction join
  commit t s =
      if is_over (transaction_at s t)
      then (err (core (plain Sentinel.tx_done)), s)
      else let native = (transaction_at s t).native in
        let (r, u) = core_call (Tx.finish sdk background native true) s in
        settle_commit t native r u

  abbrev settle_rollback :
      ℕ → Pointer → Outcome Errors.Error (Unit {0}) → Session → Outcome Error (Unit {0}) × Session
  settle_rollback t native (ok _) s = (ok tt, mark_done t (finish_transaction native false true s))
  settle_rollback t native (err e) s =
      (err (core e), mark_done t (finish_transaction native true false s))

  unfoldable pub rollback : ℕ → Sql (Unit {0})
  unfolding is_over core_call finish_transaction
  rollback t s =
      if is_over (transaction_at s t)
      then (err (core (plain Sentinel.tx_done)), s)
      else let native = (transaction_at s t).native in
        let (r, u) = core_call (Tx.finish sdk background native false) s in
        settle_rollback t native r u
