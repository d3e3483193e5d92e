-- ===== src/Core/Tx.antt =====
-- cubesql/tx.go
pub mod Failure
use cubesql_go_driver.Prelude.{
  ℕ, ℤ, pos, Bool, true, false, not, ◌||◌, Option, none, some, Bytes, List, [], ◌∷◌, ◌++◌,
  if◌then◌else◌, nonzero, set, length,
}
use cubesql_go_driver.Prelude.Action.{Outcome, ok, err, pure, return_if, gets, modify, ◌>>=◌, ◌>>◌}
use cubesql_go_driver.Csdk.Types.{Ref, is_nil, Sdk, Pointer}
use cubesql_go_driver.Csdk
use cubesql_go_driver.Core.Errors.{Sentinel, Error, plain}
use cubesql_go_driver.Core.Types.{World, Context, Result, Tx, tx_at}
use cubesql_go_driver.Core.Act.{Act, fail, context_error, publicly}
use cubesql_go_driver.Core.Bind.{Any}
use cubesql_go_driver.Core.Conn.{connected, no_children, idle, exec_context, prepare_context}
use cubesql_go_driver.Core.Query.{query_context}

abbrev pub set_tx_active : Bool → World → World
set_tx_active b w = record w { conn = record w.conn { tx_active = b } }

-- `if conn.txActive { return ErrBusy }`
unfoldable pub no_tx : Act (Unit {0})
no_tx w = if w.conn.tx_active then (err (plain Sentinel.busy), w) else (ok tt, w)

-- The first guards of a method of `Tx`; the result is its connection.
unfoldable pub running : Pointer → Act Ref
running none w = (err (plain Sentinel.tx_done), w)
running (some t) w =
    if (tx_at w t).done || is_nil (tx_at w t).conn
    then (err (plain Sentinel.tx_done), w)
    else (ok (tx_at w t).conn, w)

-- The guards of `finish` on the connection.
unfoldable pub finishable : Act (Unit {0})
unfolding no_children
finishable w =
    if is_nil w.conn.native
    then (err (plain Sentinel.closed), w)
    else if not w.conn.tx_active
    then (err (plain Sentinel.tx_done), w)
    else no_children w

-- `tx.done = true` and `tx.conn = nil`
abbrev pub end_tx : ℕ → World → World
end_tx t w = record w { txs = set w.txs t (record { conn = Ref.nil; done = true }) }

module _ (sdk : Sdk) where
  unfoldable pub begin_context : Context → Ref → Act ℕ
  unfolding connected idle
  begin_context ctx conn = do
    context_error ctx
    connected conn
    idle
    context_error ctx
    native ← gets (λ w. w.conn.native)
    publicly (Csdk.Conn.begin sdk native)
    modify (set_tx_active true)
    (λ w.
        let made : Tx = record { conn = conn; done = false } in
        (ok (length w.txs), record w { txs = w.txs ++ made ∷ [] }))

  -- `conn.native.Commit()` or `conn.native.Rollback()`
  unfoldable pub end_native : Bool → Act (Unit {0})
  end_native commit = do
    native ← gets (λ w. w.conn.native)
    if commit
        then publicly (Csdk.Conn.commit sdk native)
        else publicly (Csdk.Conn.rollback sdk native)

  unfoldable pub finish_implicit : Context → Ref → Bool → Act (Unit {0})
  unfolding connected no_tx no_children end_native
  finish_implicit ctx conn commit = do
    context_error ctx
    connected conn
    no_tx
    no_children
    context_error ctx
    end_native commit

  unfoldable pub finish : Context → Pointer → Bool → Act (Unit {0})
  finish ctx none commit = do context_error ctx; fail Sentinel.tx_done
  finish ctx (some t) commit = do
    context_error ctx
    running (some t)
    finishable
    context_error ctx
    end_native commit
    modify (set_tx_active false)
    modify (end_tx t)

  unfoldable pub tx_exec_context : Context → Pointer → Bytes → List Any → Act Result
  unfolding running
  tx_exec_context ctx tx query args = do
    context_error ctx
    conn ← running tx
    exec_context sdk ctx conn query args

  unfoldable pub tx_query_context : Context → Pointer → Bytes → List Any → Act ℕ
  unfolding running
  tx_query_context ctx tx query args = do
    context_error ctx
    conn ← running tx
    query_context sdk ctx conn query args

  unfoldable pub tx_prepare_context : Context → Pointer → Bytes → Act ℕ
  unfolding running
  tx_prepare_context ctx tx query = do
    context_error ctx
    conn ← running tx
    prepare_context sdk ctx conn query
