-- ===== src/Core/Counts/Transactions.antt =====
-- The methods of `Tx`, and those of `Conn` that make no children, keep the counts right.
use cubesql_go_driver.Prelude.{
  ℕ, ℤ, Bool, true, false, none, some, List, ◌≡◌, arith, count-push, count-set_drop, Bytes,
}
use cubesql_go_driver.Prelude.Action.{modify, ◌>>=◌}
use cubesql_go_driver.Csdk.Types.{Ref, Pointer, Sdk, Do}
use cubesql_go_driver.Core.Errors.{Error}
use cubesql_go_driver.Core.Types.{World, Context, zero_tx, tx_at}
use cubesql_go_driver.Core.Act.{Act, publicly, context_error}
use cubesql_go_driver.Core.Bind.{Any}
use cubesql_go_driver.Core.Conn
use cubesql_go_driver.Core.Tx
use cubesql_go_driver.Core.Frame.{
  Frame, Frame-refl, Quiet, quiet_rules, guard_rules, Quiet-context_error, Quiet-exec_context,
}
use cubesql_go_driver.Core.Counts.{
  running, Balanced, Balanced-Frame, Keeps, Keeps-bind, Keeps-Quiet, keeps_rules,
}
use cubesql_go_driver.Core.Counts.Births.{step, Keeps-prepare_context}
use cubesql_go_driver.Core.Counts.Queries.{Keeps-query_context}

pub Quiet-running : (tx : Pointer) → Quiet (Tx.running tx)
unfolding Tx.running
Quiet-running none = record { at = λ w. Frame-refl w }
Quiet-running (some t) = record { at = λ w. ground arith }

Quiet-no_tx : Quiet Tx.no_tx
unfolding Tx.no_tx
Quiet-no_tx = record { at = λ w. ground arith }

pub Quiet-finishable : Quiet Tx.finishable
unfolding Tx.finishable Conn.no_children
Quiet-finishable = record { at = λ w. ground arith }

past_running :
    {B : Type 0} (t : ℕ) (f : Act B) (w : World)
    → Balanced w
    → (running (tx_at w t) ≡ true → Balanced (f w).1)
    → Balanced ((Tx.running (some t) >>= λ _. f) w).1
unfolding ◌>>=◌ Tx.running
past_running t f w b k = ground arith

module _ (sdk : Sdk) where
  pub Quiet-ping : (ctx : Context) (conn : Ref) → Quiet (Conn.ping_context sdk ctx conn)
  unfolding Conn.ping_context
  Quiet-ping ctx conn = search guard_rules depth 9

  pub Quiet-set_database :
      (ctx : Context) (conn : Ref) (name : Bytes)
      → Quiet (Conn.set_database_context sdk ctx conn name)
  unfolding Conn.set_database_context
  Quiet-set_database ctx conn name = search guard_rules depth 9

  pub Quiet-metric : (conn : Ref) (read : Ref → Do ℤ) → Quiet (Conn.metric sdk conn read)
  unfolding Conn.metric
  Quiet-metric conn read = search guard_rules depth 9

  pub Keeps-close_conn : (conn : Ref) → Keeps (Conn.close sdk conn)
  unfolding Conn.close publicly ◌>>=◌ Conn.idle
  Keeps-close_conn conn = record { at = λ w b. ground arith }

  pub Quiet-end_native : (commit : Bool) → Quiet (Tx.end_native sdk commit)
  unfolding Tx.end_native
  Quiet-end_native commit = search quiet_rules depth 9

  pub Quiet-finish_implicit :
      (ctx : Context) (conn : Ref) (commit : Bool) → Quiet (Tx.finish_implicit sdk ctx conn commit)
  unfolding Tx.finish_implicit
  Quiet-finish_implicit ctx conn commit =
      search (guard_rules, Quiet-no_tx, Quiet-end_native) depth 12

  -- A transaction begins only where none runs.
  pub Keeps-begin : (ctx : Context) (conn : Ref) → Keeps (Tx.begin_context sdk ctx conn)
  unfolding Tx.begin_context publicly ◌>>=◌ Conn.idle Conn.connected context_error
  Keeps-begin ctx conn = record {
    at = λ w b. ground (arith, count-push running w.txs (record { conn = conn; done = false }));
  }

  end_tx-Balanced :
      (t : ℕ) (w : World)
      → running (tx_at w t) ≡ true
      → Balanced w
      → Balanced (Tx.end_tx t (Tx.set_tx_active false w))
  end_tx-Balanced t w h b =
      ground
        (arith, count-set_drop running zero_tx w.txs t (record { conn = Ref.nil; done = true }))

  ended :
      (t : ℕ) (w : World)
      → running (tx_at w t) ≡ true
      → Balanced w
      → Balanced ((modify {E = Error} (Tx.set_tx_active false) >>= λ _. modify (Tx.end_tx t)) w).1
  unfolding ◌>>=◌
  ended t w h b = end_tx-Balanced t w h b

  same_tx :
      {w v : World} (t : ℕ) → Frame w v → running (tx_at w t) ≡ true → running (tx_at v t) ≡ true
  same_tx t f h = rw f.txs h

  -- The one that runs ends only by its own commit or rollback.
  pub Keeps-finish :
      (ctx : Context) (tx : Pointer) (commit : Bool) → Keeps (Tx.finish sdk ctx tx commit)
  unfolding Tx.finish
  Keeps-finish ctx none commit = Keeps-Quiet _ (search quiet_rules)
  Keeps-finish ctx (some t) commit = Keeps-bind _ _ (Keeps-Quiet _ (Quiet-context_error ctx)) λ _.
      record {
        at = λ w b. past_running t _ w b λ h. step _ _ w Quiet-finishable (Frame-refl w) b λ _ x fx.
            step _ _ x (Quiet-context_error ctx) fx b λ _ y fy.
              step _ _ y (Quiet-end_native commit) fy b
                λ _ v fv. ended t v (same_tx t fv h) (Balanced-Frame fv b);
      }

  pub Quiet-tx_exec :
      (ctx : Context) (tx : Pointer) (query : Bytes) (args : List Any)
      → Quiet (Tx.tx_exec_context sdk ctx tx query args)
  unfolding Tx.tx_exec_context
  Quiet-tx_exec ctx tx query args =
      search (quiet_rules, Quiet-running, Quiet-exec_context sdk ctx) depth 9

  pub Keeps-tx_query :
      (ctx : Context) (tx : Pointer) (query : Bytes) (args : List Any)
      → Keeps (Tx.tx_query_context sdk ctx tx query args)
  unfolding Tx.tx_query_context
  Keeps-tx_query ctx tx query args =
      search (keeps_rules, Quiet-running, Keeps-query_context sdk ctx) depth 9

  pub Keeps-tx_prepare :
      (ctx : Context) (tx : Pointer) (query : Bytes)
      → Keeps (Tx.tx_prepare_context sdk ctx tx query)
  unfolding Tx.tx_prepare_context
  Keeps-tx_prepare ctx tx query =
      search (keeps_rules, Quiet-running, Keeps-prepare_context sdk ctx) depth 9
