-- ===== src/Core/Session/Preflight.antt =====
-- A context that is done when a method is called: nothing happens.
use cubesql_go_driver.Prelude.{ℕ, Bytes, List, Option, none, some, ◌≡◌, refl, arith}
use cubesql_go_driver.Prelude.Action.{err, ◌>>=◌}
use cubesql_go_driver.Csdk.Types.{Pointer, Sdk}
use cubesql_go_driver.Core.Errors.{Sentinel, plain}
use cubesql_go_driver.Core.Types.{World, Context, caller, after}
use cubesql_go_driver.Core.Act.{Act, context_error}
use cubesql_go_driver.Core.Conn
use cubesql_go_driver.Core.Stmt
use cubesql_go_driver.Core.Rows
use cubesql_go_driver.Core.Query
use cubesql_go_driver.Core.Tx
use cubesql_go_driver.Core.Scan
use cubesql_go_driver.Core.Scan.{Destination}
use cubesql_go_driver.Core.Session.{
  Op, context_of, perform, conn_close, affected_rows, last_insert_id, changes, ping, begin,
  set_database, prepare, exec, query, finish_implicit, stmt_close, stmt_bind, stmt_exec, stmt_query,
  stmt_reset, rows_close, rows_next, rows_seek, rows_value, rows_scan, tx_finish, tx_prepare,
  tx_exec, tx_query,
}

module _ (sdk : Sdk) (parse_float : Bytes → Option ℕ) (reason : Sentinel) (w : World) where
  at_once :
      (ctx : Context)
      → some ctx ≡ some caller
      → w.cancel ≡ after 0 reason
      → context_error ctx w ≡ (err (plain reason), w)
  unfolding context_error
  at_once ctx is_caller done = ground arith

  stopped :
      {B : Type 0} (ctx : Context) (f : Unit {0} → Act B)
      → some ctx ≡ some caller
      → w.cancel ≡ after 0 reason
      → (context_error ctx >>= f) w ≡ (err (plain reason), w)
  unfolding context_error ◌>>=◌
  stopped ctx f is_caller done = ground arith

  stop :
      {B : Type 0} (ctx : Context) (f : Unit {0} → Act B)
      → some ctx ≡ some caller
      → w.cancel ≡ after 0 reason
      → ((context_error ctx >>= f) w).1.native ≡ w.native
  stop ctx f is_caller done = rw (stopped ctx f is_caller done)

  scan_stop :
      (ctx : Context) (rows : Pointer) (ds : List Destination)
      → some ctx ≡ some caller
      → w.cancel ≡ after 0 reason
      → (Scan.scan_context sdk parse_float ctx rows ds w).1.native ≡ w.native
  unfolding Scan.scan_context ◌>>=◌
  scan_stop ctx none ds h done = ground (arith, at_once ctx h done)
  scan_stop ctx (some i) ds h done = ground (arith, at_once ctx h done)

  next_stop :
      (ctx : Context) (i : ℕ)
      → some ctx ≡ some caller
      → w.cancel ≡ after 0 reason
      → (Rows.next_context sdk ctx (some i) w).1.native ≡ w.native
  unfolding Rows.next_context
  next_stop ctx i h done = ground (arith, at_once ctx h done)

  -- An operation whose context is done makes no call into C and leaves every native object as it was.
  pub perform_done :
      (op : Op)
      → context_of op ≡ some caller
      → w.cancel ≡ after 0 reason
      → (perform sdk parse_float op w).native ≡ w.native
  unfolding perform Conn.ping_context Conn.set_database_context Conn.prepare_context
      Conn.exec_context Query.query_context Tx.begin_context Tx.finish_implicit Tx.finish
      Tx.tx_prepare_context Tx.tx_exec_context Tx.tx_query_context Stmt.exec_context
      Stmt.reset_context Query.stmt_query Rows.next_context Rows.seek_context Scan.value_context
      Scan.scan_context
  perform_done (conn_close c) h done = cc
  perform_done (affected_rows c) h done = cc
  perform_done (last_insert_id c) h done = cc
  perform_done (changes c) h done = cc
  perform_done (stmt_close p) h done = cc
  perform_done (stmt_bind p i v) h done = cc
  perform_done (rows_close p) h done = cc
  perform_done (ping ctx c) h done = stop ctx _ h done
  perform_done (begin ctx c) h done = stop ctx _ h done
  perform_done (set_database ctx c name) h done = stop ctx _ h done
  perform_done (prepare ctx c sql) h done = stop ctx _ h done
  perform_done (exec ctx c sql args) h done = stop ctx _ h done
  perform_done (query ctx c sql args) h done = stop ctx _ h done
  perform_done (finish_implicit ctx c commit) h done = stop ctx _ h done
  perform_done (stmt_exec ctx p) h done = stop ctx _ h done
  perform_done (stmt_query ctx p) h done = stop ctx _ h done
  perform_done (stmt_reset ctx p) h done = stop ctx _ h done
  perform_done (rows_next ctx none) h done = refl
  perform_done (rows_next ctx (some i)) h done = next_stop ctx i h done
  perform_done (rows_seek ctx p row) h done = stop ctx _ h done
  perform_done (rows_value ctx none column) h done = stop ctx _ h done
  perform_done (rows_value ctx (some i) column) h done = stop ctx _ h done
  perform_done (rows_scan ctx p ds) h done = scan_stop ctx p ds h done
  perform_done (tx_finish ctx none commit) h done = stop ctx _ h done
  perform_done (tx_finish ctx (some t) commit) h done = stop ctx _ h done
  perform_done (tx_prepare ctx p sql) h done = stop ctx _ h done
  perform_done (tx_exec ctx p sql args) h done = stop ctx _ h done
  perform_done (tx_query ctx p sql args) h done = stop ctx _ h done
