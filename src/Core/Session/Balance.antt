-- ===== src/Core/Session/Balance.antt =====
-- The counts of a connection are right after any sequence of operations.
use cubesql_go_driver.Prelude.{
  ℕ, ℤ, pos, inc, false, Bytes, List, [], ◌∷◌, Option, none, some, arith, length, count-nil,
}
use cubesql_go_driver.Prelude.Action.{Outcome, ok, err, ◌>>=◌, ◌>>◌}
use cubesql_go_driver.Csdk.Types.{Pointer, Sdk}
use cubesql_go_driver.Core.Errors.{Error}
use cubesql_go_driver.Core.Types.{World, Context, Cancel, start}
use cubesql_go_driver.Core.Act.{Act, publicly, context_error}
use cubesql_go_driver.Core.Options.{Options}
use cubesql_go_driver.Core.Conn
use cubesql_go_driver.Core.Scan
use cubesql_go_driver.Core.Scan.{Destination, Written, scan_value}
use cubesql_go_driver.Core.Frame.{
  Frame, Frame-refl, Frame-trans, Quiet, guard_rules, quiet_rules, Quiet-bind, Quiet-context_error,
  Quiet-exec_context,
}
use cubesql_go_driver.Core.Counts.{Balanced, Balanced-Frame, running, registered, orphan}
use cubesql_go_driver.Core.Draft.{attached}
use cubesql_go_driver.Core.Counts.Stmts.{
  Keeps-close, Quiet-bind_value, Quiet-exec_stmt, Keeps-reset_context,
}
use cubesql_go_driver.Core.Counts.Cursors.{
  Keeps-close_rows, Keeps-next, Keeps-seek, Quiet-open_rows,
}
use cubesql_go_driver.Core.Counts.Births.{Keeps-prepare_context}
use cubesql_go_driver.Core.Counts.Queries.{Keeps-query_context, Keeps-stmt_query}
use cubesql_go_driver.Core.Counts.Transactions.{
  Quiet-ping, Quiet-set_database, Quiet-metric, Keeps-close_conn, Quiet-finish_implicit,
  Keeps-begin, Keeps-finish, Quiet-tx_exec, Keeps-tx_query, Keeps-tx_prepare,
}
use cubesql_go_driver.Core.Session.{
  Op, perform, run, session, conn_close, affected_rows, last_insert_id, changes, ping, begin,
  set_database, prepare, exec, query, finish_implicit, stmt_close, stmt_bind, stmt_exec, stmt_query,
  stmt_reset, rows_close, rows_next, rows_seek, rows_value, rows_scan, tx_finish, tx_prepare,
  tx_exec, tx_query,
}

module _ (sdk : Sdk) (parse_float : Bytes → Option ℕ) where
  Quiet-value_locked :
      (ctx : Context) (i : ℕ) (column : ℤ) → Quiet (Scan.value_locked sdk ctx i column)
  unfolding Scan.value_locked
  Quiet-value_locked ctx i column = search (guard_rules, Quiet-open_rows sdk) depth 14

  pub Quiet-value :
      (ctx : Context) (rows : Pointer) (column : ℤ) → Quiet (Scan.value_context sdk ctx rows column)
  unfolding Scan.value_context
  Quiet-value ctx none column = search guard_rules depth 9
  Quiet-value ctx (some i) column = search (guard_rules, Quiet-value_locked) depth 9

  Quiet-scan_column :
      (ctx : Context) (i : ℕ) (column : ℤ) (d : Destination)
      → Quiet (Scan.scan_column sdk parse_float ctx i column d)
  unfolding Scan.scan_column
  Quiet-scan_column ctx i column d = search (guard_rules, Quiet-value_locked) depth 9

  Frame-scan_all :
      (ctx : Context) (i : ℕ) (column : ℤ) (ds : List Destination) (w : World)
      → Frame w (Scan.scan_all sdk parse_float ctx i column ds w).1
  unfolding Scan.scan_all
  Frame-scan_all ctx i column [] w = Frame-refl w
  Frame-scan_all ctx i column (d ∷ ds) w =
      let (r, v) = Scan.scan_column sdk parse_float ctx i column d w in
      let f : Frame w v = (Quiet-scan_column ctx i column d).at w in
      elim r
        as (λ r.
          Frame w
            (elim r as (λ _. Scan.Progress × World) [
              | ok x ↦ (
                Scan.also x (Scan.scan_all sdk parse_float ctx i (inc column) ds v).0,
                (Scan.scan_all sdk parse_float ctx i (inc column) ds v).1,
              )
              | err e ↦ (record { written = []; error = some e }, v)
            ]).1) [ ok x ↦ Frame-trans f (Frame-scan_all ctx i (inc column) ds v) | err e ↦ f ]

  after_guards :
      (ctx : Context) (i : ℕ) (ds : List Destination) (r : Outcome Error (Unit {0})) {w : World}
      (v : World)
      → Frame w v
      → Frame w
          (elim r as (λ _. Scan.Progress × World) [
            | ok _ ↦ Scan.scan_all sdk parse_float ctx i (pos 1) ds v
            | err e ↦ (record { written = []; error = some e }, v)
          ]).1
  after_guards ctx i ds (ok _) v f = Frame-trans f (Frame-scan_all ctx i (pos 1) ds v)
  after_guards ctx i ds (err e) v f = f

  Quiet-fail_if_nil : (rows : Pointer) → Quiet (Scan.fail_if_nil rows)
  Quiet-fail_if_nil none = search quiet_rules
  Quiet-fail_if_nil (some i) = search quiet_rules

  Quiet-scannable : (i n : ℕ) → Quiet (Scan.scannable sdk parse_float i n)
  unfolding Scan.scannable
  Quiet-scannable i n = search (guard_rules, Quiet-open_rows sdk) depth 9

  Quiet-guards :
      (ctx : Context) (rows : Pointer) (ds : List Destination)
      → Quiet (do
        context_error ctx
        Scan.fail_if_nil rows
        Scan.scannable sdk parse_float (Scan.address rows) (length ds))
  Quiet-guards ctx rows ds = Quiet-bind _ _ (Quiet-context_error ctx) λ _.
      Quiet-bind _ _ (Quiet-fail_if_nil rows) λ _. Quiet-scannable (Scan.address rows) (length ds)

  Frame-scan :
      (ctx : Context) (rows : Pointer) (ds : List Destination) (w : World)
      → Frame w (Scan.scan_context sdk parse_float ctx rows ds w).1
  unfolding Scan.scan_context
  Frame-scan ctx rows ds w =
      let guards : Act (Unit {0}) = (do
        context_error ctx
        Scan.fail_if_nil rows
        Scan.scannable sdk parse_float (Scan.address rows) (length ds)) in
      after_guards ctx (Scan.address rows) ds (guards w).0 (guards w).1
        ((Quiet-guards ctx rows ds).at w)

  -- Every operation keeps the counts right, whatever it returns.
  perform-Balanced : (op : Op) (w : World) → Balanced w → Balanced (perform sdk parse_float op w)
  unfolding perform Conn.affected_rows Conn.last_insert_id Conn.changes
  perform-Balanced (conn_close c) w b = (Keeps-close_conn sdk c).at w b
  perform-Balanced (affected_rows c) w b = Balanced-Frame ((Quiet-metric sdk c _).at w) b
  perform-Balanced (last_insert_id c) w b = Balanced-Frame ((Quiet-metric sdk c _).at w) b
  perform-Balanced (changes c) w b = Balanced-Frame ((Quiet-metric sdk c _).at w) b
  perform-Balanced (ping ctx c) w b = Balanced-Frame ((Quiet-ping sdk ctx c).at w) b
  perform-Balanced (begin ctx c) w b = (Keeps-begin sdk ctx c).at w b
  perform-Balanced (set_database ctx c name) w b =
      Balanced-Frame ((Quiet-set_database sdk ctx c name).at w) b
  perform-Balanced (prepare ctx c sql) w b = (Keeps-prepare_context sdk ctx c sql).at w b
  perform-Balanced (exec ctx c sql args) w b =
      Balanced-Frame ((Quiet-exec_context sdk ctx c sql args).at w) b
  perform-Balanced (query ctx c sql args) w b = (Keeps-query_context sdk ctx c sql args).at w b
  perform-Balanced (finish_implicit ctx c commit) w b =
      Balanced-Frame ((Quiet-finish_implicit sdk ctx c commit).at w) b
  perform-Balanced (stmt_close p) w b = (Keeps-close sdk p).at w b
  perform-Balanced (stmt_bind p i v) w b = Balanced-Frame ((Quiet-bind_value sdk p i v).at w) b
  perform-Balanced (stmt_exec ctx p) w b = Balanced-Frame ((Quiet-exec_stmt sdk ctx p).at w) b
  perform-Balanced (stmt_query ctx p) w b = (Keeps-stmt_query sdk ctx p false).at w b
  perform-Balanced (stmt_reset ctx p) w b = (Keeps-reset_context sdk ctx p).at w b
  perform-Balanced (rows_close p) w b = (Keeps-close_rows sdk p).at w b
  perform-Balanced (rows_next ctx p) w b = (Keeps-next sdk ctx p).at w b
  perform-Balanced (rows_seek ctx p row) w b = (Keeps-seek sdk ctx p row).at w b
  perform-Balanced (rows_value ctx p column) w b =
      Balanced-Frame ((Quiet-value ctx p column).at w) b
  perform-Balanced (rows_scan ctx p ds) w b = Balanced-Frame (Frame-scan ctx p ds w) b
  perform-Balanced (tx_finish ctx p commit) w b = (Keeps-finish sdk ctx p commit).at w b
  perform-Balanced (tx_prepare ctx p sql) w b = (Keeps-tx_prepare sdk ctx p sql).at w b
  perform-Balanced (tx_exec ctx p sql args) w b =
      Balanced-Frame ((Quiet-tx_exec sdk ctx p sql args).at w) b
  perform-Balanced (tx_query ctx p sql args) w b = (Keeps-tx_query sdk ctx p sql args).at w b

  pub run-Balanced : (ops : List Op) (w : World) → Balanced w → Balanced (run sdk parse_float ops w)
  unfolding run
  run-Balanced [] w b = b
  run-Balanced (op ∷ ops) w b =
      run-Balanced ops (perform sdk parse_float op w) (perform-Balanced op w b)

  open-Balanced :
      (ctx : Context) (options : Options) (cancel : Cancel)
      → Balanced (Conn.open_context sdk ctx options (start cancel)).1
  unfolding Conn.open_context ◌>>=◌ publicly context_error
  open-Balanced ctx options cancel =
      ground (arith, count-nil registered, count-nil attached, count-nil orphan, count-nil running)

  -- From the opening on, after any operations, failed ones included: `children` is the number of
  -- registered statements and attached cursors, a closed connection owns none, and `txActive` is
  -- set exactly while one transaction runs, which is never more than one.
  pub session-Balanced :
      (cancel : Cancel) (ctx : Context) (options : Options) (ops : List Op)
      → Balanced (session sdk parse_float cancel ctx options ops)
  unfolding session
  session-Balanced cancel ctx options ops = run-Balanced ops _ (open-Balanced ctx options cancel)
