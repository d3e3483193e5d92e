-- ===== src/Core/Carried/Sessions.antt =====
-- What csdk.go keeps, any sequence of operations of the package cubesql keeps.
use cubesql_go_driver.Prelude.{
  ℕ, false, ℤ, pos, inc, Bytes, Option, none, some, List, [], ◌∷◌, length, arith, ◌≡◌,
}
use cubesql_go_driver.Prelude.Action.{Outcome, ok, err, modify, lift, pure, ◌>>=◌, ◌>>◌, continue}
use cubesql_go_driver.Csdk.Types.{Ref, Pointer, Native, Sdk, fresh}
use cubesql_go_driver.Csdk.Types.{Options as NativeOptions}
use cubesql_go_driver.Csdk
use cubesql_go_driver.Csdk.Session
use cubesql_go_driver.Csdk.Session.{Method}
use cubesql_go_driver.Csdk.Ledger.{Ledger}
use cubesql_go_driver.Csdk.Ledger.Sessions.{fresh-Ledger, open-Ledger, perform-Ledger}
use cubesql_go_driver.Csdk.Handles.{Kind, Safe}
use cubesql_go_driver.Csdk.Handles.Lifetimes.{fresh-Safe, open-Safe}
use cubesql_go_driver.Csdk.Handles.Sessions.{perform-Safe}
use cubesql_go_driver.Core.Errors.{Error}
use cubesql_go_driver.Core.Types.{World, Context, Cancel, start}
use cubesql_go_driver.Core.Act.{Act, publicly, context_error}
use cubesql_go_driver.Core.Options.{Options, native}
use cubesql_go_driver.Core.Conn
use cubesql_go_driver.Core.Scan
use cubesql_go_driver.Core.Scan.{Destination, Progress}
use cubesql_go_driver.Core.Session.{
  Op, perform, run, session, conn_close, affected_rows, last_insert_id, changes, ping, begin,
  set_database, prepare, exec, query, finish_implicit, stmt_close, stmt_bind, stmt_exec, stmt_query,
  stmt_reset, rows_close, rows_next, rows_seek, rows_value, rows_scan, tx_finish, tx_prepare,
  tx_exec, tx_query,
}
use cubesql_go_driver.Core.Carried.{Carries, Carries-bind, Carries-Local}
use cubesql_go_driver.Core.Carried.Objects.{object_rules, Local-context_error}
use cubesql_go_driver.Core.Carried.Methods.{
  Carries-affected_rows, Carries-last_insert_id, Carries-changes,
}
use cubesql_go_driver.Core.Carried.Statements.{
  step_rules, Carries-ping_context, Carries-set_database_context, Carries-metric,
  Carries-exec_context, Carries-prepare_context, Carries-close_stmt_object, Carries-bind_value,
  Carries-exec_stmt, Carries-reset_context,
}
use cubesql_go_driver.Core.Carried.Cursors.{
  Carries-close_rows_object, Carries-next, Carries-seek_context, Carries-query_of_stmt,
  Carries-query_context, Carries-begin_context, Carries-finish_implicit, Carries-finish,
  Carries-tx_exec, Carries-tx_query, Carries-tx_prepare,
}

module _ (sdk : Sdk) (parse_float : Bytes → Option ℕ) (P : Native → Type 0)
    (kept : (m : Method) (s : Native) → P s → P (Session.perform sdk m s)) where
  Carries-close_conn_object : (c : Ref) → Carries P (Conn.close sdk c)
  unfolding Conn.close Conn.idle
  Carries-close_conn_object Ref.nil = record { at = λ w p. p }
  Carries-close_conn_object Ref.self = record {
    at = λ w p.
        let closing : Carries P (do
          Conn.idle
          publicly (Csdk.Conn.close sdk w.conn.native)
          modify (Conn.set_native Ref.nil)) =
          search (step_rules, kept) depth 9 in
        ground (arith, closing.at w p);
  }

  Carries-value_locked :
      (ctx : Context) (i : ℕ) (column : ℤ) → Carries P (Scan.value_locked sdk ctx i column)
  unfolding Scan.value_locked
  Carries-value_locked ctx i column = search (step_rules, kept) depth 14

  Carries-value :
      (ctx : Context) (rows : Pointer) (column : ℤ)
      → Carries P (Scan.value_context sdk ctx rows column)
  unfolding Scan.value_context
  Carries-value ctx none column = search object_rules
  Carries-value ctx (some i) column = search (object_rules, Carries-value_locked) depth 9

  Carries-scan_column :
      (ctx : Context) (i : ℕ) (column : ℤ) (d : Destination)
      → Carries P (Scan.scan_column sdk parse_float ctx i column d)
  unfolding Scan.scan_column
  Carries-scan_column ctx i column d = search (object_rules, Carries-value_locked) depth 9

  Carries-scan_all :
      (ctx : Context) (i : ℕ) (column : ℤ) (ds : List Destination) (w : World)
      → P w.native
      → P (Scan.scan_all sdk parse_float ctx i column ds w).1.native
  unfolding Scan.scan_all
  Carries-scan_all ctx i column [] w p = p
  Carries-scan_all ctx i column (d ∷ ds) w p =
      let (r, v) = Scan.scan_column sdk parse_float ctx i column d w in
      let q : P v.native = (Carries-scan_column ctx i column d).at w p in
      elim r
        as (λ r.
          P
            (elim r as (λ _. Progress × World) [
              | ok x ↦ (
                Scan.also x (Scan.scan_all sdk parse_float ctx i (inc column) ds v).0,
                (Scan.scan_all sdk parse_float ctx i (inc column) ds v).1,
              )
              | err e ↦ (record { written = []; error = some e }, v)
            ]).1.native) [ ok x ↦ Carries-scan_all ctx i (inc column) ds v q | err e ↦ q ]

  after_guards :
      (ctx : Context) (i : ℕ) (ds : List Destination) (r : Outcome Error (Unit {0})) (v : World)
      → P v.native
      → P
          (elim r as (λ _. Progress × World) [
            | ok _ ↦ Scan.scan_all sdk parse_float ctx i (pos 1) ds v
            | err e ↦ (record { written = []; error = some e }, v)
          ]).1.native
  after_guards ctx i ds (ok _) v p = Carries-scan_all ctx i (pos 1) ds v p
  after_guards ctx i ds (err e) v p = p

  Carries-fail_if_nil : (rows : Pointer) → Carries P (Scan.fail_if_nil rows)
  Carries-fail_if_nil none = search object_rules
  Carries-fail_if_nil (some i) = search object_rules

  Carries-scannable : (i n : ℕ) → Carries P (Scan.scannable sdk parse_float i n)
  unfolding Scan.scannable
  Carries-scannable i n = search object_rules depth 9

  Carries-scan :
      (ctx : Context) (rows : Pointer) (ds : List Destination) (w : World)
      → P w.native
      → P (Scan.scan_context sdk parse_float ctx rows ds w).1.native
  unfolding Scan.scan_context
  Carries-scan ctx rows ds w p =
      let guards : Act (Unit {0}) = (do
        context_error ctx
        Scan.fail_if_nil rows
        Scan.scannable sdk parse_float (Scan.address rows) (length ds)) in
      let kept_by_guards : Carries P guards =
        Carries-bind P _ _ (Carries-Local P _ (Local-context_error ctx)) λ _.
          Carries-bind P _ _ (Carries-fail_if_nil rows)
            λ _. Carries-scannable (Scan.address rows) (length ds) in
      after_guards ctx (Scan.address rows) ds (guards w).0 (guards w).1 (kept_by_guards.at w p)

  pub Carries-perform : (op : Op) (w : World) → P w.native → P (perform sdk parse_float op w).native
  unfolding perform Conn.affected_rows Conn.last_insert_id Conn.changes
  Carries-perform (conn_close c) w p = (Carries-close_conn_object c).at w p
  Carries-perform (affected_rows c) w p =
      (Carries-metric sdk P kept c _ (Carries-affected_rows sdk P kept)).at w p
  Carries-perform (last_insert_id c) w p =
      (Carries-metric sdk P kept c _ (Carries-last_insert_id sdk P kept)).at w p
  Carries-perform (changes c) w p =
      (Carries-metric sdk P kept c _ (Carries-changes sdk P kept)).at w p
  Carries-perform (ping ctx c) w p = (Carries-ping_context sdk P kept ctx c).at w p
  Carries-perform (begin ctx c) w p = (Carries-begin_context sdk P kept ctx c).at w p
  Carries-perform (set_database ctx c name) w p =
      (Carries-set_database_context sdk P kept ctx c name).at w p
  Carries-perform (prepare ctx c sql) w p = (Carries-prepare_context sdk P kept ctx c sql).at w p
  Carries-perform (exec ctx c sql args) w p =
      (Carries-exec_context sdk P kept ctx c sql args).at w p
  Carries-perform (query ctx c sql args) w p =
      (Carries-query_context sdk P kept ctx c sql args).at w p
  Carries-perform (finish_implicit ctx c commit) w p =
      (Carries-finish_implicit sdk P kept ctx c commit).at w p
  Carries-perform (stmt_close i) w p = (Carries-close_stmt_object sdk P kept i).at w p
  Carries-perform (stmt_bind i n v) w p = (Carries-bind_value sdk P kept i n v).at w p
  Carries-perform (stmt_exec ctx i) w p = (Carries-exec_stmt sdk P kept ctx i).at w p
  Carries-perform (stmt_query ctx i) w p = (Carries-query_of_stmt sdk P kept ctx i false).at w p
  Carries-perform (stmt_reset ctx i) w p = (Carries-reset_context sdk P kept ctx i).at w p
  Carries-perform (rows_close i) w p = (Carries-close_rows_object sdk P kept i).at w p
  Carries-perform (rows_next ctx i) w p = (Carries-next sdk P kept ctx i).at w p
  Carries-perform (rows_seek ctx i row) w p = (Carries-seek_context sdk P kept ctx i row).at w p
  Carries-perform (rows_value ctx i column) w p = (Carries-value ctx i column).at w p
  Carries-perform (rows_scan ctx i ds) w p = Carries-scan ctx i ds w p
  Carries-perform (tx_finish ctx i commit) w p = (Carries-finish sdk P kept ctx i commit).at w p
  Carries-perform (tx_prepare ctx i sql) w p = (Carries-tx_prepare sdk P kept ctx i sql).at w p
  Carries-perform (tx_exec ctx i sql args) w p = (Carries-tx_exec sdk P kept ctx i sql args).at w p
  Carries-perform (tx_query ctx i sql args) w p =
      (Carries-tx_query sdk P kept ctx i sql args).at w p

  Carries-run : (ops : List Op) (w : World) → P w.native → P (run sdk parse_float ops w).native
  unfolding run
  Carries-run [] w p = p
  Carries-run (op ∷ ops) w p =
      Carries-run ops (perform sdk parse_float op w) (Carries-perform op w p)

  opened_native :
      (r : Outcome Error NativeOptions) (w : World)
      → w.native ≡ fresh
      → P fresh
      → ((o : NativeOptions) → P (Csdk.Conn.open_conn sdk o fresh).1)
      → P
          (continue r
            (λ o. do
              handle ← publicly (Csdk.Conn.open_conn sdk o)
              modify (λ w. record w {
                conn = record { native = handle; tx_active = false; children = pos 0 };
              })
              pure Ref.self)
            w).1.native
  unfolding ◌>>=◌ publicly modify pure
  opened_native (ok o) w same p opened =
      let q : P (Csdk.Conn.open_conn sdk o w.native).1 = rw same (opened o) in ground (arith, q)
  opened_native (err e) w same p opened = rw same p

  guarded_native :
      (r : Outcome Error (Unit {0})) (options : Options) (w : World)
      → w.native ≡ fresh
      → P fresh
      → ((o : NativeOptions) → P (Csdk.Conn.open_conn sdk o fresh).1)
      → P
          (continue r
            (λ _. do
              native_options ← lift (native options)
              handle ← publicly (Csdk.Conn.open_conn sdk native_options)
              modify (λ w. record w {
                conn = record { native = handle; tx_active = false; children = pos 0 };
              })
              pure Ref.self)
            w).1.native
  unfolding ◌>>=◌ lift
  guarded_native (ok _) options w same p opened = opened_native (native options) w same p opened
  guarded_native (err e) options w same p opened = rw same p

  Carries-open_context :
      (ctx : Context) (options : Options) (cancel : Cancel)
      → P fresh
      → ((o : NativeOptions) → P (Csdk.Conn.open_conn sdk o fresh).1)
      → P (Conn.open_context sdk ctx options (start cancel)).1.native
  unfolding Conn.open_context ◌>>=◌
  Carries-open_context ctx options cancel p opened =
      guarded_native (context_error ctx (start cancel)).0 options
        (context_error ctx (start cancel)).1 ((Local-context_error ctx).at (start cancel)) p opened

module _ (sdk : Sdk) (parse_float : Bytes → Option ℕ) where
  -- From the opening of a connection on, after any operations of the package cubesql, failed ones
  -- included, the children count of internal/csdk is right.
  pub session-Ledger-native :
      (cancel : Cancel) (ctx : Context) (options : Options) (ops : List Op)
      → Ledger (session sdk parse_float cancel ctx options ops).native
  unfolding session
  session-Ledger-native cancel ctx options ops =
      Carries-run sdk parse_float Ledger (perform-Ledger sdk) ops _ (
        Carries-open_context sdk parse_float Ledger (perform-Ledger sdk) ctx options cancel
          fresh-Ledger (open-Ledger sdk))

  -- From the opening of a connection on, after any operations of the package cubesql, failed ones
  -- included, and for every handle of each kind: C was given it only while it was live, so it was
  -- never used after it was freed, nor freed twice.
  pub session-Safe-native :
      (k : Kind) (h : ℕ) (cancel : Cancel) (ctx : Context) (options : Options) (ops : List Op)
      → Safe k h (session sdk parse_float cancel ctx options ops).native
  unfolding session
  session-Safe-native k h cancel ctx options ops =
      Carries-run sdk parse_float (Safe k h) (perform-Safe k h sdk) ops _ (
        Carries-open_context sdk parse_float (Safe k h) (perform-Safe k h sdk) ctx options cancel
          (fresh-Safe k h) (open-Safe k h sdk))
