-- ===== src/Csdk/Handles/Sessions.antt =====
-- The handles stay safe over any sequence of methods of csdk.go.
use cubesql_go_driver.Prelude.{ℕ, List, [], ◌∷◌, refl}
use cubesql_go_driver.Csdk.Types.{Call, Sdk, Native, Options}
use cubesql_go_driver.Csdk.Convert.{c_int}
use cubesql_go_driver.Csdk.Session.{
  perform, run, session, Method, ping, begin, commit, rollback, changes, affected_rows,
  last_insert_id, exec, set_database, query, prepare, exec_bind, rows_close, num_rows, num_columns,
  column_type, seek, column_name, field, stmt_close, stmt_exec, stmt_query, bind_null, bind_int64,
  bind_zero_blob, bind_double, bind_text, bind_blob, new_bind, close_bind, set_null, set_int64,
  set_zero_blob, set_double, set_text, set_blob, close,
}
use cubesql_go_driver.Csdk.Conn
use cubesql_go_driver.Csdk.Rows
use cubesql_go_driver.Csdk.Stmt
use cubesql_go_driver.Csdk.Bind
use cubesql_go_driver.Csdk.Handles.{Kind, Safe}
use cubesql_go_driver.Csdk.Handles.Methods.{
  Keeps-call, Keeps-metric, Keeps-exec, Keeps-set_database, Keeps-number, Keeps-column_type,
  Keeps-seek, Keeps-field, Keeps-column_name, Keeps-stmt_call, Keeps-bind_double, Keeps-bind_bytes,
  Keeps-bind_blob, Keeps-bind_zero_blob,
}
use cubesql_go_driver.Csdk.Handles.Binds.{
  Keeps-set_with, Keeps-set_bytes, Keeps-set_double, Keeps-set_blob, Keeps-set_zero_blob,
  Keeps-exec_bind,
}
use cubesql_go_driver.Csdk.Handles.Lifetimes.{
  Keeps-query, Keeps-stmt_query, Keeps-prepare, Keeps-close_rows, Keeps-close_stmt,
  Keeps-close_bind, Keeps-close_conn, Keeps-new_bind, open-Safe,
}

module _ (k : Kind) (h : ℕ) (sdk : Sdk) where
  pub perform-Safe : (m : Method) (s : Native) → Safe k h s → Safe k h (perform sdk m s)
  unfolding perform Conn.ping Conn.begin Conn.commit Conn.rollback Conn.changes Conn.affected_rows
      Conn.last_insert_id Rows.num_rows Rows.num_columns Stmt.exec Stmt.bind_null Stmt.bind_int64
      Stmt.bind_text Bind.set_null Bind.set_int64 Bind.set_text
  perform-Safe (close c) s safe = (Keeps-close_conn k h sdk c).at s safe
  perform-Safe (ping c) s safe =
      (Keeps-call k h sdk c Call.conn_ping (λ n. refl) (λ n. refl)).at s safe
  perform-Safe (begin c) s safe =
      (Keeps-call k h sdk c Call.conn_begin (λ n. refl) (λ n. refl)).at s safe
  perform-Safe (commit c) s safe =
      (Keeps-call k h sdk c Call.conn_commit (λ n. refl) (λ n. refl)).at s safe
  perform-Safe (rollback c) s safe =
      (Keeps-call k h sdk c Call.conn_rollback (λ n. refl) (λ n. refl)).at s safe
  perform-Safe (changes c) s safe =
      (Keeps-metric k h sdk c Call.conn_changes (λ n. refl) (λ n. refl)).at s safe
  perform-Safe (affected_rows c) s safe =
      (Keeps-metric k h sdk c Call.conn_affected_rows (λ n. refl) (λ n. refl)).at s safe
  perform-Safe (last_insert_id c) s safe =
      (Keeps-metric k h sdk c Call.conn_last_insert_id (λ n. refl) (λ n. refl)).at s safe
  perform-Safe (exec c sql) s safe = (Keeps-exec k h sdk c sql).at s safe
  perform-Safe (set_database c name) s safe = (Keeps-set_database k h sdk c name).at s safe
  perform-Safe (query c sql) s safe = (Keeps-query k h sdk c sql).at s safe
  perform-Safe (prepare c sql) s safe = (Keeps-prepare k h sdk c sql).at s safe
  perform-Safe (exec_bind c sql b) s safe = (Keeps-exec_bind k h sdk c sql b).at s safe
  perform-Safe (rows_close p) s safe = (Keeps-close_rows k h sdk p).at s safe
  perform-Safe (num_rows p) s safe =
      (Keeps-number k h sdk p Call.cursor_num_rows (λ n. refl) (λ n. refl)).at s safe
  perform-Safe (num_columns p) s safe =
      (Keeps-number k h sdk p Call.cursor_num_columns (λ n. refl) (λ n. refl)).at s safe
  perform-Safe (column_type p n) s safe = (Keeps-column_type k h sdk p n).at s safe
  perform-Safe (seek p n) s safe = (Keeps-seek k h sdk p n).at s safe
  perform-Safe (column_name p n) s safe = (Keeps-column_name k h sdk p n).at s safe
  perform-Safe (field p row n) s safe = (Keeps-field k h sdk p row n).at s safe
  perform-Safe (stmt_close p) s safe = (Keeps-close_stmt k h sdk p).at s safe
  perform-Safe (stmt_exec p) s safe =
      (Keeps-stmt_call k h sdk p Call.stmt_execute (λ n. refl) (λ n. refl)).at s safe
  perform-Safe (stmt_query p) s safe = (Keeps-stmt_query k h sdk p).at s safe
  perform-Safe (bind_null p i) s safe =
      (Keeps-stmt_call k h sdk p (λ n. Call.stmt_bind_null n (c_int i)) (λ n. refl) (λ n. refl)).at
        s safe
  perform-Safe (bind_int64 p i n) s safe =
      (Keeps-stmt_call k h sdk p (λ m. Call.stmt_bind_int64 m (c_int i) n) (λ n. refl)
          (λ n. refl)).at
        s safe
  perform-Safe (bind_zero_blob p i n) s safe = (Keeps-bind_zero_blob k h sdk p i n).at s safe
  perform-Safe (bind_double p i bits) s safe = (Keeps-bind_double k h sdk p i bits).at s safe
  perform-Safe (bind_text p i v) s safe =
      (Keeps-bind_bytes k h sdk p i v Call.stmt_bind_text (λ n i v size. refl)
          (λ n i v size. refl)).at
        s safe
  perform-Safe (bind_blob p i v) s safe = (Keeps-bind_blob k h sdk p i v).at s safe
  perform-Safe (new_bind n) s safe = (Keeps-new_bind k h sdk n).at s safe
  perform-Safe (close_bind p) s safe = (Keeps-close_bind k h sdk p).at s safe
  perform-Safe (set_null p i) s safe =
      (Keeps-set_with k h sdk p (λ n. Call.bind_set_null n (c_int i)) (λ n. refl) (λ n. refl)).at s
        safe
  perform-Safe (set_int64 p i n) s safe =
      (Keeps-set_with k h sdk p (λ m. Call.bind_set_int64 m (c_int i) n) (λ n. refl) (λ n. refl)).at
        s safe
  perform-Safe (set_zero_blob p i n) s safe = (Keeps-set_zero_blob k h sdk p i n).at s safe
  perform-Safe (set_double p i bits) s safe = (Keeps-set_double k h sdk p i bits).at s safe
  perform-Safe (set_text p i v) s safe =
      (Keeps-set_bytes k h sdk p i v Call.bind_set_text (λ n i v size. refl)
          (λ n i v size. refl)).at
        s safe
  perform-Safe (set_blob p i v) s safe = (Keeps-set_blob k h sdk p i v).at s safe

  run-Safe : (ms : List Method) (s : Native) → Safe k h s → Safe k h (run sdk ms s)
  unfolding run
  run-Safe [] s safe = safe
  run-Safe (m ∷ ms) s safe = run-Safe ms (perform sdk m s) (perform-Safe m s safe)

  -- From the opening on, after any methods, failed ones included, and for every handle of each kind:
  -- it was given to C only while it was live (returned by C as a handle of this kind, and not freed
  -- since), so it was never used after it was freed, nor freed twice; and at most one Go object
  -- holds it, only while it is live.
  pub session-Safe : (options : Options) (ms : List Method) → Safe k h (session sdk options ms)
  unfolding session
  session-Safe options ms = run-Safe ms _ (open-Safe k h sdk options)
