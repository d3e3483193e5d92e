-- ===== src/Csdk/Ledger/Sessions.antt =====
-- The children count of internal/csdk is right after any sequence of methods.
use cubesql_go_driver.Prelude.{List, [], ◌∷◌, arith, count-nil}
use cubesql_go_driver.Prelude.Action.{◌>>=◌}
use cubesql_go_driver.Csdk.Types.{Call, Sdk, Native, Options, fresh}
use cubesql_go_driver.Csdk.Session.{
  perform, run, session, Method, ping, begin, commit, rollback, changes, affected_rows,
  last_insert_id, exec, set_database, query, prepare, exec_bind, rows_close, num_rows, num_columns,
  column_type, seek, column_name, field, stmt_close, stmt_exec, stmt_query, bind_null, bind_int64,
  bind_zero_blob, bind_double, bind_text, bind_blob, new_bind, close_bind, set_null, set_int64,
  set_zero_blob, set_double, set_text, set_blob, close,
}
use cubesql_go_driver.Csdk.Conn
use cubesql_go_driver.Csdk.Rows
use cubesql_go_driver.Csdk.Stmt
use cubesql_go_driver.Csdk.Bind
use cubesql_go_driver.Csdk.Ledger.{
  Ledger, is_open, call-Ledger, metric-Ledger, exec-Ledger, close-Ledger, query-Ledger,
  prepare-Ledger, rows_close-Ledger, number-Ledger, seek-Ledger, stmt_close-Ledger,
  stmt_call-Ledger, stmt_query-Ledger,
}
use cubesql_go_driver.Csdk.Ledger.Arguments.{
  set_database-Ledger, exec_bind-Ledger, column_type-Ledger, column_name-Ledger, field-Ledger,
  bind_zero_blob-Ledger, bind_double-Ledger, bind_bytes-Ledger, bind_blob-Ledger, new_bind-Ledger,
  close_bind-Ledger, set_with-Ledger, set_double-Ledger, set_bytes-Ledger, set_blob-Ledger,
  set_zero_blob-Ledger,
}

pub fresh-Ledger : Ledger fresh
fresh-Ledger = ground (arith, count-nil is_open)

module _ (sdk : Sdk) where
  pub open-Ledger : (options : Options) → Ledger (Conn.open_conn sdk options fresh).1
  unfolding Conn.open_conn ◌>>=◌
  open-Ledger options = ground (arith, count-nil is_open)

  -- Every method keeps the count right, whatever it returns.
  pub perform-Ledger : (m : Method) (s : Native) → Ledger s → Ledger (perform sdk m s)
  unfolding perform Conn.ping Conn.begin Conn.commit Conn.rollback Conn.changes Conn.affected_rows
      Conn.last_insert_id Rows.num_rows Rows.num_columns Stmt.exec Stmt.bind_null Stmt.bind_int64
      Stmt.bind_text Bind.set_null Bind.set_int64 Bind.set_text
  perform-Ledger (close c) s l = close-Ledger sdk c s l
  perform-Ledger (ping c) s l = call-Ledger sdk c _ s l
  perform-Ledger (begin c) s l = call-Ledger sdk c _ s l
  perform-Ledger (commit c) s l = call-Ledger sdk c _ s l
  perform-Ledger (rollback c) s l = call-Ledger sdk c _ s l
  perform-Ledger (changes c) s l = metric-Ledger sdk c _ s l
  perform-Ledger (affected_rows c) s l = metric-Ledger sdk c _ s l
  perform-Ledger (last_insert_id c) s l = metric-Ledger sdk c _ s l
  perform-Ledger (exec c sql) s l = exec-Ledger sdk c sql s l
  perform-Ledger (set_database c name) s l = set_database-Ledger sdk c name s l
  perform-Ledger (query c sql) s l = query-Ledger sdk c sql s l
  perform-Ledger (prepare c sql) s l = prepare-Ledger sdk c sql s l
  perform-Ledger (exec_bind c sql b) s l = exec_bind-Ledger sdk c sql b s l
  perform-Ledger (rows_close p) s l = rows_close-Ledger sdk p s l
  perform-Ledger (num_rows p) s l = number-Ledger sdk p _ s l
  perform-Ledger (num_columns p) s l = number-Ledger sdk p _ s l
  perform-Ledger (column_type p n) s l = column_type-Ledger sdk p n s l
  perform-Ledger (seek p n) s l = seek-Ledger sdk p n s l
  perform-Ledger (column_name p n) s l = column_name-Ledger sdk p n s l
  perform-Ledger (field p row n) s l = field-Ledger sdk p row n s l
  perform-Ledger (stmt_close p) s l = stmt_close-Ledger sdk p s l
  perform-Ledger (stmt_exec p) s l = stmt_call-Ledger sdk p _ s l
  perform-Ledger (stmt_query p) s l = stmt_query-Ledger sdk p s l
  perform-Ledger (bind_null p i) s l = stmt_call-Ledger sdk p _ s l
  perform-Ledger (bind_int64 p i n) s l = stmt_call-Ledger sdk p _ s l
  perform-Ledger (bind_zero_blob p i n) s l = bind_zero_blob-Ledger sdk p i n s l
  perform-Ledger (bind_double p i bits) s l = bind_double-Ledger sdk p i bits s l
  perform-Ledger (bind_text p i v) s l = bind_bytes-Ledger sdk p i v Call.stmt_bind_text s l
  perform-Ledger (bind_blob p i v) s l = bind_blob-Ledger sdk p i v s l
  perform-Ledger (new_bind n) s l = new_bind-Ledger sdk n s l
  perform-Ledger (close_bind p) s l = close_bind-Ledger sdk p s l
  perform-Ledger (set_null p i) s l = set_with-Ledger sdk p _ s l
  perform-Ledger (set_int64 p i n) s l = set_with-Ledger sdk p _ s l
  perform-Ledger (set_zero_blob p i n) s l = set_zero_blob-Ledger sdk p i n s l
  perform-Ledger (set_double p i bits) s l = set_double-Ledger sdk p i bits s l
  perform-Ledger (set_text p i v) s l = set_bytes-Ledger sdk p i v Call.bind_set_text s l
  perform-Ledger (set_blob p i v) s l = set_blob-Ledger sdk p i v s l

  pub run-Ledger : (ms : List Method) (s : Native) → Ledger s → Ledger (run sdk ms s)
  unfolding run
  run-Ledger [] s l = l
  run-Ledger (m ∷ ms) s l = run-Ledger ms (perform sdk m s) (perform-Ledger m s l)

  -- From the opening on, after any methods, failed ones included, `Conn.children` is the number of
  -- cursors and statements whose native handle is open, and a closed connection has none.
  pub session-Ledger : (options : Options) (ms : List Method) → Ledger (session sdk options ms)
  unfolding session
  session-Ledger options ms = run-Ledger ms _ (open-Ledger options)
