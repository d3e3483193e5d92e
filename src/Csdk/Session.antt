-- ===== src/Csdk/Session.antt =====
-- The methods of internal/csdk as one type, and any sequence of them on one connection.
use cubesql_go_driver.Prelude.{ℕ, ℤ, Bytes, List, [], ◌∷◌}
use cubesql_go_driver.Csdk.Types.{Ref, Pointer, Sdk, Native, Options, fresh}
use cubesql_go_driver.Csdk.Conn
use cubesql_go_driver.Csdk.Rows
use cubesql_go_driver.Csdk.Stmt
use cubesql_go_driver.Csdk.Bind

pub data Method : Type 0 where
  close ping begin commit rollback changes affected_rows last_insert_id : Ref → Method
  exec set_database query prepare : Ref → Bytes → Method
  exec_bind : Ref → Bytes → Pointer → Method
  rows_close num_rows num_columns : Pointer → Method
  column_type seek column_name : Pointer → ℤ → Method
  field : Pointer → (row column : ℤ) → Method
  stmt_close stmt_exec stmt_query : Pointer → Method
  bind_null : Pointer → ℤ → Method
  bind_int64 bind_zero_blob : Pointer → (index value : ℤ) → Method
  bind_double : Pointer → ℤ → (bits : ℕ) → Method
  bind_text bind_blob : Pointer → ℤ → Bytes → Method
  new_bind : ℤ → Method
  close_bind : Pointer → Method
  set_null : Pointer → ℤ → Method
  set_int64 set_zero_blob : Pointer → (index value : ℤ) → Method
  set_double : Pointer → ℤ → (bits : ℕ) → Method
  set_text set_blob : Pointer → ℤ → Bytes → Method

module _ (sdk : Sdk) where
  unfoldable pub perform : Method → Native → Native
  perform (close c) s = (Conn.close sdk c s).1
  perform (ping c) s = (Conn.ping sdk c s).1
  perform (begin c) s = (Conn.begin sdk c s).1
  perform (commit c) s = (Conn.commit sdk c s).1
  perform (rollback c) s = (Conn.rollback sdk c s).1
  perform (changes c) s = (Conn.changes sdk c s).1
  perform (affected_rows c) s = (Conn.affected_rows sdk c s).1
  perform (last_insert_id c) s = (Conn.last_insert_id sdk c s).1
  perform (exec c sql) s = (Conn.exec sdk c sql s).1
  perform (set_database c name) s = (Conn.set_database sdk c name s).1
  perform (query c sql) s = (Conn.query sdk c sql s).1
  perform (prepare c sql) s = (Conn.prepare sdk c sql s).1
  perform (exec_bind c sql b) s = (Bind.exec_bind sdk c sql b s).1
  perform (rows_close p) s = (Rows.close sdk p s).1
  perform (num_rows p) s = (Rows.num_rows sdk p s).1
  perform (num_columns p) s = (Rows.num_columns sdk p s).1
  perform (column_type p n) s = (Rows.column_type sdk p n s).1
  perform (seek p n) s = (Rows.seek sdk p n s).1
  perform (column_name p n) s = (Rows.column_name sdk p n s).1
  perform (field p row column) s = (Rows.field sdk p row column s).1
  perform (stmt_close p) s = (Stmt.close sdk p s).1
  perform (stmt_exec p) s = (Stmt.exec sdk p s).1
  perform (stmt_query p) s = (Stmt.query sdk p s).1
  perform (bind_null p i) s = (Stmt.bind_null sdk p i s).1
  perform (bind_int64 p i n) s = (Stmt.bind_int64 sdk p i n s).1
  perform (bind_zero_blob p i n) s = (Stmt.bind_zero_blob sdk p i n s).1
  perform (bind_double p i bits) s = (Stmt.bind_double sdk p i bits s).1
  perform (bind_text p i v) s = (Stmt.bind_text sdk p i v s).1
  perform (bind_blob p i v) s = (Stmt.bind_blob sdk p i v s).1
  perform (new_bind n) s = (Bind.new_bind sdk n s).1
  perform (close_bind p) s = (Bind.close sdk p s).1
  perform (set_null p i) s = (Bind.set_null sdk p i s).1
  perform (set_int64 p i n) s = (Bind.set_int64 sdk p i n s).1
  perform (set_zero_blob p i n) s = (Bind.set_zero_blob sdk p i n s).1
  perform (set_double p i bits) s = (Bind.set_double sdk p i bits s).1
  perform (set_text p i v) s = (Bind.set_text sdk p i v s).1
  perform (set_blob p i v) s = (Bind.set_blob sdk p i v s).1

  unfoldable pub run : List Method → Native → Native
  run [] s = s
  run (m ∷ ms) s = run ms (perform m s)

  unfoldable pub session : Options → List Method → Native
  unfolding run
  session options ms = run ms (Conn.open_conn sdk options fresh).1
