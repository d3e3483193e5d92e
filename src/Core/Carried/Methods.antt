-- ===== src/Core/Carried/Methods.antt =====
-- The methods of csdk.go as the core package calls them.
use cubesql_go_driver.Prelude.{ℕ, ℤ, Bytes}
use cubesql_go_driver.Csdk.Types.{Ref, Pointer, Native, Sdk}
use cubesql_go_driver.Csdk
use cubesql_go_driver.Csdk.Session
use cubesql_go_driver.Csdk.Session.{Method}
use cubesql_go_driver.Core.Act.{publicly}
use cubesql_go_driver.Core.Carried.{Carries, Carries-publicly}

module _ (sdk : Sdk) (P : Native → Type 0)
    (kept : (m : Method) (s : Native) → P s → P (Session.perform sdk m s)) where
  pub Carries-close_conn : (c : Ref) → Carries P (publicly (Csdk.Conn.close sdk c))
  unfolding Session.perform
  Carries-close_conn c = Carries-publicly P _ (kept (Method.close c))

  pub Carries-ping : (c : Ref) → Carries P (publicly (Csdk.Conn.ping sdk c))
  unfolding Session.perform
  Carries-ping c = Carries-publicly P _ (kept (Method.ping c))

  pub Carries-begin : (c : Ref) → Carries P (publicly (Csdk.Conn.begin sdk c))
  unfolding Session.perform
  Carries-begin c = Carries-publicly P _ (kept (Method.begin c))

  pub Carries-commit : (c : Ref) → Carries P (publicly (Csdk.Conn.commit sdk c))
  unfolding Session.perform
  Carries-commit c = Carries-publicly P _ (kept (Method.commit c))

  pub Carries-rollback : (c : Ref) → Carries P (publicly (Csdk.Conn.rollback sdk c))
  unfolding Session.perform
  Carries-rollback c = Carries-publicly P _ (kept (Method.rollback c))

  pub Carries-changes : (c : Ref) → Carries P (publicly (Csdk.Conn.changes sdk c))
  unfolding Session.perform
  Carries-changes c = Carries-publicly P _ (kept (Method.changes c))

  pub Carries-affected_rows : (c : Ref) → Carries P (publicly (Csdk.Conn.affected_rows sdk c))
  unfolding Session.perform
  Carries-affected_rows c = Carries-publicly P _ (kept (Method.affected_rows c))

  pub Carries-last_insert_id : (c : Ref) → Carries P (publicly (Csdk.Conn.last_insert_id sdk c))
  unfolding Session.perform
  Carries-last_insert_id c = Carries-publicly P _ (kept (Method.last_insert_id c))

  pub Carries-exec : (c : Ref) (sql : Bytes) → Carries P (publicly (Csdk.Conn.exec sdk c sql))
  unfolding Session.perform
  Carries-exec c sql = Carries-publicly P _ (kept (Method.exec c sql))

  pub Carries-set_database :
      (c : Ref) (name : Bytes) → Carries P (publicly (Csdk.Conn.set_database sdk c name))
  unfolding Session.perform
  Carries-set_database c name = Carries-publicly P _ (kept (Method.set_database c name))

  pub Carries-query : (c : Ref) (sql : Bytes) → Carries P (publicly (Csdk.Conn.query sdk c sql))
  unfolding Session.perform
  Carries-query c sql = Carries-publicly P _ (kept (Method.query c sql))

  pub Carries-prepare : (c : Ref) (sql : Bytes) → Carries P (publicly (Csdk.Conn.prepare sdk c sql))
  unfolding Session.perform
  Carries-prepare c sql = Carries-publicly P _ (kept (Method.prepare c sql))

  pub Carries-exec_bind :
      (c : Ref) (sql : Bytes) (b : Pointer) → Carries P (publicly (Csdk.Bind.exec_bind sdk c sql b))
  unfolding Session.perform
  Carries-exec_bind c sql b = Carries-publicly P _ (kept (Method.exec_bind c sql b))

  pub Carries-close_rows : (p : Pointer) → Carries P (publicly (Csdk.Rows.close sdk p))
  unfolding Session.perform
  Carries-close_rows p = Carries-publicly P _ (kept (Method.rows_close p))

  pub Carries-num_rows : (p : Pointer) → Carries P (publicly (Csdk.Rows.num_rows sdk p))
  unfolding Session.perform
  Carries-num_rows p = Carries-publicly P _ (kept (Method.num_rows p))

  pub Carries-num_columns : (p : Pointer) → Carries P (publicly (Csdk.Rows.num_columns sdk p))
  unfolding Session.perform
  Carries-num_columns p = Carries-publicly P _ (kept (Method.num_columns p))

  pub Carries-column_type :
      (p : Pointer) (n : ℤ) → Carries P (publicly (Csdk.Rows.column_type sdk p n))
  unfolding Session.perform
  Carries-column_type p n = Carries-publicly P _ (kept (Method.column_type p n))

  pub Carries-seek : (p : Pointer) (n : ℤ) → Carries P (publicly (Csdk.Rows.seek sdk p n))
  unfolding Session.perform
  Carries-seek p n = Carries-publicly P _ (kept (Method.seek p n))

  pub Carries-column_name :
      (p : Pointer) (n : ℤ) → Carries P (publicly (Csdk.Rows.column_name sdk p n))
  unfolding Session.perform
  Carries-column_name p n = Carries-publicly P _ (kept (Method.column_name p n))

  pub Carries-field : (p : Pointer) (row n : ℤ) → Carries P (publicly (Csdk.Rows.field sdk p row n))
  unfolding Session.perform
  Carries-field p row n = Carries-publicly P _ (kept (Method.field p row n))

  pub Carries-close_stmt : (p : Pointer) → Carries P (publicly (Csdk.Stmt.close sdk p))
  unfolding Session.perform
  Carries-close_stmt p = Carries-publicly P _ (kept (Method.stmt_close p))

  pub Carries-stmt_exec : (p : Pointer) → Carries P (publicly (Csdk.Stmt.exec sdk p))
  unfolding Session.perform
  Carries-stmt_exec p = Carries-publicly P _ (kept (Method.stmt_exec p))

  pub Carries-stmt_query : (p : Pointer) → Carries P (publicly (Csdk.Stmt.query sdk p))
  unfolding Session.perform
  Carries-stmt_query p = Carries-publicly P _ (kept (Method.stmt_query p))

  pub Carries-bind_null : (p : Pointer) (i : ℤ) → Carries P (publicly (Csdk.Stmt.bind_null sdk p i))
  unfolding Session.perform
  Carries-bind_null p i = Carries-publicly P _ (kept (Method.bind_null p i))

  pub Carries-bind_int64 :
      (p : Pointer) (i n : ℤ) → Carries P (publicly (Csdk.Stmt.bind_int64 sdk p i n))
  unfolding Session.perform
  Carries-bind_int64 p i n = Carries-publicly P _ (kept (Method.bind_int64 p i n))

  pub Carries-bind_zero_blob :
      (p : Pointer) (i n : ℤ) → Carries P (publicly (Csdk.Stmt.bind_zero_blob sdk p i n))
  unfolding Session.perform
  Carries-bind_zero_blob p i n = Carries-publicly P _ (kept (Method.bind_zero_blob p i n))

  pub Carries-bind_double :
      (p : Pointer) (i : ℤ) (bits : ℕ) → Carries P (publicly (Csdk.Stmt.bind_double sdk p i bits))
  unfolding Session.perform
  Carries-bind_double p i bits = Carries-publicly P _ (kept (Method.bind_double p i bits))

  pub Carries-bind_text :
      (p : Pointer) (i : ℤ) (v : Bytes) → Carries P (publicly (Csdk.Stmt.bind_text sdk p i v))
  unfolding Session.perform
  Carries-bind_text p i v = Carries-publicly P _ (kept (Method.bind_text p i v))

  pub Carries-bind_blob :
      (p : Pointer) (i : ℤ) (v : Bytes) → Carries P (publicly (Csdk.Stmt.bind_blob sdk p i v))
  unfolding Session.perform
  Carries-bind_blob p i v = Carries-publicly P _ (kept (Method.bind_blob p i v))

  pub Carries-new_bind : (n : ℤ) → Carries P (publicly (Csdk.Bind.new_bind sdk n))
  unfolding Session.perform
  Carries-new_bind n = Carries-publicly P _ (kept (Method.new_bind n))

  pub Carries-close_bind : (p : Pointer) → Carries P (publicly (Csdk.Bind.close sdk p))
  unfolding Session.perform
  Carries-close_bind p = Carries-publicly P _ (kept (Method.close_bind p))

  pub Carries-set_null : (p : Pointer) (i : ℤ) → Carries P (publicly (Csdk.Bind.set_null sdk p i))
  unfolding Session.perform
  Carries-set_null p i = Carries-publicly P _ (kept (Method.set_null p i))

  pub Carries-set_int64 :
      (p : Pointer) (i n : ℤ) → Carries P (publicly (Csdk.Bind.set_int64 sdk p i n))
  unfolding Session.perform
  Carries-set_int64 p i n = Carries-publicly P _ (kept (Method.set_int64 p i n))

  pub Carries-set_zero_blob :
      (p : Pointer) (i n : ℤ) → Carries P (publicly (Csdk.Bind.set_zero_blob sdk p i n))
  unfolding Session.perform
  Carries-set_zero_blob p i n = Carries-publicly P _ (kept (Method.set_zero_blob p i n))

  pub Carries-set_double :
      (p : Pointer) (i : ℤ) (bits : ℕ) → Carries P (publicly (Csdk.Bind.set_double sdk p i bits))
  unfolding Session.perform
  Carries-set_double p i bits = Carries-publicly P _ (kept (Method.set_double p i bits))

  pub Carries-set_text :
      (p : Pointer) (i : ℤ) (v : Bytes) → Carries P (publicly (Csdk.Bind.set_text sdk p i v))
  unfolding Session.perform
  Carries-set_text p i v = Carries-publicly P _ (kept (Method.set_text p i v))

  pub Carries-set_blob :
      (p : Pointer) (i : ℤ) (v : Bytes) → Carries P (publicly (Csdk.Bind.set_blob sdk p i v))
  unfolding Session.perform
  Carries-set_blob p i v = Carries-publicly P _ (kept (Method.set_blob p i v))

  pub ruleset method_rules = (
    Carries-close_conn, Carries-ping, Carries-begin, Carries-commit, Carries-rollback,
    Carries-changes, Carries-affected_rows, Carries-last_insert_id, Carries-exec,
    Carries-set_database, Carries-query, Carries-prepare, Carries-exec_bind, Carries-close_rows,
    Carries-num_rows, Carries-num_columns, Carries-column_type, Carries-seek, Carries-column_name,
    Carries-field, Carries-close_stmt, Carries-stmt_exec, Carries-stmt_query, Carries-bind_null,
    Carries-bind_int64, Carries-bind_zero_blob, Carries-bind_double, Carries-bind_text,
    Carries-bind_blob, Carries-new_bind, Carries-close_bind, Carries-set_null, Carries-set_int64,
    Carries-set_zero_blob, Carries-set_double, Carries-set_text, Carries-set_blob,
  )
