-- ===== src/Csdk/Ledger/Arguments.antt =====
-- The methods of internal/csdk that take arguments apart before they call C, or that make no children.
use cubesql_go_driver.Prelude.{ℕ, ℤ, none, some, arith, Bytes}
use cubesql_go_driver.Prelude.Action.{◌>>=◌}
use cubesql_go_driver.Csdk.Types.{Ref, Call, Sdk, Native, Pointer}
use cubesql_go_driver.Csdk.Conn
use cubesql_go_driver.Csdk.Rows
use cubesql_go_driver.Csdk.Stmt
use cubesql_go_driver.Csdk.Bind
use cubesql_go_driver.Csdk.Ledger.{Ledger}

module _ (sdk : Sdk) where
  pub set_database-Ledger :
      (conn : Ref) (name : Bytes) (s : Native)
      → Ledger s
      → Ledger (Conn.set_database sdk conn name s).1
  unfolding Conn.set_database ◌>>=◌
  set_database-Ledger conn name s l = ground arith

  pub exec_bind-Ledger :
      (conn : Ref) (sql : Bytes) (bind : Pointer) (s : Native)
      → Ledger s
      → Ledger (Bind.exec_bind sdk conn sql bind s).1
  unfolding Bind.exec_bind ◌>>=◌
  exec_bind-Ledger conn sql none s l = ground arith
  exec_bind-Ledger conn sql (some i) s l = ground arith

  pub column_type-Ledger :
      (rows : Pointer) (n : ℤ) (s : Native) → Ledger s → Ledger (Rows.column_type sdk rows n s).1
  unfolding Rows.column_type ◌>>=◌
  column_type-Ledger none n s l = ground arith
  column_type-Ledger (some i) n s l = ground arith

  pub column_name-Ledger :
      (rows : Pointer) (n : ℤ) (s : Native) → Ledger s → Ledger (Rows.column_name sdk rows n s).1
  unfolding Rows.column_name ◌>>=◌
  column_name-Ledger none n s l = ground arith
  column_name-Ledger (some i) n s l = ground arith

  pub field-Ledger :
      (rows : Pointer) (row n : ℤ) (s : Native) → Ledger s → Ledger (Rows.field sdk rows row n s).1
  unfolding Rows.field ◌>>=◌
  field-Ledger none row n s l = ground arith
  field-Ledger (some i) row n s l = ground arith

  pub bind_zero_blob-Ledger :
      (stmt : Pointer) (i n : ℤ) (s : Native)
      → Ledger s
      → Ledger (Stmt.bind_zero_blob sdk stmt i n s).1
  unfolding Stmt.bind_zero_blob ◌>>=◌
  bind_zero_blob-Ledger none i n s l = ground arith
  bind_zero_blob-Ledger (some p) i n s l = ground arith

  pub bind_double-Ledger :
      (stmt : Pointer) (i : ℤ) (bits : ℕ) (s : Native)
      → Ledger s
      → Ledger (Stmt.bind_double sdk stmt i bits s).1
  unfolding Stmt.bind_double ◌>>=◌
  bind_double-Ledger none i bits s l = ground arith
  bind_double-Ledger (some p) i bits s l = ground arith

  pub bind_bytes-Ledger :
      (stmt : Pointer) (i : ℤ) (v : Bytes) (f : ℕ → ℤ → Bytes → ℤ → Call) (s : Native)
      → Ledger s
      → Ledger (Stmt.bind_bytes sdk stmt i v f s).1
  unfolding Stmt.bind_bytes ◌>>=◌
  bind_bytes-Ledger none i v f s l = ground arith
  bind_bytes-Ledger (some p) i v f s l = ground arith

  pub bind_blob-Ledger :
      (stmt : Pointer) (i : ℤ) (v : Bytes) (s : Native)
      → Ledger s
      → Ledger (Stmt.bind_blob sdk stmt i v s).1
  unfolding Stmt.bind_blob ◌>>=◌
  bind_blob-Ledger none i v s l = ground arith
  bind_blob-Ledger (some p) i v s l = ground arith

  pub new_bind-Ledger : (n : ℤ) (s : Native) → Ledger s → Ledger (Bind.new_bind sdk n s).1
  unfolding Bind.new_bind ◌>>=◌
  new_bind-Ledger n s l = ground arith

  pub close_bind-Ledger :
      (bind : Pointer) (s : Native) → Ledger s → Ledger (Bind.close sdk bind s).1
  unfolding Bind.close ◌>>=◌
  close_bind-Ledger none s l = l
  close_bind-Ledger (some i) s l = ground arith

  pub set_with-Ledger :
      (bind : Pointer) (f : ℕ → Call) (s : Native)
      → Ledger s
      → Ledger (Bind.set_with sdk bind f s).1
  unfolding Bind.set_with ◌>>=◌
  set_with-Ledger none f s l = l
  set_with-Ledger (some i) f s l = ground arith

  pub set_double-Ledger :
      (bind : Pointer) (i : ℤ) (bits : ℕ) (s : Native)
      → Ledger s
      → Ledger (Bind.set_double sdk bind i bits s).1
  unfolding Bind.set_double ◌>>=◌
  set_double-Ledger none i bits s l = ground arith
  set_double-Ledger (some p) i bits s l = ground arith

  pub set_bytes-Ledger :
      (bind : Pointer) (i : ℤ) (v : Bytes) (f : ℕ → ℤ → Bytes → ℤ → Call) (s : Native)
      → Ledger s
      → Ledger (Bind.set_bytes sdk bind i v f s).1
  unfolding Bind.set_bytes ◌>>=◌
  set_bytes-Ledger none i v f s l = ground arith
  set_bytes-Ledger (some p) i v f s l = ground arith

  pub set_blob-Ledger :
      (bind : Pointer) (i : ℤ) (v : Bytes) (s : Native)
      → Ledger s
      → Ledger (Bind.set_blob sdk bind i v s).1
  unfolding Bind.set_blob ◌>>=◌
  set_blob-Ledger none i v s l = ground arith
  set_blob-Ledger (some p) i v s l = ground arith

  pub set_zero_blob-Ledger :
      (bind : Pointer) (i n : ℤ) (s : Native)
      → Ledger s
      → Ledger (Bind.set_zero_blob sdk bind i n s).1
  unfolding Bind.set_zero_blob ◌>>=◌
  set_zero_blob-Ledger none i n s l = ground arith
  set_zero_blob-Ledger (some p) i n s l = ground arith
