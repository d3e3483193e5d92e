-- ===== src/Csdk/Handles.antt =====
-- The C handles that csdk.go holds, against the history of its calls: which handles a call is given,
-- which it frees, and which it returns.
pub mod Steps
pub mod Guards
pub mod Methods
pub mod Binds
pub mod Lifetimes
pub mod Sessions
use cubesql_go_driver.Prelude.{
  ℕ, zero, suc, ◌+◌, ◌≤◌, ℤ, pos, Bool, true, false, not, ◌&&◌, bit, Option, none, some, List, [],
  ◌∷◌, ◌≡◌, refl, arith, ◌==◌, ◌==ℤ◌, if◌then◌else◌, length, ltb,
}
use cubesql_go_driver.Csdk.Types.{
  Call, Reply, History, Native, Child, Pointer, csqlgo_ok, conn_open, conn_close, conn_ping,
  conn_begin, conn_commit, conn_rollback, conn_changes, conn_affected_rows, conn_last_insert_id,
  conn_error_code, conn_error_message_copy, conn_execute, conn_query, conn_prepare,
  conn_set_database, conn_execute_bind, cursor_close, cursor_num_rows, cursor_num_columns,
  cursor_column_type, cursor_seek, cursor_copy_column_name, cursor_copy_field, stmt_close,
  stmt_execute, stmt_query, stmt_bind_null, stmt_bind_int64, stmt_bind_zeroblob, stmt_bind_double,
  stmt_bind_text, stmt_bind_blob, bind_new, bind_close, bind_set_null, bind_set_int64,
  bind_set_double, bind_set_text, bind_set_blob,
}

-- What a handle points to: a csqlgo_conn, csqlgo_cursor, csqlgo_stmt or csqlgo_bind.
pub data Kind : Type 0 where
  conn cursor stmt bind : Kind

abbrev same_kind : Kind → Kind → Bool
same_kind conn conn = true
same_kind cursor cursor = true
same_kind stmt stmt = true
same_kind bind bind = true
same_kind a b = false

-- 1 if the handle `n` of kind `a` is the handle `h` of kind `k`, and 0 otherwise.
unfoldable pub hit : Kind → ℕ → (a : Kind) → (n : ℕ) → ℕ
hit k h a n = if same_kind a k then bit (h == n) else 0

module _ (k : Kind) (h : ℕ) where
  -- How often the handle is an argument of a call.
  abbrev pub uses : Call → ℕ
  uses (conn_open host port user password timeout encryption) = 0
  uses (conn_close n) = hit k h conn n
  uses (conn_ping n) = hit k h conn n
  uses (conn_begin n) = hit k h conn n
  uses (conn_commit n) = hit k h conn n
  uses (conn_rollback n) = hit k h conn n
  uses (conn_changes n) = hit k h conn n
  uses (conn_affected_rows n) = hit k h conn n
  uses (conn_last_insert_id n) = hit k h conn n
  uses (conn_error_code n) = hit k h conn n
  uses (conn_error_message_copy n) = hit k h conn n
  uses (conn_execute n sql) = hit k h conn n
  uses (conn_query n sql) = hit k h conn n
  uses (conn_prepare n sql) = hit k h conn n
  uses (conn_set_database n name) = hit k h conn n
  uses (conn_execute_bind n sql b) = hit k h conn n + hit k h bind b
  uses (cursor_close n) = hit k h cursor n
  uses (cursor_num_rows n) = hit k h cursor n
  uses (cursor_num_columns n) = hit k h cursor n
  uses (cursor_column_type n column) = hit k h cursor n
  uses (cursor_seek n row) = hit k h cursor n
  uses (cursor_copy_column_name n column) = hit k h cursor n
  uses (cursor_copy_field n row column) = hit k h cursor n
  uses (stmt_close n) = hit k h stmt n
  uses (stmt_execute n) = hit k h stmt n
  uses (stmt_query n) = hit k h stmt n
  uses (stmt_bind_null n i) = hit k h stmt n
  uses (stmt_bind_int64 n i v) = hit k h stmt n
  uses (stmt_bind_zeroblob n i v) = hit k h stmt n
  uses (stmt_bind_double n i v) = hit k h stmt n
  uses (stmt_bind_text n i v size) = hit k h stmt n
  uses (stmt_bind_blob n i v size) = hit k h stmt n
  uses (bind_new count) = 0
  uses (bind_close n) = hit k h bind n
  uses (bind_set_null n i) = hit k h bind n
  uses (bind_set_int64 n i v) = hit k h bind n
  uses (bind_set_double n i v) = hit k h bind n
  uses (bind_set_text n i v size) = hit k h bind n
  uses (bind_set_blob n i v size) = hit k h bind n

  -- 1 if the call frees the handle.
  abbrev pub frees : Call → ℕ
  frees (conn_close n) = hit k h conn n
  frees (cursor_close n) = hit k h cursor n
  frees (stmt_close n) = hit k h stmt n
  frees (bind_close n) = hit k h bind n
  frees call = 0

  -- 1 if the call numbered `n` returned the handle.
  abbrev pub returns : (n : ℕ) → Call → Reply → ℕ
  returns n (conn_open host port user password timeout encryption) r =
      if r.code ==ℤ csqlgo_ok then hit k h conn n else 0
  returns n (conn_query c sql) r = if r.code ==ℤ csqlgo_ok then hit k h cursor n else 0
  returns n (stmt_query s) r = if r.code ==ℤ csqlgo_ok then hit k h cursor n else 0
  returns n (conn_prepare c sql) r = if r.code ==ℤ csqlgo_ok then hit k h stmt n else 0
  returns n (bind_new count) r = if r.is_set then hit k h bind n else 0
  returns n call r = 0

  pub freed : History → ℕ
  freed [] = 0
  freed ((call, r) ∷ rest) = frees call + freed rest

  pub issued : History → ℕ
  issued [] = 0
  issued ((call, r) ∷ rest) = returns (length rest) call r + issued rest

  -- C returned the handle, and it was not freed since.
  abbrev pub is_live : History → Bool
  is_live history = freed history == 0 && not (issued history == 0)

  -- How often the handle was given to C while it was not live: used after it was freed, freed twice,
  -- used where C never returned it, or used as a handle of another kind.
  pub misused : History → ℕ
  misused [] = 0
  misused ((call, r) ∷ rest) = (if is_live rest then 0 else uses call) + misused rest

  -- How often Go objects hold the handle.
  abbrev pub holds : Kind → Pointer → ℕ
  holds a none = 0
  holds a (some n) = hit k h a n

  pub holding : Kind → List Child → ℕ
  holding a [] = 0
  holding a (c ∷ cs) = holds a c.ptr + holding a cs

  pub binding : List Pointer → ℕ
  binding [] = 0
  binding (p ∷ ps) = holds bind p + binding ps

  abbrev pub held : Native → ℕ
  held s = holds conn s.conn.ptr + holding cursor s.rows + holding stmt s.stmts + binding s.binds

  -- The handle is held by at most one Go object and only while it is live, and it never was misused.
  pub record Safe (s : Native) : Type 0 where
    pub owned : held s + freed s.history ≤ issued s.history
    pub unmisused : misused s.history ≡ 0
