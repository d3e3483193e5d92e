-- ===== src/Csdk/Ledger.antt =====
-- The children count of internal/csdk: `Conn.children` against the cursors and statements that are
-- open, over every method of csdk.go.
pub mod Arguments
pub mod Sessions
use cubesql_go_driver.Prelude.{
  ℕ, ◌+◌, ℤ, pos, Bool, true, false, Option, none, some, List, [], ◌∷◌, ◌≡◌, refl, arith, suc, ◌++◌,
  ◌-◌, length, get_or, set, is_some, count, count-push, count-nil, count-set_drop, Bytes,
  Bool-cases, Option-cases, inl, inr,
}
use cubesql_go_driver.Prelude.Action.{◌>>=◌}
use cubesql_go_driver.Csdk.Types.{
  Ref, nil, self, Call, Sdk, Native, Child, Pointer, zero_child, Options, fresh,
}
use cubesql_go_driver.Csdk.Session.{
  perform, run, session, Method, ping, begin, commit, rollback, changes, affected_rows,
  last_insert_id, exec, set_database, query, prepare, exec_bind, rows_close, num_rows, num_columns,
  column_type, seek, column_name, field, stmt_close, stmt_exec, stmt_query, bind_null, bind_int64,
  bind_zero_blob, bind_double, bind_text, bind_blob, new_bind, close_bind, set_null, set_int64,
  set_zero_blob, set_double, set_text, set_blob, close,
}
use cubesql_go_driver.Csdk.Conn
use cubesql_go_driver.Csdk.Rows
use cubesql_go_driver.Csdk.Stmt
use cubesql_go_driver.Csdk.Bind

abbrev pub is_open : Child → Bool
is_open c = is_some c.ptr

abbrev pub open_children : Native → ℕ
open_children s = count is_open s.stmts + count is_open s.rows

-- The count is the number of open children, and a closed connection has none.
pub record Ledger (s : Native) : Type 0 where
  pub counted : s.conn.children ≡ pos (open_children s)
  pub closed_empty : s.conn.ptr ≡ none → open_children s ≡ 0

-- Closing the child at an address that is open leaves one open child less.
forget_one :
    (xs : List Child) (i : ℕ)
    → is_open (get_or xs i zero_child) ≡ true
    → count is_open xs
      ≡ suc (count is_open (set xs i (record (get_or xs i zero_child) { ptr = none })))
forget_one xs i open_there =
    count-set_drop is_open zero_child xs i (record (get_or xs i zero_child) { ptr = none }) refl
      open_there refl

opened : ℕ → Child
opened h = record { conn = self; ptr = some h }

push_one :
    (xs : List Child) (h : ℕ)
    → count is_open (xs ++ record { conn = self; ptr = some h } ∷ []) ≡ suc (count is_open xs)
push_one xs h = omega (arith, count-push is_open xs (record { conn = self; ptr = some h }))

module _ (sdk : Sdk) where
  pub call-Ledger :
      (conn : Ref) (f : ℕ → Call) (s : Native) → Ledger s → Ledger (Conn.call sdk conn f s).1
  unfolding Conn.call ◌>>=◌
  call-Ledger conn f s l = ground arith

  pub metric-Ledger :
      (conn : Ref) (f : ℕ → Call) (s : Native) → Ledger s → Ledger (Conn.metric sdk conn f s).1
  unfolding Conn.metric ◌>>=◌
  metric-Ledger conn f s l = ground arith

  pub exec-Ledger :
      (conn : Ref) (sql : Bytes) (s : Native) → Ledger s → Ledger (Conn.exec sdk conn sql s).1
  unfolding Conn.exec ◌>>=◌
  exec-Ledger conn sql s l = ground arith

  pub close-Ledger : (conn : Ref) (s : Native) → Ledger s → Ledger (Conn.close sdk conn s).1
  unfolding Conn.close ◌>>=◌
  close-Ledger conn s l = ground arith

  pub query-Ledger :
      (conn : Ref) (sql : Bytes) (s : Native) → Ledger s → Ledger (Conn.query sdk conn sql s).1
  unfolding Conn.query ◌>>=◌
  query-Ledger conn sql s l = ground (arith, push_one s.rows (suc (length s.history) - 1))

  pub prepare-Ledger :
      (conn : Ref) (sql : Bytes) (s : Native) → Ledger s → Ledger (Conn.prepare sdk conn sql s).1
  unfolding Conn.prepare ◌>>=◌
  prepare-Ledger conn sql s l = ground (arith, push_one s.stmts (suc (length s.history) - 1))

  pub rows_close-Ledger :
      (rows : Pointer) (s : Native) → Ledger s → Ledger (Rows.close sdk rows s).1
  unfolding Rows.close ◌>>=◌
  rows_close-Ledger none s l = l
  rows_close-Ledger (some i) s l = ground (arith, forget_one s.rows i)

  pub number-Ledger :
      (rows : Pointer) (f : ℕ → Call) (s : Native) → Ledger s → Ledger (Rows.number sdk rows f s).1
  unfolding Rows.number ◌>>=◌
  number-Ledger none f s l = l
  number-Ledger (some i) f s l = ground arith

  pub seek-Ledger :
      (rows : Pointer) (row : ℤ) (s : Native) → Ledger s → Ledger (Rows.seek sdk rows row s).1
  unfolding Rows.seek ◌>>=◌
  seek-Ledger none row s l = ground arith
  seek-Ledger (some i) row s l = ground arith

  pub copy_field-Ledger :
      (rows : Pointer) (f : ℕ → Call) (s : Native)
      → Ledger s
      → Ledger (Rows.copy_field sdk rows f s).1
  unfolding Rows.copy_field ◌>>=◌
  copy_field-Ledger none f s l = l
  copy_field-Ledger (some i) f s l = ground arith

  pub stmt_close-Ledger :
      (stmt : Pointer) (s : Native) → Ledger s → Ledger (Stmt.close sdk stmt s).1
  unfolding Stmt.close ◌>>=◌
  stmt_close-Ledger none s l = l
  stmt_close-Ledger (some i) s l = ground (arith, forget_one s.stmts i)

  pub stmt_call-Ledger :
      (stmt : Pointer) (f : ℕ → Call) (s : Native) → Ledger s → Ledger (Stmt.call sdk stmt f s).1
  unfolding Stmt.call ◌>>=◌
  stmt_call-Ledger none f s l = l
  stmt_call-Ledger (some i) f s l = ground arith

  pub stmt_query-Ledger :
      (stmt : Pointer) (s : Native) → Ledger s → Ledger (Stmt.query sdk stmt s).1
  unfolding Stmt.query ◌>>=◌
  stmt_query-Ledger none s l = l
  stmt_query-Ledger (some i) s l = ground (arith, push_one s.rows (suc (length s.history) - 1))
