-- ===== src/Csdk/Stmt.antt =====
-- `Stmt` of internal/csdk/csdk.go: a native prepared statement.
use cubesql_go_driver.Prelude.{
  ℕ, ℤ, pos, not, ◌||◌, none, some, Bytes, is_none, is_empty, if◌then◌else◌, ◌==ℤ◌, dec, positive,
  negative, set, length,
}
use cubesql_go_driver.Prelude.Action.{ok, err, raise, return_if, modify, ◌>>=◌, ◌>>◌}
use cubesql_go_driver.Csdk.Types.{
  is_nil, closed, invalid_argument, unsupported, Call, Sdk, Native, Do, Pointer, csqlgo_ok, cross,
  stmt_at,
}
use cubesql_go_driver.Csdk.Convert.{c_int, is_nan, is_inf}
use cubesql_go_driver.Csdk.Conn.{set_children, checked, native_error, new_rows}

-- `stmt.ptr = nil`
abbrev pub forget : ℕ → Native → Native
forget i s = record s { stmts = set s.stmts i (record (stmt_at s i) { ptr = none }) }

-- The guards of call, Query and unsupported; the result is the native statement.
unfoldable pub open_stmt : Pointer → Do ℕ
open_stmt none s = (err closed, s)
open_stmt (some i) s =
    if is_nil (stmt_at s i).conn || is_none s.conn.ptr
    then (err closed, s)
    else elim (stmt_at s i).ptr [ none ↦ (err closed, s) | some h ↦ (ok h, s) ]

unfoldable pub unsupported_bind : Pointer → Do (Unit {0})
unfolding open_stmt
unsupported_bind stmt = do open_stmt stmt; raise unsupported

module _ (sdk : Sdk) where
  unfoldable pub close : Pointer → Do (Unit {0})
  unfolding cross checked
  close none s = (ok tt, s)
  close (some i) s = if is_nil (stmt_at s i).conn then (ok tt, s) else elim (stmt_at s i).ptr [
    | none ↦ (ok tt, s)
    | some h ↦
        (do
          modify (forget i)
          r ← cross sdk (Call.stmt_close h)
          modify (λ t. set_children (dec t.conn.children) t)
          checked sdk r.code)
          s
  ]

  unfoldable pub call : Pointer → (ℕ → Call) → Do (Unit {0})
  unfolding open_stmt cross checked
  call stmt native_call = do h ← open_stmt stmt; r ← cross sdk (native_call h); checked sdk r.code

  unfoldable pub bind_int64 : Pointer → ℤ → ℤ → Do (Unit {0})
  unfolding call
  bind_int64 stmt index value = call stmt (λ h. Call.stmt_bind_int64 h (c_int index) value)

  unfoldable pub bind_double : Pointer → ℤ → ℕ → Do (Unit {0})
  unfolding call
  bind_double stmt index bits = do
    return_if (is_nan bits || is_inf bits) invalid_argument
    call stmt (λ h. Call.stmt_bind_double h (c_int index) bits)

  -- `binder` gets the bytes and `C.int(len(value))`.
  unfoldable pub bind_bytes : Pointer → ℤ → Bytes → (ℕ → ℤ → Bytes → ℤ → Call) → Do (Unit {0})
  unfolding call
  bind_bytes stmt index value binder = do
    return_if (not (positive index)) invalid_argument
    call stmt (λ h. binder h (c_int index) value (c_int (pos (length value))))

  unfoldable pub bind_text : Pointer → ℤ → Bytes → Do (Unit {0})
  unfolding bind_bytes
  bind_text stmt index value = bind_bytes stmt index value Call.stmt_bind_text

  unfoldable pub bind_blob : Pointer → ℤ → Bytes → Do (Unit {0})
  unfolding bind_bytes unsupported_bind
  bind_blob stmt index value = do
    return_if (not (positive index)) invalid_argument
    if is_empty value
        then unsupported_bind stmt
        else bind_bytes stmt index value Call.stmt_bind_blob

  unfoldable pub bind_null : Pointer → ℤ → Do (Unit {0})
  unfolding call
  bind_null stmt index = call stmt (λ h. Call.stmt_bind_null h (c_int index))

  unfoldable pub bind_zero_blob : Pointer → ℤ → ℤ → Do (Unit {0})
  unfolding call
  bind_zero_blob stmt index size = do
    return_if (not (positive index) || negative size) invalid_argument
    call stmt (λ h. Call.stmt_bind_zeroblob h (c_int index) (c_int size))

  unfoldable pub exec : Pointer → Do (Unit {0})
  unfolding call
  exec stmt = call stmt Call.stmt_execute

  unfoldable pub query : Pointer → Do ℕ
  unfolding open_stmt cross native_error new_rows
  query stmt = do
    h ← open_stmt stmt
    r ← cross sdk (Call.stmt_query h)
    if r.code ==ℤ csqlgo_ok then new_rows else native_error sdk r.code
