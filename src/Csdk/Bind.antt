-- ===== src/Csdk/Bind.antt =====
-- `Bind` of internal/csdk/csdk.go: the arguments of a one-shot execution, held in C memory.
use cubesql_go_driver.Prelude.{
  ℕ, ℤ, pos, not, ◌||◌, none, some, [], ◌∷◌, ◌++◌, Bytes, is_empty, is_none, c_string,
  if◌then◌else◌, ◌==ℤ◌, positive, negative, set, get_or, length,
}
use cubesql_go_driver.Prelude.Action.{ok, err, pure, raise, return_if, modify, ◌>>=◌, ◌>>◌}
use cubesql_go_driver.Csdk.Types.{
  Ref, closed, invalid_argument, unsupported, native, Call, Sdk, Native, Do, Pointer, csqlgo_ok,
  csqlgo_err_invalid, csqlgo_err_memory, cross, new_handle,
}
use cubesql_go_driver.Csdk.Convert.{c_int, is_nan, is_inf}
use cubesql_go_driver.Csdk.Conn.{connected, checked}

abbrev bind_at : Native → ℕ → Pointer
bind_at s i = get_or s.binds i none

-- A nil or closed `*Bind` is refused; the result is its C allocation.
unfoldable pub open_bind : Pointer → Do ℕ
open_bind none s = (err closed, s)
open_bind (some i) s = elim (bind_at s i) [ none ↦ (err closed, s) | some h ↦ (ok h, s) ]

unfoldable pub unsupported_bind : Pointer → Do (Unit {0})
unfolding open_bind
unsupported_bind bind = do open_bind bind; raise unsupported

module _ (sdk : Sdk) where
  unfoldable pub new_bind : ℤ → Do ℕ
  unfolding cross
  new_bind count = do
    return_if (not (positive count)) invalid_argument
    r ← cross sdk (Call.bind_new (c_int count))
    (if r.is_set
        then (λ s. (ok (length s.binds), record s { binds = s.binds ++ some (new_handle s) ∷ [] }))
        else raise (native csqlgo_err_memory []))

  unfoldable pub close : Pointer → Do (Unit {0})
  unfolding cross
  close none s = (ok tt, s)
  close (some i) s = elim (bind_at s i) [
    | none ↦ (ok tt, s)
    | some h ↦
        (do
          modify (λ t. record t { binds = set t.binds i none })
          cross sdk (Call.bind_close h)
          pure tt)
          s
  ]

  -- `set`: the setter's result as an error.
  unfoldable pub set_with : Pointer → (ℕ → Call) → Do (Unit {0})
  unfolding open_bind cross
  set_with bind setter = do
    h ← open_bind bind
    r ← cross sdk (setter h)
    return_if (r.code ==ℤ csqlgo_err_invalid) invalid_argument
    return_if (not (r.code ==ℤ csqlgo_ok)) (native r.code [])

  unfoldable pub set_bytes : Pointer → ℤ → Bytes → (ℕ → ℤ → Bytes → ℤ → Call) → Do (Unit {0})
  unfolding set_with
  set_bytes bind index value setter = do
    return_if (not (positive index)) invalid_argument
    set_with bind (λ h. setter h (c_int index) value (c_int (pos (length value))))

  unfoldable pub set_int64 : Pointer → ℤ → ℤ → Do (Unit {0})
  unfolding set_with
  set_int64 bind index value = set_with bind (λ h. Call.bind_set_int64 h (c_int index) value)

  unfoldable pub set_double : Pointer → ℤ → ℕ → Do (Unit {0})
  unfolding set_with
  set_double bind index bits = do
    return_if (is_nan bits || is_inf bits) invalid_argument
    set_with bind (λ h. Call.bind_set_double h (c_int index) bits)

  unfoldable pub set_text : Pointer → ℤ → Bytes → Do (Unit {0})
  unfolding set_bytes
  set_text bind index value = set_bytes bind index value Call.bind_set_text

  unfoldable pub set_blob : Pointer → ℤ → Bytes → Do (Unit {0})
  unfolding set_bytes unsupported_bind
  set_blob bind index value = do
    return_if (not (positive index)) invalid_argument
    if is_empty value then unsupported_bind bind else set_bytes bind index value Call.bind_set_blob

  unfoldable pub set_null : Pointer → ℤ → Do (Unit {0})
  unfolding set_with
  set_null bind index = set_with bind (λ h. Call.bind_set_null h (c_int index))

  unfoldable pub set_zero_blob : Pointer → ℤ → ℤ → Do (Unit {0})
  unfolding unsupported_bind
  set_zero_blob bind index size = do
    return_if (not (positive index) || negative size) invalid_argument
    unsupported_bind bind

  -- `Conn.ExecBind`
  unfoldable pub exec_bind : Ref → Bytes → Pointer → Do (Unit {0})
  unfolding connected open_bind cross checked
  exec_bind conn sql bind = do
    return_if (is_empty sql || is_none bind) invalid_argument
    h ← connected conn
    b ← open_bind bind
    r ← cross sdk (Call.conn_execute_bind h (c_string sql) b)
    checked sdk r.code
