-- ===== src/Csdk/Rows.antt =====
-- `Rows` of internal/csdk/csdk.go: a native cursor.
use cubesql_go_driver.Prelude.{
  ℕ, ℤ, pos, not, ◌||◌, Option, none, some, [], Bytes, is_none, if◌then◌else◌, ◌==ℤ◌, dec, positive,
  negative, set,
}
use cubesql_go_driver.Prelude.Action.{ok, err, pure, raise, return_if, modify, ◌>>=◌, ◌>>◌}
use cubesql_go_driver.Csdk.Types.{
  is_nil, closed, invalid_argument, native, Call, Sdk, Native, Do, Pointer, csqlgo_ok,
  csqlgo_field_null, cross, row_at,
}
use cubesql_go_driver.Csdk.Convert.{c_int}
use cubesql_go_driver.Csdk.Conn.{set_children}

-- `rows.ptr = nil`, and `rows.conn.children--`, around the call that frees the cursor.
abbrev pub forget : ℕ → Native → Native
forget i s = record s { rows = set s.rows i (record (row_at s i) { ptr = none }) }

-- The guards of Seek, number and copyField; the result is the cursor.
unfoldable pub open_cursor : Pointer → Do ℕ
open_cursor none s = (err closed, s)
open_cursor (some i) s =
    if is_nil (row_at s i).conn || is_none s.conn.ptr
    then (err closed, s)
    else elim (row_at s i).ptr [ none ↦ (err closed, s) | some h ↦ (ok h, s) ]

module _ (sdk : Sdk) where
  unfoldable pub close : Pointer → Do (Unit {0})
  unfolding cross
  close none s = (ok tt, s)
  close (some i) s = if is_nil (row_at s i).conn then (ok tt, s) else elim (row_at s i).ptr [
    | none ↦ (ok tt, s)
    | some h ↦
        (do
          modify (forget i)
          cross sdk (Call.cursor_close h)
          modify (λ t. set_children (dec t.conn.children) t)
          pure tt)
          s
  ]

  -- `int(value)` of a C `int`, or the error that a negative one stands for.
  unfoldable pub number : Pointer → (ℕ → Call) → Do ℤ
  unfolding open_cursor cross
  number rows native_call = do
    h ← open_cursor rows
    r ← cross sdk (native_call h)
    if negative r.code then raise (native r.code []) else pure r.code

  unfoldable pub num_rows : Pointer → Do ℤ
  unfolding number
  num_rows rows = number rows Call.cursor_num_rows

  unfoldable pub num_columns : Pointer → Do ℤ
  unfolding number
  num_columns rows = number rows Call.cursor_num_columns

  unfoldable pub column_type : Pointer → ℤ → Do ℤ
  unfolding number
  column_type rows column = do
    return_if (not (positive column)) invalid_argument
    number rows (λ h. Call.cursor_column_type h (c_int column))

  unfoldable pub seek : Pointer → ℤ → Do (Unit {0})
  unfolding open_cursor cross
  seek rows row = do
    return_if (not (positive row)) invalid_argument
    h ← open_cursor rows
    r ← cross sdk (Call.cursor_seek h (c_int row))
    return_if (r.code ==ℤ pos 0) invalid_argument

  -- `none` is a NULL field.
  unfoldable pub copy_field : Pointer → (ℕ → Call) → Do (Option Bytes)
  unfolding open_cursor cross
  copy_field rows native_call = do
    h ← open_cursor rows
    r ← cross sdk (native_call h)
    if r.code ==ℤ csqlgo_field_null
        then pure none
        else if r.code ==ℤ csqlgo_ok
        then pure (some r.bytes)
        else raise (native r.code [])

  unfoldable pub field : Pointer → ℤ → ℤ → Do (Option Bytes)
  unfolding copy_field
  field rows row column = do
    return_if (not (positive row) || not (positive column)) invalid_argument
    copy_field rows (λ h. Call.cursor_copy_field h (c_int row) (c_int column))

  abbrev pub name_or_invalid : Option Bytes → Do Bytes
  name_or_invalid none = raise invalid_argument
  name_or_invalid (some name) = pure name

  unfoldable pub column_name : Pointer → ℤ → Do Bytes
  unfolding copy_field
  column_name rows column = do
    return_if (not (positive column)) invalid_argument
    value ← copy_field rows (λ h. Call.cursor_copy_column_name h (c_int column))
    name_or_invalid value
