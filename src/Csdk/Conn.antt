-- ===== src/Csdk/Conn.antt =====
-- `Conn` of internal/csdk/csdk.go.
use cubesql_go_driver.Prelude.{
  ℕ, ℤ, pos, Bool, not, ◌&&◌, ◌||◌, none, some, [], ◌∷◌, ◌++◌, Bytes, is_empty, c_string,
  if◌then◌else◌, ◌==ℤ◌, inc, nonzero, negative, length, ascii,
}
use cubesql_go_driver.Prelude.Action.{ok, err, pure, raise, return_if, modify, ◌>>=◌, ◌>>◌}
use cubesql_go_driver.Csdk.Types.{
  Ref, nil, self, closed, busy, invalid_argument, native, Options, Call, Sdk, Native, Child, Do,
  Pointer, csqlgo_ok, csqlgo_err_invalid, cross, new_handle,
}
use cubesql_go_driver.Csdk.Convert.{c_int}

-- csdk.EncryptionClear and csdk.EncryptionAES256
abbrev pub encryption_clear : ℤ
encryption_clear = pos 0

abbrev pub encryption_aes256 : ℤ
encryption_aes256 = pos 4

-- The defaults that `Open` fills in.
unfoldable pub with_defaults : Options → Options
with_defaults o = record o {
  host = if is_empty o.host then ascii "localhost" else o.host;
  port = if o.port ==ℤ pos 0 then pos 4430 else o.port;
  timeout = if o.timeout ==ℤ pos 0 then pos 12 else o.timeout;
}

-- The guards of `Open`, after the defaults.
unfoldable pub refused : Options → Bool
refused o =
    (is_empty o.username || negative o.port || negative o.timeout)
    || not (o.encryption ==ℤ encryption_clear) && not (o.encryption ==ℤ encryption_aes256)

abbrev set_ptr : Pointer → Native → Native
set_ptr p s = record s { conn = record s.conn { ptr = p } }

abbrev pub set_children : ℤ → Native → Native
set_children n s = record s { conn = record s.conn { children = n } }

-- The guards that open every method: a nil receiver, or a closed one.
unfoldable pub connected : Ref → Do ℕ
connected nil s = (err closed, s)
connected self s = elim s.conn.ptr [ none ↦ (err closed, s) | some h ↦ (ok h, s) ]

-- `conn.children++` and `&Rows{conn: conn, ptr: cursor}`, for the cursor that C just returned.
unfoldable pub new_rows : Do ℕ
new_rows s =
    let made : Child = record { conn = self; ptr = some (new_handle s) } in
    (
      ok (length s.rows),
      record (set_children (inc s.conn.children) s) { rows = s.rows ++ made ∷ [] },
    )

unfoldable pub new_stmt : Do ℕ
new_stmt s =
    let made : Child = record { conn = self; ptr = some (new_handle s) } in
    (
      ok (length s.stmts),
      record (set_children (inc s.conn.children) s) { stmts = s.stmts ++ made ∷ [] },
    )

module _ (sdk : Sdk) where
  -- `C.csqlgo_conn_error_code(conn.ptr)`; bridge.c answers for a null pointer itself.
  unfoldable pub error_code : Pointer → Do ℤ
  unfolding cross
  error_code none = pure csqlgo_err_invalid
  error_code (some h) = do r ← cross sdk (Call.conn_error_code h); pure r.code

  unfoldable pub error_message_copy : Pointer → Do Bytes
  unfolding cross
  error_message_copy none = pure []
  error_message_copy (some h) = do
    r ← cross sdk (Call.conn_error_message_copy h)
    pure (if r.is_set then c_string r.bytes else [])

  -- The error that nativeErrorLocked builds, raised: every caller returns it.
  unfoldable pub native_error : {A : Type 0} → ℤ → Do A
  unfolding error_code error_message_copy
  native_error fallback s =
      (do
        code ← error_code s.conn.ptr
        message ← error_message_copy s.conn.ptr
        raise (
            native (if code ==ℤ pos 0 || code ==ℤ csqlgo_err_invalid then fallback else code)
              message))
        s

  -- `if result != C.CSQLGO_OK { return conn.nativeErrorLocked(int(result)) }`
  unfoldable pub checked : ℤ → Do (Unit {0})
  unfolding native_error
  checked result = if result ==ℤ csqlgo_ok then pure tt else native_error result

  unfoldable pub call : Ref → (ℕ → Call) → Do (Unit {0})
  unfolding connected cross checked
  call conn native_call = do h ← connected conn; r ← cross sdk (native_call h); checked r.code

  unfoldable pub metric : Ref → (ℕ → Call) → Do ℤ
  unfolding connected cross error_code native_error
  metric conn native_call = do
    h ← connected conn
    r ← cross sdk (native_call h)
    code ← error_code (some h)
    if code ==ℤ csqlgo_ok then pure r.code else native_error code

  -- `Open`. On success the connection of the model is the new one.
  unfoldable pub open_conn : Options → Do Ref
  unfolding with_defaults refused cross
  open_conn given = do
    let options = with_defaults given
    return_if (refused options) invalid_argument
    r ← cross sdk (
        Call.conn_open (c_string options.host) (c_int options.port) (c_string options.username)
          (c_string options.password) (c_int options.timeout) (c_int options.encryption))
    (if r.code ==ℤ csqlgo_ok
        then (λ s.
            (ok self, record s { conn = record { ptr = some (new_handle s); children = pos 0 } }))
        else raise (native r.code (if r.is_set then c_string r.bytes else [])))

  unfoldable pub close : Ref → Do (Unit {0})
  unfolding cross
  close nil s = (ok tt, s)
  close self s = elim s.conn.ptr [
    | none ↦ (ok tt, s)
    | some h ↦
        if nonzero s.conn.children
        then (err busy, s)
        else (do modify (set_ptr none); cross sdk (Call.conn_close h); pure tt) s
  ]

  unfoldable pub ping : Ref → Do (Unit {0})
  unfolding call
  ping conn = call conn Call.conn_ping

  unfoldable pub exec : Ref → Bytes → Do (Unit {0})
  unfolding call
  exec conn sql = do
    return_if (is_empty sql) invalid_argument
    call conn (λ h. Call.conn_execute h (c_string sql))

  unfoldable pub set_database : Ref → Bytes → Do (Unit {0})
  unfolding call
  set_database conn name =
      call conn
        (λ h. Call.conn_set_database h (if is_empty name then none else some (c_string name)))

  unfoldable pub begin : Ref → Do (Unit {0})
  unfolding call
  begin conn = call conn Call.conn_begin

  unfoldable pub commit : Ref → Do (Unit {0})
  unfolding call
  commit conn = call conn Call.conn_commit

  unfoldable pub rollback : Ref → Do (Unit {0})
  unfolding call
  rollback conn = call conn Call.conn_rollback

  unfoldable pub changes : Ref → Do ℤ
  unfolding metric
  changes conn = metric conn Call.conn_changes

  unfoldable pub affected_rows : Ref → Do ℤ
  unfolding metric
  affected_rows conn = metric conn Call.conn_affected_rows

  unfoldable pub last_insert_id : Ref → Do ℤ
  unfolding metric
  last_insert_id conn = metric conn Call.conn_last_insert_id

  unfoldable pub query : Ref → Bytes → Do ℕ
  unfolding connected cross native_error new_rows
  query conn sql = do
    return_if (is_empty sql) invalid_argument
    h ← connected conn
    r ← cross sdk (Call.conn_query h (c_string sql))
    if r.code ==ℤ csqlgo_ok then new_rows else native_error r.code

  unfoldable pub prepare : Ref → Bytes → Do ℕ
  unfolding connected cross native_error new_stmt
  prepare conn sql = do
    return_if (is_empty sql) invalid_argument
    h ← connected conn
    r ← cross sdk (Call.conn_prepare h (c_string sql))
    if r.code ==ℤ csqlgo_ok then new_stmt else native_error r.code
