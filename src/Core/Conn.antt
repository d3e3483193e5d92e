-- ===== src/Core/Conn.antt =====
-- cubesql/conn.go, without the queries (Core/Query.antt), and cubesql/result.go.
use cubesql_go_driver.Prelude.{
  ℕ, ℤ, pos, true, false, ◌||◌, some, List, [], ◌∷◌, ◌++◌, Bytes, is_empty, if◌then◌else◌, inc, dec,
  nonzero, positive, length,
}
use cubesql_go_driver.Prelude.Action.{
  attempt, Outcome, ok, err, pure, lift, return_if, gets, modify, ◌>>=◌, ◌>>◌, deferring,
}
use cubesql_go_driver.Csdk.Types.{Ref, is_nil, Sdk, Do}
use cubesql_go_driver.Csdk
use cubesql_go_driver.Core.Errors.{Sentinel, Error, plain}
use cubesql_go_driver.Core.Types.{World, Context, Result, Stmt}
use cubesql_go_driver.Core.Act.{Act, context_error, publicly, error_of, number_of}
use cubesql_go_driver.Core.Options.{Options, native}
use cubesql_go_driver.Core.Bind.{Any, set_one_shot, set_prepared, has_empty_blob}

-- `if conn == nil { return ErrClosed }` and `if conn.native == nil { return ErrClosed }`
unfoldable pub connected : Ref → Act (Unit {0})
connected Ref.nil w = (err (plain Sentinel.closed), w)
connected Ref.self w = if is_nil w.conn.native then (err (plain Sentinel.closed), w) else (ok tt, w)

-- `if conn.children != 0 { return ErrBusy }`
unfoldable pub no_children : Act (Unit {0})
no_children w = if nonzero w.conn.children then (err (plain Sentinel.busy), w) else (ok tt, w)

-- `if conn.txActive || conn.children != 0 { return ErrBusy }`
unfoldable pub idle : Act (Unit {0})
idle w =
    if w.conn.tx_active || nonzero w.conn.children
    then (err (plain Sentinel.busy), w)
    else (ok tt, w)

abbrev pub set_children : ℤ → World → World
set_children n w = record w { conn = record w.conn { children = n } }

abbrev pub set_native : Ref → World → World
set_native r w = record w { conn = record w.conn { native = r } }

unfoldable pub add_child : Ref → Act (Unit {0})
unfolding connected
add_child conn = do connected conn; modify (λ w. set_children (inc w.conn.children) w)

unfoldable pub release_child : Ref → Act (Unit {0})
release_child Ref.nil w = (ok tt, w)
release_child Ref.self w =
    if positive w.conn.children then (ok tt, set_children (dec w.conn.children) w) else (ok tt, w)

-- `conn.children++` and the new `&Stmt{…}` of PrepareContext
unfoldable pub new_stmt : Ref → ℕ → Bytes → Act ℕ
new_stmt conn stmt query w =
    let made : Stmt = record {
      conn = conn;
      native = some stmt;
      query_text = query;
      rows = pos 0;
      registered = true;
    } in
    (
      ok (length w.stmts),
      record (set_children (inc w.conn.children) w) { stmts = w.stmts ++ made ∷ [] },
    )

module _ (sdk : Sdk) where
  -- On success the connection of the model is the new one.
  unfoldable pub open_context : Context → Options → Act Ref
  open_context ctx options = do
    context_error ctx
    native_options ← lift (native options)
    native ← publicly (Csdk.Conn.open_conn sdk native_options)
    modify
        (λ w. record w { conn = record { native = native; tx_active = false; children = pos 0 } })
    pure Ref.self

  unfoldable pub close : Ref → Act (Unit {0})
  unfolding idle
  close Ref.nil w = (ok tt, w)
  close Ref.self w =
      if is_nil w.conn.native
      then (ok tt, w)
      else (do idle; publicly (Csdk.Conn.close sdk w.conn.native); modify (set_native Ref.nil)) w

  -- `call`: the closure's own error is public already, so publicError returns it as it is.
  unfoldable pub call : Ref → Act (Unit {0}) → Act (Unit {0})
  unfolding connected
  call conn body = do connected conn; body

  unfoldable pub ping_context : Context → Ref → Act (Unit {0})
  unfolding call
  ping_context ctx conn = do
    context_error ctx
    call conn (do
      context_error ctx
      native ← gets (λ w. w.conn.native)
      publicly (Csdk.Conn.ping sdk native))

  unfoldable pub set_database_context : Context → Ref → Bytes → Act (Unit {0})
  unfolding connected idle
  set_database_context ctx conn name = do
    context_error ctx
    connected conn
    idle
    context_error ctx
    native ← gets (λ w. w.conn.native)
    publicly (Csdk.Conn.set_database sdk native name)

  unfoldable pub metric : Ref → (Ref → Do ℤ) → Act ℤ
  unfolding connected no_children
  metric conn read = do
    connected conn
    no_children
    native ← gets (λ w. w.conn.native)
    publicly (read native)

  unfoldable pub affected_rows : Ref → Act ℤ
  unfolding metric
  affected_rows conn = metric conn (Csdk.Conn.affected_rows sdk)

  unfoldable pub last_insert_id : Ref → Act ℤ
  unfolding metric
  last_insert_id conn = metric conn (Csdk.Conn.last_insert_id sdk)

  unfoldable pub changes : Ref → Act ℤ
  unfolding metric
  changes conn = metric conn (Csdk.Conn.changes sdk)

  abbrev pub both_failed : Error → Act Result
  both_failed e = pure (record {
    rows_affected = pos 0;
    rows_error = some e;
    last_insert_id = pos 0;
    last_error = some e;
  })

  abbrev pub with_last : Context → Outcome Error ℤ → Outcome Error (Unit {0}) → Act Result
  with_last ctx rows (err e) = pure (record {
    rows_affected = number_of rows;
    rows_error = error_of rows;
    last_insert_id = pos 0;
    last_error = some e;
  })
  with_last ctx rows (ok _) = do
    native ← gets (λ w. w.conn.native)
    last ← attempt (publicly (Csdk.Conn.last_insert_id sdk native))
    pure (record {
      rows_affected = number_of rows;
      rows_error = error_of rows;
      last_insert_id = number_of last;
      last_error = error_of last;
    })

  abbrev pub with_rows : Context → Outcome Error (Unit {0}) → Act Result
  with_rows ctx (err e) = both_failed e
  with_rows ctx (ok _) = do
    native ← gets (λ w. w.conn.native)
    rows ← attempt (publicly (Csdk.Conn.affected_rows sdk native))
    again ← attempt (context_error ctx)
    with_last ctx rows again

  -- resultForContext, for `conn.native`
  unfoldable pub result_for_context : Context → Act Result
  result_for_context ctx = do first ← attempt (context_error ctx); with_rows ctx first

  -- The loops over `args` in ExecContext: the context is looked at before each one.
  unfoldable pub set_all : Context → (ℤ → Any → Act (Unit {0})) → ℤ → List Any → Act (Unit {0})
  set_all ctx set_arg index [] = pure tt
  set_all ctx set_arg index (value ∷ args) =
      let rest = set_all ctx set_arg (inc index) args in
      do context_error ctx; set_arg index value; rest

  -- The three ways to execute.
  unfoldable pub exec_plain : Context → Bytes → Act Result
  unfolding result_for_context
  exec_plain ctx query = do
    context_error ctx
    native ← gets (λ w. w.conn.native)
    publicly (Csdk.Conn.exec sdk native query)
    result_for_context ctx

  unfoldable pub exec_prepared : Context → Bytes → List Any → Act Result
  unfolding result_for_context set_all
  exec_prepared ctx query args = do
    context_error ctx
    native ← gets (λ w. w.conn.native)
    stmt ← publicly (Csdk.Conn.prepare sdk native query)
    deferring
        (do
          set_all ctx (set_prepared sdk (some stmt)) (pos 1) args
          context_error ctx
          publicly (Csdk.Stmt.exec sdk (some stmt))
          result_for_context ctx)
        (publicly (Csdk.Stmt.close sdk (some stmt)))

  unfoldable pub exec_one_shot : Context → Bytes → List Any → Act Result
  unfolding result_for_context set_all
  exec_one_shot ctx query args = do
    context_error ctx
    bind ← publicly (Csdk.Bind.new_bind sdk (pos (length args)))
    deferring
        (do
          set_all ctx (set_one_shot sdk (some bind)) (pos 1) args
          context_error ctx
          native ← gets (λ w. w.conn.native)
          publicly (Csdk.Bind.exec_bind sdk native query (some bind))
          result_for_context ctx)
        (publicly (Csdk.Bind.close sdk (some bind)))

  unfoldable pub exec_context : Context → Ref → Bytes → List Any → Act Result
  unfolding connected no_children exec_plain exec_prepared exec_one_shot
  exec_context ctx conn query args = do
    context_error ctx
    return_if (is_empty query) (plain Sentinel.invalid_argument)
    connected conn
    no_children
    if is_empty args
        then exec_plain ctx query
        else if has_empty_blob args
        then exec_prepared ctx query args
        else exec_one_shot ctx query args

  unfoldable pub prepare_context : Context → Ref → Bytes → Act ℕ
  unfolding connected no_children new_stmt
  prepare_context ctx conn query = do
    context_error ctx
    return_if (is_empty query) (plain Sentinel.invalid_argument)
    connected conn
    no_children
    context_error ctx
    native ← gets (λ w. w.conn.native)
    stmt ← publicly (Csdk.Conn.prepare sdk native query)
    new_stmt conn stmt query
