-- ===== src/Core/Stmt.antt =====
-- cubesql/stmt.go, without the query (Core/Query.antt).
use cubesql_go_driver.Prelude.{
  ℕ, ℤ, Bool, false, not, ◌||◌, none, some, is_none, if◌then◌else◌, dec, nonzero, positive, set,
}
use cubesql_go_driver.Prelude.Action.{attempt, ok, err, return_if, gets, modify, lift, ◌>>=◌, ◌>>◌}
use cubesql_go_driver.Csdk.Types.{is_nil, Sdk, Pointer}
use cubesql_go_driver.Csdk
use cubesql_go_driver.Core.Errors.{Sentinel, plain}
use cubesql_go_driver.Core.Types.{World, Context, Result, Stmt, stmt_at}
use cubesql_go_driver.Core.Act.{Act, context_error, publicly}
use cubesql_go_driver.Core.Bind.{Any, set_prepared}
use cubesql_go_driver.Core.Conn.{set_children, release_child, result_for_context}

-- Writes to the statement at an address.
abbrev pub put_stmt : ℕ → Stmt → World → World
put_stmt i stmt w = record w { stmts = set w.stmts i stmt }

abbrev pub set_handle : ℕ → Pointer → World → World
set_handle i p w = put_stmt i (record (stmt_at w i) { native = p }) w

abbrev pub set_rows : ℕ → ℤ → World → World
set_rows i n w = put_stmt i (record (stmt_at w i) { rows = n }) w

abbrev pub unregister : ℕ → World → World
unregister i w = put_stmt i (record (stmt_at w i) { registered = false }) w

-- `if stmt.registered { stmt.registered = false; stmt.conn.releaseChild() }`
unfoldable pub release_registration : ℕ → Act (Unit {0})
unfolding release_child
release_registration i w =
    if (stmt_at w i).registered
    then (do modify (unregister i); release_child (stmt_at w i).conn) w
    else (ok tt, w)

-- `if stmt.registered { stmt.registered = false; stmt.conn.children-- }`
unfoldable pub drop_registration : ℕ → World → World
drop_registration i w =
    if (stmt_at w i).registered then set_children (dec w.conn.children) (unregister i w) else w

-- The guards of Bind's `call`, and of `query`: the native statement of an open statement without rows.
unfoldable pub ready : Pointer → Act ℕ
ready none w = (err (plain Sentinel.closed), w)
ready (some i) w =
    if is_none (stmt_at w i).native
    then (err (plain Sentinel.closed), w)
    else if nonzero (stmt_at w i).rows
    then (err (plain Sentinel.busy), w)
    else (ok i, w)

-- The guards of ExecContext and ResetContext, which look at the connection too.
unfoldable pub ready_on_conn : Pointer → Act ℕ
ready_on_conn none w = (err (plain Sentinel.closed), w)
ready_on_conn (some i) w =
    if is_none (stmt_at w i).native || is_nil (stmt_at w i).conn
    then (err (plain Sentinel.closed), w)
    else if nonzero (stmt_at w i).rows
    then (err (plain Sentinel.busy), w)
    else if is_nil w.conn.native
    then (err (plain Sentinel.closed), w)
    else (ok i, w)

-- `if err != nil`, with the registration dropped on the way out.
unfoldable pub or_drop : {A : Type 0} → ℕ → Act A → Act A
unfolding drop_registration
or_drop i m w =
    let (r, w') = m w in elim r [ ok a ↦ (ok a, w') | err e ↦ (err e, drop_registration i w') ]

-- `if stmt.rows > 0 { stmt.rows-- }`
unfoldable pub one_row_less : ℕ → World → World
one_row_less i w = if positive (stmt_at w i).rows then set_rows i (dec (stmt_at w i).rows) w else w

module _ (sdk : Sdk) where
  -- `native := stmt.native; stmt.native = nil; err := publicError(native.Close())` and the release.
  unfoldable pub finalize : ℕ → Act (Unit {0})
  unfolding release_registration
  finalize i = do
    native ← gets (λ w. (stmt_at w i).native)
    modify (set_handle i none)
    closing ← attempt (publicly (Csdk.Stmt.close sdk native))
    release_registration i
    lift closing

  unfoldable pub close : Pointer → Act (Unit {0})
  unfolding finalize
  close none w = (ok tt, w)
  close (some i) w =
      if is_none (stmt_at w i).native
      then (ok tt, w)
      else if nonzero (stmt_at w i).rows
      then (err (plain Sentinel.busy), w)
      else finalize i w

  unfoldable pub bind : Pointer → ℤ → Any → Act (Unit {0})
  unfolding ready
  bind stmt index value = do
    return_if (not (positive index)) (plain Sentinel.invalid_argument)
    i ← ready stmt
    native ← gets (λ w. (stmt_at w i).native)
    set_prepared sdk native index value

  unfoldable pub exec_context : Context → Pointer → Act Result
  unfolding ready_on_conn
  exec_context ctx stmt = do
    context_error ctx
    i ← ready_on_conn stmt
    context_error ctx
    native ← gets (λ w. (stmt_at w i).native)
    publicly (Csdk.Stmt.exec sdk native)
    result_for_context sdk ctx

  unfoldable pub reset_context : Context → Pointer → Act (Unit {0})
  unfolding ready_on_conn or_drop
  reset_context ctx stmt = do
    context_error ctx
    i ← ready_on_conn stmt
    context_error ctx
    previous ← gets (λ w. (stmt_at w i).native)
    modify (set_handle i none)
    or_drop i (publicly (Csdk.Stmt.close sdk previous))
    or_drop i (context_error ctx)
    native ← gets (λ w. w.conn.native)
    text ← gets (λ w. (stmt_at w i).query_text)
    replacement ← or_drop i (publicly (Csdk.Conn.prepare sdk native text))
    modify (set_handle i (some replacement))

  unfoldable pub release_row : ℕ → Bool → Act (Unit {0})
  unfolding one_row_less finalize
  release_row i close_statement = do
    modify (one_row_less i)
    (λ w.
        if not close_statement || is_none (stmt_at w i).native
        then (ok tt, w)
        else if nonzero (stmt_at w i).rows
        then (err (plain Sentinel.busy), w)
        else finalize i w)
