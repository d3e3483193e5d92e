-- ===== src/Core/Query.antt =====
-- `(*Stmt).query` of cubesql/stmt.go and `(*Conn).QueryContext` of cubesql/conn.go.
use cubesql_go_driver.Prelude.{
  ℕ, ℤ, pos, Bool, true, false, some, Bytes, List, [], ◌∷◌, is_empty, if◌then◌else◌, inc,
}
use cubesql_go_driver.Prelude.Action.{attempt, ok, pure, return_if, gets, ◌>>=◌, ◌>>◌, on_error}
use cubesql_go_driver.Csdk.Types.{Ref, Sdk, Pointer}
use cubesql_go_driver.Csdk
use cubesql_go_driver.Core.Errors.{Sentinel, plain}
use cubesql_go_driver.Core.Types.{World, Context, stmt_at, rows_at}
use cubesql_go_driver.Core.Act.{Act, context_error, publicly}
use cubesql_go_driver.Core.Bind.{Any}
use cubesql_go_driver.Core.Conn.{set_children, connected, no_children, add_child, prepare_context}
use cubesql_go_driver.Core.Stmt.{ready, set_rows}
use cubesql_go_driver.Core.Stmt
use cubesql_go_driver.Core.Rows.{put_rows, new_rows_context}
use cubesql_go_driver.Core.Rows

-- `rows.parentConn`, `rows.parentStmt` and `rows.closeStmt`
abbrev pub attach : ℕ → Ref → Pointer → Bool → World → World
attach i conn stmt close_stmt w =
    put_rows i
      (record (rows_at w i) { parent_conn = conn; parent_stmt = stmt; close_stmt = close_stmt }) w

-- `conn.children++` and `rows.parentConn = conn`
unfoldable pub adopt : Ref → ℕ → Act ℕ
adopt conn i w =
    let v = set_children (inc w.conn.children) w in
    (ok i, put_rows i (record (rows_at v i) { parent_conn = conn }) v)

-- `stmt.rows++` and the parents of the cursor, after the connection has counted it.
unfoldable pub link : ℕ → Ref → ℕ → Bool → Act ℕ
link rows conn i close_stmt w =
    (ok rows, attach rows conn (some i) close_stmt (set_rows i (inc (stmt_at w i).rows) w))

module _ (sdk : Sdk) where
  -- `if closeWithRows { stmt.Close() }`
  unfoldable pub close_if : Bool → ℕ → Act (Unit {0})
  close_if true i = Stmt.close sdk (some i)
  close_if false i = pure tt

  unfoldable pub stmt_query : Context → Pointer → Bool → Act ℕ
  unfolding ready add_child close_if link
  stmt_query ctx stmt close_with_rows = do
    context_error ctx
    i ← ready stmt
    context_error ctx
    native ← gets (λ w. (stmt_at w i).native)
    handle ← publicly (Csdk.Stmt.query sdk native)
    rows ← on_error (new_rows_context sdk ctx handle) (close_if close_with_rows i)
    conn ← gets (λ w. (stmt_at w i).conn)
    on_error (add_child conn) (do attempt (Rows.close sdk (some rows)); close_if close_with_rows i)
    link rows conn i close_with_rows

  unfoldable pub query_plain : Context → Ref → Bytes → Act ℕ
  unfolding connected no_children adopt
  query_plain ctx conn query = do
    connected conn
    no_children
    context_error ctx
    native ← gets (λ w. w.conn.native)
    handle ← publicly (Csdk.Conn.query sdk native query)
    rows ← new_rows_context sdk ctx handle
    adopt conn rows

  -- The loop over `args`.
  unfoldable pub bind_all : Context → ℕ → ℤ → List Any → Act (Unit {0})
  bind_all ctx stmt index [] = pure tt
  bind_all ctx stmt index (value ∷ args) =
      let rest = bind_all ctx stmt (inc index) args in
      do context_error ctx; Stmt.bind sdk (some stmt) index value; rest

  -- Every error after the preparation closes the statement.
  unfoldable pub query_prepared : Context → Ref → Bytes → List Any → Act ℕ
  unfolding bind_all stmt_query
  query_prepared ctx conn query args = do
    stmt ← prepare_context sdk ctx conn query
    on_error (do bind_all ctx stmt (pos 1) args; context_error ctx; stmt_query ctx (some stmt) true)
        (Stmt.close sdk (some stmt))

  unfoldable pub query_context : Context → Ref → Bytes → List Any → Act ℕ
  unfolding query_plain query_prepared
  query_context ctx conn query args = do
    context_error ctx
    return_if (is_empty query) (plain Sentinel.invalid_argument)
    if is_empty args then query_plain ctx conn query else query_prepared ctx conn query args
