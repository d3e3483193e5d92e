-- ===== src/Core/Counts/Queries.antt =====
-- The methods that make cursors of a statement keep the counts right.
use cubesql_go_driver.Prelude.{
  ℕ, ℤ, pos, inc, Bool, true, false, some, List, [], ◌∷◌, ◌≡◌, arith, Bytes, is_empty,
}
use cubesql_go_driver.Prelude.Action.{Outcome, ok, err, gets, attempt, on_error, lift, ◌>>=◌, ◌>>◌}
use cubesql_go_driver.Csdk.Types.{Ref, Pointer, Sdk}
use cubesql_go_driver.Core.Errors.{Error}
use cubesql_go_driver.Core.Types.{World, Context, rows_at, stmt_at}
use cubesql_go_driver.Core.Act.{Act}
use cubesql_go_driver.Core.Bind.{Any}
use cubesql_go_driver.Core.Conn
use cubesql_go_driver.Core.Conn.{set_children}
use cubesql_go_driver.Core.Rows
use cubesql_go_driver.Core.Rows.{put_rows}
use cubesql_go_driver.Core.Query
use cubesql_go_driver.Core.Frame.{
  quiet_rules, Quiet-publicly, Quiet-context_error, Quiet-return_if, Quiet-gets,
}
use cubesql_go_driver.Core.Draft.{Draft, Built, new_rows-Built}
use cubesql_go_driver.Core.Counts.{
  Balanced, Balanced-Unchanged, Keeps, Keeps-bind, Keeps-Quiet, Keeps-attempt, Keeps-if,
  Keeps-on_error,
}
use cubesql_go_driver.Core.Counts.Stmts.{
  Keeps-close, Quiet-bind_value, Quiet-ready, set_rows-Balanced,
}
use cubesql_go_driver.Core.Counts.Cursors.{Keeps-close_rows}
use cubesql_go_driver.Core.Counts.Births.{Keeps-prepare_context, Keeps-query_plain, adopt-Balanced}

module _ (sdk : Sdk) where
  Draft-Balanced : {w v : World} {i : ℕ} → Draft w i v → Balanced w → Balanced v
  Draft-Balanced d b = record {
    counted = rw (d.conn, d.stmts, d.attachments) b.counted;
    owned = rw d.stmts b.owned;
    closed_empty = rw (d.conn, d.stmts, d.attachments) b.closed_empty;
    exclusive = rw (d.conn, d.txs) b.exclusive;
  }

  linked :
      {w v : World} {rows : ℕ} (conn : Ref) (i : ℕ) (close_stmt : Bool)
      → conn ≡ Ref.self
      → v.conn.native ≡ Ref.self
      → Balanced w
      → Draft w rows v
      → Balanced (Query.link rows conn i close_stmt (set_children (inc v.conn.children) v)).1
  unfolding Query.link
  linked {w} {v} {rows} conn i close_stmt own open_conn b d =
      set_rows-Balanced i (inc (stmt_at v i).rows) _ (
        adopt-Balanced
          (record (rows_at v rows) {
            parent_conn = conn;
            parent_stmt = some i;
            close_stmt = close_stmt;
          })
          own (rw d.conn at open_conn) b d)

  Keeps-close_if : (close : Bool) (i : ℕ) → Keeps (Query.close_if sdk close i)
  unfolding Query.close_if
  Keeps-close_if true i = Keeps-close sdk (some i)
  Keeps-close_if false i = Keeps-Quiet _ (search quiet_rules)

  -- The connection counts the new cursor, or everything is undone.
  attach_new :
      {w v : World} {rows : ℕ} (conn : Ref) (i : ℕ) (close_stmt : Bool) (cleanup : Act (Unit {0}))
      → Keeps cleanup
      → Balanced w
      → Draft w rows v
      → Balanced
          ((on_error (Conn.add_child conn) cleanup >>= λ _. Query.link rows conn i close_stmt) v).1
  unfolding on_error ◌>>=◌ Conn.add_child
  attach_new {w} {v} {rows} conn i close_stmt cleanup k b d =
      ground
        (arith, k.at v (Draft-Balanced d b), linked {w = w} {v = v} {rows = rows} conn i close_stmt)

  attach_after :
      {w : World} (i : ℕ) (close_stmt : Bool) (rows : ℕ) (v : World)
      → Balanced w
      → Draft w rows v
      → Balanced
          ((gets (λ x. (stmt_at x i).conn) >>= λ conn.
              on_error
                (Conn.add_child conn)
                (attempt (Rows.close sdk (some rows)) >> Query.close_if sdk close_stmt i)
              >>= λ _. Query.link rows conn i close_stmt)
            v).1
  attach_after {w} i close_stmt rows v b d =
      let conn = (stmt_at v i).conn in
      unfold ◌>>=◌ in
      attach_new {w = w} {v = v} {rows = rows} conn i close_stmt _
        (Keeps-bind _ _ (Keeps-attempt _ (Keeps-close_rows sdk (some rows)))
          λ _. Keeps-close_if close_stmt i)
        b d

  after-Built :
      {w : World} (i : ℕ) (close_stmt : Bool) (r : Outcome Error ℕ) (v : World) (rest : ℕ → Act ℕ)
      → ((rows : ℕ) → Draft w rows v → Balanced (rest rows v).1)
      → Balanced w
      → Built w (r, v)
      → Balanced ((on_error (lift r) (Query.close_if sdk close_stmt i) >>= rest) v).1
  unfolding on_error ◌>>=◌
  after-Built i close_stmt (ok rows) v rest k b d = k rows d
  after-Built i close_stmt (err e) v rest k b u =
      (Keeps-close_if close_stmt i).at v (Balanced-Unchanged u b)

  query_then_attach :
      (ctx : Context) (handle i : ℕ) (close_stmt : Bool) (rest : ℕ → Act ℕ) (w : World)
      → ((rows : ℕ) (v : World) → Draft w rows v → Balanced (rest rows v).1)
      → Balanced w
      → Balanced
          ((on_error (Rows.new_rows_context sdk ctx handle) (Query.close_if sdk close_stmt i)
              >>= rest)
            w).1
  unfolding on_error ◌>>=◌
  query_then_attach ctx handle i close_stmt rest w k b =
      let built = Rows.new_rows_context sdk ctx handle w in
      after-Built {w = w} i close_stmt built.0 built.1 rest (λ rows. k rows built.1) b
        (new_rows-Built sdk ctx handle w)

  pub Keeps-stmt_query :
      (ctx : Context) (stmt : Pointer) (close_stmt : Bool)
      → Keeps (Query.stmt_query sdk ctx stmt close_stmt)
  unfolding Query.stmt_query
  Keeps-stmt_query ctx stmt close_stmt =
      Keeps-bind _ _ (Keeps-Quiet _ (Quiet-context_error ctx)) λ _.
        Keeps-bind _ _ (Keeps-Quiet _ (Quiet-ready stmt)) λ i.
          Keeps-bind _ _ (Keeps-Quiet _ (Quiet-context_error ctx)) λ _.
            Keeps-bind _ _ (Keeps-Quiet _ (Quiet-gets _)) λ native.
              Keeps-bind _ _ (Keeps-Quiet _ (Quiet-publicly _)) λ handle. record {
                at = λ w b.
                    query_then_attach ctx handle i close_stmt _ w
                      (λ rows v d. attach_after {w = w} i close_stmt rows v b d) b;
              }

  Keeps-bind_all :
      (ctx : Context) (stmt : ℕ) (index : ℤ) (args : List Any)
      → Keeps (Query.bind_all sdk ctx stmt index args)
  unfolding Query.bind_all
  Keeps-bind_all ctx stmt index [] = Keeps-Quiet _ (search quiet_rules)
  Keeps-bind_all ctx stmt index (value ∷ args) =
      Keeps-bind _ _ (Keeps-Quiet _ (Quiet-context_error ctx)) λ _.
        Keeps-bind _ _ (Keeps-Quiet _ (Quiet-bind_value sdk (some stmt) index value))
          λ _. Keeps-bind_all ctx stmt (inc index) args

  Keeps-query_prepared :
      (ctx : Context) (conn : Ref) (query : Bytes) (args : List Any)
      → Keeps (Query.query_prepared sdk ctx conn query args)
  unfolding Query.query_prepared
  Keeps-query_prepared ctx conn query args =
      Keeps-bind _ _ (Keeps-prepare_context sdk ctx conn query) λ stmt.
        Keeps-on_error _ _
          (Keeps-bind _ _ (Keeps-bind_all ctx stmt (pos 1) args) λ _.
            Keeps-bind _ _ (Keeps-Quiet _ (Quiet-context_error ctx))
              λ _. Keeps-stmt_query ctx (some stmt) true)
          (Keeps-close sdk (some stmt))

  pub Keeps-query_context :
      (ctx : Context) (conn : Ref) (query : Bytes) (args : List Any)
      → Keeps (Query.query_context sdk ctx conn query args)
  unfolding Query.query_context
  Keeps-query_context ctx conn query args =
      Keeps-bind _ _ (Keeps-Quiet _ (Quiet-context_error ctx)) λ _.
        Keeps-bind _ _ (Keeps-Quiet _ (Quiet-return_if (is_empty query) _)) λ _.
          Keeps-if (is_empty args) _ _ (Keeps-query_plain sdk ctx conn query)
            (Keeps-query_prepared ctx conn query args)
