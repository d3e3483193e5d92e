-- ===== src/Core/Counts/Births.antt =====
-- The methods that make statements, and cursors of a connection, keep the counts right.
use cubesql_go_driver.Prelude.{
  ℕ, suc, pos, inc, true, some, ◌≡◌, arith, count, count-push, count-set_raise, set, Bytes,
  is_empty,
}
use cubesql_go_driver.Prelude.Action.{Outcome, ok, err, continue, ◌>>=◌}
use cubesql_go_driver.Csdk.Types.{Ref, Sdk}
use cubesql_go_driver.Core.Errors.{Error}
use cubesql_go_driver.Core.Types.{World, Context, Rows, zero_rows, rows_at, Stmt}
use cubesql_go_driver.Core.Act.{Act}
use cubesql_go_driver.Core.Conn
use cubesql_go_driver.Core.Conn.{set_children}
use cubesql_go_driver.Core.Rows
use cubesql_go_driver.Core.Rows.{put_rows}
use cubesql_go_driver.Core.Query
use cubesql_go_driver.Core.Frame.{
  Frame, Frame-refl, Frame-trans, Quiet, Quiet-publicly, Quiet-context_error, Quiet-no_children,
  Quiet-return_if, Quiet-gets,
}
use cubesql_go_driver.Core.Draft.{attached, Draft, Built, new_rows-Built}
use cubesql_go_driver.Core.Counts.{
  registered, orphan, Balanced, Balanced-Frame, Balanced-Unchanged, Keeps, Keeps-bind, Keeps-Quiet,
}

-- A step that changes nothing, when what follows needs to know where it started.
pub step :
    {A B : Type 0} {w : World} (m : Act A) (f : A → Act B) (u : World)
    → Quiet m
    → Frame w u
    → Balanced w
    → ((a : A) (v : World) → Frame w v → Balanced (f a v).1)
    → Balanced ((m >>= f) u).1
unfolding ◌>>=◌
step {A} {B} {w} m f u q frame b k = go (m u).0 (m u).1 (Frame-trans frame (q.at u))
  where
    go : (r : Outcome Error A) (v : World) → Frame w v → Balanced (continue r f v).1
    go (ok a) v fr = k a v fr
    go (err e) v fr = Balanced-Frame fr b

-- Past the guard the connection is there and open.
past_guard :
    {B : Type 0} (conn : Ref) (f : Act B) (w : World)
    → Balanced w
    → (conn ≡ Ref.self → w.conn.native ≡ Ref.self → Balanced (f w).1)
    → Balanced ((Conn.connected conn >>= λ _. f) w).1
unfolding ◌>>=◌ Conn.connected
past_guard conn f w b k = ground arith

-- A new statement, counted.
new_stmt-Balanced :
    (conn : Ref) (stmt : ℕ) (query : Bytes) (w : World)
    → conn ≡ Ref.self
    → w.conn.native ≡ Ref.self
    → Balanced w
    → Balanced (Conn.new_stmt conn stmt query w).1
unfolding Conn.new_stmt
new_stmt-Balanced conn stmt query w own open_conn b =
    let made : Stmt = record {
      conn = conn;
      native = some stmt;
      query_text = query;
      rows = pos 0;
      registered = true;
    } in
    ground (arith, count-push registered w.stmts made, count-push orphan w.stmts made)

still_open : {w v : World} → Frame w v → w.conn.native ≡ Ref.self → v.conn.native ≡ Ref.self
still_open f e = rw f.conn e

-- A draft gets its connection, and is counted.
pub adopt-Balanced :
    {w v : World} {i : ℕ} (r : Rows)
    → r.parent_conn ≡ Ref.self
    → w.conn.native ≡ Ref.self
    → Balanced w
    → Draft w i v
    → Balanced (put_rows i r (set_children (inc v.conn.children) v))
adopt-Balanced {w} {v} {i} r own open_conn b d = record {
  counted = rw (d.conn, d.stmts, raised, d.attachments) (ground (arith, b.counted));
  owned = rw d.stmts b.owned;
  closed_empty = λ e. ground (arith, d.conn);
  exclusive = rw (d.conn, d.txs) b.exclusive;
}
  where
    raised : count attached (set v.rows i r) ≡ suc (count attached v.rows)
    raised = count-set_raise attached zero_rows v.rows i r d.inside (rw d.no_conn) (rw own)

module _ (sdk : Sdk) where
  pub Keeps-prepare_context :
      (ctx : Context) (conn : Ref) (query : Bytes) → Keeps (Conn.prepare_context sdk ctx conn query)
  unfolding Conn.prepare_context
  Keeps-prepare_context ctx conn query =
      Keeps-bind _ _ (Keeps-Quiet _ (Quiet-context_error ctx)) λ _.
        Keeps-bind _ _ (Keeps-Quiet _ (Quiet-return_if (is_empty query) _)) λ _. record {
          at = λ w b. past_guard conn _ w b λ is_self open_conn.
              step _ _ w Quiet-no_children (Frame-refl w) b λ _ x fx.
                step _ _ x (Quiet-context_error ctx) fx b λ _ y fy.
                  step _ _ y (Quiet-gets _) fy b λ native z fz.
                    step _ _ z (Quiet-publicly _) fz b λ stmt v fv.
                      new_stmt-Balanced conn stmt query v is_self (still_open fv open_conn)
                        (Balanced-Frame fv b);
        }

  -- The cursor that newRowsContext built goes to its connection.
  adopted :
      {w : World} (conn : Ref) (r : Outcome Error ℕ) (v : World)
      → conn ≡ Ref.self
      → w.conn.native ≡ Ref.self
      → Balanced w
      → Built w (r, v)
      → Balanced (continue r (Query.adopt conn) v).1
  unfolding Query.adopt
  adopted {w} conn (ok i) v own open_conn b d =
      adopt-Balanced (record (rows_at v i) { parent_conn = conn }) own open_conn b d
  adopted conn (err e) v own open_conn b u = Balanced-Unchanged u b

  built_then_adopted :
      (ctx : Context) (conn : Ref) (handle : ℕ) (w : World)
      → conn ≡ Ref.self
      → w.conn.native ≡ Ref.self
      → Balanced w
      → Balanced ((Rows.new_rows_context sdk ctx handle >>= Query.adopt conn) w).1
  unfolding ◌>>=◌
  built_then_adopted ctx conn handle w own open_conn b =
      let built = Rows.new_rows_context sdk ctx handle w in
      adopted conn built.0 built.1 own open_conn b (new_rows-Built sdk ctx handle w)

  pub Keeps-query_plain :
      (ctx : Context) (conn : Ref) (query : Bytes) → Keeps (Query.query_plain sdk ctx conn query)
  unfolding Query.query_plain
  Keeps-query_plain ctx conn query = record {
    at = λ w b. past_guard conn _ w b λ is_self open_conn.
        step _ _ w Quiet-no_children (Frame-refl w) b λ _ x fx.
          step _ _ x (Quiet-context_error ctx) fx b λ _ y fy.
            step _ _ y (Quiet-gets _) fy b λ native z fz.
              step _ _ z (Quiet-publicly _) fz b λ handle v fv.
                built_then_adopted ctx conn handle v is_self (still_open fv open_conn)
                  (Balanced-Frame fv b);
  }
