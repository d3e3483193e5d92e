-- ===== src/Core/Draft.antt =====
-- A cursor that newRowsContext builds has no parents until its caller sets them, and nothing else
-- changes meanwhile.
use cubesql_go_driver.Prelude.{
  ℕ, zero, suc, ◌<◌, ℤ, pos_part, Bool, false, not, none, some, ◌≡◌, refl, ap, ◌∙◌, arith, count,
  count-push, count-set_same, length, length-set, length-push, get_or-set_self, get_or-push_self,
  Bytes,
}
use cubesql_go_driver.Prelude.Action.{
  Outcome, ok, err, continue, ◌>>=◌, on_error, modify, lift, pure, attempt,
}
use cubesql_go_driver.Csdk.Types.{Ref, is_nil, Sdk, Pointer}
use cubesql_go_driver.Csdk
use cubesql_go_driver.Core.Errors.{Error}
use cubesql_go_driver.Core.Types.{World, Context, Rows, zero_rows, rows_at}
use cubesql_go_driver.Core.Act.{Act, publicly}
use cubesql_go_driver.Core.Rows
use cubesql_go_driver.Core.Rows.{put_rows, set_column}
use cubesql_go_driver.Core.Conn.{release_child}
use cubesql_go_driver.Core.Frame.{
  Frame, Frame-refl, Frame-trans, Quiet, Quiet-publicly, Quiet-context_error, Quiet-on_error,
  quiet_rules,
}

-- A cursor that its connection counts.
abbrev pub attached : Rows → Bool
attached r = not (is_nil r.parent_conn)

-- Since `w` only the cursor `i` may have changed, and it has no parents.
pub record Draft (w : World) (i : ℕ) (v : World) : Type 0 where
  pub conn : v.conn ≡ w.conn
  pub stmts : v.stmts ≡ w.stmts
  pub txs : v.txs ≡ w.txs
  pub inside : i < length v.rows
  pub attachments : count attached v.rows ≡ count attached w.rows
  pub no_conn : (rows_at v i).parent_conn ≡ Ref.nil
  pub no_stmt : (rows_at v i).parent_stmt ≡ none

-- The same without the cursor: what is left when the construction failed.
pub record Unchanged (w v : World) : Type 0 where
  pub conn : v.conn ≡ w.conn
  pub stmts : v.stmts ≡ w.stmts
  pub txs : v.txs ≡ w.txs
  pub attachments : count attached v.rows ≡ count attached w.rows

Draft-Frame : {w v u : World} {i : ℕ} → Draft w i v → Frame v u → Draft w i u
Draft-Frame {w} {v} {u} {i} d f = record {
  conn = f.conn ∙ d.conn;
  stmts = f.stmts ∙ d.stmts;
  txs = f.txs ∙ d.txs;
  inside = rw f.rows d.inside;
  attachments = rw f.rows d.attachments;
  no_conn = rw f.rows d.no_conn;
  no_stmt = rw f.rows d.no_stmt;
}

Draft-rebase : {w u v : World} {i : ℕ} → Frame w u → Draft u i v → Draft w i v
Draft-rebase f d = record {
  conn = d.conn ∙ f.conn;
  stmts = d.stmts ∙ f.stmts;
  txs = d.txs ∙ f.txs;
  inside = d.inside;
  attachments = d.attachments ∙ ap (count attached) f.rows;
  no_conn = d.no_conn;
  no_stmt = d.no_stmt;
}

-- A write to the cursor that leaves it without parents.
Draft-put :
    {w v : World} {i : ℕ} (r : Rows)
    → r.parent_conn ≡ Ref.nil
    → r.parent_stmt ≡ none
    → Draft w i v
    → Draft w i (put_rows i r v)
Draft-put {w} {v} {i} r hc hs d = record {
  conn = d.conn;
  stmts = d.stmts;
  txs = d.txs;
  inside = rw length-set d.inside;
  attachments = count-set_same attached zero_rows v.rows i r (rw (hc, d.no_conn)) ∙ d.attachments;
  no_conn = rw (get_or-set_self v.rows i r zero_rows d.inside) hc;
  no_stmt = rw (get_or-set_self v.rows i r zero_rows d.inside) hs;
}

-- `m` keeps the draft, whatever it returns.
pub record Drafts {A : Type 0} (i : ℕ) (m : Act A) : Type 0 where
  pub at : {w : World} (v : World) → Draft w i v → Draft w i (m v).1

Drafts-Quiet : {i : ℕ} {A : Type 0} (m : Act A) → Quiet m → Drafts i m
Drafts-Quiet m q = record { at = λ v d. Draft-Frame d (q.at v) }

module _ {i : ℕ} {A B : Type 0} where
  Drafts-continue :
      (r : Outcome Error A) (f : A → Act B) {w : World} (v : World)
      → Draft w i v
      → ((a : A) → Drafts i (f a))
      → Draft w i (continue r f v).1
  Drafts-continue (ok a) f v d k = (k a).at v d
  Drafts-continue (err e) f v d k = d

  Drafts-bind :
      (m : Act A) (f : A → Act B) → Drafts i m → ((a : A) → Drafts i (f a)) → Drafts i (m >>= f)
  unfolding ◌>>=◌
  Drafts-bind m f km kf = record { at = λ v d. Drafts-continue (m v).0 f (m v).1 (km.at v d) kf }

Drafts-set_column :
    (i k : ℕ) (name : Bytes) (column_type : ℤ) → Drafts i (modify (set_column i k name column_type))
unfolding modify
Drafts-set_column i k name column_type = record { at = λ v d. Draft-put _ d.no_conn d.no_stmt d }

-- What newRowsContext leaves: the new cursor, or nothing.
abbrev pub Built : World → Outcome Error ℕ × World → Type 0
Built w (ok i, v) = Draft w i v
Built w (err e, v) = Unchanged w v

module _ (sdk : Sdk) where
  Drafts-read_columns :
      (ctx : Context) (native : Pointer) (i n k : ℕ)
      → Drafts i (Rows.read_columns sdk ctx native i n k)
  unfolding Rows.read_columns
  Drafts-read_columns ctx native i zero k = Drafts-Quiet _ (search quiet_rules)
  Drafts-read_columns ctx native i (suc n) k =
      Drafts-bind _ _ (Drafts-Quiet _ (Quiet-context_error ctx)) λ _.
        Drafts-bind _ _ (Drafts-Quiet _ (Quiet-publicly _)) λ name.
          Drafts-bind _ _ (Drafts-Quiet _ (Quiet-context_error ctx)) λ _.
            Drafts-bind _ _ (Drafts-Quiet _ (Quiet-publicly _)) λ column_type.
              Drafts-bind _ _ (Drafts-set_column i k name column_type)
                λ _. Drafts-read_columns ctx native i n (suc k)

  -- Closing a draft leaves nothing.
  pub close-Unchanged :
      {w v : World} {i : ℕ} → Draft w i v → Unchanged w (Rows.close sdk (some i) v).1
  unfolding Rows.close publicly ◌>>=◌ attempt release_child
  close-Unchanged {w} {v} {i} d = ground (
    arith,
    count-set_same attached zero_rows v.rows i (record (rows_at v i) {
      native = none;
      parent_conn = Ref.nil;
      parent_stmt = none;
      close_stmt = false;
    }),
  )

  allocate-Draft :
      (native : Pointer) (total : ℤ) (n : ℕ) (w : World) → Built w (Rows.allocate native total n w)
  unfolding Rows.allocate
  allocate-Draft native total n w = record {
    conn = refl;
    stmts = refl;
    txs = refl;
    inside = rw length-push (omega arith);
    attachments = rw (count-push attached w.rows) (omega arith);
    no_conn = rw (get_or-push_self w.rows) refl;
    no_stmt = rw (get_or-push_self w.rows) refl;
  }

  finished :
      {w : World} {i : ℕ} (r : Outcome Error (Unit {0})) (v : World)
      → Draft w i v
      → Built w ((on_error (lift r) (Rows.close sdk (some i)) >>= λ _. pure i) v)
  unfolding on_error ◌>>=◌
  finished (ok _) v d = d
  finished (err e) v d = close-Unchanged d

  -- The steps before the cursor is allocated.
  Built-step :
      {A : Type 0} {w : World} (m : Act A) (f : A → Act ℕ) (u : World)
      → Quiet m
      → Frame w u
      → ((a : A) (v : World) → Frame w v → Built w (f a v))
      → Built w ((m >>= f) u)
  unfolding ◌>>=◌
  Built-step {A} {w} m f u q frame k = go (m u).0 (m u).1 (Frame-trans frame (q.at u))
    where
      go : (r : Outcome Error A) (v : World) → Frame w v → Built w (continue r f v)
      go (ok a) v fr = k a v fr
      go (err e) v fr = record {
        conn = fr.conn;
        stmts = fr.stmts;
        txs = fr.txs;
        attachments = rw fr.rows refl;
      }

  build_columns :
      {w : World} (ctx : Context) (native : Pointer) (i n : ℕ) (v : World)
      → Draft w i v
      → Built w (
          (on_error (Rows.read_columns sdk ctx native i n 0) (Rows.close sdk (some i)) >>= λ _.
          pure i)
            v)
  unfolding on_error ◌>>=◌
  build_columns ctx native i n v d =
      let m = Rows.read_columns sdk ctx native i n 0 in
      unfold on_error ◌>>=◌ in
      finished (m v).0 (m v).1 ((Drafts-read_columns ctx native i n 0).at v d)

  build :
      {w z : World} (ctx : Context) (native : Pointer) (total : ℤ) (n : ℕ)
      → Frame w z
      → Built w (
          (Rows.allocate native total n >>= λ i.
          on_error (Rows.read_columns sdk ctx native i n 0) (Rows.close sdk (some i)) >>= λ _.
          pure i)
            z)
  unfolding Rows.allocate
  build {w} {z} ctx native total n f =
      let (r, v) = Rows.allocate native total n z in
      unfold ◌>>=◌ in
      build_columns ctx native (length z.rows) n v
        (Draft-rebase f (allocate-Draft native total n z))

  -- newRowsContext either adds one cursor without parents, or changes no count.
  pub new_rows-Built :
      (ctx : Context) (handle : ℕ) (w : World) → Built w (Rows.new_rows_context sdk ctx handle w)
  unfolding Rows.new_rows_context
  new_rows-Built ctx handle w =
      let quiet_close = Quiet-publicly (Csdk.Rows.close sdk (some handle)) in
      Built-step _ _ w (Quiet-on_error _ _ (Quiet-context_error ctx) quiet_close) (Frame-refl w)
        λ _ u fu.
          Built-step _ _ u (Quiet-on_error _ _ (Quiet-publicly _) quiet_close) fu λ total x fx.
            Built-step _ _ x (Quiet-on_error _ _ (Quiet-context_error ctx) quiet_close) fx λ _ y fy.
              Built-step _ _ y (Quiet-on_error _ _ (Quiet-publicly _) quiet_close) fy
                λ count z fz. build ctx (some handle) total (pos_part count) fz
