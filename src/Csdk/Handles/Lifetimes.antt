-- ===== src/Csdk/Handles/Lifetimes.antt =====
-- The methods of csdk.go that take a handle from C or give one back.
use cubesql_go_driver.Prelude.{
  ℕ, suc, ◌-◌, ◌≤◌, ℤ, Bool, true, false, none, some, [], ◌∷◌, ◌++◌, ◌≡◌, refl, ap, arith,
  if◌then◌else◌, Bytes, ◌==ℤ◌, length, nonzero, get_or, set, Bool-cases, inl, inr, positive,
  c_string, dec,
}
use cubesql_go_driver.Prelude.Action.{Outcome, ok, err, ◌>>=◌}
use cubesql_go_driver.Csdk.Types.{
  Ref, self, nil, Call, Native, Pointer, Sdk, cross, csqlgo_ok, row_at, stmt_at, Options, fresh,
  is_nil, new_handle, Error, busy,
}
use cubesql_go_driver.Csdk.Convert.{c_int}
use cubesql_go_driver.Csdk.Conn
use cubesql_go_driver.Csdk.Rows
use cubesql_go_driver.Csdk.Stmt
use cubesql_go_driver.Csdk.Bind
use cubesql_go_driver.Csdk.Handles.{
  Kind, cursor, stmt, bind, hit, uses, frees, returns, freed, issued, misused, holds, holding,
  binding, held, Safe,
}
use cubesql_go_driver.Csdk.Handles.Steps.{
  cross-Safe, cross_owned, holding-push, holding-clear, binding-push, binding-clear,
}
use cubesql_go_driver.Csdk.Handles.Guards.{
  Keeps, Keeps-return_if, Keeps-bind, Keeps-native_error, Keeps-checked, connected_then, stmt_then,
}

module _ (k : Kind) (h : ℕ) (sdk : Sdk) where
  -- The call just made returned a cursor, and nobody holds it yet.
  new_rows-Safe :
      (call : Call) (s : Native)
      → Safe k h s
      → uses k h call ≤ held k h s
      → frees k h call ≡ 0
      → returns k h (length s.history) call (sdk s.history call)
        ≡ (if (sdk s.history call).code ==ℤ csqlgo_ok then hit k h cursor (length s.history) else 0)
      → (sdk s.history call).code ==ℤ csqlgo_ok ≡ true
      → Safe k h (Conn.new_rows (cross sdk call s).1).1
  unfolding Conn.new_rows cross freed issued
  new_rows-Safe call s safe used kept returned good =
      let after : Safe k h (cross sdk call s).1 = cross-Safe k h sdk call s safe used kept in
      let this : suc (length s.history) - 1 ≡ length s.history = omega arith in
      record {
        owned =
            rw
              (
                holding-push k h cursor s.rows
                    (record { conn = self; ptr = some (suc (length s.history) - 1) }),
                this,
                returned,
                good,
              )
              (omega (arith, safe.owned, kept));
        unmisused = after.unmisused;
      }

  -- The same for a statement.
  new_stmt-Safe :
      (call : Call) (s : Native)
      → Safe k h s
      → uses k h call ≤ held k h s
      → frees k h call ≡ 0
      → returns k h (length s.history) call (sdk s.history call)
        ≡ (if (sdk s.history call).code ==ℤ csqlgo_ok then hit k h stmt (length s.history) else 0)
      → (sdk s.history call).code ==ℤ csqlgo_ok ≡ true
      → Safe k h (Conn.new_stmt (cross sdk call s).1).1
  unfolding Conn.new_stmt cross freed issued
  new_stmt-Safe call s safe used kept returned good =
      let after : Safe k h (cross sdk call s).1 = cross-Safe k h sdk call s safe used kept in
      let this : suc (length s.history) - 1 ≡ length s.history = omega arith in
      record {
        owned =
            rw
              (
                holding-push k h stmt s.stmts
                    (record { conn = self; ptr = some (suc (length s.history) - 1) }),
                this,
                returned,
                good,
              )
              (omega (arith, safe.owned, kept));
        unmisused = after.unmisused;
      }

  -- A call that returns a cursor, and what the methods do with it.
  query_then :
      (call : Call) (s : Native)
      → Safe k h s
      → uses k h call ≤ held k h s
      → frees k h call ≡ 0
      → returns k h (length s.history) call (sdk s.history call)
        ≡ (if (sdk s.history call).code ==ℤ csqlgo_ok then hit k h cursor (length s.history) else 0)
      → Safe k h
          ((cross sdk call >>= λ r.
              if r.code ==ℤ csqlgo_ok then Conn.new_rows else Conn.native_error sdk r.code)
            s).1
  unfolding cross ◌>>=◌
  query_then call s safe used kept returned =
      elim (Bool-cases ((sdk s.history call).code ==ℤ csqlgo_ok)) [
        | inl good ↦ rw good (new_rows-Safe call s safe used kept returned good)
        | inr bad ↦
            rw bad ((Keeps-native_error k h sdk _).at _ (cross-Safe k h sdk call s safe used kept))
      ]

  pub Keeps-query : (c : Ref) (sql : Bytes) → Keeps k h (Conn.query sdk c sql)
  unfolding Conn.query
  Keeps-query c sql = Keeps-bind k h _ _ (Keeps-return_if k h _ _) λ _.
      connected_then k h c _ λ n s safe fits.
        query_then (Call.conn_query n (c_string sql)) s safe (omega arith) refl refl

  pub Keeps-stmt_query : (p : Pointer) → Keeps k h (Stmt.query sdk p)
  unfolding Stmt.query
  Keeps-stmt_query p =
      stmt_then k h p _ λ n s safe fits. query_then (Call.stmt_query n) s safe fits refl refl

  prepare_then :
      (call : Call) (s : Native)
      → Safe k h s
      → uses k h call ≤ held k h s
      → frees k h call ≡ 0
      → returns k h (length s.history) call (sdk s.history call)
        ≡ (if (sdk s.history call).code ==ℤ csqlgo_ok then hit k h stmt (length s.history) else 0)
      → Safe k h
          ((cross sdk call >>= λ r.
              if r.code ==ℤ csqlgo_ok then Conn.new_stmt else Conn.native_error sdk r.code)
            s).1
  unfolding cross ◌>>=◌
  prepare_then call s safe used kept returned =
      elim (Bool-cases ((sdk s.history call).code ==ℤ csqlgo_ok)) [
        | inl good ↦ rw good (new_stmt-Safe call s safe used kept returned good)
        | inr bad ↦
            rw bad ((Keeps-native_error k h sdk _).at _ (cross-Safe k h sdk call s safe used kept))
      ]

  pub Keeps-prepare : (c : Ref) (sql : Bytes) → Keeps k h (Conn.prepare sdk c sql)
  unfolding Conn.prepare
  Keeps-prepare c sql = Keeps-bind k h _ _ (Keeps-return_if k h _ _) λ _.
      connected_then k h c _ λ n s safe fits.
        prepare_then (Call.conn_prepare n (c_string sql)) s safe (omega arith) refl refl

  -- The count of children is no matter of handles.
  set_children-Safe : (n : ℤ) (s : Native) → Safe k h s → Safe k h (Conn.set_children n s)
  set_children-Safe n s safe = record { owned = safe.owned; unmisused = safe.unmisused }

  -- A handle that is given up and then freed.
  free_cursor :
      (i n : ℕ) (s : Native)
      → (row_at s i).ptr ≡ some n
      → Safe k h s
      → Safe k h (cross sdk (Call.cursor_close n) (Rows.forget i s)).1
  free_cursor i n s e safe =
      let cleared = record (row_at s i) { ptr = none } in
      let here : holds k h cursor (row_at s i).ptr ≡ hit k h cursor n = ap (holds k h cursor) e in
      cross_owned k h sdk (Call.cursor_close n) (held k h s) (Rows.forget i s) safe.owned
        safe.unmisused (omega (arith, holding-clear k h cursor s.rows i cleared refl, here))
        (omega (arith, holding-clear k h cursor s.rows i cleared refl, here))

  free_stmt :
      (i n : ℕ) (s : Native)
      → (stmt_at s i).ptr ≡ some n
      → Safe k h s
      → Safe k h (cross sdk (Call.stmt_close n) (Stmt.forget i s)).1
  free_stmt i n s e safe =
      let cleared = record (stmt_at s i) { ptr = none } in
      let here : holds k h stmt (stmt_at s i).ptr ≡ hit k h stmt n = ap (holds k h stmt) e in
      cross_owned k h sdk (Call.stmt_close n) (held k h s) (Stmt.forget i s) safe.owned
        safe.unmisused (omega (arith, holding-clear k h stmt s.stmts i cleared refl, here))
        (omega (arith, holding-clear k h stmt s.stmts i cleared refl, here))

  free_bind :
      (i n : ℕ) (s : Native)
      → get_or s.binds i none ≡ some n
      → Safe k h s
      → Safe k h (cross sdk (Call.bind_close n) (record s { binds = set s.binds i none })).1
  free_bind i n s e safe =
      let here : holds k h bind (get_or s.binds i none) ≡ hit k h bind n = ap (holds k h bind) e in
      cross_owned k h sdk (Call.bind_close n) (held k h s) (record s { binds = set s.binds i none })
        safe.owned safe.unmisused (omega (arith, binding-clear k h s.binds i, here))
        (omega (arith, binding-clear k h s.binds i, here))

  close_rows_at :
      (i : ℕ) (p : Pointer) (b : Bool) (s : Native)
      → (row_at s i).ptr ≡ p
      → is_nil (row_at s i).conn ≡ b
      → Safe k h s
      → Safe k h (Rows.close sdk (some i) s).1
  unfolding Rows.close ◌>>=◌
  close_rows_at i p true s e b safe = rw b safe
  close_rows_at i none false s e b safe = rw (b, e) safe
  close_rows_at i (some n) false s e b safe =
      rw (b, e) (set_children-Safe _ _ (free_cursor i n s e safe))

  pub Keeps-close_rows : (p : Pointer) → Keeps k h (Rows.close sdk p)
  unfolding Rows.close
  Keeps-close_rows none = record { at = λ s safe. safe }
  Keeps-close_rows (some i) = record { at = λ s safe. close_rows_at i _ _ s refl refl safe }

  close-stmt_at :
      (i : ℕ) (p : Pointer) (b : Bool) (s : Native)
      → (stmt_at s i).ptr ≡ p
      → is_nil (stmt_at s i).conn ≡ b
      → Safe k h s
      → Safe k h (Stmt.close sdk (some i) s).1
  unfolding Stmt.close ◌>>=◌
  close-stmt_at i p true s e b safe = rw b safe
  close-stmt_at i none false s e b safe = rw (b, e) safe
  close-stmt_at i (some n) false s e b safe =
      let code = (sdk s.history (Call.stmt_close n)).code in
      rw (b, e)
        ((Keeps-checked k h sdk code).at _
          (set_children-Safe (dec s.conn.children) _ (free_stmt i n s e safe)))

  pub Keeps-close_stmt : (p : Pointer) → Keeps k h (Stmt.close sdk p)
  unfolding Stmt.close
  Keeps-close_stmt none = record { at = λ s safe. safe }
  Keeps-close_stmt (some i) = record { at = λ s safe. close-stmt_at i _ _ s refl refl safe }

  close_bind_at :
      (i : ℕ) (p : Pointer) (s : Native)
      → get_or s.binds i none ≡ p
      → Safe k h s
      → Safe k h (Bind.close sdk (some i) s).1
  unfolding Bind.close ◌>>=◌
  close_bind_at i none s e safe = rw (e, Bind.close) safe
  close_bind_at i (some n) s e safe = rw (e, Bind.close) (free_bind i n s e safe)

  pub Keeps-close_bind : (p : Pointer) → Keeps k h (Bind.close sdk p)
  unfolding Bind.close
  Keeps-close_bind none = record { at = λ s safe. safe }
  Keeps-close_bind (some i) = record { at = λ s safe. close_bind_at i _ s refl safe }

  -- `Close` of a connection, with its two fields spelt out.
  close_conn_at :
      (p : Pointer) (children : ℤ) (s : Native)
      → let t = record s { conn = record { ptr = p; children = children } } in
        Safe k h t → Safe k h (Conn.close sdk self t).1
  unfolding Conn.close ◌>>=◌
  close_conn_at none children s safe = safe
  close_conn_at (some n) children s safe =
      elim (nonzero children)
        as (λ b.
          Safe k h
            (if◌then◌else◌ {A = Outcome Error (Unit {0}) × Native} b
              (err busy, record s { conn = record { ptr = some n; children = children } })
              (
                ok tt,
                (cross sdk (Call.conn_close n)
                    (record s { conn = record { ptr = none; children = children } })).1,
              )).1) [
                | true ↦ safe
                | false ↦
                    cross_owned k h sdk (Call.conn_close n) _
                      (record s { conn = record { ptr = none; children = children } }) safe.owned
                      safe.unmisused (omega arith) (omega arith)
              ]

  pub Keeps-close_conn : (c : Ref) → Keeps k h (Conn.close sdk c)
  unfolding Conn.close
  Keeps-close_conn nil = record { at = λ s safe. safe }
  Keeps-close_conn self = record { at = λ s safe. close_conn_at s.conn.ptr s.conn.children s safe }

  new_bind-Safe :
      (call : Call) (s : Native)
      → Safe k h s
      → uses k h call ≤ held k h s
      → frees k h call ≡ 0
      → returns k h (length s.history) call (sdk s.history call)
        ≡ (if (sdk s.history call).is_set then hit k h bind (length s.history) else 0)
      → (sdk s.history call).is_set ≡ true
      → let t = (cross sdk call s).1 in
        Safe k h (record t { binds = t.binds ++ some (new_handle t) ∷ [] })
  unfolding cross freed issued
  new_bind-Safe call s safe used kept returned good =
      let after : Safe k h (cross sdk call s).1 = cross-Safe k h sdk call s safe used kept in
      let this : suc (length s.history) - 1 ≡ length s.history = omega arith in
      record {
        owned =
            rw (binding-push k h s.binds (some (suc (length s.history) - 1)), this, returned, good)
              (omega (arith, safe.owned, kept));
        unmisused = after.unmisused;
      }

  allocated :
      (count : ℤ) (s : Native) (b : Bool)
      → (sdk s.history (Call.bind_new (c_int count))).is_set ≡ b
      → positive count ≡ true
      → Safe k h s
      → Safe k h (Bind.new_bind sdk count s).1
  unfolding Bind.new_bind cross ◌>>=◌
  allocated count s true e p safe =
      simp (p, e) (new_bind-Safe (Call.bind_new (c_int count)) s safe (omega arith) refl refl e)
  allocated count s false e p safe =
      simp (p, e) (cross-Safe k h sdk (Call.bind_new (c_int count)) s safe (omega arith) refl)

  refused_count :
      (count : ℤ) (s : Native)
      → positive count ≡ false
      → Safe k h s
      → Safe k h (Bind.new_bind sdk count s).1
  unfolding Bind.new_bind ◌>>=◌
  refused_count count s p safe = rw p safe

  pub Keeps-new_bind : (count : ℤ) → Keeps k h (Bind.new_bind sdk count)
  Keeps-new_bind count = record {
    at = λ s safe. elim (Bool-cases (positive count)) [
      | inl p ↦ allocated count s _ refl p safe
      | inr p ↦ refused_count count s p safe
    ];
  }

  -- The connection that `Open` takes.
  pub open-Safe : (options : Options) → Safe k h (Conn.open_conn sdk options fresh).1
  unfolding Conn.open_conn cross freed issued holding binding misused ◌>>=◌
  open-Safe options = ground arith

pub fresh-Safe : (k : Kind) (h : ℕ) → Safe k h fresh
unfolding freed issued holding binding misused
fresh-Safe k h = ground arith
