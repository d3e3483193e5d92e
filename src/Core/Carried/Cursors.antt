-- ===== src/Core/Carried/Cursors.antt =====
-- Cursors, queries, transactions and scans keep what every method of csdk.go keeps.
use cubesql_go_driver.Prelude.{
  ℕ, zero, suc, ℤ, inc, Bool, true, false, none, some, List, [], ◌∷◌, refl, Bytes, arith,
}
use cubesql_go_driver.Prelude.Action.{Outcome, ok, err, modify, attempt, ◌>>=◌}
use cubesql_go_driver.Csdk.Types.{Ref, Pointer, Native, Sdk}
use cubesql_go_driver.Csdk
use cubesql_go_driver.Csdk.Session
use cubesql_go_driver.Csdk.Session.{Method}
use cubesql_go_driver.Core.Errors.{Error}
use cubesql_go_driver.Core.Types.{World, Context, Rows, rows_at}
use cubesql_go_driver.Core.Act.{Act, publicly, context_error}
use cubesql_go_driver.Core.Bind.{Any}
use cubesql_go_driver.Core.Stmt
use cubesql_go_driver.Core.Rows
use cubesql_go_driver.Core.Query
use cubesql_go_driver.Core.Tx
use cubesql_go_driver.Core.Carried.{Local, Carries, Carries-bind, Carries-Local, Local-modify}
use cubesql_go_driver.Core.Carried.Objects.{
  object_rules, Local-context_error, Local-connected, Local-idle, Local-set_tx_active,
  Local-one_row_less,
}
use cubesql_go_driver.Core.Carried.Statements.{
  step_rules, Carries-finalize, Carries-close_stmt_object, Carries-bind_value, Carries-exec_context,
  Carries-prepare_context,
}

module _ (sdk : Sdk) (P : Native → Type 0)
    (kept : (m : Method) (s : Native) → P s → P (Session.perform sdk m s)) where
  Carries-release_row :
      (i : ℕ) (close_statement : Bool) → Carries P (Stmt.release_row sdk i close_statement)
  unfolding Stmt.release_row ◌>>=◌
  Carries-release_row i close_statement = record {
    at = λ w p.
        let same = (Local-one_row_less i).at w in
        let q : P (Stmt.one_row_less i w).native = rw same p in
        ground (arith, q, (Carries-finalize sdk P kept i).at (Stmt.one_row_less i w) q);
  }

  Carries-release_parent :
      (p : Pointer) (close_stmt : Bool) → Carries P (Rows.release_parent_stmt sdk p close_stmt)
  Carries-release_parent none close_stmt = search object_rules
  Carries-release_parent (some i) close_stmt = Carries-release_row i close_stmt

  Carries-close_open : (i : ℕ) (rows : Rows) → Carries P (Rows.close_open sdk i rows)
  unfolding Rows.close_open
  Carries-close_open i rows = search (step_rules, kept, Carries-release_parent) depth 9

  pub Carries-close_rows_object : (p : Pointer) → Carries P (Rows.close sdk p)
  unfolding Rows.close
  Carries-close_rows_object none = record { at = λ w p. p }
  Carries-close_rows_object (some i) = record {
    at = λ w p. ground (arith, (Carries-close_open i (rows_at w i)).at w p);
  }

  Carries-read_columns :
      (ctx : Context) (native : Pointer) (i n k : ℕ)
      → Carries P (Rows.read_columns sdk ctx native i n k)
  unfolding Rows.read_columns
  Carries-read_columns ctx native i zero k = search object_rules
  Carries-read_columns ctx native i (suc n) k = Carries-bind P _ _ (search object_rules) λ _.
      Carries-bind P _ _ (search (step_rules, kept)) λ name.
        Carries-bind P _ _ (search object_rules) λ _.
          Carries-bind P _ _ (search (step_rules, kept)) λ column_type.
            Carries-bind P _ _ (search object_rules)
              λ _. Carries-read_columns ctx native i n (suc k)

  Carries-new_rows : (ctx : Context) (handle : ℕ) → Carries P (Rows.new_rows_context sdk ctx handle)
  unfolding Rows.new_rows_context
  Carries-new_rows ctx handle =
      search (step_rules, kept, Carries-read_columns, Carries-close_rows_object) depth 16

  Carries-advance : (i : ℕ) → Carries P (Rows.advance sdk i)
  unfolding Rows.advance
  Carries-advance i = record {
    at = λ w p.
        let row = inc (rows_at w i).current in
        let m = publicly (Csdk.Rows.seek sdk (rows_at w i).native row) in
        let sought : Carries P (attempt m >>= Rows.arrive i row) =
          search (step_rules, kept) depth 9 in
        ground (arith, sought.at w p);
  }

  pub Carries-next : (ctx : Context) (p : Pointer) → Carries P (Rows.next_context sdk ctx p)
  unfolding Rows.next_context
  Carries-next ctx none = record { at = λ w p. p }
  Carries-next ctx (some i) = record {
    at = λ w p.
        next (context_error ctx w).0 (context_error ctx w).1
          (rw ((Local-context_error ctx).at w) p);
  }
    where
      next :
          (r : Outcome Error (Unit {0})) (v : World)
          → P v.native
          → P
              (elim r as (λ _. Outcome Error Bool × World) [
                | ok _ ↦ Rows.advance sdk i v
                | err e ↦ (ok false, Rows.set_error i (some e) v)
              ]).1.native
      next (ok _) v p = (Carries-advance i).at v p
      next (err e) v p = p

  goto :
      (i : ℕ) (row : ℤ)
      → Carries P
          (modify (λ w. Rows.put_rows i (record (rows_at w i) { current = row; error = none }) w))
  goto i row = Carries-Local P _ (Local-modify _ λ w. refl)

  pub Carries-seek_context :
      (ctx : Context) (p : Pointer) (row : ℤ) → Carries P (Rows.seek_context sdk ctx p row)
  unfolding Rows.seek_context
  Carries-seek_context ctx p row = search (step_rules, kept, goto) depth 14

  Carries-close_if : (close : Bool) (i : ℕ) → Carries P (Query.close_if sdk close i)
  unfolding Query.close_if
  Carries-close_if true i = Carries-close_stmt_object sdk P kept (some i)
  Carries-close_if false i = search object_rules

  pub Carries-query_of_stmt :
      (ctx : Context) (p : Pointer) (close_with_rows : Bool)
      → Carries P (Query.stmt_query sdk ctx p close_with_rows)
  unfolding Query.stmt_query
  Carries-query_of_stmt ctx p close_with_rows =
      search (step_rules, kept, Carries-new_rows, Carries-close_if, Carries-close_rows_object) depth
        16

  Carries-query_plain :
      (ctx : Context) (c : Ref) (query : Bytes) → Carries P (Query.query_plain sdk ctx c query)
  unfolding Query.query_plain
  Carries-query_plain ctx c query = search (step_rules, kept, Carries-new_rows) depth 12

  Carries-bind_all :
      (ctx : Context) (stmt : ℕ) (index : ℤ) (args : List Any)
      → Carries P (Query.bind_all sdk ctx stmt index args)
  unfolding Query.bind_all
  Carries-bind_all ctx stmt index [] = search object_rules
  Carries-bind_all ctx stmt index (v ∷ args) = Carries-bind P _ _ (search object_rules) λ _.
      Carries-bind P _ _ (Carries-bind_value sdk P kept (some stmt) index v)
        λ _. Carries-bind_all ctx stmt (inc index) args

  Carries-query_prepared :
      (ctx : Context) (c : Ref) (query : Bytes) (args : List Any)
      → Carries P (Query.query_prepared sdk ctx c query args)
  unfolding Query.query_prepared
  Carries-query_prepared ctx c query args =
      search
        (
          object_rules, kept, Carries-prepare_context, Carries-bind_all, Carries-query_of_stmt,
          Carries-close_stmt_object,
        )
        depth 12

  pub Carries-query_context :
      (ctx : Context) (c : Ref) (query : Bytes) (args : List Any)
      → Carries P (Query.query_context sdk ctx c query args)
  unfolding Query.query_context
  Carries-query_context ctx c query args =
      search (object_rules, Carries-query_plain, Carries-query_prepared) depth 9

  pub Carries-begin_context : (ctx : Context) (c : Ref) → Carries P (Tx.begin_context sdk ctx c)
  unfolding Tx.begin_context
  Carries-begin_context ctx c =
      let quiet : (m : Act (Unit {0})) → Local m → Carries P m = Carries-Local P in
      Carries-bind P _ _ (quiet _ (Local-context_error ctx)) λ _.
        Carries-bind P _ _ (quiet _ (Local-connected c)) λ _.
          Carries-bind P _ _ (quiet _ Local-idle) λ _.
            Carries-bind P _ _ (quiet _ (Local-context_error ctx)) λ _.
              Carries-bind P _ _ (search object_rules) λ native.
                Carries-bind P _ _ (search (step_rules, kept)) λ _.
                  Carries-bind P _ _ (quiet _ (Local-set_tx_active true))
                    λ _. Carries-Local P _ (record { at = λ w. refl })

  Carries-end_native : (commit : Bool) → Carries P (Tx.end_native sdk commit)
  unfolding Tx.end_native
  Carries-end_native commit = search (step_rules, kept) depth 9

  pub Carries-finish_implicit :
      (ctx : Context) (c : Ref) (commit : Bool) → Carries P (Tx.finish_implicit sdk ctx c commit)
  unfolding Tx.finish_implicit
  Carries-finish_implicit ctx c commit = search (object_rules, Carries-end_native) depth 12

  pub Carries-finish :
      (ctx : Context) (tx : Pointer) (commit : Bool) → Carries P (Tx.finish sdk ctx tx commit)
  unfolding Tx.finish
  Carries-finish ctx none commit = search object_rules
  Carries-finish ctx (some t) commit = search (object_rules, Carries-end_native) depth 12

  pub Carries-tx_exec :
      (ctx : Context) (tx : Pointer) (query : Bytes) (args : List Any)
      → Carries P (Tx.tx_exec_context sdk ctx tx query args)
  unfolding Tx.tx_exec_context
  Carries-tx_exec ctx tx query args = search (object_rules, kept, Carries-exec_context) depth 9

  pub Carries-tx_query :
      (ctx : Context) (tx : Pointer) (query : Bytes) (args : List Any)
      → Carries P (Tx.tx_query_context sdk ctx tx query args)
  unfolding Tx.tx_query_context
  Carries-tx_query ctx tx query args = search (object_rules, Carries-query_context) depth 9

  pub Carries-tx_prepare :
      (ctx : Context) (tx : Pointer) (query : Bytes)
      → Carries P (Tx.tx_prepare_context sdk ctx tx query)
  unfolding Tx.tx_prepare_context
  Carries-tx_prepare ctx tx query = search (object_rules, kept, Carries-prepare_context) depth 9
