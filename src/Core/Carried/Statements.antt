-- ===== src/Core/Carried/Statements.antt =====
-- Executions, preparations and the methods of `Stmt` keep what every method of csdk.go keeps.
use cubesql_go_driver.Prelude.{ℕ, ℤ, inc, none, some, List, [], ◌∷◌, Bytes, arith}
use cubesql_go_driver.Prelude.Action.{Outcome, ok, err, lift}
use cubesql_go_driver.Csdk.Types.{Ref, Pointer, Native, Sdk, Do}
use cubesql_go_driver.Csdk.Session
use cubesql_go_driver.Csdk.Session.{Method}
use cubesql_go_driver.Core.Errors.{Error}
use cubesql_go_driver.Core.Types.{World, Context}
use cubesql_go_driver.Core.Act.{Act, publicly}
use cubesql_go_driver.Core.Bind
use cubesql_go_driver.Core.Bind.{Any, int64, zero_blob, float64, string, bytes, other}
use cubesql_go_driver.Core.Conn
use cubesql_go_driver.Core.Stmt
use cubesql_go_driver.Core.Carried.{Carries, Carries-bind}
use cubesql_go_driver.Core.Carried.Objects.{
  object_rules, Local-context_error, Local-drop_registration,
}
use cubesql_go_driver.Core.Carried.Methods.{method_rules}

module _ (sdk : Sdk) (P : Native → Type 0)
    (kept : (m : Method) (s : Native) → P s → P (Session.perform sdk m s)) where
  pub Carries-set_one_shot :
      (p : Pointer) (i : ℤ) (v : Any) → Carries P (Bind.set_one_shot sdk p i v)
  unfolding Bind.set_one_shot
  Carries-set_one_shot p i Any.nil = search (method_rules, object_rules, kept)
  Carries-set_one_shot p i (int64 n) = search (method_rules, object_rules, kept)
  Carries-set_one_shot p i (float64 bits) = search (method_rules, object_rules, kept)
  Carries-set_one_shot p i (string v) = search (method_rules, object_rules, kept)
  Carries-set_one_shot p i (bytes v) = search (method_rules, object_rules, kept)
  Carries-set_one_shot p i (zero_blob n) = search (method_rules, object_rules, kept)
  Carries-set_one_shot p i other = search object_rules

  pub Carries-set_prepared :
      (p : Pointer) (i : ℤ) (v : Any) → Carries P (Bind.set_prepared sdk p i v)
  unfolding Bind.set_prepared
  Carries-set_prepared p i Any.nil = search (method_rules, object_rules, kept)
  Carries-set_prepared p i (int64 n) = search (method_rules, object_rules, kept)
  Carries-set_prepared p i (float64 bits) = search (method_rules, object_rules, kept) depth 7
  Carries-set_prepared p i (string v) = search (method_rules, object_rules, kept)
  Carries-set_prepared p i (bytes v) = search (method_rules, object_rules, kept) depth 7
  Carries-set_prepared p i (zero_blob n) = search (method_rules, object_rules, kept)
  Carries-set_prepared p i other = search object_rules

  pub ruleset step_rules = (method_rules, object_rules, Carries-set_one_shot, Carries-set_prepared)

  pub Carries-ping_context : (ctx : Context) (c : Ref) → Carries P (Conn.ping_context sdk ctx c)
  unfolding Conn.ping_context
  Carries-ping_context ctx c = search (step_rules, kept) depth 9

  pub Carries-set_database_context :
      (ctx : Context) (c : Ref) (name : Bytes)
      → Carries P (Conn.set_database_context sdk ctx c name)
  unfolding Conn.set_database_context
  Carries-set_database_context ctx c name = search (step_rules, kept) depth 9

  pub Carries-metric :
      (c : Ref) (read : Ref → Do ℤ)
      → ((r : Ref) → Carries P (publicly (read r)))
      → Carries P (Conn.metric sdk c read)
  unfolding Conn.metric
  Carries-metric c read k = search (step_rules, k) depth 9

  Carries-with_last :
      (ctx : Context) (rows : Outcome Error ℤ) (again : Outcome Error (Unit {0}))
      → Carries P (Conn.with_last sdk ctx rows again)
  Carries-with_last ctx rows (ok _) = search (step_rules, kept) depth 9
  Carries-with_last ctx rows (err e) = search step_rules depth 9

  Carries-with_rows :
      (ctx : Context) (first : Outcome Error (Unit {0})) → Carries P (Conn.with_rows sdk ctx first)
  Carries-with_rows ctx (ok _) = search (step_rules, kept, Carries-with_last) depth 9
  Carries-with_rows ctx (err e) = search step_rules depth 9

  pub Carries-result_for_context : (ctx : Context) → Carries P (Conn.result_for_context sdk ctx)
  unfolding Conn.result_for_context
  Carries-result_for_context ctx = search (step_rules, Carries-with_rows) depth 9

  Carries-set_all :
      (ctx : Context) (set_arg : ℤ → Any → Act (Unit {0})) (index : ℤ) (args : List Any)
      → ((i : ℤ) (v : Any) → Carries P (set_arg i v))
      → Carries P (Conn.set_all sdk ctx set_arg index args)
  unfolding Conn.set_all
  Carries-set_all ctx set_arg index [] k = search step_rules
  Carries-set_all ctx set_arg index (v ∷ args) k =
      Carries-bind P _ _ (search step_rules)
        λ _. Carries-bind P _ _ (k index v) λ _. Carries-set_all ctx set_arg (inc index) args k

  Carries-exec_plain : (ctx : Context) (query : Bytes) → Carries P (Conn.exec_plain sdk ctx query)
  unfolding Conn.exec_plain
  Carries-exec_plain ctx query = search (step_rules, kept, Carries-result_for_context) depth 9

  Carries-exec_prepared :
      (ctx : Context) (query : Bytes) (args : List Any)
      → Carries P (Conn.exec_prepared sdk ctx query args)
  unfolding Conn.exec_prepared
  Carries-exec_prepared ctx query args =
      search (step_rules, kept, Carries-result_for_context, Carries-set_all) depth 12

  Carries-exec_one_shot :
      (ctx : Context) (query : Bytes) (args : List Any)
      → Carries P (Conn.exec_one_shot sdk ctx query args)
  unfolding Conn.exec_one_shot
  Carries-exec_one_shot ctx query args =
      search (step_rules, kept, Carries-result_for_context, Carries-set_all) depth 12

  pub Carries-exec_context :
      (ctx : Context) (c : Ref) (query : Bytes) (args : List Any)
      → Carries P (Conn.exec_context sdk ctx c query args)
  unfolding Conn.exec_context
  Carries-exec_context ctx c query args =
      search (step_rules, Carries-exec_plain, Carries-exec_prepared, Carries-exec_one_shot) depth 9

  pub Carries-prepare_context :
      (ctx : Context) (c : Ref) (query : Bytes) → Carries P (Conn.prepare_context sdk ctx c query)
  unfolding Conn.prepare_context
  Carries-prepare_context ctx c query = search (step_rules, kept) depth 9

  pub Carries-finalize : (i : ℕ) → Carries P (Stmt.finalize sdk i)
  unfolding Stmt.finalize
  Carries-finalize i = search (step_rules, kept) depth 9

  pub Carries-close_stmt_object : (p : Pointer) → Carries P (Stmt.close sdk p)
  unfolding Stmt.close
  Carries-close_stmt_object none = record { at = λ w p. p }
  Carries-close_stmt_object (some i) = record {
    at = λ w p. ground (arith, (Carries-finalize i).at w p);
  }

  pub Carries-bind_value : (p : Pointer) (i : ℤ) (v : Any) → Carries P (Stmt.bind sdk p i v)
  unfolding Stmt.bind
  Carries-bind_value p i v = search step_rules depth 9

  pub Carries-exec_stmt : (ctx : Context) (p : Pointer) → Carries P (Stmt.exec_context sdk ctx p)
  unfolding Stmt.exec_context
  Carries-exec_stmt ctx p = search (step_rules, kept, Carries-result_for_context) depth 9

  dropped :
      {A : Type 0} (i : ℕ) (r : Outcome Error A) (w : World)
      → P w.native
      → P (Stmt.or_drop i (lift r) w).1.native
  unfolding Stmt.or_drop lift
  dropped i (ok a) w p = p
  dropped i (err e) w p = rw (Local-drop_registration i w) p

  Carries-or_drop : {A : Type 0} (i : ℕ) (m : Act A) → Carries P m → Carries P (Stmt.or_drop i m)
  unfolding Stmt.or_drop lift
  Carries-or_drop i m k = record { at = λ w p. dropped i (m w).0 (m w).1 (k.at w p) }

  pub Carries-reset_context :
      (ctx : Context) (p : Pointer) → Carries P (Stmt.reset_context sdk ctx p)
  unfolding Stmt.reset_context
  Carries-reset_context ctx p = search (step_rules, kept, Carries-or_drop) depth 14
