-- ===== src/Core/Frame.antt =====
-- Calls of the package cubesql that change no Go object of the package: they cross into C, look at
-- the context, and return.
use cubesql_go_driver.Prelude.{
  ℤ, inc, Bool, true, false, List, [], ◌∷◌, ◌≡◌, refl, ◌∙◌, arith, Bytes, if◌then◌else◌,
}
use cubesql_go_driver.Prelude.Action.{
  Outcome, ok, err, pure, raise, return_if, gets, lift, continue, ◌>>=◌, deferring, attempt,
  on_error, settle,
}
use cubesql_go_driver.Csdk.Types.{Ref, Sdk, Do, Pointer}
use cubesql_go_driver.Core.Errors.{Error}
use cubesql_go_driver.Core.Types.{World, Context}
use cubesql_go_driver.Core.Act.{Act, context_error, publicly}
use cubesql_go_driver.Core.Bind.{Any, set_prepared, set_one_shot}
use cubesql_go_driver.Core.Conn

pub record Frame (w v : World) : Type 0 where
  pub conn : v.conn ≡ w.conn
  pub stmts : v.stmts ≡ w.stmts
  pub rows : v.rows ≡ w.rows
  pub txs : v.txs ≡ w.txs

pub Frame-refl : (w : World) → Frame w w
Frame-refl w = record { conn = refl; stmts = refl; rows = refl; txs = refl }

pub Frame-trans : {u v w : World} → Frame u v → Frame v w → Frame u w
Frame-trans f g = record {
  conn = g.conn ∙ f.conn;
  stmts = g.stmts ∙ f.stmts;
  rows = g.rows ∙ f.rows;
  txs = g.txs ∙ f.txs;
}

pub record Quiet {A : Type 0} (m : Act A) : Type 0 where
  pub at : (w : World) → Frame w (m w).1

module _ {A : Type 0} where
  pub Quiet-publicly : (m : Do A) → Quiet (publicly m)
  unfolding publicly
  Quiet-publicly m = record {
    at = λ w. record { conn = refl; stmts = refl; rows = refl; txs = refl };
  }

  pub Quiet-attempt : (m : Act A) → Quiet m → Quiet (attempt m)
  unfolding attempt
  Quiet-attempt m q = record { at = q.at }

  pub Quiet-pure : (a : A) → Quiet (pure a)
  unfolding pure
  Quiet-pure a = record { at = λ w. Frame-refl w }

  pub Quiet-raise : (e : Error) → Quiet (raise {A = A} e)
  unfolding raise
  Quiet-raise e = record { at = λ w. Frame-refl w }

  pub Quiet-lift : (r : Outcome Error A) → Quiet (lift r)
  unfolding lift
  Quiet-lift r = record { at = λ w. Frame-refl w }

  pub Quiet-gets : (f : World → A) → Quiet (gets f)
  unfolding gets
  Quiet-gets f = record { at = λ w. Frame-refl w }

  pub Quiet-if : (b : Bool) (m n : Act A) → Quiet m → Quiet n → Quiet (if b then m else n)
  Quiet-if true m n qm qn = qm
  Quiet-if false m n qm qn = qn

pub Quiet-context_error : (ctx : Context) → Quiet (context_error ctx)
unfolding context_error
Quiet-context_error ctx = record { at = λ w. ground arith }

pub Quiet-return_if : (b : Bool) (e : Error) → Quiet (return_if b e)
unfolding return_if
Quiet-return_if b e = record { at = λ w. ground arith }

module _ {A B : Type 0} where
  pub Quiet-continue :
      (r : Outcome Error A) (f : A → Act B) (w v : World)
      → Frame w v
      → ((a : A) → Quiet (f a))
      → Frame w (continue r f v).1
  Quiet-continue (ok a) f w v frame q = Frame-trans frame ((q a).at v)
  Quiet-continue (err e) f w v frame q = frame

  pub Quiet-bind : (m : Act A) (f : A → Act B) → Quiet m → ((a : A) → Quiet (f a)) → Quiet (m >>= f)
  unfolding ◌>>=◌
  Quiet-bind m f qm qf = record { at = λ w. Quiet-continue (m w).0 f w (m w).1 (qm.at w) qf }

  pub Quiet-deferring :
      (m : Act A) (cleanup : Act B) → Quiet m → Quiet cleanup → Quiet (deferring m cleanup)
  unfolding deferring
  Quiet-deferring m cleanup qm qc = record { at = λ w. Frame-trans (qm.at w) (qc.at (m w).1) }

module _ {A B : Type 0} where
  pub Quiet-on_error :
      (m : Act A) (cleanup : Act B) → Quiet m → Quiet cleanup → Quiet (on_error m cleanup)
  unfolding on_error
  Quiet-on_error m cleanup qm qc = record { at = λ w. settled (m w).0 w (m w).1 (qm.at w) }
    where
      settled : (r : Outcome Error A) (w v : World) → Frame w v → Frame w (settle r cleanup v).1
      settled (ok a) w v f = f
      settled (err e) w v f = Frame-trans f (qc.at v)

pub ruleset quiet_rules = (
  Quiet-on_error, Quiet-publicly, Quiet-attempt, Quiet-pure, Quiet-raise, Quiet-lift, Quiet-gets,
  Quiet-if, Quiet-context_error, Quiet-return_if, Quiet-bind, Quiet-deferring,
)

pub Quiet-connected : (conn : Ref) → Quiet (Conn.connected conn)
unfolding Conn.connected
Quiet-connected conn = record { at = λ w. ground arith }

pub Quiet-no_children : Quiet Conn.no_children
unfolding Conn.no_children
Quiet-no_children = record { at = λ w. ground arith }

pub Quiet-idle : Quiet Conn.idle
unfolding Conn.idle
Quiet-idle = record { at = λ w. ground arith }

pub ruleset guard_rules = (quiet_rules, Quiet-connected, Quiet-no_children, Quiet-idle)

module _ (sdk : Sdk) where
  pub Quiet-set_prepared :
      (stmt : Pointer) (index : ℤ) (value : Any) → Quiet (set_prepared sdk stmt index value)
  unfolding set_prepared publicly ◌>>=◌
  Quiet-set_prepared stmt index value = record { at = λ w. ground arith }

  pub Quiet-set_one_shot :
      (bind : Pointer) (index : ℤ) (value : Any) → Quiet (set_one_shot sdk bind index value)
  unfolding set_one_shot publicly ◌>>=◌
  Quiet-set_one_shot bind index value = record { at = λ w. ground arith }

  pub Quiet-result : (ctx : Context) → Quiet (Conn.result_for_context sdk ctx)
  unfolding Conn.result_for_context publicly context_error ◌>>=◌ attempt
  Quiet-result ctx = record { at = λ w. ground arith }

  pub Quiet-set_all :
      (ctx : Context) (set_arg : ℤ → Any → Act (Unit {0})) (index : ℤ) (args : List Any)
      → ((i : ℤ) (value : Any) → Quiet (set_arg i value))
      → Quiet (Conn.set_all sdk ctx set_arg index args)
  unfolding Conn.set_all
  Quiet-set_all ctx set_arg index [] q = search quiet_rules
  Quiet-set_all ctx set_arg index (value ∷ args) q =
      Quiet-bind (context_error ctx) _ (Quiet-context_error ctx) λ _.
        Quiet-bind (set_arg index value) _ (q index value)
          λ _. Quiet-set_all ctx set_arg (inc index) args q

  ruleset exec_rules =
      (guard_rules, Quiet-set_prepared, Quiet-set_one_shot, Quiet-result, Quiet-set_all)

  pub Quiet-exec_plain : (ctx : Context) (query : Bytes) → Quiet (Conn.exec_plain sdk ctx query)
  unfolding Conn.exec_plain
  Quiet-exec_plain ctx query = search exec_rules depth 9

  pub Quiet-exec_prepared :
      (ctx : Context) (query : Bytes) (args : List Any)
      → Quiet (Conn.exec_prepared sdk ctx query args)
  unfolding Conn.exec_prepared
  Quiet-exec_prepared ctx query args = search exec_rules depth 12

  pub Quiet-exec_one_shot :
      (ctx : Context) (query : Bytes) (args : List Any)
      → Quiet (Conn.exec_one_shot sdk ctx query args)
  unfolding Conn.exec_one_shot
  Quiet-exec_one_shot ctx query args = search exec_rules depth 12

  -- An execution leaves the counts, the statements, the cursors and the transactions as they were.
  pub Quiet-exec_context :
      (ctx : Context) (conn : Ref) (query : Bytes) (args : List Any)
      → Quiet (Conn.exec_context sdk ctx conn query args)
  unfolding Conn.exec_context
  Quiet-exec_context ctx conn query args =
      search (guard_rules, Quiet-exec_plain, Quiet-exec_prepared, Quiet-exec_one_shot) depth 9
