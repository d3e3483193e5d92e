-- ===== src/Core/Carried/Objects.antt =====
-- The steps of the core package that look at, or change, Go objects only.
use cubesql_go_driver.Prelude.{ℕ, ℤ, Bool, none, some, ◌≡◌, refl, arith, Bytes}
use cubesql_go_driver.Prelude.Action.{Outcome, ok, err, modify, ◌>>=◌}
use cubesql_go_driver.Csdk.Types.{Ref, Pointer}
use cubesql_go_driver.Core.Errors.{Error}
use cubesql_go_driver.Core.Types.{World, Context}
use cubesql_go_driver.Core.Act.{context_error}
use cubesql_go_driver.Core.Conn
use cubesql_go_driver.Core.Stmt
use cubesql_go_driver.Core.Rows
use cubesql_go_driver.Core.Query
use cubesql_go_driver.Core.Tx
use cubesql_go_driver.Core.Scan
use cubesql_go_driver.Core.Carried.{
  Local, Local-modify, Local-raise, Local-pure, Carries, carried_rules,
}

pub Local-context_error : (ctx : Context) → Local (context_error ctx)
unfolding context_error
Local-context_error ctx = record { at = λ w. ground arith }

pub Local-connected : (c : Ref) → Local (Conn.connected c)
unfolding Conn.connected
Local-connected c = record { at = λ w. ground arith }

pub Local-no_children : Local Conn.no_children
unfolding Conn.no_children
Local-no_children = record { at = λ w. ground arith }

pub Local-idle : Local Conn.idle
unfolding Conn.idle
Local-idle = record { at = λ w. ground arith }

pub Local-add_child : (c : Ref) → Local (Conn.add_child c)
unfolding Conn.add_child ◌>>=◌
Local-add_child c = record { at = λ w. ground arith }

pub Local-release_child : (c : Ref) → Local (Conn.release_child c)
unfolding Conn.release_child
Local-release_child c = record { at = λ w. ground arith }

pub Local-new_stmt : (c : Ref) (stmt : ℕ) (query : Bytes) → Local (Conn.new_stmt c stmt query)
unfolding Conn.new_stmt
Local-new_stmt c stmt query = record { at = λ w. refl }

pub Local-ready : (p : Pointer) → Local (Stmt.ready p)
unfolding Stmt.ready
Local-ready p = record { at = λ w. ground arith }

pub Local-ready_on_conn : (p : Pointer) → Local (Stmt.ready_on_conn p)
unfolding Stmt.ready_on_conn
Local-ready_on_conn p = record { at = λ w. ground arith }

pub Local-release_registration : (i : ℕ) → Local (Stmt.release_registration i)
unfolding Stmt.release_registration ◌>>=◌
Local-release_registration i = record { at = λ w. ground arith }

pub Local-drop_registration : (i : ℕ) (w : World) → (Stmt.drop_registration i w).native ≡ w.native
unfolding Stmt.drop_registration
Local-drop_registration i w = ground arith

pub Local-one_row_less : (i : ℕ) → Local (modify (Stmt.one_row_less i))
unfolding Stmt.one_row_less modify
Local-one_row_less i = record { at = λ w. ground arith }

pub Local-set_handle : (i : ℕ) (p : Pointer) → Local (modify (Stmt.set_handle i p))
Local-set_handle i p = Local-modify _ λ w. refl

pub Local-detach : (i : ℕ) → Local (modify (Rows.detach i))
Local-detach i = Local-modify _ λ w. refl

pub Local-set_column :
    (i k : ℕ) (name : Bytes) (t : ℤ) → Local (modify (Rows.set_column i k name t))
Local-set_column i k name t = Local-modify _ λ w. refl

pub Local-open_rows : (p : Pointer) → Local (Rows.open_rows p)
unfolding Rows.open_rows
Local-open_rows p = record { at = λ w. ground arith }

pub Local-arrive : (i : ℕ) (row : ℤ) (r : Outcome Error (Unit {0})) → Local (Rows.arrive i row r)
Local-arrive i row (ok _) = record { at = λ w. refl }
Local-arrive i row (err e) = record { at = λ w. refl }

pub Local-allocate : (native : Pointer) (total : ℤ) (n : ℕ) → Local (Rows.allocate native total n)
unfolding Rows.allocate
Local-allocate native total n = record { at = λ w. refl }

pub Local-adopt : (c : Ref) (i : ℕ) → Local (Query.adopt c i)
unfolding Query.adopt
Local-adopt c i = record { at = λ w. refl }

pub Local-link :
    (rows : ℕ) (c : Ref) (i : ℕ) (close_stmt : Bool) → Local (Query.link rows c i close_stmt)
unfolding Query.link
Local-link rows c i close_stmt = record { at = λ w. refl }

pub Local-running : (tx : Pointer) → Local (Tx.running tx)
unfolding Tx.running
Local-running tx = record { at = λ w. ground arith }

pub Local-finishable : Local Tx.finishable
unfolding Tx.finishable
Local-finishable = record { at = λ w. ground arith }

pub Local-no_tx : Local Tx.no_tx
unfolding Tx.no_tx
Local-no_tx = record { at = λ w. ground arith }

pub Local-set_native : (r : Ref) → Local (modify (Conn.set_native r))
Local-set_native r = Local-modify _ λ w. refl

pub Local-set_tx_active : (b : Bool) → Local (modify (Tx.set_tx_active b))
Local-set_tx_active b = Local-modify _ λ w. refl

pub Local-end_tx : (t : ℕ) → Local (modify (Tx.end_tx t))
Local-end_tx t = Local-modify _ λ w. refl

pub Local-fail_if_nil : (p : Pointer) → Local (Scan.fail_if_nil p)
Local-fail_if_nil none = Local-raise _
Local-fail_if_nil (some i) = Local-pure _

pub ruleset object_rules = (
  carried_rules, Local-context_error, Local-connected, Local-no_children, Local-idle,
  Local-add_child, Local-release_child, Local-new_stmt, Local-ready, Local-ready_on_conn,
  Local-release_registration, Local-one_row_less, Local-set_handle, Local-detach, Local-set_column,
  Local-open_rows, Local-arrive, Local-allocate, Local-adopt, Local-link, Local-running,
  Local-finishable, Local-no_tx, Local-set_native, Local-set_tx_active, Local-end_tx,
  Local-fail_if_nil,
)
