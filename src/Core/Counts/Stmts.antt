-- ===== src/Core/Counts/Stmts.antt =====
-- The methods of `Stmt` and `Rows` that change what the connection counts.
use cubesql_go_driver.Prelude.{
  ℕ, ℤ, dec, Bool, false, none, some, ◌≡◌, refl, arith, count-set_same, count-set_drop,
  count-eq-zero,
}
use cubesql_go_driver.Prelude.Action.{Outcome, ok, err, modify, lift, ◌>>=◌}
use cubesql_go_driver.Csdk.Types.{Pointer, Sdk}
use cubesql_go_driver.Core.Errors.{Error}
use cubesql_go_driver.Core.Types.{World, Context, Stmt, zero_stmt, stmt_at}
use cubesql_go_driver.Core.Act.{Act}
use cubesql_go_driver.Core.Bind.{Any}
use cubesql_go_driver.Core.Stmt
use cubesql_go_driver.Core.Stmt.{put_stmt, set_handle, set_rows, unregister}
use cubesql_go_driver.Core.Frame.{
  Frame, Frame-refl, Quiet, quiet_rules, guard_rules, Quiet-set_prepared, Quiet-result,
}
use cubesql_go_driver.Core.Counts.{registered, orphan, Balanced, Balanced-Frame, Keeps, keeps_rules}

-- A write to a statement that leaves its registration and its connection.
put_stmt-Balanced :
    (i : ℕ) (s : Stmt) (w : World)
    → s.registered ≡ (stmt_at w i).registered
    → s.conn ≡ (stmt_at w i).conn
    → Balanced w
    → Balanced (put_stmt i s w)
put_stmt-Balanced i s w same_reg same_conn b = ground (
  arith,
  count-set_same registered zero_stmt w.stmts i s,
  count-set_same orphan zero_stmt w.stmts i s,
)

pub Keeps-set_handle : (i : ℕ) (p : Pointer) → Keeps (modify (set_handle i p))
unfolding modify
Keeps-set_handle i p = record { at = λ w b. put_stmt-Balanced i _ w refl refl b }

pub set_rows-Balanced : (i : ℕ) (n : ℤ) (w : World) → Balanced w → Balanced (set_rows i n w)
set_rows-Balanced i n w b = put_stmt-Balanced i _ w refl refl b

-- Both ways to give up a registration take one child off the connection.
pub drop_registration-Balanced :
    (i : ℕ) (w : World) → Balanced w → Balanced (Stmt.drop_registration i w)
unfolding Stmt.drop_registration
drop_registration-Balanced i w b = ground (
  arith,
  count-set_drop registered zero_stmt w.stmts i (record (stmt_at w i) { registered = false }),
  count-set_same orphan zero_stmt w.stmts i (record (stmt_at w i) { registered = false }),
  count-eq-zero orphan zero_stmt w.stmts i,
)

pub Keeps-release_registration : (i : ℕ) → Keeps (Stmt.release_registration i)
unfolding Stmt.release_registration ◌>>=◌
Keeps-release_registration i = record {
  at = λ w b. ground (
    arith,
    count-set_drop registered zero_stmt w.stmts i (record (stmt_at w i) { registered = false }),
    count-set_same orphan zero_stmt w.stmts i (record (stmt_at w i) { registered = false }),
    count-eq-zero orphan zero_stmt w.stmts i,
  );
}

pub Quiet-ready : (stmt : Pointer) → Quiet (Stmt.ready stmt)
unfolding Stmt.ready
Quiet-ready none = record { at = λ w. Frame-refl w }
Quiet-ready (some i) = record { at = λ w. ground arith }

pub Quiet-ready_on_conn : (stmt : Pointer) → Quiet (Stmt.ready_on_conn stmt)
unfolding Stmt.ready_on_conn
Quiet-ready_on_conn none = record { at = λ w. Frame-refl w }
Quiet-ready_on_conn (some i) = record { at = λ w. ground arith }

pub ruleset ready_rules = (guard_rules, Quiet-ready, Quiet-ready_on_conn)

module _ {A : Type 0} where
  dropped :
      (i : ℕ) (r : Outcome Error A) (w : World)
      → Balanced w
      → Balanced (Stmt.or_drop i (lift r) w).1
  unfolding Stmt.or_drop lift
  dropped i (ok a) w b = b
  dropped i (err e) w b = drop_registration-Balanced i w b

  Keeps-or_drop : (i : ℕ) (m : Act A) → Quiet m → Keeps (Stmt.or_drop i m)
  unfolding Stmt.or_drop lift
  Keeps-or_drop i m q = record { at = λ w b. dropped i (m w).0 (m w).1 (Balanced-Frame (q.at w) b) }

module _ (sdk : Sdk) where
  pub Keeps-finalize : (i : ℕ) → Keeps (Stmt.finalize sdk i)
  unfolding Stmt.finalize
  Keeps-finalize i = search (keeps_rules, Keeps-set_handle, Keeps-release_registration) depth 9

  pub Keeps-close : (stmt : Pointer) → Keeps (Stmt.close sdk stmt)
  unfolding Stmt.close
  Keeps-close none = record { at = λ w b. b }
  Keeps-close (some i) = record { at = λ w b. ground (arith, (Keeps-finalize i).at w b) }

  pub Quiet-bind_value :
      (stmt : Pointer) (index : ℤ) (value : Any) → Quiet (Stmt.bind sdk stmt index value)
  unfolding Stmt.bind
  Quiet-bind_value stmt index value = search (ready_rules, Quiet-set_prepared) depth 9

  pub Quiet-exec_stmt : (ctx : Context) (stmt : Pointer) → Quiet (Stmt.exec_context sdk ctx stmt)
  unfolding Stmt.exec_context
  Quiet-exec_stmt ctx stmt = search (ready_rules, Quiet-result) depth 9

  pub Keeps-reset_context :
      (ctx : Context) (stmt : Pointer) → Keeps (Stmt.reset_context sdk ctx stmt)
  unfolding Stmt.reset_context
  Keeps-reset_context ctx stmt =
      search (keeps_rules, ready_rules, Keeps-set_handle, Keeps-or_drop) depth 14

  one_row_less-Balanced : (i : ℕ) (w : World) → Balanced w → Balanced (Stmt.one_row_less i w)
  unfolding Stmt.one_row_less
  one_row_less-Balanced i w b = ground (arith, set_rows-Balanced i (dec (stmt_at w i).rows) w b)

  pub Keeps-release_row :
      (i : ℕ) (close_statement : Bool) → Keeps (Stmt.release_row sdk i close_statement)
  unfolding Stmt.release_row ◌>>=◌
  Keeps-release_row i close_statement = record {
    at = λ w b.
        let v = Stmt.one_row_less i w in
        ground (
          arith,
          one_row_less-Balanced i w b,
          (Keeps-finalize i).at v (one_row_less-Balanced i w b),
        );
  }
