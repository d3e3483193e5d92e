-- ===== src/Core/Tx/Failure.antt =====
-- A commit or rollback that fails leaves the transaction, and everything else in Go, as it was.
use cubesql_go_driver.Prelude.{Bool, none, some, ◌≡◌}
use cubesql_go_driver.Prelude.Action.{Outcome, ok, err, continue, modify, ◌>>=◌, ◌>>◌}
use cubesql_go_driver.Csdk.Types.{Pointer, Sdk}
use cubesql_go_driver.Core.Errors.{Error}
use cubesql_go_driver.Core.Errors.{Sentinel}
use cubesql_go_driver.Core.Types.{World, Context}
use cubesql_go_driver.Core.Act.{Act, context_error, fail}
use cubesql_go_driver.Core.Tx
use cubesql_go_driver.Core.Frame.{Frame, Frame-trans, Quiet, quiet_rules, Quiet-context_error}
use cubesql_go_driver.Core.Counts.Transactions.{Quiet-running, Quiet-finishable, Quiet-end_native}

-- Where `m` fails, it has changed nothing.
record Clean {A : Type 0} (m : Act A) : Type 0 where
  at : (w : World) (e : Error) → (m w).0 ≡ err e → Frame w (m w).1

module _ {A B : Type 0} where
  Clean-continue :
      (r : Outcome Error A) (f : A → Act B) {w : World} (v : World) (e : Error)
      → Frame w v
      → ((a : A) → Clean (f a))
      → (continue r f v).0 ≡ err e
      → Frame w (continue r f v).1
  Clean-continue (ok a) f v e frame k h = Frame-trans frame ((k a).at v e h)
  Clean-continue (err x) f v e frame k h = frame

  Clean-bind : (m : Act A) (f : A → Act B) → Quiet m → ((a : A) → Clean (f a)) → Clean (m >>= f)
  unfolding ◌>>=◌
  Clean-bind m f q k = record { at = λ w e h. Clean-continue (m w).0 f (m w).1 e (q.at w) k h }

Clean-end : (f g : World → World) → Clean (modify f >>= λ _. modify g)
unfolding ◌>>=◌
Clean-end f g = record { at = λ w e h. absurd (never_ok h) }
  where
    never_ok : {e : Error} → ◌≡◌ {A = Outcome Error (Unit {0})} (ok tt) (err e) → ⊥
    never_ok h = cc

Quiet-no_transaction :
    (ctx : Context) → Quiet {A = Unit {0}} (do context_error ctx; fail Sentinel.tx_done)
Quiet-no_transaction ctx = search quiet_rules

module _ (sdk : Sdk) where
  -- A commit or rollback that fails, for whatever reason, leaves the connection, the statements, the
  -- cursors and the transaction as they were, so that it can be tried again.
  pub Frame-finish_failed :
      (ctx : Context) (tx : Pointer) (commit : Bool) (w : World) (e : Error)
      → (Tx.finish sdk ctx tx commit w).0 ≡ err e
      → Frame w (Tx.finish sdk ctx tx commit w).1
  unfolding Tx.finish
  Frame-finish_failed ctx none commit w e h = (Quiet-no_transaction ctx).at w
  Frame-finish_failed ctx (some t) commit w e h = finish_clean.at w e h
    where
      finish_clean : Clean (Tx.finish sdk ctx (some t) commit)
      finish_clean = Clean-bind _ _ (Quiet-context_error ctx) λ _.
          Clean-bind _ _ (Quiet-running (some t)) λ _. Clean-bind _ _ Quiet-finishable λ _.
            Clean-bind _ _ (Quiet-context_error ctx)
              λ _. Clean-bind _ _ (Quiet-end_native sdk commit) λ _. Clean-end _ _
