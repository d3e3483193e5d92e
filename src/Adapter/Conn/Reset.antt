-- ===== src/Adapter/Conn/Reset.antt =====
-- What the pool relies on in `ResetSession`.
use cubesql_go_driver.Prelude.{Bool, true, false, none, some, ◌≡◌, refl, arith}
use cubesql_go_driver.Prelude.Action.{Outcome, ok, err, continue, gets, modify, pure, ◌>>=◌}
use cubesql_go_driver.Csdk.Types.{Ref, Sdk, Pointer}
use cubesql_go_driver.Core.Errors
use cubesql_go_driver.Core.Types.{Context}
use cubesql_go_driver.Core.Act.{Act}
use cubesql_go_driver.Core.Conn
use cubesql_go_driver.Core.Tx
use cubesql_go_driver.Adapter.Types.{Error, bad_conn, Session, Sql}
use cubesql_go_driver.Adapter.Conn.{
  reset_session, is_valid, reset_tx, usable, core_call, or_broken, settle_reset,
  is_no_database_selected,
}

abbrev IsReady : Session → Type 0
IsReady s = is_valid Ref.self s ≡ true

abbrev pub IsIdle : Session → Type 0
IsIdle s = (is_valid Ref.self s ≡ true) × (s.active_tx ≡ none)

-- What a method returned, and the session it left: one with `Q`, or ErrBadConn and an invalid one.
abbrev pub Settled : {A : Type 0} → (Session → Type 0) → Outcome Error A → Session → Type 0
Settled Q (ok a) s = Q s
Settled Q (err e) s = (e ≡ bad_conn) × (is_valid Ref.self s ≡ false)

module _ {A B : Type 0} (P Q : Session → Type 0) where
  Settled-continue :
      (r : Outcome Error A) (f : A → Sql B) (s : Session)
      → Settled P r s
      → ((a : A) (t : Session) → P t → Settled Q (f a t).0 (f a t).1)
      → Settled Q (continue r f s).0 (continue r f s).1
  Settled-continue (ok a) f s p k = k a s p
  Settled-continue (err e) f s p k = p

  Settled-bind :
      (m : Sql A) (f : A → Sql B) (s : Session)
      → Settled P (m s).0 (m s).1
      → ((a : A) (t : Session) → P t → Settled Q (f a t).0 (f a t).1)
      → Settled Q ((m >>= f) s).0 ((m >>= f) s).1
  unfolding ◌>>=◌
  Settled-bind m f s p k = Settled-continue (m s).0 f (m s).1 p k

module _ {C B : Type 0} (Q : Session → Type 0) where
  Settled-gets :
      (g : Session → C) (f : C → Sql B) (s : Session)
      → Settled Q (f (g s) s).0 (f (g s) s).1
      → Settled Q ((gets g >>= f) s).0 ((gets g >>= f) s).1
  unfolding ◌>>=◌ gets
  Settled-gets g f s p = p

usable-Settled : (s : Session) → Settled IsReady (usable s).0 (usable s).1
unfolding usable is_valid
usable-Settled s = ground arith

settle_reset-Ready :
    (allowed : Errors.Error → Bool) (r : Outcome Errors.Error (Unit {0})) (s : Session)
    → IsReady s
    → Settled IsReady (settle_reset allowed r s).0 (settle_reset allowed r s).1
unfolding is_valid
settle_reset-Ready allowed r s p = ground arith

settle_reset-Idle :
    (allowed : Errors.Error → Bool) (r : Outcome Errors.Error (Unit {0})) (s : Session)
    → IsIdle s
    → Settled IsIdle (settle_reset allowed r s).0 (settle_reset allowed r s).1
unfolding is_valid
settle_reset-Idle allowed r s p = ground arith

or_broken-Ready :
    (allowed : Errors.Error → Bool) (m : Act (Unit {0})) (s : Session)
    → IsReady s
    → Settled IsReady (or_broken allowed m s).0 (or_broken allowed m s).1
unfolding or_broken core_call is_valid
or_broken-Ready allowed m s p =
    settle_reset-Ready allowed (m s.world).0 (record s { world = (m s.world).1 }) p

or_broken-Idle :
    (allowed : Errors.Error → Bool) (m : Act (Unit {0})) (s : Session)
    → IsIdle s
    → Settled IsIdle (or_broken allowed m s).0 (or_broken allowed m s).1
unfolding or_broken core_call is_valid
or_broken-Idle allowed m s p =
    settle_reset-Idle allowed (m s.world).0 (record s { world = (m s.world).1 }) p

module _ (sdk : Sdk) where
  reset_tx-Settled :
      (ctx : Context) (active : Pointer) (s : Session)
      → IsReady s
      → s.active_tx ≡ active
      → Settled IsIdle (reset_tx sdk ctx active s).0 (reset_tx sdk ctx active s).1
  unfolding modify pure is_valid
  reset_tx-Settled ctx none s p q = (p, q)
  reset_tx-Settled ctx (some t) s p q =
      Settled-bind IsReady IsIdle (or_broken (λ _. false) (Tx.finish sdk ctx (some t) false)) _ s
        (or_broken-Ready (λ _. false) (Tx.finish sdk ctx (some t) false) s p) λ _ t r. (r, refl)

  -- `ResetSession` returns no error and leaves a valid connection without a transaction, or it
  -- returns `driver.ErrBadConn` and leaves a connection that is not valid any more.
  pub reset_session-Settled :
      (ctx : Context) (s : Session)
      → Settled IsIdle (reset_session sdk ctx s).0 (reset_session sdk ctx s).1
  unfolding reset_session
  reset_session-Settled ctx s =
      Settled-bind IsReady IsIdle usable _ s (usable-Settled s) λ _ s1 ready.
        Settled-gets IsIdle (λ t. t.active_tx) _ s1
          (Settled-bind IsIdle IsIdle (reset_tx sdk ctx s1.active_tx) _ s1
            (reset_tx-Settled ctx s1.active_tx s1 ready refl)
            λ _ s2 idle.
              Settled-gets IsIdle (λ t. t.native) _ s2
                (Settled-bind IsIdle IsIdle
                  (or_broken is_no_database_selected (Tx.finish_implicit sdk ctx s2.native false)) _
                  s2
                  (or_broken-Idle is_no_database_selected
                    (Tx.finish_implicit sdk ctx s2.native false) s2 idle)
                  λ _ s3 idle.
                    Settled-gets IsIdle (λ t. t.database) _ s3
                      (or_broken-Idle (λ _. false)
                        (Conn.set_database_context sdk ctx s2.native s3.database) s3 idle)))
