-- ===== src/Adapter/Conn/Leak.antt =====
-- What is left of a connection whose transaction could not be rolled back.
use cubesql_go_driver.Prelude.{ap, ◌∙◌, ℕ, true, false, none, some, ◌≡◌, refl, arith}
use cubesql_go_driver.Prelude.Action.{err, ◌>>=◌}
use cubesql_go_driver.Csdk.Types.{Ref, Sdk}
use cubesql_go_driver.Core.Errors
use cubesql_go_driver.Core.Errors.{Sentinel, plain, joined_one, joined}
use cubesql_go_driver.Core.Types.{World, background}
use cubesql_go_driver.Core.Tx
use cubesql_go_driver.Core.Conn
use cubesql_go_driver.Adapter.Types.{core, Session}
use cubesql_go_driver.Adapter
use cubesql_go_driver.Core.Tx.Failure.{Frame-finish_failed}
use cubesql_go_driver.Core.Frame.{Frame}

module _ (sdk : Sdk) where
  -- The core connection with an active transaction refuses to close, and stays as it was.
  busy_close :
      (w : World)
      → w.conn.native ≡ Ref.self
      → w.conn.tx_active ≡ true
      → Conn.close sdk Ref.self w ≡ (err (plain Sentinel.busy), w)
  unfolding Conn.close ◌>>=◌
  busy_close w open_conn active = ground arith

  -- The adapter's connection then refuses to close too, in every state with no `activeTx`.
  pub close_stuck :
      (s : Session)
      → s.closed ≡ false
      → s.native ≡ Ref.self
      → s.active_tx ≡ none
      → s.world.conn.native ≡ Ref.self
      → s.world.conn.tx_active ≡ true
      → Adapter.Conn.close sdk Ref.self s ≡ (err (core (joined_one (plain Sentinel.busy))), s)
  unfolding Adapter.Conn.close
  close_stuck s c n a open_conn active = ground (arith, busy_close s.world open_conn active)

  -- The state after a close whose rollback failed with `v` as the world it left.
  closed_once :
      (s : Session) (t : ℕ) (e : Errors.Error)
      → let v = (Tx.finish sdk background (some t) false s.world).1 in
        s.closed ≡ false
        → s.native ≡ Ref.self
        → s.active_tx ≡ some t
        → v.conn.native ≡ Ref.self
        → v.conn.tx_active ≡ true
        → (Tx.finish sdk background (some t) false s.world).0 ≡ err e
        → (Adapter.Conn.close sdk Ref.self s).1 ≡ record s { world = v; active_tx = none }
  unfolding Adapter.Conn.close Adapter.Conn.core_call
  closed_once s t e c n a still_open still_active failed = ground (
    arith,
    failed,
    busy_close (Tx.finish sdk background (some t) false s.world).1 still_open still_active,
  )

  -- When the rollback in the adapter's `Close` fails, the native connection is open afterwards, and
  -- a further `Close` fails with ErrBusy and changes nothing, so every later one does too.
  pub close_after_failed_rollback :
      (s : Session) (t : ℕ) (e : Errors.Error)
      → s.closed ≡ false
      → s.native ≡ Ref.self
      → s.active_tx ≡ some t
      → s.world.conn.native ≡ Ref.self
      → s.world.conn.tx_active ≡ true
      → (Tx.finish sdk background (some t) false s.world).0 ≡ err e
      → let s' = (Adapter.Conn.close sdk Ref.self s).1 in
        (s'.world.conn.native ≡ Ref.self)
        × (Adapter.Conn.close sdk Ref.self s' ≡ (err (core (joined_one (plain Sentinel.busy))), s'))
  close_after_failed_rollback s t e c n a open_conn active failed =
      let v = (Tx.finish sdk background (some t) false s.world).1 in
      let f : Frame s.world v =
        Frame-finish_failed sdk background (some t) false s.world e failed in
      let still_open : v.conn.native ≡ Ref.self = ap (λ c. c.native) f.conn ∙ open_conn in
      let still_active : v.conn.tx_active ≡ true = ap (λ c. c.tx_active) f.conn ∙ active in
      rw (closed_once s t e c n a still_open still_active failed) (
        still_open,
        close_stuck (record s { world = v; active_tx = none }) c n refl still_open still_active,
      )
