-- ===== src/Adapter/Tx/Once.antt =====
-- A transaction of the adapter ends once, however its commit or rollback went.
use cubesql_go_driver.Prelude.{
  ℕ, zero, suc, true, false, none, ◌≡◌, refl, arith, List, [], ◌∷◌, get_or, set,
}
use cubesql_go_driver.Prelude.Action.{Outcome, ok, err}
use cubesql_go_driver.Csdk.Types.{Sdk}
use cubesql_go_driver.Core.Errors.{Sentinel, plain}
use cubesql_go_driver.Adapter.Types.{
  Error, core, Session, Transaction, transaction_at, zero_transaction,
}
use cubesql_go_driver.Adapter.Tx.{commit, rollback, is_over}

-- Marking an address done makes what it holds over, also where nothing was.
done_over :
    (ts : List Transaction) (t : ℕ)
    → is_over (
        get_or
          (set ts t (record (get_or ts t zero_transaction) { done = true }))
          t
          zero_transaction)
      ≡ true
unfolding is_over
done_over [] t = refl
done_over (x ∷ ts) zero = refl
done_over (x ∷ ts) (suc t) = done_over ts t

abbrev pub Ended : Outcome Error (Unit {0}) → Session → Type 0
Ended (ok _) s = s.active_tx ≡ none
Ended (err e) s = s.broken ≡ true

module _ (sdk : Sdk) where
  over_after_commit : (t : ℕ) (s : Session) → is_over (transaction_at (commit sdk t s).1 t) ≡ true
  unfolding commit
  over_after_commit t s = ground (arith, done_over s.transactions t)

  over_after_rollback :
      (t : ℕ) (s : Session) → is_over (transaction_at (rollback sdk t s).1 t) ≡ true
  unfolding rollback
  over_after_rollback t s = ground (arith, done_over s.transactions t)

  -- Over is over: a second commit or rollback fails with ErrTxDone and changes nothing.
  over_stays :
      (t : ℕ) (s : Session)
      → is_over (transaction_at s t) ≡ true
      → (commit sdk t s ≡ (err (core (plain Sentinel.tx_done)), s))
        × (rollback sdk t s ≡ (err (core (plain Sentinel.tx_done)), s))
  unfolding commit rollback
  over_stays t s over = ground (arith, over)

  -- After a commit, whatever it returned, a commit or rollback of the same transaction fails with
  -- ErrTxDone and changes nothing.
  pub commit-Once :
      (t : ℕ) (s : Session)
      → let s' = (commit sdk t s).1 in
        (commit sdk t s' ≡ (err (core (plain Sentinel.tx_done)), s'))
        × (rollback sdk t s' ≡ (err (core (plain Sentinel.tx_done)), s'))
  commit-Once t s = over_stays t (commit sdk t s).1 (over_after_commit t s)

  -- After a rollback, whatever it returned, a commit or rollback of the same transaction fails with
  -- ErrTxDone and changes nothing.
  pub rollback-Once :
      (t : ℕ) (s : Session)
      → let s' = (rollback sdk t s).1 in
        (commit sdk t s' ≡ (err (core (plain Sentinel.tx_done)), s'))
        × (rollback sdk t s' ≡ (err (core (plain Sentinel.tx_done)), s'))
  rollback-Once t s = over_stays t (rollback sdk t s).1 (over_after_rollback t s)

  -- A running transaction that is committed or rolled back leaves a connection without an active
  -- transaction where that succeeds, and a broken connection where it fails.
  pub end-Settled :
      (t : ℕ) (s : Session)
      → is_over (transaction_at s t) ≡ false
      → s.active_tx ≡ (transaction_at s t).native
      → Ended (commit sdk t s).0 (commit sdk t s).1
        × Ended (rollback sdk t s).0 (rollback sdk t s).1
  unfolding commit rollback
  end-Settled t s live own = ground (arith, live)
