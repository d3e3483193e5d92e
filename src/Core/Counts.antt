-- ===== src/Core/Counts.antt =====
-- The counts of the package cubesql: `Conn.children` against the statements and cursors that the
-- connection still owns, and `Conn.txActive` against the transactions that still run.
pub mod Stmts
pub mod Cursors
pub mod Births
pub mod Queries
pub mod Transactions
use cubesql_go_driver.Prelude.{
  ℕ, ◌+◌, ℤ, pos, Bool, true, false, not, ◌&&◌, bit, Option, none, some, List, ◌≡◌, refl, arith,
  count, count-set_same, count-set_drop, count-eq-zero, set, if◌then◌else◌,
}
use cubesql_go_driver.Prelude.Action.{
  Outcome, ok, err, continue, modify, ◌>>=◌, on_error, settle, attempt,
}
use cubesql_go_driver.Csdk.Types.{Ref, is_nil, Pointer}
use cubesql_go_driver.Core.Errors.{Error}
use cubesql_go_driver.Core.Types.{World, Stmt, Tx, zero_stmt, stmt_at}
use cubesql_go_driver.Core.Act.{Act}
use cubesql_go_driver.Core.Frame.{Frame, Quiet, quiet_rules}
use cubesql_go_driver.Core.Draft.{attached, Unchanged}

-- A statement that its connection counts.
abbrev pub registered : Stmt → Bool
registered s = s.registered

-- A statement that is counted by no connection: there is none.
abbrev pub orphan : Stmt → Bool
orphan s = s.registered && is_nil s.conn

-- A transaction that was neither committed nor rolled back.
abbrev pub running : Tx → Bool
running t = not t.done && not (is_nil t.conn)

abbrev pub owned_children : World → ℕ
owned_children w = count registered w.stmts + count attached w.rows

pub record Balanced (w : World) : Type 0 where
  pub counted : w.conn.children ≡ pos (owned_children w)
  pub owned : count orphan w.stmts ≡ 0
  pub closed_empty : w.conn.native ≡ Ref.nil → owned_children w ≡ 0
  pub exclusive : count running w.txs ≡ bit w.conn.tx_active

-- `m` keeps the counts right, whatever it returns.
pub record Keeps {A : Type 0} (m : Act A) : Type 0 where
  pub at : (w : World) → Balanced w → Balanced (m w).1

pub Balanced-Frame : {w v : World} → Frame w v → Balanced w → Balanced v
Balanced-Frame f b = record {
  counted = rw (f.conn, f.stmts, f.rows) b.counted;
  owned = rw f.stmts b.owned;
  closed_empty = rw (f.conn, f.stmts, f.rows) b.closed_empty;
  exclusive = rw (f.conn, f.txs) b.exclusive;
}

pub Balanced-Unchanged : {w v : World} → Unchanged w v → Balanced w → Balanced v
Balanced-Unchanged u b = record {
  counted = rw (u.conn, u.stmts, u.attachments) b.counted;
  owned = rw u.stmts b.owned;
  closed_empty = rw (u.conn, u.stmts, u.attachments) b.closed_empty;
  exclusive = rw (u.conn, u.txs) b.exclusive;
}

pub Keeps-Quiet : {A : Type 0} (m : Act A) → Quiet m → Keeps m
Keeps-Quiet m q = record { at = λ w b. Balanced-Frame (q.at w) b }

module _ {A B : Type 0} where
  pub Keeps-continue :
      (r : Outcome Error A) (f : A → Act B) (w : World)
      → Balanced w
      → ((a : A) → Keeps (f a))
      → Balanced (continue r f w).1
  Keeps-continue (ok a) f w b k = (k a).at w b
  Keeps-continue (err e) f w b k = b

  pub Keeps-bind : (m : Act A) (f : A → Act B) → Keeps m → ((a : A) → Keeps (f a)) → Keeps (m >>= f)
  unfolding ◌>>=◌
  Keeps-bind m f km kf = record { at = λ w b. Keeps-continue (m w).0 f (m w).1 (km.at w b) kf }

  pub Keeps-settle :
      (r : Outcome Error A) (cleanup : Act B) (w : World)
      → Balanced w
      → Keeps cleanup
      → Balanced (settle r cleanup w).1
  Keeps-settle (ok a) cleanup w b k = b
  Keeps-settle (err e) cleanup w b k = k.at w b

  pub Keeps-on_error :
      (m : Act A) (cleanup : Act B) → Keeps m → Keeps cleanup → Keeps (on_error m cleanup)
  unfolding on_error
  Keeps-on_error m cleanup km kc = record {
    at = λ w b. Keeps-settle (m w).0 cleanup (m w).1 (km.at w b) kc;
  }

module _ {A : Type 0} where
  pub Keeps-attempt : (m : Act A) → Keeps m → Keeps (attempt m)
  unfolding attempt
  Keeps-attempt m k = record { at = k.at }

  pub Keeps-if : (b : Bool) (m n : Act A) → Keeps m → Keeps n → Keeps (if b then m else n)
  Keeps-if true m n km kn = km
  Keeps-if false m n km kn = kn

pub ruleset keeps_rules =
    (quiet_rules, Keeps-Quiet, Keeps-bind, Keeps-on_error, Keeps-attempt, Keeps-if)
