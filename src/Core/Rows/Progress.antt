-- ===== src/Core/Rows/Progress.antt =====
-- A cursor that `Next` moves comes nearer to its end.
use cubesql_go_driver.Prelude.{
  ℕ, inc, true, false, Bool, some, is_some, is_none, ◌≡◌, ◌<◌, arith, refl, leb_ℤ, length,
  get_or-set_self, inside_of_test, ltb_ℤ,
}
use cubesql_go_driver.Prelude.Action.{Outcome, ok, err, attempt, ◌>>=◌}
use cubesql_go_driver.Csdk.Types.{Sdk}
use cubesql_go_driver.Csdk
use cubesql_go_driver.Core.Errors.{Error}
use cubesql_go_driver.Core.Types.{World, background, Rows, rows_at, zero_rows}
use cubesql_go_driver.Core.Act.{publicly, context_error}
use cubesql_go_driver.Core.Rows.{advance, next_context, arrive, put_rows}

-- `Next` returned true: the cursor was before its end, and it is one row further.
pub record Stepped (i : ℕ) (w v : World) : Type 0 where
  pub before : ltb_ℤ (rows_at w i).current (rows_at w i).total ≡ true
  pub current : (rows_at v i).current ≡ inc (rows_at w i).current
  pub total : (rows_at v i).total ≡ (rows_at w i).total

abbrev pub WhenTrue : Outcome Error Bool → Type 0 → Type 0
WhenTrue (ok true) P = P
WhenTrue (ok false) P = Unit {0}
WhenTrue (err e) P = Unit {0}

put_rows_self :
    (i : ℕ) (rows : Rows) (w : World) → i < length w.rows → rows_at (put_rows i rows w) i ≡ rows
put_rows_self i rows w inside = get_or-set_self w.rows i rows zero_rows inside

arrive-Stepped :
    (i : ℕ) (w v : World) (r : Outcome Error (Unit {0}))
    → v.rows ≡ w.rows
    → i < length w.rows
    → ltb_ℤ (rows_at w i).current (rows_at w i).total ≡ true
    → WhenTrue
        (arrive i (inc (rows_at w i).current) r v).0
        (Stepped i w (arrive i (inc (rows_at w i).current) r v).1)
arrive-Stepped i w v (ok _) same inside before =
    let arrived = record (rows_at v i) { current = inc (rows_at w i).current } in
    let here : rows_at (put_rows i arrived v) i ≡ arrived =
      put_rows_self i arrived v (rw same inside) in
    record { before = before; current = rw here refl; total = rw (here, same) refl }
arrive-Stepped i w v (err e) same inside before = tt

module _ (sdk : Sdk) where
  seek-Stepped :
      (i : ℕ) (w : World)
      → let seeking = (do
        sought ←
            attempt (publicly (Csdk.Rows.seek sdk (rows_at w i).native (inc (rows_at w i).current)))
        arrive i (inc (rows_at w i).current) sought) in
        is_none (rows_at w i).native ≡ false
        → leb_ℤ (rows_at w i).total (rows_at w i).current ≡ false
        → WhenTrue (seeking w).0 (Stepped i w (seeking w).1)
  unfolding ◌>>=◌ publicly attempt
  seek-Stepped i w held before =
      arrive-Stepped i w _ _ refl
        (inside_of_test (λ (r : Rows). is_some r.native) zero_rows w.rows i refl (ground arith))
        (ground arith)

  advance-Stepped :
      (i : ℕ) (w : World) → WhenTrue (advance sdk i w).0 (Stepped i w (advance sdk i w).1)
  unfolding advance
  advance-Stepped i w = ground (arith, seek-Stepped i w)

  pub next_context-Stepped :
      (i : ℕ) (w : World)
      → WhenTrue
          (next_context sdk background (some i) w).0
          (Stepped i w (next_context sdk background (some i) w).1)
  unfolding next_context context_error
  next_context-Stepped i w = advance-Stepped i w
