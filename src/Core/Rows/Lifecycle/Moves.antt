-- ===== src/Core/Rows/Lifecycle/Moves.antt =====
-- `Next` as a step of the cursor.
use cubesql_go_driver.Prelude.{
  ℕ, inc, true, false, Bool, Option, some, none, is_some, is_none, List, ◌≡◌, arith, refl, leb_ℤ,
  subst, Option-cases, inl, inr, ◌||◌, if◌then◌else◌, get_or, ltb_ℤ,
}
use cubesql_go_driver.Prelude.Action.{Outcome, ok, err, attempt, ◌>>=◌}
use cubesql_go_driver.Csdk.Types.{Sdk}
use cubesql_go_driver.Csdk
use cubesql_go_driver.Core.Errors.{Error, Sentinel, plain}
use cubesql_go_driver.Core.Types.{World, Context, Rows, rows_at, zero_rows}
use cubesql_go_driver.Core.Act.{publicly, context_error}
use cubesql_go_driver.Core.Frame.{Quiet-context_error}
use cubesql_go_driver.Core.Rows.{advance, next_context, arrive, set_error}
use cubesql_go_driver.Core.Rows.Lifecycle.{
  closed, failed, open_cursor, cursor_of, next, Step, advanced, ended, broke, still_failed,
  still_closed, is_true,
}
use cubesql_go_driver.Core.Rows.Lifecycle.Cells.{put_open, put_closed, is_none→none, is_some→some}

broken_step :
    (rows : Rows) (h : ℕ)
    → rows.native ≡ some h
    → Step (cursor_of rows) (next false) (failed rows.total)
broken_step rows h held = rw held (from rows.error)
  where
    from :
        (e : Option Error)
        → Step (open_cursor e rows.current rows.total) (next false) (failed rows.total)
    from none = broke
    from (some e) = still_failed

closed_step : (rows : Rows) → rows.native ≡ none → Step (cursor_of rows) (next false) closed
closed_step rows shut = rw shut still_closed

still_shut :
    (rows : Rows) → rows.native ≡ none → Step (cursor_of rows) (next false) (cursor_of rows)
still_shut rows shut = rw shut still_closed

-- An error is kept in the cursor.
failure_step :
    (i : ℕ) (w v : World) (e : Error)
    → v.rows ≡ w.rows
    → Step (cursor_of (rows_at w i)) (next false) (cursor_of (rows_at (set_error i (some e) v) i))
failure_step i w v e same = elim (Option-cases (rows_at w i).native) [
  | inl shut ↦
      let after = put_closed i v (record (rows_at v i) { error = some e }) (rw same shut) in
      rw after (closed_step (rows_at w i) shut)
  | inr (h, held) ↦
      let after = put_open i w v (record (rows_at v i) { error = some e }) (rw held refl) same in
      rw (after, same, held) (broken_step (rows_at w i) h held)
]

advanced_step :
    (rows : Rows) (h : ℕ)
    → rows.native ≡ some h
    → rows.error ≡ none
    → ltb_ℤ rows.current rows.total ≡ true
    → Step (cursor_of rows) (next true) (cursor_of (record rows { current = inc rows.current }))
advanced_step rows h held fine before = rw (held, fine) (advanced before)

ended_step :
    (rows : Rows) (h : ℕ)
    → rows.native ≡ some h
    → is_some rows.error || leb_ℤ rows.total rows.current ≡ true
    → Step (cursor_of rows) (next false) (cursor_of rows)
ended_step rows h held over = rw held (from rows.error refl)
  where
    from :
        (e : Option Error)
        → rows.error ≡ e
        → Step
            (open_cursor e rows.current rows.total)
            (next false)
            (open_cursor e rows.current rows.total)
    from none fine = ended (ground arith)
    from (some e) fine = still_failed

arrive_step :
    (i h : ℕ) (w v : World) (r : Outcome Error (Unit {0}))
    → v.rows ≡ w.rows
    → (rows_at w i).native ≡ some h
    → is_some (rows_at w i).error || leb_ℤ (rows_at w i).total (rows_at w i).current ≡ false
    → Step
        (cursor_of (rows_at w i))
        (next (is_true (arrive i (inc (rows_at w i).current) r v).0))
        (cursor_of (rows_at (arrive i (inc (rows_at w i).current) r v).1 i))
arrive_step i h w v (ok _) same held before =
    let after =
      put_open i w v (record (rows_at v i) { current = inc (rows_at w i).current }) (rw held refl)
        same in
    let step = advanced_step (rows_at w i) h held (ground arith) (ground arith) in
    rw (after, same) step
arrive_step i h w v (err e) same held before = failure_step i w v e same

module _ (sdk : Sdk) where
  open_step :
      (i h : ℕ) (w : World) (over : Bool)
      → (rows_at w i).native ≡ some h
      → is_some (rows_at w i).error || leb_ℤ (rows_at w i).total (rows_at w i).current ≡ over
      → let row = inc (rows_at w i).current in
        let called =
          (if over
            then (ok false, w)
            else (do
              sought ← attempt (publicly (Csdk.Rows.seek sdk (rows_at w i).native row))
              arrive i row sought)
                w) in
        Step (cursor_of (rows_at w i)) (next (is_true called.0)) (cursor_of (rows_at called.1 i))
  unfolding ◌>>=◌ publicly attempt
  open_step i h w true held over = ended_step (rows_at w i) h held over
  open_step i h w false held before = arrive_step i h w _ _ refl held before

  shut_step :
      (i : ℕ) (w : World) (fine : Bool)
      → (rows_at w i).native ≡ none
      → let v = if fine then set_error i (some (plain Sentinel.closed)) w else w in
        Step (cursor_of (rows_at w i)) (next false) (cursor_of (rows_at v i))
  shut_step i w true shut = failure_step i w w (plain Sentinel.closed) refl
  shut_step i w false shut = still_shut (rows_at w i) shut

  guarded_step :
      (i : ℕ) (w : World) (shut over : Bool)
      → is_none (rows_at w i).native ≡ shut
      → is_some (rows_at w i).error || leb_ℤ (rows_at w i).total (rows_at w i).current ≡ over
      → let row = inc (rows_at w i).current in
        let v =
          if is_none (rows_at w i).error then set_error i (some (plain Sentinel.closed)) w else w in
        let called =
          (if shut
            then (ok false, v)
            else if over
            then (ok false, w)
            else (do
              sought ← attempt (publicly (Csdk.Rows.seek sdk (rows_at w i).native row))
              arrive i row sought)
                w) in
        Step (cursor_of (rows_at w i)) (next (is_true called.0)) (cursor_of (rows_at called.1 i))
  guarded_step i w true over shut e =
      shut_step i w (is_none (rows_at w i).error) (is_none→none (rows_at w i).native shut)
  guarded_step i w false over shut e =
      let (h, held) = is_some→some (rows_at w i).native shut in open_step i h w over held e

  advance_step :
      (i : ℕ) (w : World)
      → Step
          (cursor_of (rows_at w i))
          (next (is_true (advance sdk i w).0))
          (cursor_of (rows_at (advance sdk i w).1 i))
  unfolding advance
  advance_step i w = guarded_step i w _ _ refl refl

  -- `Next`, with any context: it moves an open cursor by one row before its end, stays at the end, or
  -- fails, and a closed cursor stays closed.
  pub next-Step :
      (ctx : Context) (i : ℕ) (w : World)
      → let called = next_context sdk ctx (some i) w in
        Step (cursor_of (rows_at w i)) (next (is_true called.0)) (cursor_of (rows_at called.1 i))
  unfolding next_context
  next-Step ctx i w =
      checked_step (context_error ctx w).0 (context_error ctx w).1
        ((Quiet-context_error ctx).at w).rows
    where
      checked_step :
          (r : Outcome Error (Unit {0})) (v : World)
          → v.rows ≡ w.rows
          → let called = (elim r as (λ _. Outcome Error Bool × World) [
            | ok _ ↦ advance sdk i v
            | err e ↦ (ok false, set_error i (some e) v)
          ]) in
            Step
              (cursor_of (rows_at w i))
              (next (is_true called.0))
              (cursor_of (rows_at called.1 i))
      checked_step (ok _) v same =
          subst
            (λ (rs : List Rows).
              Step (cursor_of (get_or rs i zero_rows)) (next (is_true (advance sdk i v).0))
                (cursor_of (rows_at (advance sdk i v).1 i)))
            same (advance_step i v)
      checked_step (err e) v same = failure_step i w v e same
