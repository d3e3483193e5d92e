-- ===== src/Core/Rows/Lifecycle/Seeks.antt =====
-- `Seek` as a step of the cursor.
use cubesql_go_driver.Prelude.{
  ℕ, ℤ, true, false, Bool, Option, some, none, is_some, is_none, List, ◌≡◌, arith, refl, subst, sym,
  ◌∙◌, not, positive, if◌then◌else◌, get_or,
}
use cubesql_go_driver.Prelude.Action.{Outcome, ok, err, return_if, gets, modify}
use cubesql_go_driver.Csdk.Types.{Sdk, Pointer}
use cubesql_go_driver.Csdk
use cubesql_go_driver.Core.Errors.{Error, Sentinel, plain}
use cubesql_go_driver.Core.Types.{World, Context, Rows, rows_at, zero_rows}
use cubesql_go_driver.Core.Act.{Act, publicly, context_error}
use cubesql_go_driver.Core.Frame.{
  Quiet, Quiet-context_error, Quiet-return_if, Quiet-gets, Quiet-publicly,
}
use cubesql_go_driver.Prelude.Ends.{Ends, Ends-bind}
use cubesql_go_driver.Core.Rows.{seek_context, open_rows, put_rows}
use cubesql_go_driver.Core.Rows.Lifecycle.{
  closed, cursor_of, seek, Step, moved, recovered, unmoved, is_done,
}
use cubesql_go_driver.Core.Rows.Lifecycle.Cells.{put_open}

module _ (i : ℕ) (w : World) where
  -- The cursors are as they were.
  Same : World → Type 0
  Same v = v.rows ≡ w.rows

  Quiet-Same :
      {A : Type 0} (m : Act A)
      → Quiet m
      → (v : World) → Same v
      → Ends (λ _. Same) Same (m v).0 (m v).1
  unfolding Same
  Quiet-Same m q v same = either (m v).0
    where
      either : {A : Type 0} (r : Outcome Error A) → Ends (λ _. Same) Same r (m v).1
      either (ok a) = (q.at v).rows ∙ same
      either (err e) = (q.at v).rows ∙ same

  record Opened (j : ℕ) (v : World) : Type 0 where
    pub index : j ≡ i
    pub held : is_some (rows_at w i).native ≡ true
    pub same : v.rows ≡ w.rows

  open_rows-Ends :
      (v : World) → Same v → Ends Opened Same (open_rows (some i) v).0 (open_rows (some i) v).1
  unfolding Same open_rows
  open_rows-Ends v same = guarded (is_none (rows_at v i).native) refl
    where
      guarded :
          (b : Bool)
          → is_none (rows_at v i).native ≡ b
          → let called : Outcome Error ℕ × World =
              if b then (err (plain Sentinel.closed), v) else (ok i, v) in
            Ends Opened Same called.0 called.1
      guarded true h = same
      guarded false h =
          let held_v : is_some (rows_at v i).native ≡ true = ground arith in
          record {
            index = refl;
            held =
                subst (λ (rs : List Rows). is_some (get_or rs i zero_rows).native ≡ true) same
                  held_v;
            same = same;
          }

  record Landed (row : ℤ) (v : World) : Type 0 where
    pub held : is_some (rows_at w i).native ≡ true
    pub moved : rows_at v i ≡ record (rows_at w i) { current = row; error = none }

  landing :
      (row : ℤ) (j : ℕ) (v : World)
      → j ≡ i
      → is_some (rows_at w i).native ≡ true
      → Same v
      → Landed row (put_rows j (record (rows_at v j) { current = row; error = none }) v)
  unfolding Same
  landing row j v index held same = rw index (record {
    held = held;
    moved =
        let landed = record (rows_at v i) { current = row; error = none } in
        put_open i w v landed held same ∙ rw same refl;
  })

module _ (sdk : Sdk) where
  seek-Ends :
      (ctx : Context) (i : ℕ) (row : ℤ) (w : World)
      → Ends
          (λ _. Landed i w row)
          (Same i w)
          (seek_context sdk ctx (some i) row w).0
          (seek_context sdk ctx (some i) row w).1
  unfolding seek_context Same modify
  seek-Ends ctx i row w =
      Ends-bind (λ _. Same i w) (λ _. Landed i w row) (Same i w) (context_error ctx) _ w
        (Quiet-Same i w (context_error ctx) (Quiet-context_error ctx) w refl)
        λ _ v same.
          Ends-bind (λ _. Same i w) (λ _. Landed i w row) (Same i w)
            (return_if (not (positive row)) (plain Sentinel.invalid_argument)) _ v
            (Quiet-Same i w _
              (Quiet-return_if (not (positive row)) (plain Sentinel.invalid_argument)) v same)
            λ _ v same.
              Ends-bind (Opened i w) (λ _. Landed i w row) (Same i w) (open_rows (some i)) _ v
                (open_rows-Ends i w v same)
                λ j v o.
                  Ends-bind (λ _. Same i w) (λ _. Landed i w row) (Same i w) (context_error ctx) _ v
                    (Quiet-Same i w (context_error ctx) (Quiet-context_error ctx) v o.same)
                    λ _ v same.
                      Ends-bind (λ _. Same i w) (λ _. Landed i w row) (Same i w)
                        (gets (λ w. (rows_at w j).native)) _ v
                        (Quiet-Same i w _ (Quiet-gets (λ w. (rows_at w j).native)) v same)
                        λ native v same.
                          Ends-bind (λ _. Same i w) (λ _. Landed i w row) (Same i w)
                            (publicly (Csdk.Rows.seek sdk native row)) _ v
                            (Quiet-Same i w _ (Quiet-publicly (Csdk.Rows.seek sdk native row)) v
                              same)
                            λ _ v same. landing i w row j v o.index o.held same

  landed_step :
      (rows : Rows) (row : ℤ)
      → is_some rows.native ≡ true
      → Step
          (cursor_of rows)
          (seek row true)
          (cursor_of (record rows { current = row; error = none }))
  landed_step rows row held = from rows.native rows.error held
    where
      from :
          (native : Pointer) (e : Option Error)
          → is_some native ≡ true
          → Step
              (cursor_of (record rows { native = native; error = e }))
              (seek row true)
              (cursor_of (record rows { native = native; current = row; error = none }))
      from none e h = absurd
        where
          absurd : Step closed (seek row true) closed
          absurd = cc
      from (some h) none _ = moved
      from (some h) (some e) _ = recovered

  -- `Seek`, with any context: it moves an open cursor, a failed one too, and clears its error, or it
  -- returns an error and the cursor is as it was.
  pub seek-Step :
      (ctx : Context) (i : ℕ) (row : ℤ) (w : World)
      → let called = seek_context sdk ctx (some i) row w in
        Step
          (cursor_of (rows_at w i))
          (seek row (is_done called.0))
          (cursor_of (rows_at called.1 i))
  unfolding Same
  seek-Step ctx i row w = either (seek_context sdk ctx (some i) row w).0 (seek-Ends ctx i row w)
    where
      v : World
      v = (seek_context sdk ctx (some i) row w).1

      either :
          (r : Outcome Error (Unit {0}))
          → Ends (λ _. Landed i w row) (Same i w) r v
          → Step (cursor_of (rows_at w i)) (seek row (is_done r)) (cursor_of (rows_at v i))
      either (ok _) l = rw (l.moved) (landed_step (rows_at w i) row l.held)
      either (err e) same =
          subst
            (λ (rs : List Rows).
              Step (cursor_of (rows_at w i)) (seek row false) (cursor_of (get_or rs i zero_rows)))
            (sym same) unmoved
