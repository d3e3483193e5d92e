-- ===== src/Core/Rows/Lifecycle/Closes.antt =====
-- `Close` as a step of the cursor.
use cubesql_go_driver.Prelude.{
  ℕ, dec, true, false, Bool, Option, some, none, is_none, List, ◌≡◌, arith, refl, subst, sym,
  if◌then◌else◌, get_or,
}
use cubesql_go_driver.Prelude.Action.{ok, attempt, pure, lift, ◌>>=◌, ◌>>◌}
use cubesql_go_driver.Csdk.Types.{Ref, Sdk, Pointer}
use cubesql_go_driver.Csdk
use cubesql_go_driver.Core.Errors.{Error, join}
use cubesql_go_driver.Core.Types.{World, Rows, rows_at, zero_rows}
use cubesql_go_driver.Core.Act.{publicly, error_of}
use cubesql_go_driver.Core.Conn
use cubesql_go_driver.Core.Stmt
use cubesql_go_driver.Core.Rows.{close, close_open, detach, release_parent_stmt, joined_outcome}
use cubesql_go_driver.Core.Rows.Lifecycle.{closed, cursor_of, closing, Step, dropped}
use cubesql_go_driver.Core.Rows.Lifecycle.Cells.{put_closed, is_none→none}

unopened : (rows : Rows) → rows.native ≡ none → Step (cursor_of rows) closing (cursor_of rows)
unopened rows shut = rw shut dropped

module _ (sdk : Sdk) where
  release_row-rows : (i : ℕ) (b : Bool) (w : World) → (Stmt.release_row sdk i b w).1.rows ≡ w.rows
  unfolding Stmt.release_row ◌>>=◌ Stmt.finalize publicly attempt
  release_row-rows i b w = ground arith

  release_parent-rows :
      (p : Pointer) (b : Bool) (w : World) → (release_parent_stmt sdk p b w).1.rows ≡ w.rows
  unfolding pure
  release_parent-rows none b w = refl
  release_parent-rows (some i) b w = release_row-rows i b w

  released-rows :
      (r : Ref) (p : Pointer) (b : Bool) (e : Option Error) (w : World)
      → let releasing = (do
        Conn.release_child r
        statement_error ← attempt (release_parent_stmt sdk p b)
        lift (joined_outcome (join e (error_of statement_error)))) in
        (releasing w).1.rows ≡ w.rows
  unfolding ◌>>=◌ attempt lift Conn.release_child
  released-rows Ref.nil p b e w = release_parent-rows p b w
  released-rows Ref.self p b e w =
      let fewer : World = Conn.set_children (dec w.conn.children) w in
      ground (arith, release_parent-rows p b w, release_parent-rows p b fewer)

  close_open-rows :
      (i : ℕ) (rows : Rows) (w : World) → (close_open sdk i rows w).1.rows ≡ (detach i w).rows
  unfolding close_open ◌>>=◌ publicly attempt
  close_open-rows i rows w =
      let v = (publicly (Csdk.Rows.close sdk rows.native) (detach i w)) in
      released-rows rows.parent_conn rows.parent_stmt rows.close_stmt (error_of v.0) v.1

  close_open-closed :
      (i : ℕ) (rows : Rows) (w : World) → cursor_of (rows_at (close_open sdk i rows w).1 i) ≡ closed
  close_open-closed i rows w =
      subst (λ (rs : List Rows). cursor_of (get_or rs i zero_rows) ≡ closed)
        (sym (close_open-rows i rows w))
        (put_closed i w
          (record (rows_at w i) {
            native = none;
            parent_conn = Ref.nil;
            parent_stmt = none;
            close_stmt = false;
          })
          refl)

  -- `Close`: whatever it returns, the cursor is closed.
  pub close-Step :
      (i : ℕ) (w : World)
      → Step (cursor_of (rows_at w i)) closing (cursor_of (rows_at (close sdk (some i) w).1 i))
  unfolding close
  close-Step i w = either (is_none (rows_at w i).native) refl
    where
      either :
          (b : Bool)
          → is_none (rows_at w i).native ≡ b
          → Step
              (cursor_of (rows_at w i))
              closing
              (cursor_of (rows_at (if b then (ok tt, w) else close_open sdk i (rows_at w i) w).1 i))
      either true h = unopened (rows_at w i) (is_none→none (rows_at w i).native h)
      either false h = rw (close_open-closed i (rows_at w i) w) dropped
