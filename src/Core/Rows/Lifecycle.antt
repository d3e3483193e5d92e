-- ===== src/Core/Rows/Lifecycle.antt =====
-- What a cursor of cubesql/rows.go is to its user: before a row, failed, or closed; and what its
-- methods may make of it.
pub mod Cells
pub mod Moves
pub mod Seeks
pub mod Closes
pub mod Runs
use cubesql_go_driver.Prelude.{
  ℕ, zero, suc, ℤ, pos, inc, dec, true, false, Bool, Option, some, none, is_some, is_none, List, [],
  ◌∷◌, ◌≡◌, ◌<◌, arith, refl, length, leb_ℤ, subst, sym, ◌∙◌, not, positive, Option-cases, inl, inr,
  ◌||◌, if◌then◌else◌, set, get_or, get_or-set_self, inside_of_test, ltb_ℤ,
}
use cubesql_go_driver.Prelude.Action.{
  Outcome, ok, err, attempt, return_if, gets, modify, pure, lift, ◌>>=◌, ◌>>◌,
}
use cubesql_go_driver.Csdk.Types.{Ref, Sdk, Pointer}
use cubesql_go_driver.Csdk
use cubesql_go_driver.Core.Errors.{Error, Sentinel, plain, join}
use cubesql_go_driver.Core.Types.{World, Context, Rows, rows_at, zero_rows}
use cubesql_go_driver.Core.Act.{Act, publicly, context_error, error_of}
use cubesql_go_driver.Core.Frame.{
  Quiet, Quiet-context_error, Quiet-return_if, Quiet-gets, Quiet-publicly,
}
use cubesql_go_driver.Prelude.Ends.{Ends, Ends-bind}
use cubesql_go_driver.Core.Conn
use cubesql_go_driver.Core.Stmt
use cubesql_go_driver.Core.Rows.{
  advance, next_context, seek_context, open_rows, close, close_open, detach, release_parent_stmt,
  joined_outcome, arrive, put_rows, set_error,
}

pub data Cursor : Type 0 where
  closed : Cursor
  failed : (total : ℤ) → Cursor
  at : (row total : ℤ) → Cursor

abbrev pub open_cursor : Option Error → (row total : ℤ) → Cursor
open_cursor none row total = at row total
open_cursor (some e) row total = failed total

abbrev pub cursor_of : Rows → Cursor
cursor_of rows = elim rows.native [
  | none ↦ closed
  | some h ↦ open_cursor rows.error rows.current rows.total
]

-- A call, and whether it returned true, or no error.
pub data Label : Type 0 where
  next : Bool → Label
  seek : ℤ → Bool → Label
  closing : Label

pub data Step : Cursor → Label → Cursor → Type 0 where
  advanced : {r t : ℤ} → ltb_ℤ r t ≡ true → Step (at r t) (next true) (at (inc r) t)
  ended : {r t : ℤ} → leb_ℤ t r ≡ true → Step (at r t) (next false) (at r t)
  broke : {r t : ℤ} → Step (at r t) (next false) (failed t)
  still_failed : {t : ℤ} → Step (failed t) (next false) (failed t)
  still_closed : Step closed (next false) closed
  moved : {r t s : ℤ} → Step (at r t) (seek s true) (at s t)
  recovered : {t s : ℤ} → Step (failed t) (seek s true) (at s t)
  unmoved : {c : Cursor} {s : ℤ} → Step c (seek s false) c
  dropped : {c : Cursor} → Step c closing closed

abbrev pub is_true : Outcome Error Bool → Bool
is_true (ok b) = b
is_true (err e) = false

abbrev pub is_done : Outcome Error (Unit {0}) → Bool
is_done (ok _) = true
is_done (err e) = false

-- A sequence of calls on one cursor.
pub data Steps : Cursor → List Label → Cursor → Type 0 where
  done : {c : Cursor} → Steps c [] c
  step :
      {a b c : Cursor} {l : Label} {ls : List Label}
      → Step a l b
      → Steps b ls c
      → Steps a (l ∷ ls) c
