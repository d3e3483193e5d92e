-- ===== src/Core/Rows/Lifecycle/Cells.antt =====
-- One entry of the list of cursors after a write.
use cubesql_go_driver.Prelude.{
  ℕ, zero, suc, true, false, Option, some, none, is_some, is_none, List, [], ◌∷◌, ◌≡◌, arith, refl,
  set, get_or, get_or-set_self, inside_of_test,
}
use cubesql_go_driver.Core.Types.{World, Rows, rows_at, zero_rows}
use cubesql_go_driver.Core.Rows.{put_rows}
use cubesql_go_driver.Core.Rows.Lifecycle.{closed, cursor_of}

module _ {A : Type 0} (P : A → Type 0) where
  -- An entry that was set holds the value, if there is one.
  get_or-set : (xs : List A) (i : ℕ) (v d : A) → P v → P d → P (get_or (set xs i v) i d)
  get_or-set [] i v d p q = q
  get_or-set (x ∷ xs) zero v d p q = p
  get_or-set (x ∷ xs) (suc i) v d p q = get_or-set xs i v d p q

pub put_open :
    (i : ℕ) (w : World) (v : World) (rows : Rows)
    → is_some (rows_at w i).native ≡ true
    → v.rows ≡ w.rows
    → rows_at (put_rows i rows v) i ≡ rows
put_open i w v rows held same =
    let inside = inside_of_test (λ (r : Rows). is_some r.native) zero_rows w.rows i refl held in
    get_or-set_self v.rows i rows zero_rows (rw same inside)

pub put_closed :
    (i : ℕ) (w : World) (rows : Rows)
    → rows.native ≡ none
    → cursor_of (rows_at (put_rows i rows w) i) ≡ closed
put_closed i w rows h =
    get_or-set (λ (r : Rows). cursor_of r ≡ closed) w.rows i rows zero_rows (rw h refl) refl

pub is_none→none : {A : Type 0} (o : Option A) → is_none o ≡ true → o ≡ none
is_none→none o h = ground arith

pub is_some→some : {A : Type 0} (o : Option A) → is_none o ≡ false → (a : A) × (o ≡ some a)
is_some→some none h = ground arith
is_some→some (some a) h = (a, refl)
