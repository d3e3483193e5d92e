-- ===== src/Core/Rows/Lifecycle/Runs.antt =====
-- Sequences of Next, Seek and Close on one cursor.
use cubesql_go_driver.Prelude.{ℕ, ℤ, false, some, List, [], ◌∷◌, ◌≡◌, refl, subst}
use cubesql_go_driver.Csdk.Types.{Sdk}
use cubesql_go_driver.Core.Types.{World, Context, rows_at}
use cubesql_go_driver.Core.Rows.{next_context, seek_context, close}
use cubesql_go_driver.Core.Rows.Lifecycle.{
  Steps, done, step, Cursor, closed, cursor_of, Label, next, seek, closing, Step, still_closed,
  unmoved, dropped, is_true, is_done,
}
use cubesql_go_driver.Core.Rows.Lifecycle.Moves.{next-Step}
use cubesql_go_driver.Core.Rows.Lifecycle.Seeks.{seek-Step}
use cubesql_go_driver.Core.Rows.Lifecycle.Closes.{close-Step}

-- The methods of the package cubesql that change a cursor, with any context.
pub data CursorCall : Type 0 where
  call_next : Context → CursorCall
  call_seek : Context → ℤ → CursorCall
  call_close : CursorCall

module _ (sdk : Sdk) (i : ℕ) where
  -- What a call returned, and the objects afterwards.
  unfoldable pub call : CursorCall → World → Label × World
  call (call_next ctx) w = let (r, v) = next_context sdk ctx (some i) w in (next (is_true r), v)
  call (call_seek ctx row) w =
      let (r, v) = seek_context sdk ctx (some i) row w in (seek row (is_done r), v)
  call call_close w = let (r, v) = close sdk (some i) w in (closing, v)

  unfoldable pub calls : List CursorCall → World → List Label × World
  unfolding call
  calls [] w = ([], w)
  calls (c ∷ cs) w = let (l, v) = call c w in let (ls, u) = calls cs v in (l ∷ ls, u)

  call-Step :
      (c : CursorCall) (w : World)
      → Step (cursor_of (rows_at w i)) (call c w).0 (cursor_of (rows_at (call c w).1 i))
  unfolding call
  call-Step (call_next ctx) w = next-Step sdk ctx i w
  call-Step (call_seek ctx row) w = seek-Step sdk ctx i row w
  call-Step call_close w = close-Step sdk i w

  -- Every sequence of Next, Seek and Close on a cursor, with any contexts and whatever C replies, is
  -- a sequence of steps of the abstract cursor, with the results that the calls returned.
  pub calls-Steps :
      (cs : List CursorCall) (w : World)
      → Steps (cursor_of (rows_at w i)) (calls cs w).0 (cursor_of (rows_at (calls cs w).1 i))
  unfolding calls
  calls-Steps [] w = done
  calls-Steps (c ∷ cs) w = step (call-Step c w) (calls-Steps cs (call c w).1)

-- No Next returned true, and no Seek succeeded.
abbrev pub Refused : List Label → Type 0
Refused [] = Unit {0}
Refused (next b ∷ ls) = (b ≡ false) × Refused ls
Refused (seek s b ∷ ls) = (b ≡ false) × Refused ls
Refused (closing ∷ ls) = Refused ls

Step-Refused : (l : Label) (c : Cursor) → Step closed l c → (c ≡ closed) × Refused (l ∷ [])
Step-Refused l c still_closed = (refl, (refl, tt))
Step-Refused l c unmoved = (refl, (refl, tt))
Step-Refused l c dropped = (refl, tt)

Refused-cons : (l : Label) (ls : List Label) → Refused (l ∷ []) → Refused ls → Refused (l ∷ ls)
Refused-cons (next b) ls (h, _) rest = (h, rest)
Refused-cons (seek s b) ls (h, _) rest = (h, rest)
Refused-cons closing ls h rest = rest

Steps-Refused :
    (a c : Cursor) (ls : List Label) → a ≡ closed → Steps a ls c → (c ≡ closed) × Refused ls
Steps-Refused a c ls h done = (h, tt)
Steps-Refused a c ls h (step {b = b} {l = l} {ls = rest} s ss) =
    let (shut, first) = Step-Refused l b (subst (λ (x : Cursor). Step x l b) h s) in
    let (last, others) = Steps-Refused b c rest shut ss in (last, Refused-cons l rest first others)

Step-closing : (a c : Cursor) → Step a closing c → c ≡ closed
Step-closing a c dropped = refl

-- Once a cursor is closed, whatever is called on it, with any contexts and whatever C replies: no
-- Next returns true, no Seek succeeds, and the cursor stays closed.
pub closed-Refused :
    (sdk : Sdk) (i : ℕ) (cs : List CursorCall) (w : World)
    → let v = (close sdk (some i) w).1 in
      (cursor_of (rows_at (calls sdk i cs v).1 i) ≡ closed) × Refused (calls sdk i cs v).0
closed-Refused sdk i cs w =
    let v = (close sdk (some i) w).1 in
    Steps-Refused (cursor_of (rows_at v i)) _ _ (Step-closing _ _ (close-Step sdk i w))
      (calls-Steps sdk i cs v)
