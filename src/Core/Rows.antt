-- ===== src/Core/Rows.antt =====
-- cubesql/rows.go, without the conversion of values (Core/Scan.antt).
pub mod Progress
pub mod Lifecycle
use cubesql_go_driver.Prelude.{
  ℕ, zero, suc, ◌%◌, ℤ, pos, pos_part, Bool, true, false, not, ◌||◌, Option, none, some, [], ◌∷◌,
  ◌++◌, Bytes, is_none, is_some, if◌then◌else◌, inc, positive, set, length, leb_ℤ, replicate,
}
use cubesql_go_driver.Prelude.Action.{
  attempt, Outcome, ok, err, pure, return_if, gets, modify, lift, ◌>>=◌, ◌>>◌, on_error,
}
use cubesql_go_driver.Csdk.Types.{Ref, Sdk, Pointer}
use cubesql_go_driver.Csdk
use cubesql_go_driver.Core.Errors.{Sentinel, Error, plain, join}
use cubesql_go_driver.Core.Types.{World, Context, Rows, zero_rows, rows_at}
use cubesql_go_driver.Core.Act.{Act, context_error, publicly, error_of}
use cubesql_go_driver.Core.Conn.{release_child}
use cubesql_go_driver.Core.Stmt.{release_row}

abbrev pub put_rows : ℕ → Rows → World → World
put_rows i rows w = record w { rows = set w.rows i rows }

-- The four fields that `Close` clears.
abbrev pub detach : ℕ → World → World
detach i w =
    put_rows i
      (record (rows_at w i) {
        native = none;
        parent_conn = Ref.nil;
        parent_stmt = none;
        close_stmt = false;
      })
      w

abbrev pub set_error : ℕ → Option Error → World → World
set_error i e w = put_rows i (record (rows_at w i) { error = e }) w

-- `rows.columns[index-1] = name` and `rows.types[index-1] = ColumnType(columnType)`
abbrev pub set_column : ℕ → ℕ → Bytes → ℤ → World → World
set_column i k name column_type w =
    put_rows i
      (record (rows_at w i) {
        columns = set (rows_at w i).columns k name;
        types = set (rows_at w i).types k (pos_part column_type % 256);
      })
      w

-- `errors.Join` of two results.
abbrev pub joined_outcome : Option Error → Outcome Error (Unit {0})
joined_outcome none = ok tt
joined_outcome (some e) = err e

unfoldable pub open_rows : Pointer → Act ℕ
open_rows none w = (err (plain Sentinel.closed), w)
open_rows (some i) w =
    if is_none (rows_at w i).native then (err (plain Sentinel.closed), w) else (ok i, w)

abbrev pub arrive : ℕ → ℤ → Outcome Error (Unit {0}) → Act Bool
arrive i row (ok _) w = (ok true, put_rows i (record (rows_at w i) { current = row }) w)
arrive i row (err e) w = (ok false, set_error i (some e) w)

unfoldable pub num_rows : Pointer → World → ℤ
num_rows none w = pos 0
num_rows (some i) w = (rows_at w i).total

unfoldable pub allocate : Pointer → ℤ → ℕ → Act ℕ
allocate native total count w =
    let made : Rows = record zero_rows {
      native = native;
      columns = replicate count [];
      types = replicate count 0;
      total = total;
    } in
    (ok (length w.rows), record w { rows = w.rows ++ made ∷ [] })

unfoldable pub rows_error : Pointer → World → Option Error
rows_error none w = some (plain Sentinel.closed)
rows_error (some i) w = (rows_at w i).error

module _ (sdk : Sdk) where
  abbrev pub release_parent_stmt : Pointer → Bool → Act (Unit {0})
  release_parent_stmt none close_stmt = pure tt
  release_parent_stmt (some i) close_stmt = release_row sdk i close_stmt

  -- `Close` of a cursor that is open.
  unfoldable pub close_open : ℕ → Rows → Act (Unit {0})
  unfolding join
  close_open i rows = do
    modify (detach i)
    native_error ← attempt (publicly (Csdk.Rows.close sdk rows.native))
    release_child rows.parent_conn
    statement_error ← attempt (release_parent_stmt rows.parent_stmt rows.close_stmt)
    lift (joined_outcome (join (error_of native_error) (error_of statement_error)))

  unfoldable pub close : Pointer → Act (Unit {0})
  unfolding close_open
  close none w = (ok tt, w)
  close (some i) w =
      if is_none (rows_at w i).native then (ok tt, w) else close_open i (rows_at w i) w

  -- The loop of newRowsContext over the columns; `k` is `index - 1`, and `n` columns are left.
  unfoldable pub read_columns : Context → Pointer → ℕ → (n k : ℕ) → Act (Unit {0})
  read_columns ctx native i zero k = pure tt
  read_columns ctx native i (suc n) k =
      let rest = read_columns ctx native i n (suc k) in
      do
        context_error ctx
        name ← publicly (Csdk.Rows.column_name sdk native (pos (suc k)))
        context_error ctx
        column_type ← publicly (Csdk.Rows.column_type sdk native (pos (suc k)))
        modify (set_column i k name column_type)
        rest

  unfoldable pub new_rows_context : Context → ℕ → Act ℕ
  unfolding close read_columns allocate
  new_rows_context ctx handle = do
    let native = some handle
    let close_native = publicly (Csdk.Rows.close sdk native)
    on_error (context_error ctx) close_native
    total ← on_error (publicly (Csdk.Rows.num_rows sdk native)) close_native
    on_error (context_error ctx) close_native
    count ← on_error (publicly (Csdk.Rows.num_columns sdk native)) close_native
    i ← allocate native total (pos_part count)
    on_error (read_columns ctx native i (pos_part count) 0) (close (some i))
    pure i

  -- `Next` past the context check.
  unfoldable pub advance : ℕ → Act Bool
  advance i w =
      let rows = rows_at w i in
      if is_none rows.native
      then (
        ok false,
        if is_none rows.error then set_error i (some (plain Sentinel.closed)) w else w,
      )
      else if is_some rows.error || leb_ℤ rows.total rows.current
      then (ok false, w)
      else (do
        sought ← attempt (publicly (Csdk.Rows.seek sdk rows.native (inc rows.current)))
        arrive i (inc rows.current) sought)
          w

  unfoldable pub next_context : Context → Pointer → Act Bool
  unfolding advance
  next_context ctx none w = (ok false, w)
  next_context ctx (some i) w =
      let (r, v) = context_error ctx w in
      elim r [ ok _ ↦ advance i v | err e ↦ (ok false, set_error i (some e) v) ]

  unfoldable pub seek_context : Context → Pointer → ℤ → Act (Unit {0})
  unfolding open_rows
  seek_context ctx rows row = do
    context_error ctx
    return_if (not (positive row)) (plain Sentinel.invalid_argument)
    i ← open_rows rows
    context_error ctx
    native ← gets (λ w. (rows_at w i).native)
    publicly (Csdk.Rows.seek sdk native row)
    modify (λ w. put_rows i (record (rows_at w i) { current = row; error = none }) w)
