-- ===== src/Core/Counts/Cursors.antt =====
-- The methods of `Rows`, and those that make statements and cursors.
use cubesql_go_driver.Prelude.{
  ℕ, ℤ, inc, Bool, false, none, some, ◌≡◌, refl, arith, count-set_same, count-set_drop,
}
use cubesql_go_driver.Prelude.Action.{Outcome, ok, err, modify, lift, ◌>>=◌, attempt}
use cubesql_go_driver.Csdk.Types.{Ref, Pointer, Sdk}
use cubesql_go_driver.Csdk
use cubesql_go_driver.Core.Errors.{Error, Sentinel, plain, join}
use cubesql_go_driver.Core.Types.{World, Context, Rows, zero_rows, rows_at}
use cubesql_go_driver.Core.Act.{publicly, context_error, error_of}
use cubesql_go_driver.Core.Conn
use cubesql_go_driver.Core.Rows
use cubesql_go_driver.Core.Rows.{put_rows, detach}
use cubesql_go_driver.Core.Frame.{
  Frame, Frame-refl, Quiet, Quiet-publicly, Quiet-lift, Quiet-context_error,
}
use cubesql_go_driver.Core.Draft.{attached}
use cubesql_go_driver.Core.Counts.{
  Balanced, Balanced-Frame, Keeps, Keeps-bind, Keeps-continue, Keeps-Quiet, Keeps-attempt,
  keeps_rules,
}
use cubesql_go_driver.Core.Counts.Stmts.{Keeps-release_row}

-- A write to a cursor that leaves its connection.
put_rows-Balanced :
    (i : ℕ) (r : Rows) (w : World)
    → r.parent_conn ≡ (rows_at w i).parent_conn
    → Balanced w
    → Balanced (put_rows i r w)
put_rows-Balanced i r w same b = ground (arith, count-set_same attached zero_rows w.rows i r)

-- `detach` and the release that follows it, with a call into C between.
detach-Balanced :
    (i : ℕ) (w v : World)
    → Frame (detach i w) v
    → Balanced w
    → Balanced (Conn.release_child (rows_at w i).parent_conn v).1
unfolding Conn.release_child
detach-Balanced i w v f b = ground (
  arith,
  count-set_same attached zero_rows w.rows i (record (rows_at w i) {
    native = none;
    parent_conn = Ref.nil;
    parent_stmt = none;
    close_stmt = false;
  }),
  count-set_drop attached zero_rows w.rows i (record (rows_at w i) {
    native = none;
    parent_conn = Ref.nil;
    parent_stmt = none;
    close_stmt = false;
  }),
)

module _ (sdk : Sdk) where
  Keeps-release_parent :
      (stmt : Pointer) (close_stmt : Bool) → Keeps (Rows.release_parent_stmt sdk stmt close_stmt)
  Keeps-release_parent none close_stmt = search keeps_rules
  Keeps-release_parent (some i) close_stmt = Keeps-release_row sdk i close_stmt

  -- What `Close` does after the release of its connection.
  Keeps-end :
      (old : Rows) (r : Outcome Error (Unit {0}))
      → Keeps (do
        statement_error ← attempt (Rows.release_parent_stmt sdk old.parent_stmt old.close_stmt)
        lift (Rows.joined_outcome (join (error_of r) (error_of statement_error))))
  Keeps-end old r =
      Keeps-bind _ _ (Keeps-attempt _ (Keeps-release_parent old.parent_stmt old.close_stmt))
        λ e. Keeps-Quiet _ (Quiet-lift _)

  close_open-Balanced :
      (i : ℕ) (w : World) → Balanced w → Balanced (Rows.close_open sdk i (rows_at w i) w).1
  unfolding Rows.close_open ◌>>=◌ attempt
  close_open-Balanced i w b =
      let old = rows_at w i in
      let closing = publicly (Csdk.Rows.close sdk old.native) in
      let (r, v) = closing (detach i w) in
      let (released, u) = Conn.release_child old.parent_conn v in
      Keeps-continue released _ u
        (detach-Balanced i w v ((Quiet-publicly (Csdk.Rows.close sdk old.native)).at (detach i w))
          b)
        λ _. Keeps-end old r

  pub Keeps-close_rows : (rows : Pointer) → Keeps (Rows.close sdk rows)
  unfolding Rows.close
  Keeps-close_rows none = record { at = λ w b. b }
  Keeps-close_rows (some i) = record { at = λ w b. ground (arith, close_open-Balanced i w b) }

  Keeps-arrive : (i : ℕ) (row : ℤ) (r : Outcome Error (Unit {0})) → Keeps (Rows.arrive i row r)
  Keeps-arrive i row (ok _) = record { at = λ w b. put_rows-Balanced i _ w refl b }
  Keeps-arrive i row (err e) = record { at = λ w b. put_rows-Balanced i _ w refl b }

  Keeps-advance : (i : ℕ) → Keeps (Rows.advance sdk i)
  unfolding Rows.advance
  Keeps-advance i = record {
    at = λ w b.
        let row = inc (rows_at w i).current in
        let m = publicly (Csdk.Rows.seek sdk (rows_at w i).native row) in
        let sought : Keeps (attempt m >>= Rows.arrive i row) =
          Keeps-bind _ _ (Keeps-attempt _ (Keeps-Quiet m (Quiet-publicly _)))
            (Keeps-arrive i row) in
        ground (
          arith,
          sought.at w b,
          put_rows-Balanced i (record (rows_at w i) { error = some (plain Sentinel.closed) }) w refl
              b,
        );
  }

  pub Keeps-next : (ctx : Context) (rows : Pointer) → Keeps (Rows.next_context sdk ctx rows)
  unfolding Rows.next_context
  Keeps-next ctx none = record { at = λ w b. b }
  Keeps-next ctx (some i) = record {
    at = λ w b.
        next (context_error ctx w).0 (context_error ctx w).1
          (Balanced-Frame ((Quiet-context_error ctx).at w) b);
  }
    where
      next :
          (r : Outcome Error (Unit {0})) (v : World)
          → Balanced v
          → Balanced
              (elim r as (λ _. Outcome Error Bool × World) [
                | ok _ ↦ Rows.advance sdk i v
                | err e ↦ (ok false, Rows.set_error i (some e) v)
              ]).1
      next (ok _) v b = (Keeps-advance i).at v b
      next (err e) v b = put_rows-Balanced i _ v refl b

  pub Quiet-open_rows : (rows : Pointer) → Quiet (Rows.open_rows rows)
  unfolding Rows.open_rows
  Quiet-open_rows none = record { at = λ w. Frame-refl w }
  Quiet-open_rows (some i) = record { at = λ w. ground arith }

  Keeps-goto :
      (i : ℕ) (row : ℤ)
      → Keeps (modify (λ w. put_rows i (record (rows_at w i) { current = row; error = none }) w))
  unfolding modify
  Keeps-goto i row = record { at = λ w b. put_rows-Balanced i _ w refl b }

  pub Keeps-seek :
      (ctx : Context) (rows : Pointer) (row : ℤ) → Keeps (Rows.seek_context sdk ctx rows row)
  unfolding Rows.seek_context
  Keeps-seek ctx rows row = search (keeps_rules, Quiet-open_rows, Keeps-goto) depth 14
