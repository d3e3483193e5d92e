-- ===== src/Adapter/Rows/Reading.antt =====
-- Reading rows of the adapter to their end.
use cubesql_go_driver.Prelude.{
  ℕ, zero, suc, ◌≤◌, ℤ, pos, inc, true, false, Bool, some, none, Option, Bytes, length, ◌≡◌, refl,
  arith, ◌⊎◌, inl, inr, Bool-cases, not, if◌then◌else◌, ◌==◌, sym, subst,
}
use cubesql_go_driver.Prelude.Action.{Outcome, ok, err}
use cubesql_go_driver.Csdk.Types.{Ref, Sdk}
use cubesql_go_driver.Core.Errors
use cubesql_go_driver.Core.Errors.{Sentinel, plain}
use cubesql_go_driver.Core.Types.{World, background}
use cubesql_go_driver.Core.Rows as CoreRows
use cubesql_go_driver.Core.Rows.Progress.{Stepped, WhenTrue, next_context-Stepped}
use cubesql_go_driver.Core.Scan
use cubesql_go_driver.Core.Scan.{Scanned, Value}
use cubesql_go_driver.Core.Frame.{Frame, Frame-refl, Frame-trans}
use cubesql_go_driver.Core.Session.Balance.{Quiet-value}
use cubesql_go_driver.Adapter.Types.{Session}
use cubesql_go_driver.Adapter.Conn.{core_call, is_fatal}
use cubesql_go_driver.Adapter.Values.{driver_value}
use cubesql_go_driver.Adapter.Rows.Conversion.{driver_value-ErrScan}
use cubesql_go_driver.Adapter.Rows.{
  Rows, Fetched, eof, stopped, failed, after_value, after_conversion, fill, after_next, next_row,
  observe, ended,
}

-- A row that Next fetched is complete; at the end of the rows nothing is written.
abbrev pub Complete : ℕ → Fetched → Type 0
Complete n f = elim f.stop [ none ↦ length f.written ≡ n | some s ↦ length f.written ≤ n ]

observe-world : (r : Ref) (e : Option Errors.Error) (s : Session) → (observe r e s).world ≡ s.world
unfolding observe
observe-world r e s = ground arith

observe-broken :
    (e : Errors.Error) (s : Session)
    → is_fatal e ≡ true
    → (observe Ref.self (some e) s).broken ≡ true
unfolding observe
observe-broken e s h = ground arith

ErrScan-mild : is_fatal (plain Sentinel.scan) ≡ false
unfolding is_fatal
ErrScan-mild = refl

-- An error that shows that the connection is lost was noted.
abbrev pub Noted : Fetched → Session → Type 0
Noted f s = elim f.stop [
  | none ↦ Unit {0}
  | some eof ↦ Unit {0}
  | some (stopped e) ↦ (is_fatal e ≡ false) ⊎ (s.broken ≡ true)
]

error-Noted : (e : Errors.Error) (s : Session) → Noted (failed e) (observe Ref.self (some e) s)
error-Noted e s = elim (Bool-cases (is_fatal e)) [
  | inl h ↦ inr (observe-broken e s h)
  | inr h ↦ inl h
]

ended-Noted :
    (sdk : Sdk) (parse_float : Bytes → Option ℕ) (e : Option Errors.Error) (s : Session)
    → Noted (ended sdk parse_float Ref.self e s).0 (ended sdk parse_float Ref.self e s).1
ended-Noted sdk parse_float none s = tt
ended-Noted sdk parse_float (some e) s = error-Noted e s

module _ (parse_float : Bytes → Option ℕ) where
  after_value-Frame :
      (r : Ref) (o : Outcome Errors.Error Value) (w : World) (s : Session)
      (rest : Fetched × Session)
      → Frame w s.world
      → Frame w rest.1.world
      → Frame w (after_value parse_float r o s rest).1.world
  unfolding after_value
  after_value-Frame r (err e) w s rest f g = rw (observe-world r (some e) s) f
  after_value-Frame r (ok v) w s rest f g = converted (driver_value parse_float v)
    where
      converted : (c : Outcome Errors.Error Scanned) → Frame w (after_conversion c s rest).1.world
      converted (ok x) = g
      converted (err e) = f

  after_value-Noted :
      (o : Outcome Errors.Error Value) (s : Session) (rest : Fetched × Session)
      → Noted rest.0 rest.1
      → Noted
          (after_value parse_float Ref.self o s rest).0
          (after_value parse_float Ref.self o s rest).1
  unfolding after_value
  after_value-Noted (err e) s rest g = error-Noted e s
  after_value-Noted (ok v) s rest g =
      converted (driver_value parse_float v) (driver_value-ErrScan parse_float v)
    where
      converted :
          (c : Outcome Errors.Error Scanned)
          → ((e : Errors.Error) → c ≡ err e → e ≡ plain Sentinel.scan)
          → Noted (after_conversion c s rest).0 (after_conversion c s rest).1
      converted (ok x) k = g
      converted (err e) k = inl (rw (k e refl) ErrScan-mild)

  after_value-Complete :
      (n : ℕ) (r : Ref) (o : Outcome Errors.Error Value) (s : Session) (rest : Fetched × Session)
      → Complete n rest.0
      → Complete (suc n) (after_value parse_float r o s rest).0
  unfolding after_value
  after_value-Complete n r o s rest c = ground arith

Stepped-Frame : {i : ℕ} {w v u : World} → Stepped i w v → Frame v u → Stepped i w u
Stepped-Frame s f = record {
  before = s.before;
  current = rw f.rows s.current;
  total = rw f.rows s.total;
}

module _ (sdk : Sdk) (parse_float : Bytes → Option ℕ) where
  fill-Complete :
      (rows : Rows) (i n : ℕ) (column : ℤ) (s : Session)
      → Complete n (fill sdk parse_float rows i n column s).0
  unfolding fill
  fill-Complete rows i zero column s = refl
  fill-Complete rows i (suc n) column s =
      let read = core_call (Scan.value_context sdk background (some i) column) s in
      after_value-Complete parse_float n rows.connection read.0 read.1
        (fill sdk parse_float rows i n (inc column) read.1)
        (fill-Complete rows i n (inc column) read.1)

  -- The reading of a row changes no cursor.
  fill-Frame :
      (rows : Rows) (i n : ℕ) (column : ℤ) (s : Session)
      → Frame s.world (fill sdk parse_float rows i n column s).1.world
  unfolding fill core_call
  fill-Frame rows i zero column s = Frame-refl s.world
  fill-Frame rows i (suc n) column s =
      let read = core_call (Scan.value_context sdk background (some i) column) s in
      let f : Frame s.world read.1.world =
        (Quiet-value sdk parse_float background (some i) column).at s.world in
      after_value-Frame parse_float rows.connection read.0 s.world read.1
        (fill sdk parse_float rows i n (inc column) read.1) f
        (Frame-trans f (fill-Frame rows i n (inc column) read.1))

  fill-Noted :
      (rows : Rows) (i n : ℕ) (column : ℤ) (s : Session)
      → rows.connection ≡ Ref.self
      → Noted (fill sdk parse_float rows i n column s).0 (fill sdk parse_float rows i n column s).1
  unfolding fill
  fill-Noted rows i zero column s h = tt
  fill-Noted rows i (suc n) column s h =
      let read = core_call (Scan.value_context sdk background (some i) column) s in
      let rest = fill sdk parse_float rows i n (inc column) read.1 in
      let noted : Noted rest.0 rest.1 = fill-Noted rows i n (inc column) read.1 h in
      let all = after_value-Noted parse_float read.0 read.1 rest noted in
      subst
        (λ (r : Ref).
          Noted (after_value parse_float r read.0 read.1 rest).0
            (after_value parse_float r read.0 read.1 rest).1)
        (sym h) all

  after_next-Complete :
      (rows : Rows) (n i : ℕ) (r : Outcome Errors.Error Bool) (s : Session)
      → Complete n (after_next sdk parse_float rows n i r s).0
  unfolding after_next
  after_next-Complete rows n i (ok true) s = fill-Complete rows i n (pos 1) s
  after_next-Complete rows n i (ok false) s = ground arith
  after_next-Complete rows n i (err e) s = ground arith

  pub next_row-Complete :
      (rows : Rows) (n i : ℕ) (s : Session) → Complete n (next_row sdk parse_float rows n i s).0
  unfolding next_row
  next_row-Complete rows n i s =
      let called = core_call (CoreRows.next_context sdk background (some i)) s in
      ground (arith, after_next-Complete rows n i called.0 called.1)

  after_next-Stepped :
      (rows : Rows) (n i : ℕ) (r : Outcome Errors.Error Bool) (w : World) (s : Session)
      → WhenTrue r (Stepped i w s.world)
      → (after_next sdk parse_float rows n i r s).0.stop ≡ none
      → Stepped i w (after_next sdk parse_float rows n i r s).1.world
  unfolding after_next
  after_next-Stepped rows n i (ok true) w s p h = Stepped-Frame p (fill-Frame rows i n (pos 1) s)
  after_next-Stepped rows n i (ok false) w s p h = ground arith
  after_next-Stepped rows n i (err e) w s p h = ground arith

  pub next_row-Stepped :
      (rows : Rows) (n i : ℕ) (s : Session)
      → (next_row sdk parse_float rows n i s).0.stop ≡ none
      → Stepped i s.world (next_row sdk parse_float rows n i s).1.world
  unfolding next_row core_call
  next_row-Stepped rows n i s h = guarded (not (n == length rows.columns)) h
    where
      called : Outcome Errors.Error Bool × Session
      called = core_call (CoreRows.next_context sdk background (some i)) s

      guarded :
          (b : Bool)
          → (if b
              then (failed (plain Sentinel.scan), s)
              else after_next sdk parse_float rows n i called.0 called.1).0.stop
            ≡ none
          → Stepped i s.world
              (if b
                then (failed (plain Sentinel.scan), s)
                else after_next sdk parse_float rows n i called.0 called.1).1.world
      guarded true h = ground arith
      guarded false h =
          after_next-Stepped rows n i called.0 s.world called.1 (next_context-Stepped sdk i s.world)
            h

  after_next-Noted :
      (rows : Rows) (n i : ℕ) (r : Outcome Errors.Error Bool) (s : Session)
      → rows.connection ≡ Ref.self
      → Noted
          (after_next sdk parse_float rows n i r s).0
          (after_next sdk parse_float rows n i r s).1
  unfolding after_next
  after_next-Noted rows n i (ok true) s h = fill-Noted rows i n (pos 1) s h
  after_next-Noted rows n i (ok false) s h =
      rw h (ended-Noted sdk parse_float (CoreRows.rows_error (some i) s.world) s)
  after_next-Noted rows n i (err e) s h =
      rw h (ended-Noted sdk parse_float (CoreRows.rows_error (some i) s.world) s)

  pub next_row-Noted :
      (rows : Rows) (n i : ℕ) (s : Session)
      → rows.connection ≡ Ref.self
      → Noted (next_row sdk parse_float rows n i s).0 (next_row sdk parse_float rows n i s).1
  unfolding next_row
  next_row-Noted rows n i s h = guarded (not (n == length rows.columns))
    where
      called : Outcome Errors.Error Bool × Session
      called = core_call (CoreRows.next_context sdk background (some i)) s

      guarded :
          (b : Bool)
          → Noted
              (if b
                then (failed (plain Sentinel.scan), s)
                else after_next sdk parse_float rows n i called.0 called.1).0
              (if b
                then (failed (plain Sentinel.scan), s)
                else after_next sdk parse_float rows n i called.0 called.1).1
      guarded true = inl ErrScan-mild
      guarded false = after_next-Noted rows n i called.0 called.1 h
