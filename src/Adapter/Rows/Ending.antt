-- ===== src/Adapter/Rows/Ending.antt =====
-- The loop over Next that `database/sql` makes, from outside.
use cubesql_go_driver.Prelude.{
  ℕ, zero, suc, ◌+◌, ◌≤◌, pos, true, some, none, Option, Bytes, List, [], ◌∷◌, length, ◌≡◌, refl,
  arith, ◌≤ℤ◌,
}
use cubesql_go_driver.Csdk.Types.{Ref, Sdk}
use cubesql_go_driver.Core.Errors
use cubesql_go_driver.Core.Types.{rows_at}
use cubesql_go_driver.Core.Scan.{Scanned}
use cubesql_go_driver.Adapter.Types.{Session}
use cubesql_go_driver.Adapter.Conn.{is_fatal}
use cubesql_go_driver.Adapter.Rows.{Rows, Reader, Fetched, Stop, stopped, next, next_row}
use cubesql_go_driver.Adapter.Rows.Reading.{
  Complete, Noted, next_row-Complete, next_row-Stepped, next_row-Noted,
}

-- The rows read, and what stopped the reading; `none` if the calls ran out.
abbrev pub ReadRows : Type 0
ReadRows = Option (List (List Scanned) × Stop)

abbrev pub with_row : List Scanned → ReadRows → ReadRows
with_row row none = none
with_row row (some (rows, stop)) = some (row ∷ rows, stop)

abbrev pub after_fetch : Fetched → ReadRows → ReadRows
after_fetch f rest = elim f.stop [ none ↦ with_row f.written rest | some stop ↦ some ([], stop) ]

-- Next is called until it returns an error or `io.EOF`, at most `calls` times.
unfoldable pub read_rows :
    Sdk → (parse_float : Bytes → Option ℕ) → (calls n : ℕ) → Reader → ReadRows
unfolding next
read_rows sdk parse_float zero n reader = none
read_rows sdk parse_float (suc calls) n reader =
    let (f, reader') = next sdk parse_float n reader in
    let rest = read_rows sdk parse_float calls n reader' in after_fetch f rest

-- Every row has `n` values.
abbrev pub AllOf : ℕ → List (List Scanned) → Type 0
AllOf n [] = Unit {0}
AllOf n (row ∷ rows) = (length row ≡ n) × AllOf n rows

-- The reading stopped, after `most` rows at most, each of `n` values.
abbrev pub Stopped : (most n : ℕ) → ReadRows → Type 0
Stopped most n none = ⊥
Stopped most n (some (rows, stop)) = (length rows ≤ most) × AllOf n rows

with_row-Stopped :
    (most n : ℕ) (row : List Scanned) (rest : ReadRows)
    → length row ≡ n
    → Stopped most n rest
    → Stopped (suc most) n (with_row row rest)
with_row-Stopped most n row none h x = elim x [ ]
with_row-Stopped most n row (some (rows, stop)) h (short, all) = (omega (arith, short), (h, all))

-- A call that fetched a row leaves fewer rows.
after_fetch-Stopped :
    (most n : ℕ) (f : Fetched) (rest : ReadRows)
    → Complete n f
    → (f.stop ≡ none → (less : ℕ) × (most ≡ suc less) × Stopped less n rest)
    → Stopped most n (after_fetch f rest)
after_fetch-Stopped most n f rest c k = stopped_by f.stop refl
  where
    full : f.stop ≡ none → Complete n f → length f.written ≡ n
    full h c = ground arith

    stopped_by : (s : Option Stop) → f.stop ≡ s → Stopped most n (after_fetch f rest)
    stopped_by none h =
        let (less, same, fewer) = k h in
        rw (h, same) (with_row-Stopped less n f.written rest (full h c) fewer)
    stopped_by (some stop) h = ground arith

-- Rows that are open, on the core cursor `i`.
abbrev pub reading : Rows → ℕ → Session → Reader
reading rows i s = record { rows = some (record rows { native = some i }); session = s }

Noted-broken :
    (f : Fetched) (s : Session) (e : Errors.Error)
    → Noted f s
    → f.stop ≡ some (stopped e)
    → is_fatal e ≡ true
    → s.broken ≡ true
Noted-broken f s e noted stop fatal = ground arith

module _ (sdk : Sdk) (parse_float : Bytes → Option ℕ) (rows : Rows) (n i : ℕ) where
  -- Rows that stand at row `c` are read to their end by one call more than the rows that are left,
  -- whatever C replies: there are no more rows than these, and each has one value for each column.
  pub read_rows-Stopped :
      (left c : ℕ) (s : Session)
      → (rows_at s.world i).current ≡ pos c
      → (rows_at s.world i).total ≤ℤ pos (c + left)
      → Stopped left n (read_rows sdk parse_float (suc left) n (reading rows i s))
  unfolding read_rows
  read_rows-Stopped zero c s current total =
      let open_rows = record rows { native = some i } in
      let fetched = next_row sdk parse_float open_rows n i s in
      after_fetch-Stopped zero n fetched.0 none (next_row-Complete sdk parse_float open_rows n i s)
        (λ h. past_end h)
    where
      past_end :
          (next_row sdk parse_float (record rows { native = some i }) n i s).0.stop ≡ none
          → (less : ℕ) × (zero ≡ suc less) × Stopped less n none
      past_end h =
          let stepped =
            (next_row-Stepped sdk parse_float (record rows { native = some i }) n i s h).before in
          ground (arith, stepped, current, total)
  read_rows-Stopped (suc left) c s current total =
      let open_rows = record rows { native = some i } in
      let done = next_row-Stepped sdk parse_float open_rows n i s in
      let fetched = next_row sdk parse_float open_rows n i s in
      let rest = λ (h : fetched.0.stop ≡ none).
        read_rows-Stopped left (suc c) fetched.1 (rw ((done h).current, current) refl)
          (rw (done h).total (omega (arith, total))) in
      after_fetch-Stopped (suc left) n fetched.0
        (read_rows sdk parse_float (suc left) n (reading rows i fetched.1))
        (next_row-Complete sdk parse_float open_rows n i s) (λ h. (left, refl, rest h))

  -- If Next returns an error that shows that the connection is lost, the connection is broken.
  pub next-Noted :
      (s : Session) (e : Errors.Error)
      → rows.connection ≡ Ref.self
      → (next sdk parse_float n (reading rows i s)).0.stop ≡ some (stopped e)
      → is_fatal e ≡ true
      → (next sdk parse_float n (reading rows i s)).1.session.broken ≡ true
  unfolding next
  next-Noted s e h stop fatal =
      let fetched = next_row sdk parse_float (record rows { native = some i }) n i s in
      Noted-broken fetched.0 fetched.1 e
        (next_row-Noted sdk parse_float (record rows { native = some i }) n i s h) stop fatal
