-- ===== src/Csdk/Handles/Guards.antt =====
-- The guards and endings that the methods of csdk.go share keep the handles safe.
use cubesql_go_driver.Prelude.{
  ℕ, ◌≤◌, ℤ, Bool, true, false, none, some, ◌≡◌, refl, arith, if◌then◌else◌, Bytes,
}
use cubesql_go_driver.Prelude.Action.{Outcome, ok, err, continue, pure, raise, return_if, ◌>>=◌}
use cubesql_go_driver.Csdk.Types.{Ref, Call, Reply, Native, Pointer, Sdk, cross, Do, Error}
use cubesql_go_driver.Csdk.Conn
use cubesql_go_driver.Csdk.Rows
use cubesql_go_driver.Csdk.Stmt
use cubesql_go_driver.Csdk.Bind
use cubesql_go_driver.Csdk.Handles.{
  Kind, conn, cursor, stmt, bind, hit, uses, frees, holds, binding, held, Safe,
}
use cubesql_go_driver.Csdk.Handles.Steps.{cross-Safe, holds-le-holding, holds-le-binding}

-- `m` keeps the handle safe, whatever it returns.
pub record Keeps (k : Kind) (h : ℕ) {A : Type 0} (m : Do A) : Type 0 where
  pub at : (s : Native) → Safe k h s → Safe k h (m s).1

module _ (k : Kind) (h : ℕ) where
  pub Keeps-pure : {A : Type 0} (a : A) → Keeps k h (pure a)
  unfolding pure
  Keeps-pure a = record { at = λ s safe. safe }

  pub Keeps-raise : {A : Type 0} (e : Error) → Keeps k h (raise {A = A} e)
  unfolding raise
  Keeps-raise e = record { at = λ s safe. safe }

  pub Keeps-return_if : (b : Bool) (e : Error) → Keeps k h (return_if b e)
  unfolding return_if
  Keeps-return_if true e = record { at = λ s safe. safe }
  Keeps-return_if false e = record { at = λ s safe. safe }

  pub Keeps-if :
      {A : Type 0} (b : Bool) (m n : Do A)
      → Keeps k h m
      → Keeps k h n
      → Keeps k h (if b then m else n)
  Keeps-if true m n km kn = km
  Keeps-if false m n km kn = kn

  module _ {A B : Type 0} where
    -- What follows a step may rely on `P` where the step succeeded.
    pub Safe-continue :
        (P : A → Native → Type 0) (r : Outcome Error A) (f : A → Do B) (s : Native)
        → Safe k h s
        → ((a : A) → r ≡ ok a → P a s)
        → ((a : A) (t : Native) → Safe k h t → P a t → Safe k h (f a t).1)
        → Safe k h (continue r f s).1
    Safe-continue P (ok a) f s safe given then_safe = then_safe a s safe (given a refl)
    Safe-continue P (err e) f s safe given then_safe = safe

    pub Keeps-bind :
        (m : Do A) (f : A → Do B) → Keeps k h m → ((a : A) → Keeps k h (f a)) → Keeps k h (m >>= f)
    unfolding ◌>>=◌
    Keeps-bind m f km kf = record {
      at = λ s safe.
          Safe-continue (λ a t. Unit) (m s).0 f (m s).1 (km.at s safe) (λ a e. tt)
            λ a t safe _. (kf a).at t safe;
    }

    -- A guard that changes nothing and gives `P` where it succeeds.
    pub Safe-guard :
        (P : A → Type 0) (m : Do A) (f : A → Do B) (s : Native)
        → (m s).1 ≡ s
        → Safe k h s
        → ((a : A) → (m s).0 ≡ ok a → P a)
        → ((a : A) → P a → Safe k h (f a s).1)
        → Safe k h ((m >>= f) s).1
    unfolding ◌>>=◌
    Safe-guard P m f s here safe given then_safe =
        Safe-continue (λ a t. P a × (t ≡ s)) (m s).0 f (m s).1 (rw here safe)
          (λ a e. (given a e, here)) λ a t _ p. rw p.1 (then_safe a p.0)

  module _ {B : Type 0} (sdk : Sdk) where
    pub cross_then :
        (call : Call) (f : Reply → Do B) (s : Native)
        → Safe k h s
        → uses k h call ≤ held k h s
        → frees k h call ≡ 0
        → ((r : Reply) → Keeps k h (f r))
        → Safe k h ((cross sdk call >>= f) s).1
    unfolding cross ◌>>=◌
    cross_then call f s safe used kept then_safe =
        (then_safe (sdk s.history call)).at (cross sdk call s).1
          (cross-Safe k h sdk call s safe used kept)

  module _ (sdk : Sdk) {B : Type 0} where
    error_code_then :
        (p : Pointer) (f : ℤ → Do B) (s : Native)
        → s.conn.ptr ≡ p
        → Safe k h s
        → ((code : ℤ) (t : Native) → t.conn.ptr ≡ p → Safe k h t → Safe k h (f code t).1)
        → Safe k h ((Conn.error_code sdk p >>= f) s).1
    unfolding Conn.error_code ◌>>=◌
    error_code_then none f s e safe then_safe = then_safe _ s e safe
    error_code_then (some n) f s e safe then_safe =
        then_safe _ _ e
          (cross-Safe k h sdk (Call.conn_error_code n) s safe (rw e (omega arith)) refl)

    error_message_then :
        (p : Pointer) (f : Bytes → Do B) (s : Native)
        → s.conn.ptr ≡ p
        → Safe k h s
        → ((text : Bytes) → Keeps k h (f text))
        → Safe k h ((Conn.error_message_copy sdk p >>= f) s).1
    unfolding Conn.error_message_copy ◌>>=◌
    error_message_then none f s e safe then_safe = (then_safe _).at s safe
    error_message_then (some n) f s e safe then_safe =
        (then_safe _).at _
          (cross-Safe k h sdk (Call.conn_error_message_copy n) s safe (rw e (omega arith)) refl)

    pub Keeps-native_error : (fallback : ℤ) → Keeps k h (Conn.native_error sdk {A = B} fallback)
    unfolding Conn.native_error
    Keeps-native_error fallback = record {
      at = λ s safe.
          error_code_then s.conn.ptr _ s refl safe
            λ code t e safe. error_message_then s.conn.ptr _ t e safe λ text. Keeps-raise _;
    }

  pub Keeps-checked : (sdk : Sdk) (result : ℤ) → Keeps k h (Conn.checked sdk result)
  unfolding Conn.checked
  Keeps-checked sdk result = Keeps-if _ _ _ (Keeps-pure _) (Keeps-native_error sdk result)

  -- What the guards change, and which handle they return.
  connected_same : (c : Ref) (s : Native) → (Conn.connected c s).1 ≡ s
  unfolding Conn.connected
  connected_same c s = ground arith

  connected_held :
      (c : Ref) (s : Native) (n : ℕ)
      → (Conn.connected c s).0 ≡ ok n
      → hit k h conn n ≤ holds k h conn s.conn.ptr
  unfolding Conn.connected
  connected_held c s n e = ground arith

  cursor_same : (p : Pointer) (s : Native) → (Rows.open_cursor p s).1 ≡ s
  unfolding Rows.open_cursor
  cursor_same p s = ground arith

  cursor_held :
      (p : Pointer) (s : Native) (n : ℕ)
      → (Rows.open_cursor p s).0 ≡ ok n
      → hit k h cursor n ≤ held k h s
  unfolding Rows.open_cursor
  cursor_held none s n e = cc
  cursor_held (some i) s n e = ground (arith, holds-le-holding k h cursor s.rows i)

  stmt_same : (p : Pointer) (s : Native) → (Stmt.open_stmt p s).1 ≡ s
  unfolding Stmt.open_stmt
  stmt_same p s = ground arith

  stmt_held :
      (p : Pointer) (s : Native) (n : ℕ)
      → (Stmt.open_stmt p s).0 ≡ ok n
      → hit k h stmt n ≤ held k h s
  unfolding Stmt.open_stmt
  stmt_held none s n e = cc
  stmt_held (some i) s n e = ground (arith, holds-le-holding k h stmt s.stmts i)

  bind_same : (p : Pointer) (s : Native) → (Bind.open_bind p s).1 ≡ s
  unfolding Bind.open_bind
  bind_same p s = ground arith

  bind_held :
      (p : Pointer) (s : Native) (n : ℕ)
      → (Bind.open_bind p s).0 ≡ ok n
      → hit k h bind n ≤ binding k h s.binds
  unfolding Bind.open_bind
  bind_held none s n e = cc
  bind_held (some i) s n e = ground (arith, holds-le-binding k h s.binds i)

  module _ {B : Type 0} where
    pub connected_then :
        (c : Ref) (f : ℕ → Do B)
        → ((n : ℕ) (s : Native)
            → Safe k h s
            → hit k h conn n ≤ holds k h conn s.conn.ptr
            → Safe k h (f n s).1)
        → Keeps k h (Conn.connected c >>= f)
    connected_then c f then_safe = record {
      at = λ s safe.
          Safe-guard _ (Conn.connected c) f s (connected_same c s) safe (connected_held c s)
            λ n used. then_safe n s safe used;
    }

    pub cursor_then :
        (p : Pointer) (f : ℕ → Do B)
        → ((n : ℕ) (s : Native) → Safe k h s → hit k h cursor n ≤ held k h s → Safe k h (f n s).1)
        → Keeps k h (Rows.open_cursor p >>= f)
    cursor_then p f then_safe = record {
      at = λ s safe.
          Safe-guard _ (Rows.open_cursor p) f s (cursor_same p s) safe (cursor_held p s)
            λ n used. then_safe n s safe used;
    }

    pub stmt_then :
        (p : Pointer) (f : ℕ → Do B)
        → ((n : ℕ) (s : Native) → Safe k h s → hit k h stmt n ≤ held k h s → Safe k h (f n s).1)
        → Keeps k h (Stmt.open_stmt p >>= f)
    stmt_then p f then_safe = record {
      at = λ s safe.
          Safe-guard _ (Stmt.open_stmt p) f s (stmt_same p s) safe (stmt_held p s)
            λ n used. then_safe n s safe used;
    }

    pub bind_then :
        (p : Pointer) (f : ℕ → Do B) (s : Native)
        → Safe k h s
        → ((n : ℕ) → hit k h bind n ≤ binding k h s.binds → Safe k h (f n s).1)
        → Safe k h ((Bind.open_bind p >>= f) s).1
    bind_then p f s safe then_safe =
        Safe-guard _ (Bind.open_bind p) f s (bind_same p s) safe (bind_held p s) then_safe
