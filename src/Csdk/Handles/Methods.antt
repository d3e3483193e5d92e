-- ===== src/Csdk/Handles/Methods.antt =====
-- The methods of csdk.go that neither take nor free a handle.
use cubesql_go_driver.Prelude.{
  [], ℕ, ◌≤◌, ℤ, Option, none, some, ◌≡◌, refl, arith, if◌then◌else◌, Bytes, ◌==ℤ◌,
}
use cubesql_go_driver.Prelude.Action.{pure, raise, ◌>>=◌}
use cubesql_go_driver.Csdk.Types.{
  Ref, Call, Native, Pointer, Sdk, cross, csqlgo_ok, csqlgo_field_null, native,
}
use cubesql_go_driver.Csdk.Convert.{c_int}
use cubesql_go_driver.Csdk.Conn
use cubesql_go_driver.Csdk.Rows
use cubesql_go_driver.Csdk.Stmt
use cubesql_go_driver.Csdk.Handles.{Kind, conn, cursor, stmt, hit, uses, frees, held, Safe}
use cubesql_go_driver.Csdk.Handles.Steps.{cross-Safe}
use cubesql_go_driver.Csdk.Handles.Guards.{
  Keeps, Keeps-pure, Keeps-raise, Keeps-return_if, Keeps-if, Keeps-bind, Keeps-native_error,
  Keeps-checked, cross_then, connected_then, cursor_then, stmt_then,
}

module _ (k : Kind) (h : ℕ) (sdk : Sdk) where
  pub Keeps-call :
      (c : Ref) (f : ℕ → Call)
      → ((n : ℕ) → uses k h (f n) ≡ hit k h conn n)
      → ((n : ℕ) → frees k h (f n) ≡ 0)
      → Keeps k h (Conn.call sdk c f)
  unfolding Conn.call
  Keeps-call c f used kept = connected_then k h c _ λ n s safe fits.
      cross_then k h sdk (f n) _ s safe (omega (arith, used n, fits)) (kept n)
        λ r. Keeps-checked k h sdk r.code

  -- The end of `metric`, which asks for the connection's error code.
  metric_end :
      (n : ℕ) (value : ℤ) (s : Native)
      → Safe k h s
      → hit k h conn n ≤ held k h s
      → Safe k h
          ((Conn.error_code sdk (some n) >>= λ code.
              if code ==ℤ csqlgo_ok then pure value else Conn.native_error sdk code)
            s).1
  unfolding Conn.error_code cross ◌>>=◌
  metric_end n value s safe fits =
      let asked = Call.conn_error_code n in
      let code = (sdk s.history asked).code in
      (Keeps-if k h (code ==ℤ csqlgo_ok) (pure value) (Conn.native_error sdk code)
          (Keeps-pure k h value) (Keeps-native_error k h sdk code)).at
        (cross sdk asked s).1 (cross-Safe k h sdk asked s safe fits refl)

  pub Keeps-metric :
      (c : Ref) (f : ℕ → Call)
      → ((n : ℕ) → uses k h (f n) ≡ hit k h conn n)
      → ((n : ℕ) → frees k h (f n) ≡ 0)
      → Keeps k h (Conn.metric sdk c f)
  unfolding Conn.metric cross ◌>>=◌
  Keeps-metric c f used kept = connected_then k h c _ λ n s safe fits.
      metric_end n (sdk s.history (f n)).code (cross sdk (f n) s).1
        (cross-Safe k h sdk (f n) s safe (omega (arith, used n, fits)) (kept n)) (omega arith)

  pub Keeps-exec : (c : Ref) (sql : Bytes) → Keeps k h (Conn.exec sdk c sql)
  unfolding Conn.exec
  Keeps-exec c sql =
      Keeps-bind k h _ _ (Keeps-return_if k h _ _) λ _. Keeps-call c _ (λ n. refl) λ n. refl

  pub Keeps-set_database : (c : Ref) (name : Bytes) → Keeps k h (Conn.set_database sdk c name)
  unfolding Conn.set_database
  Keeps-set_database c name = Keeps-call c _ (λ n. refl) λ n. refl

  pub Keeps-number :
      (p : Pointer) (f : ℕ → Call)
      → ((n : ℕ) → uses k h (f n) ≡ hit k h cursor n)
      → ((n : ℕ) → frees k h (f n) ≡ 0)
      → Keeps k h (Rows.number sdk p f)
  unfolding Rows.number
  Keeps-number p f used kept = cursor_then k h p _ λ n s safe fits.
      cross_then k h sdk (f n) _ s safe (omega (arith, used n, fits)) (kept n)
        λ r. Keeps-if k h _ _ _ (Keeps-raise k h _) (Keeps-pure k h _)

  pub Keeps-column_type : (p : Pointer) (column : ℤ) → Keeps k h (Rows.column_type sdk p column)
  unfolding Rows.column_type
  Keeps-column_type p column =
      Keeps-bind k h _ _ (Keeps-return_if k h _ _) λ _. Keeps-number p _ (λ n. refl) λ n. refl

  pub Keeps-seek : (p : Pointer) (row : ℤ) → Keeps k h (Rows.seek sdk p row)
  unfolding Rows.seek
  Keeps-seek p row = Keeps-bind k h _ _ (Keeps-return_if k h _ _) λ _.
      cursor_then k h p _ λ n s safe fits.
        cross_then k h sdk (Call.cursor_seek n (c_int row)) _ s safe fits refl
          λ r. Keeps-return_if k h _ _

  Keeps-copy_field :
      (p : Pointer) (f : ℕ → Call)
      → ((n : ℕ) → uses k h (f n) ≡ hit k h cursor n)
      → ((n : ℕ) → frees k h (f n) ≡ 0)
      → Keeps k h (Rows.copy_field sdk p f)
  unfolding Rows.copy_field
  Keeps-copy_field p f used kept = cursor_then k h p _ λ n s safe fits.
      cross_then k h sdk (f n) _ s safe (omega (arith, used n, fits)) (kept n) λ r.
        Keeps-if k h (r.code ==ℤ csqlgo_field_null) (pure none) _ (Keeps-pure k h none) (
          Keeps-if k h (r.code ==ℤ csqlgo_ok) (pure (some r.bytes)) (raise (native r.code []))
            (Keeps-pure k h (some r.bytes)) (Keeps-raise k h (native r.code [])))

  pub Keeps-field : (p : Pointer) (row column : ℤ) → Keeps k h (Rows.field sdk p row column)
  unfolding Rows.field
  Keeps-field p row column =
      Keeps-bind k h _ _ (Keeps-return_if k h _ _) λ _. Keeps-copy_field p _ (λ n. refl) λ n. refl

  Keeps-name : (name : Option Bytes) → Keeps k h (Rows.name_or_invalid sdk name)
  Keeps-name none = Keeps-raise k h _
  Keeps-name (some name) = Keeps-pure k h _

  pub Keeps-column_name : (p : Pointer) (column : ℤ) → Keeps k h (Rows.column_name sdk p column)
  unfolding Rows.column_name
  Keeps-column_name p column =
      Keeps-bind k h _ _ (Keeps-return_if k h _ _)
        λ _. Keeps-bind k h _ _ (Keeps-copy_field p _ (λ n. refl) λ n. refl) Keeps-name

  pub Keeps-stmt_call :
      (p : Pointer) (f : ℕ → Call)
      → ((n : ℕ) → uses k h (f n) ≡ hit k h stmt n)
      → ((n : ℕ) → frees k h (f n) ≡ 0)
      → Keeps k h (Stmt.call sdk p f)
  unfolding Stmt.call
  Keeps-stmt_call p f used kept = stmt_then k h p _ λ n s safe fits.
      cross_then k h sdk (f n) _ s safe (omega (arith, used n, fits)) (kept n)
        λ r. Keeps-checked k h sdk r.code

  Keeps-unsupported_stmt : (p : Pointer) → Keeps k h (Stmt.unsupported_bind p)
  unfolding Stmt.unsupported_bind raise
  Keeps-unsupported_stmt p = stmt_then k h p _ λ n s safe fits. safe

  pub Keeps-bind_double :
      (p : Pointer) (i : ℤ) (bits : ℕ) → Keeps k h (Stmt.bind_double sdk p i bits)
  unfolding Stmt.bind_double
  Keeps-bind_double p i bits =
      Keeps-bind k h _ _ (Keeps-return_if k h _ _) λ _. Keeps-stmt_call p _ (λ n. refl) λ n. refl

  pub Keeps-bind_bytes :
      (p : Pointer) (i : ℤ) (v : Bytes) (f : ℕ → ℤ → Bytes → ℤ → Call)
      → ((n : ℕ) (i : ℤ) (v : Bytes) (size : ℤ) → uses k h (f n i v size) ≡ hit k h stmt n)
      → ((n : ℕ) (i : ℤ) (v : Bytes) (size : ℤ) → frees k h (f n i v size) ≡ 0)
      → Keeps k h (Stmt.bind_bytes sdk p i v f)
  unfolding Stmt.bind_bytes
  Keeps-bind_bytes p i v f used kept =
      Keeps-bind k h _ _ (Keeps-return_if k h _ _)
        λ _. Keeps-stmt_call p _ (λ n. used n _ _ _) λ n. kept n _ _ _

  pub Keeps-bind_blob : (p : Pointer) (i : ℤ) (v : Bytes) → Keeps k h (Stmt.bind_blob sdk p i v)
  unfolding Stmt.bind_blob
  Keeps-bind_blob p i v = Keeps-bind k h _ _ (Keeps-return_if k h _ _) λ _.
      Keeps-if k h _ _ _ (Keeps-unsupported_stmt p)
        (Keeps-bind_bytes p i v Call.stmt_bind_blob (λ n i v size. refl) λ n i v size. refl)

  pub Keeps-bind_zero_blob :
      (p : Pointer) (i size : ℤ) → Keeps k h (Stmt.bind_zero_blob sdk p i size)
  unfolding Stmt.bind_zero_blob
  Keeps-bind_zero_blob p i size =
      Keeps-bind k h _ _ (Keeps-return_if k h _ _) λ _. Keeps-stmt_call p _ (λ n. refl) λ n. refl
