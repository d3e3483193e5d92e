-- ===== src/Csdk/Handles/Binds.antt =====
-- The setters of a one-shot bind, and the execution with one.
use cubesql_go_driver.Prelude.{ℕ, ℤ, ◌≡◌, refl, arith, Bytes, c_string}
use cubesql_go_driver.Prelude.Action.{raise}
use cubesql_go_driver.Csdk.Types.{Ref, Call, Pointer, Sdk}
use cubesql_go_driver.Csdk.Bind
use cubesql_go_driver.Csdk.Handles.{Kind, bind, hit, uses, frees}
use cubesql_go_driver.Csdk.Handles.Guards.{
  Keeps, Keeps-return_if, Keeps-if, Keeps-bind, Keeps-checked, cross_then, connected_then,
  bind_then,
}

module _ (k : Kind) (h : ℕ) (sdk : Sdk) where
  pub Keeps-set_with :
      (p : Pointer) (f : ℕ → Call)
      → ((n : ℕ) → uses k h (f n) ≡ hit k h bind n)
      → ((n : ℕ) → frees k h (f n) ≡ 0)
      → Keeps k h (Bind.set_with sdk p f)
  unfolding Bind.set_with
  Keeps-set_with p f used kept = record {
    at = λ s safe. bind_then k h p _ s safe λ n fits.
        cross_then k h sdk (f n) _ s safe (omega (arith, used n, fits)) (kept n)
          λ r. Keeps-bind k h _ _ (Keeps-return_if k h _ _) λ _. Keeps-return_if k h _ _;
  }

  Keeps-unsupported_bind : (p : Pointer) → Keeps k h (Bind.unsupported_bind p)
  unfolding Bind.unsupported_bind raise
  Keeps-unsupported_bind p = record { at = λ s safe. bind_then k h p _ s safe λ n fits. safe }

  pub Keeps-set_bytes :
      (p : Pointer) (i : ℤ) (v : Bytes) (f : ℕ → ℤ → Bytes → ℤ → Call)
      → ((n : ℕ) (i : ℤ) (v : Bytes) (size : ℤ) → uses k h (f n i v size) ≡ hit k h bind n)
      → ((n : ℕ) (i : ℤ) (v : Bytes) (size : ℤ) → frees k h (f n i v size) ≡ 0)
      → Keeps k h (Bind.set_bytes sdk p i v f)
  unfolding Bind.set_bytes
  Keeps-set_bytes p i v f used kept =
      Keeps-bind k h _ _ (Keeps-return_if k h _ _)
        λ _. Keeps-set_with p _ (λ n. used n _ _ _) λ n. kept n _ _ _

  pub Keeps-set_double : (p : Pointer) (i : ℤ) (bits : ℕ) → Keeps k h (Bind.set_double sdk p i bits)
  unfolding Bind.set_double
  Keeps-set_double p i bits =
      Keeps-bind k h _ _ (Keeps-return_if k h _ _) λ _. Keeps-set_with p _ (λ n. refl) λ n. refl

  pub Keeps-set_blob : (p : Pointer) (i : ℤ) (v : Bytes) → Keeps k h (Bind.set_blob sdk p i v)
  unfolding Bind.set_blob
  Keeps-set_blob p i v = Keeps-bind k h _ _ (Keeps-return_if k h _ _) λ _.
      Keeps-if k h _ _ _ (Keeps-unsupported_bind p)
        (Keeps-set_bytes p i v Call.bind_set_blob (λ n i v size. refl) λ n i v size. refl)

  pub Keeps-set_zero_blob : (p : Pointer) (i size : ℤ) → Keeps k h (Bind.set_zero_blob sdk p i size)
  unfolding Bind.set_zero_blob
  Keeps-set_zero_blob p i size =
      Keeps-bind k h _ _ (Keeps-return_if k h _ _) λ _. Keeps-unsupported_bind p

  pub Keeps-exec_bind :
      (c : Ref) (sql : Bytes) (p : Pointer) → Keeps k h (Bind.exec_bind sdk c sql p)
  unfolding Bind.exec_bind
  Keeps-exec_bind c sql p = Keeps-bind k h _ _ (Keeps-return_if k h _ _) λ _.
      connected_then k h c _ λ n s safe used. bind_then k h p _ s safe λ b fits.
        cross_then k h sdk (Call.conn_execute_bind n (c_string sql) b) _ s safe (omega arith) refl
          λ r. Keeps-checked k h sdk r.code
