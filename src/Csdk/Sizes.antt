-- ===== src/Csdk/Sizes.antt =====
-- What internal/csdk does to lengths and numbers that do not fit in a C `int`.
use cubesql_go_driver.Prelude.{ℕ, suc, ◌+◌, ◌^◌, ◌<◌, pos, Bytes, ◌≡◌, ap, arith, length}
use cubesql_go_driver.Prelude.Action.{◌>>=◌}
use cubesql_go_driver.Csdk.Types.{Sdk, Native, Call, Pointer}
use cubesql_go_driver.Csdk.Convert.{c_int}
use cubesql_go_driver.Csdk.Stmt

cut_size :
    (value : Bytes) (n : ℕ)
    → length value ≡ n + 2 ^ 32
    → n < 2 ^ 31
    → c_int (pos (length value)) ≡ pos n
unfolding c_int
cut_size value n long small = ground arith

module _ (sdk : Sdk) where
  -- A text of `2^32 + n` bytes (`n` below `2^31`) bound to a prepared statement is passed to C as `n` bytes long.
  pub bind_text-of_long :
      (stmt : Pointer) (index : ℕ) (value : Bytes) (n : ℕ) (s : Native)
      → length value ≡ n + 2 ^ 32
      → n < 2 ^ 31
      → Stmt.bind_text sdk stmt (pos (suc index)) value s
        ≡ Stmt.call sdk stmt (λ h. Call.stmt_bind_text h (c_int (pos (suc index))) value (pos n)) s
  unfolding Stmt.bind_text ◌>>=◌
  bind_text-of_long stmt index value n s long small =
      ap (λ k. Stmt.call sdk stmt (λ h. Call.stmt_bind_text h (c_int (pos (suc index))) value k) s)
        (cut_size value n long small)
