-- ===== src/Csdk/Texts.antt =====
-- What internal/csdk does to SQL texts that hold a NUL byte.
use cubesql_go_driver.Prelude.{ℕ, Bytes, c_string, [], ◌∷◌, ◌++◌, ◌≡◌, refl, ap, arith}
use cubesql_go_driver.Prelude.Action.{◌>>=◌}
use cubesql_go_driver.Csdk.Types.{Ref, Sdk, Native, Call}
use cubesql_go_driver.Csdk.Conn
use cubesql_go_driver.Csdk.Conn.{connected, new_rows, native_error}

c_string-at_nul : (s t : Bytes) → c_string (s ++ 0 ∷ t) ≡ c_string s
c_string-at_nul [] t = refl
c_string-at_nul (b ∷ s) t = ground (arith, c_string-at_nul s t)

module _ (sdk : Sdk) where
  -- An SQL text is executed only up to a NUL byte in it, and what follows is dropped without an
  -- error: with and without it, `Exec` makes the same calls and returns the same.
  pub exec-at_nul :
      (conn : Ref) (b : ℕ) (text dropped : Bytes) (s : Native)
      → Conn.exec sdk conn ((b ∷ text) ++ 0 ∷ dropped) s ≡ Conn.exec sdk conn (b ∷ text) s
  unfolding Conn.exec ◌>>=◌
  exec-at_nul conn b text dropped s =
      ap (λ sql. Conn.call sdk conn (λ h. Call.conn_execute h sql) s)
        (c_string-at_nul (b ∷ text) dropped)
