-- ===== src/Adapter/Rows/Closing.antt =====
-- Rows of the adapter that are closed.
use cubesql_go_driver.Prelude.{[], ℕ, some, Option, Bytes, ◌≡◌, arith}
use cubesql_go_driver.Prelude.Action.{ok}
use cubesql_go_driver.Csdk.Types.{Sdk}
use cubesql_go_driver.Adapter.Rows.{Reader, eof, close, next}

module _ (sdk : Sdk) (parse_float : Bytes → Option ℕ) where
  -- After Close, whatever it returned, Next gives `io.EOF` and writes nothing, and a further Close
  -- gives no error; neither of them changes anything.
  pub close-Ended :
      (n : ℕ) (reader : Reader)
      → (next sdk parse_float n (close sdk reader).1
          ≡ (record { written = []; stop = some eof }, (close sdk reader).1))
        × (close sdk (close sdk reader).1 ≡ (ok tt, (close sdk reader).1))
  unfolding next close
  close-Ended n reader = ground arith
