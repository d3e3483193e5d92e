-- ===== src/Core/Session/Closing.antt =====
-- When a connection closes.
use cubesql_go_driver.Prelude.{ℕ, Bytes, List, Option, ◌≡◌, arith, count}
use cubesql_go_driver.Prelude.Action.{ok, ◌>>=◌}
use cubesql_go_driver.Csdk.Types.{Ref, Sdk}
use cubesql_go_driver.Core.Types.{World, Context, Cancel}
use cubesql_go_driver.Core.Options.{Options}
use cubesql_go_driver.Core.Conn
use cubesql_go_driver.Core.Counts.{Balanced, owned_children, running}
use cubesql_go_driver.Core.Session.{Op, session}
use cubesql_go_driver.Core.Session.Balance.{session-Balanced}

module _ (sdk : Sdk) where
  close_ok :
      (w : World)
      → Balanced w
      → w.conn.native ≡ Ref.self
      → (Conn.close sdk Ref.self w).0 ≡ ok tt
      → (owned_children w ≡ 0) × (count running w.txs ≡ 0)
  unfolding Conn.close ◌>>=◌
  close_ok w b o h = ground arith

module _ (sdk : Sdk) (parse_float : Bytes → Option ℕ) where
  -- After any operations, `Close` of an open connection succeeds only where no statement or cursor
  -- is left that the connection owns, and no transaction runs.
  pub close-Idle :
      (cancel : Cancel) (ctx : Context) (options : Options) (ops : List Op)
      → let w = session sdk parse_float cancel ctx options ops in
        w.conn.native ≡ Ref.self
        → (Conn.close sdk Ref.self w).0 ≡ ok tt
        → (owned_children w ≡ 0) × (count running w.txs ≡ 0)
  close-Idle cancel ctx options ops open_conn closed =
      close_ok sdk _ (session-Balanced sdk parse_float cancel ctx options ops) open_conn closed
