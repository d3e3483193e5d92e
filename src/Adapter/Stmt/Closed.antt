-- ===== src/Adapter/Stmt/Closed.antt =====
-- A statement of the adapter that is closed.
use cubesql_go_driver.Prelude.{some, Option, ◌≡◌, List, arith}
use cubesql_go_driver.Prelude.Action.{err}
use cubesql_go_driver.Csdk.Types.{Sdk}
use cubesql_go_driver.Core.Errors.{Sentinel, plain}
use cubesql_go_driver.Core.Types.{Context}
use cubesql_go_driver.Adapter.Types.{core, Session}
use cubesql_go_driver.Adapter.Values.{NamedValue, Converted}
use cubesql_go_driver.Adapter.Stmt.{Statement, close, exec_statement, query_statement}

module _ (sdk : Sdk) {I : Type 0} (convert : I → Option Converted) where
  -- A statement that was closed, once or twice, is executed and queried with ErrClosed, whatever the
  -- arguments are, and the connection is left as it was.
  pub close-ErrClosed :
      (ctx : Context) (s t : Statement) (arguments : List (NamedValue I)) (session : Session)
      → close (some s) ≡ some t
      → (exec_statement sdk convert ctx t arguments session
          ≡ (err (core (plain Sentinel.closed)), session))
        × (query_statement sdk convert ctx t arguments session
            ≡ (err (core (plain Sentinel.closed)), session))
        × (close (some t) ≡ some t)
  unfolding close exec_statement query_statement
  close-ErrClosed ctx s t arguments session h = ground arith
