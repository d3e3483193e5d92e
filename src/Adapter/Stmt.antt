-- ===== src/Adapter/Stmt.antt =====
-- database/cubesql/stmt.go, and what PrepareContext of database/cubesql/conn.go returns. A statement
-- of the adapter holds the text of its query; every execution goes through the connection.
pub mod Closed
pub mod Arguments
use cubesql_go_driver.Prelude.{
  Bool, true, false, ◌||◌, Option, none, some, Bytes, List, [], ◌∷◌, if◌then◌else◌, ℕ,
}
use cubesql_go_driver.Prelude.Action.{ok, err, pure, ◌>>=◌, ◌>>◌}
use cubesql_go_driver.Csdk.Types.{Ref, is_nil, Sdk}
use cubesql_go_driver.Core.Errors.{Sentinel, plain}
use cubesql_go_driver.Core.Types.{Context, Result, background}
use cubesql_go_driver.Adapter.Types.{core, Sql}
use cubesql_go_driver.Adapter.Values.{NamedValue, Input, Converted}
use cubesql_go_driver.Adapter.Conn.{exec_context, query_context, prepare_context}

pub record Statement : Type 0 where
  pub connection : Ref
  pub query : Bytes
  pub closed : Bool

-- `Close`; a nil statement stays nil.
unfoldable pub close : Option Statement → Option Statement
close none = none
close (some s) = some (record s { connection = Ref.nil; closed = true })

-- `statement.closed || statement.connection == nil`
unfoldable pub is_closed : Statement → Bool
is_closed s = s.closed || is_nil s.connection

-- The arguments of the form without names.
unfoldable pub positional_values : {I : Type 0} → List (Input I) → List (NamedValue I)
positional_values [] = []
positional_values (v ∷ values) = record { name = []; value = v } ∷ positional_values values

module _ (sdk : Sdk) where
  unfoldable pub prepare : Context → Bytes → Sql Statement
  unfolding prepare_context
  prepare ctx query = do
    prepare_context sdk ctx query
    pure (record { connection = Ref.self; query = query; closed = false })

module _ (sdk : Sdk) {I : Type 0} (convert : I → Option Converted) where
  unfoldable pub exec_statement : Context → Statement → List (NamedValue I) → Sql Result
  unfolding is_closed exec_context
  exec_statement ctx s arguments =
      if is_closed s
      then (λ t. (err (core (plain Sentinel.closed)), t))
      else exec_context sdk convert ctx s.query arguments

  unfoldable pub query_statement : Context → Statement → List (NamedValue I) → Sql ℕ
  unfolding is_closed query_context
  query_statement ctx s arguments =
      if is_closed s
      then (λ t. (err (core (plain Sentinel.closed)), t))
      else query_context sdk convert ctx s.query arguments

  -- `Exec` and `Query`
  unfoldable pub exec : Statement → List (Input I) → Sql Result
  unfolding exec_statement positional_values
  exec s arguments = exec_statement background s (positional_values arguments)

  unfoldable pub query : Statement → List (Input I) → Sql ℕ
  unfolding query_statement positional_values
  query s arguments = query_statement background s (positional_values arguments)
