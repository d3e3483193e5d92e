-- ===== src/Adapter/Types.antt =====
-- The objects and errors of the package database/cubesql around one connection.
use cubesql_go_driver.Prelude.{ℕ, Bool, false, Bytes, List, none, get_or}
use cubesql_go_driver.Prelude.Action.{Action}
use cubesql_go_driver.Csdk.Types.{Ref, Pointer}
use cubesql_go_driver.Core.Errors
use cubesql_go_driver.Core.Types.{World}

-- The errors of config.go, which wrap ErrInvalidDSN, by their message.
pub data Reason : Type 0 where
  malformed_url username_required implicit_password host_required invalid_port : Reason
  invalid_host_or_port several_segments unsupported_key duplicate_key invalid_timeout : Reason
  invalid_encryption invalid_options nul_in_database : Reason

-- `core e` is an error of the package cubesql, passed on; `bad_conn` is `driver.ErrBadConn`.
pub data Error : Type 0 where
  core : Errors.Error → Error
  bad_conn read_only_transaction transaction_isolation named_parameters : Error
  conversion_failed unsupported_parameter : Error
  invalid_dsn : Reason → Error

-- tx.go; `native` is the address of the core transaction
pub record Transaction : Type 0 where
  pub connection : Ref
  pub native : Pointer
  pub done : Bool

-- `conn` of conn.go, with the core objects that it stands on and the transactions handed out.
pub record Session : Type 0 where
  pub world : World
  pub native : Ref
  pub database : Bytes
  pub active_tx : Pointer
  pub closed : Bool
  pub broken : Bool
  pub transactions : List Transaction

abbrev pub zero_transaction : Transaction
zero_transaction = record { connection = Ref.nil; native = none; done = false }

abbrev pub transaction_at : Session → ℕ → Transaction
transaction_at s t = get_or s.transactions t zero_transaction

abbrev pub Sql : Type 0 → Type 0
Sql = Action Session Error
