-- ===== src/Adapter/Driver.antt =====
-- database/cubesql/driver.go. A `Connector` is not nil, or it is the nil one; `sql.Register` and
-- `sql.OpenDB` are calls of the standard library.
pub mod Opened
pub mod Selecting
pub mod Opening
use cubesql_go_driver.Prelude.{
  ℕ, ℤ, Bool, false, List, [], Option, none, some, Bytes, is_empty, if◌then◌else◌,
}
use cubesql_go_driver.Prelude.Action.{Action, Outcome, ok, err, pure, lift, on_error, ◌>>=◌, ◌>>◌}
use cubesql_go_driver.Csdk.Types.{Ref, Sdk}
use cubesql_go_driver.Core.Errors
use cubesql_go_driver.Core.Errors.{Sentinel, plain}
use cubesql_go_driver.Core.Types.{World, Context, background}
use cubesql_go_driver.Core.Act.{Act}
use cubesql_go_driver.Core.Conn
use cubesql_go_driver.Adapter.Types.{Error, Reason, core, invalid_dsn, Session}
use cubesql_go_driver.Adapter.Config.{Config, Url, parse_dsn, validate_config}

pub record Connector : Type 0 where
  pub config : Config

-- `&conn{native: native, database: …}`
abbrev pub new_session : Ref → Bytes → World → Session
new_session native database w = record {
  world = w;
  native = native;
  database = database;
  active_tx = none;
  closed = false;
  broken = false;
  transactions = [];
}

unfoldable pub new_connector : Config → Outcome Error Connector
unfolding validate_config
new_connector config = elim (validate_config config) [
  | none ↦ ok (record { config = config })
  | some reason ↦ err (invalid_dsn reason)
]

-- A call of the core package, whose error is passed on as it is.
abbrev pub passed_on : {A : Type 0} → Outcome Errors.Error A → Outcome Error A
passed_on (ok a) = ok a
passed_on (err e) = err (core e)

unfoldable pub passing : {A : Type 0} → Act A → Action World Error A
passing m w = let (r, v) = m w in (passed_on r, v)

module _ (sdk : Sdk) where
  -- The database of the configuration is selected; the connection is closed if that fails.
  unfoldable pub select_database : Context → Ref → Bytes → Act (Unit {0})
  select_database ctx native database =
      if is_empty database
      then pure tt
      else on_error (Conn.set_database_context sdk ctx native database) (Conn.close sdk native)

  unfoldable pub connect : Option Connector → Context → Action World Error Session
  unfolding passing select_database
  connect none ctx w = (err (core (plain Sentinel.invalid_argument)), w)
  connect (some connector) ctx w =
      (do
        native ← passing (Conn.open_context sdk ctx connector.config.options)
        passing (select_database ctx native connector.config.database)
        (λ w. (ok (new_session native connector.config.database w), w)))
        w

module _ (is_ip : Bytes → Bool) (parse_duration : Bytes → Option ℤ)
    (url_parse : Bytes → Option Url) where
  abbrev checked_dsn : Outcome Reason Config → Outcome Error Connector
  checked_dsn (ok config) = new_connector config
  checked_dsn (err reason) = err (invalid_dsn reason)

  unfoldable pub open_connector : Bytes → Outcome Error Connector
  unfolding parse_dsn new_connector
  open_connector name = checked_dsn (parse_dsn is_ip parse_duration url_parse name)

  -- `Driver.Open`
  unfoldable pub open_name : Sdk → Bytes → Action World Error Session
  unfolding open_connector connect
  open_name sdk name = do
    connector ← lift (open_connector name)
    connect sdk (some connector) background
