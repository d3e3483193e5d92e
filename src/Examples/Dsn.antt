-- ===== src/Examples/Dsn.antt =====
-- The configuration and the connector of the adapter at concrete inputs.
use cubesql_go_driver.Prelude.{
  ℤ, pos, Bool, true, false, Bytes, ascii, Option, none, some, ◌≡◌, refl, arith,
}
use cubesql_go_driver.Prelude.Action.{ok, err, on_error, ◌>>=◌}
use cubesql_go_driver.Prelude.Ends.{Ends}
use cubesql_go_driver.Core.Types.{World, caller, never, after, start}
use cubesql_go_driver.Core.Errors.{Sentinel, plain}
use cubesql_go_driver.Csdk
use cubesql_go_driver.Core.Conn
use cubesql_go_driver.Core.Act.{context_error, publicly}
use cubesql_go_driver.Core.Options.{native}
use cubesql_go_driver.Adapter.Types.{core}
use cubesql_go_driver.Adapter.Config.{Config, Url, validate_config, parse_dsn}
use cubesql_go_driver.Adapter.Config.Accepted.{Acceptable, parse_dsn-Acceptable}
use cubesql_go_driver.Adapter.Config.Roundtrip.{url_of, parse_dsn-url_of}
use cubesql_go_driver.Adapter.Driver.{Connector, connect}
use cubesql_go_driver.Adapter.Driver.Opened.{IsClosed}
use cubesql_go_driver.Adapter.Driver.Selecting.{just_selected}
use cubesql_go_driver.Adapter.Driver.Opening.{IsConnected, connect-Ends}
use cubesql_go_driver.Examples.{accepting, options}

abbrev config : Config
config = record { options = options; database = ascii "shop" }

abbrev duration : Bytes
duration = ascii "1.5s"

abbrev dsn : Bytes
dsn = ascii "cubesql://me:x@db:4430/shop?timeout=1.5s&encryption=clear"

-- The parsers of the standard library, at this input.
abbrev url_parse : Bytes → Option Url
url_parse text = some (url_of config duration)

abbrev parse_duration : Bytes → Option ℤ
parse_duration text = some (pos 1500000000)

abbrev is_ip : Bytes → Bool
is_ip host = false

config_valid : validate_config config ≡ none
unfolding validate_config
config_valid = refl

parse_dsn-url_of_example : parse_dsn is_ip parse_duration url_parse dsn ≡ ok config
parse_dsn-url_of_example =
    parse_dsn-url_of is_ip parse_duration url_parse config duration dsn refl config_valid refl
      (omega arith, omega arith) refl refl refl

dsn_read : parse_dsn is_ip parse_duration url_parse dsn ≡ ok config
dsn_read =
    parse_dsn-url_of is_ip parse_duration url_parse config duration dsn refl config_valid refl
      (omega arith, omega arith) refl refl refl

parse_dsn-Acceptable_example : Acceptable config
parse_dsn-Acceptable_example =
    parse_dsn-Acceptable is_ip parse_duration url_parse dsn config dsn_read

abbrev unopened : World
unopened = start never

abbrev connector : Connector
connector = record { config = config }

-- The server accepts the database.
shop_selected :
    just_selected
      (ascii "shop")
      (connect accepting (some connector) caller unopened).1.native.conn.ptr
      (connect accepting (some connector) caller unopened).1.native.history
    ≡ true
unfolding connect just_selected ◌>>=◌ Conn.open_context Conn.set_database_context context_error
    publicly Csdk.Conn.open_conn Csdk.Conn.set_database native on_error
shop_selected = refl

-- The caller gives up while the database is selected.
given_up :
    (connect accepting (some connector) caller (start (after 1 Sentinel.canceled))).0
    ≡ err (core (plain Sentinel.canceled))
unfolding connect ◌>>=◌ Conn.open_context Conn.set_database_context context_error publicly
    Csdk.Conn.open_conn Csdk.Conn.close native Conn.close on_error
given_up = refl

connect-Ends_example :
    Ends
      (IsConnected (ascii "shop"))
      IsClosed
      (connect accepting (some connector) caller unopened).0
      (connect accepting (some connector) caller unopened).1
connect-Ends_example = connect-Ends accepting connector caller unopened refl
