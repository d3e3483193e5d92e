-- ===== src/Examples/Handles.antt =====
-- The safety of the native handles at concrete sessions.
use cubesql_go_driver.Csdk.Session
use cubesql_go_driver.Csdk.Handles.{Kind, Safe}
use cubesql_go_driver.Csdk.Handles.Sessions.{session-Safe}
use cubesql_go_driver.Csdk.Ledger.{Ledger}
use cubesql_go_driver.Core.Errors.{Sentinel}
use cubesql_go_driver.Core.Types.{background, after}
use cubesql_go_driver.Core.Carried.Sessions.{session-Ledger-native, session-Safe-native}
use cubesql_go_driver.Examples.{
  accepting, no_floats, options, native_options, methods, operations, used,
}

session-Safe_example : Safe Kind.stmt 1 (Session.session accepting native_options methods)
session-Safe_example = session-Safe Kind.stmt 1 accepting native_options methods

session-Safe-native_example : Safe Kind.cursor 2 used.native
session-Safe-native_example =
    session-Safe-native accepting no_floats Kind.cursor 2 (after 3 Sentinel.canceled) background
      options operations

session-Ledger-native_example : Ledger used.native
session-Ledger-native_example =
    session-Ledger-native accepting no_floats (after 3 Sentinel.canceled) background options
      operations
