-- ===== src/Core/Forms/Conn.antt =====
-- The forms of the methods of `Conn`.
use cubesql_go_driver.Prelude.{ℕ, true, false, Bytes, List}
use cubesql_go_driver.Csdk.Types.{Ref, Sdk}
use cubesql_go_driver.Core.Types.{Context, Result, background}
use cubesql_go_driver.Core.Act.{Act}
use cubesql_go_driver.Core.Bind.{Any}
use cubesql_go_driver.Core.Options.{Options}
use cubesql_go_driver.Core.Conn
use cubesql_go_driver.Core.Query
use cubesql_go_driver.Core.Tx

module _ (sdk : Sdk) where
  abbrev pub open_conn : Options → Act Ref
  open_conn options = Conn.open_context sdk background options

  abbrev pub ping : Ref → Act (Unit {0})
  ping conn = Conn.ping_context sdk background conn

  abbrev pub set_database : Ref → Bytes → Act (Unit {0})
  set_database conn name = Conn.set_database_context sdk background conn name

  abbrev pub exec : Ref → Bytes → List Any → Act Result
  exec conn query args = Conn.exec_context sdk background conn query args

  abbrev pub query : Ref → Bytes → List Any → Act ℕ
  query conn sql args = Query.query_context sdk background conn sql args

  abbrev pub prepare : Ref → Bytes → Act ℕ
  prepare conn query = Conn.prepare_context sdk background conn query

  abbrev pub result_for : Act Result
  result_for = Conn.result_for_context sdk background

  abbrev pub begin : Ref → Act ℕ
  begin conn = Tx.begin_context sdk background conn

  abbrev pub commit_context : Context → Ref → Act (Unit {0})
  commit_context ctx conn = Tx.finish_implicit sdk ctx conn true

  abbrev pub commit : Ref → Act (Unit {0})
  commit conn = commit_context background conn

  abbrev pub rollback_context : Context → Ref → Act (Unit {0})
  rollback_context ctx conn = Tx.finish_implicit sdk ctx conn false

  abbrev pub rollback : Ref → Act (Unit {0})
  rollback conn = rollback_context background conn
