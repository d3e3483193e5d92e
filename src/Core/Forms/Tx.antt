-- ===== src/Core/Forms/Tx.antt =====
-- The forms of the methods of `Tx`.
use cubesql_go_driver.Prelude.{ℕ, true, false, Bytes, List}
use cubesql_go_driver.Csdk.Types.{Pointer, Sdk}
use cubesql_go_driver.Core.Types.{Context, Result, background}
use cubesql_go_driver.Core.Act.{Act}
use cubesql_go_driver.Core.Bind.{Any}
use cubesql_go_driver.Core.Tx

module _ (sdk : Sdk) where
  abbrev pub exec : Pointer → Bytes → List Any → Act Result
  exec tx query args = Tx.tx_exec_context sdk background tx query args

  abbrev pub query : Pointer → Bytes → List Any → Act ℕ
  query tx sql args = Tx.tx_query_context sdk background tx sql args

  abbrev pub prepare : Pointer → Bytes → Act ℕ
  prepare tx query = Tx.tx_prepare_context sdk background tx query

  abbrev pub commit_context : Context → Pointer → Act (Unit {0})
  commit_context ctx tx = Tx.finish sdk ctx tx true

  abbrev pub commit : Pointer → Act (Unit {0})
  commit tx = commit_context background tx

  abbrev pub rollback_context : Context → Pointer → Act (Unit {0})
  rollback_context ctx tx = Tx.finish sdk ctx tx false

  abbrev pub rollback : Pointer → Act (Unit {0})
  rollback tx = rollback_context background tx
