-- ===== src/Core/Forms/Stmt.antt =====
-- The forms of the methods of `Stmt`.
use cubesql_go_driver.Prelude.{ℕ, ℤ, false, Bytes}
use cubesql_go_driver.Csdk.Types.{Pointer, Sdk}
use cubesql_go_driver.Core.Types.{Context, Result, background}
use cubesql_go_driver.Core.Act.{Act}
use cubesql_go_driver.Core.Bind.{Any}
use cubesql_go_driver.Core.Stmt
use cubesql_go_driver.Core.Query

module _ (sdk : Sdk) where
  abbrev pub bind_int64 : Pointer → (index value : ℤ) → Act (Unit {0})
  bind_int64 stmt index value = Stmt.bind sdk stmt index (Any.int64 value)

  abbrev pub bind_float64 : Pointer → (index : ℤ) → (bits : ℕ) → Act (Unit {0})
  bind_float64 stmt index bits = Stmt.bind sdk stmt index (Any.float64 bits)

  abbrev pub bind_text : Pointer → (index : ℤ) → Bytes → Act (Unit {0})
  bind_text stmt index value = Stmt.bind sdk stmt index (Any.string value)

  abbrev pub bind_blob : Pointer → (index : ℤ) → Bytes → Act (Unit {0})
  bind_blob stmt index value = Stmt.bind sdk stmt index (Any.bytes value)

  abbrev pub bind_null : Pointer → (index : ℤ) → Act (Unit {0})
  bind_null stmt index = Stmt.bind sdk stmt index Any.nil

  abbrev pub bind_zero_blob : Pointer → (index size : ℤ) → Act (Unit {0})
  bind_zero_blob stmt index size = Stmt.bind sdk stmt index (Any.zero_blob size)

  abbrev pub exec : Pointer → Act Result
  exec stmt = Stmt.exec_context sdk background stmt

  abbrev pub query_context : Context → Pointer → Act ℕ
  query_context ctx stmt = Query.stmt_query sdk ctx stmt false

  abbrev pub query : Pointer → Act ℕ
  query stmt = query_context background stmt

  abbrev pub reset : Pointer → Act (Unit {0})
  reset stmt = Stmt.reset_context sdk background stmt
