-- ===== src/Core/Session.antt =====
-- The public methods of the package cubesql as one type of operations, and any sequence of them on
-- one connection. The forms without a context are those with `background`.
pub mod Preflight
pub mod Balance
pub mod Closing
use cubesql_go_driver.Prelude.{ℕ, ℤ, Bool, false, Bytes, List, [], ◌∷◌, Option, none, some}
use cubesql_go_driver.Csdk.Types.{Ref, Pointer, Sdk}
use cubesql_go_driver.Core.Types.{World, Context, Cancel, start}
use cubesql_go_driver.Core.Options.{Options}
use cubesql_go_driver.Core.Bind.{Any}
use cubesql_go_driver.Core.Conn
use cubesql_go_driver.Core.Stmt
use cubesql_go_driver.Core.Rows
use cubesql_go_driver.Core.Query
use cubesql_go_driver.Core.Tx
use cubesql_go_driver.Core.Scan
use cubesql_go_driver.Core.Scan.{Destination}

pub data Op : Type 0 where
  conn_close affected_rows last_insert_id changes : Ref → Op
  ping begin : Context → Ref → Op
  set_database prepare : Context → Ref → Bytes → Op
  exec query : Context → Ref → Bytes → List Any → Op
  finish_implicit : Context → Ref → (commit : Bool) → Op
  stmt_close : Pointer → Op
  stmt_bind : Pointer → ℤ → Any → Op
  stmt_exec stmt_query stmt_reset : Context → Pointer → Op
  rows_close : Pointer → Op
  rows_next : Context → Pointer → Op
  rows_seek rows_value : Context → Pointer → ℤ → Op
  rows_scan : Context → Pointer → List Destination → Op
  tx_finish : Context → Pointer → (commit : Bool) → Op
  tx_prepare : Context → Pointer → Bytes → Op
  tx_exec tx_query : Context → Pointer → Bytes → List Any → Op

-- The context that an operation is given.
abbrev pub context_of : Op → Option Context
context_of (conn_close c) = none
context_of (affected_rows c) = none
context_of (last_insert_id c) = none
context_of (changes c) = none
context_of (ping ctx c) = some ctx
context_of (begin ctx c) = some ctx
context_of (set_database ctx c name) = some ctx
context_of (prepare ctx c sql) = some ctx
context_of (exec ctx c sql args) = some ctx
context_of (query ctx c sql args) = some ctx
context_of (finish_implicit ctx c commit) = some ctx
context_of (stmt_close p) = none
context_of (stmt_bind p i v) = none
context_of (stmt_exec ctx p) = some ctx
context_of (stmt_query ctx p) = some ctx
context_of (stmt_reset ctx p) = some ctx
context_of (rows_close p) = none
context_of (rows_next ctx p) = some ctx
context_of (rows_seek ctx p row) = some ctx
context_of (rows_value ctx p column) = some ctx
context_of (rows_scan ctx p ds) = some ctx
context_of (tx_finish ctx p commit) = some ctx
context_of (tx_prepare ctx p sql) = some ctx
context_of (tx_exec ctx p sql args) = some ctx
context_of (tx_query ctx p sql args) = some ctx

module _ (sdk : Sdk) (parse_float : Bytes → Option ℕ) where
  -- The objects after an operation, whatever it returned.
  unfoldable pub perform : Op → World → World
  perform (conn_close c) w = (Conn.close sdk c w).1
  perform (affected_rows c) w = (Conn.affected_rows sdk c w).1
  perform (last_insert_id c) w = (Conn.last_insert_id sdk c w).1
  perform (changes c) w = (Conn.changes sdk c w).1
  perform (ping ctx c) w = (Conn.ping_context sdk ctx c w).1
  perform (begin ctx c) w = (Tx.begin_context sdk ctx c w).1
  perform (set_database ctx c name) w = (Conn.set_database_context sdk ctx c name w).1
  perform (prepare ctx c sql) w = (Conn.prepare_context sdk ctx c sql w).1
  perform (exec ctx c sql args) w = (Conn.exec_context sdk ctx c sql args w).1
  perform (query ctx c sql args) w = (Query.query_context sdk ctx c sql args w).1
  perform (finish_implicit ctx c commit) w = (Tx.finish_implicit sdk ctx c commit w).1
  perform (stmt_close p) w = (Stmt.close sdk p w).1
  perform (stmt_bind p i v) w = (Stmt.bind sdk p i v w).1
  perform (stmt_exec ctx p) w = (Stmt.exec_context sdk ctx p w).1
  perform (stmt_query ctx p) w = (Query.stmt_query sdk ctx p false w).1
  perform (stmt_reset ctx p) w = (Stmt.reset_context sdk ctx p w).1
  perform (rows_close p) w = (Rows.close sdk p w).1
  perform (rows_next ctx p) w = (Rows.next_context sdk ctx p w).1
  perform (rows_seek ctx p row) w = (Rows.seek_context sdk ctx p row w).1
  perform (rows_value ctx p column) w = (Scan.value_context sdk ctx p column w).1
  perform (rows_scan ctx p ds) w = (Scan.scan_context sdk parse_float ctx p ds w).1
  perform (tx_finish ctx p commit) w = (Tx.finish sdk ctx p commit w).1
  perform (tx_prepare ctx p sql) w = (Tx.tx_prepare_context sdk ctx p sql w).1
  perform (tx_exec ctx p sql args) w = (Tx.tx_exec_context sdk ctx p sql args w).1
  perform (tx_query ctx p sql args) w = (Tx.tx_query_context sdk ctx p sql args w).1

  unfoldable pub run : List Op → World → World
  run [] w = w
  run (op ∷ ops) w = run ops (perform op w)

  -- A connection is opened, and used.
  unfoldable pub session : Cancel → Context → Options → List Op → World
  unfolding run
  session cancel ctx options ops = run ops (Conn.open_context sdk ctx options (start cancel)).1
