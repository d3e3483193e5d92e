-- ===== src/Core/Types.antt =====
-- The objects of the package cubesql around one connection.
use cubesql_go_driver.Prelude.{ℕ, ℤ, pos, Bool, false, Option, none, Bytes, List, [], get_or}
use cubesql_go_driver.Csdk.Types.{Ref, Pointer, Native, fresh}
use cubesql_go_driver.Core.Errors.{Sentinel, Error}

-- conn.go
pub record Conn : Type 0 where
  pub native : Ref
  pub tx_active : Bool
  pub children : ℤ

-- stmt.go; `native` is the address of the csdk statement
pub record Stmt : Type 0 where
  pub conn : Ref
  pub native : Pointer
  pub query_text : Bytes
  pub rows : ℤ
  pub registered : Bool

-- rows.go; a ColumnType is a byte
pub record Rows : Type 0 where
  pub native : Pointer
  pub parent_conn : Ref
  pub parent_stmt : Pointer
  pub close_stmt : Bool
  pub columns : List Bytes
  pub types : List ℕ
  pub total : ℤ
  pub current : ℤ
  pub error : Option Error

-- tx.go
pub record Tx : Type 0 where
  pub conn : Ref
  pub done : Bool

-- result.go
pub record Result : Type 0 where
  pub rows_affected : ℤ
  pub rows_error : Option Error
  pub last_insert_id : ℤ
  pub last_error : Option Error

-- When the caller's context is done: never, or after it was checked so many times more, with what
-- its `Err` returns then. So a cancellation may come between any two checks.
pub data Cancel : Type 0 where
  never : Cancel
  after : ℕ → Sentinel → Cancel

-- A `context.Context` argument: nil, `context.Background()`, or the caller's.
pub data Context : Type 0 where
  nil background caller : Context

pub record World : Type 0 where
  pub native : Native
  pub cancel : Cancel
  pub conn : Conn
  pub stmts : List Stmt
  pub rows : List Rows
  pub txs : List Tx

abbrev pub zero_stmt : Stmt
zero_stmt = record {
  conn = Ref.nil;
  native = none;
  query_text = [];
  rows = pos 0;
  registered = false;
}

abbrev pub zero_rows : Rows
zero_rows = record {
  native = none;
  parent_conn = Ref.nil;
  parent_stmt = none;
  close_stmt = false;
  columns = [];
  types = [];
  total = pos 0;
  current = pos 0;
  error = none;
}

abbrev pub zero_tx : Tx
zero_tx = record { conn = Ref.nil; done = false }

-- Before the connection is opened.
abbrev pub start : Cancel → World
start cancel = record {
  native = fresh;
  cancel = cancel;
  conn = record { native = Ref.nil; tx_active = false; children = pos 0 };
  stmts = [];
  rows = [];
  txs = [];
}

abbrev pub stmt_at : World → ℕ → Stmt
stmt_at w i = get_or w.stmts i zero_stmt

abbrev pub rows_at : World → ℕ → Rows
rows_at w i = get_or w.rows i zero_rows

abbrev pub tx_at : World → ℕ → Tx
tx_at w i = get_or w.txs i zero_tx
