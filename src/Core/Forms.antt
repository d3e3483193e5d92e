-- ===== src/Core/Forms.antt =====
-- The public methods of the package cubesql that call another one: with `context.Background()`, or at
-- one type of argument.
pub mod Conn
pub mod Stmt
pub mod Rows
pub mod Tx
