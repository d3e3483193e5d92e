-- ===== src/Core.antt =====
-- The package cubesql: the public core API over internal/csdk, one module for each of its files.
pub mod Errors
pub mod Types
pub mod Act
pub mod Options
pub mod Bind
pub mod Conn
pub mod Stmt
pub mod Rows
pub mod Query
pub mod Tx
pub mod Decimal
pub mod Scan
pub mod Frame
pub mod Draft
pub mod Counts
pub mod Session
pub mod Carried
pub mod Forms
