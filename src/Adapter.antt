-- ===== src/Adapter.antt =====
-- The package database/cubesql: the adapter to the standard library's `database/sql`.
pub mod Types
pub mod Values
pub mod Conn
pub mod Tx
pub mod Config
pub mod Driver
pub mod Stmt
pub mod Rows
pub mod Result
