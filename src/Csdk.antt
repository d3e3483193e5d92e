-- ===== src/Csdk.antt =====
-- internal/csdk: the private boundary to the C SDK, one module for each type of csdk.go.
pub mod Types
pub mod Convert
pub mod Conn
pub mod Rows
pub mod Stmt
pub mod Bind
pub mod Session
pub mod Ledger
pub mod Sizes
pub mod Texts
pub mod Handles
