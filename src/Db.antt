-- ===== src/Db.antt =====
-- The database: the rows of its tables, the statements of internal/platform/database, and the scripts
-- that run in a transaction.
pub mod Table
pub mod Rows
pub mod Script
pub mod Steps
pub mod Roles
pub mod Bills
pub mod Leases
pub mod Forced
