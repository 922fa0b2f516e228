-- ===== src/Access.antt =====
-- internal/http/middleware/authorization.go: which requests pass.
pub mod Defs
pub mod Decision
pub mod AnyOf
pub mod Resolve
mod Tests
