-- ===== src/Lease.antt =====
-- internal/domain/lease/aggregate.go and errors.go: the lease aggregate.
pub mod Defs
pub mod Normal
pub mod Deposit
pub mod Commands
pub mod Closed
mod Tests
