-- ===== src/Bill.antt =====
-- internal/domain/billing/aggregate.go and errors.go: the bill aggregate.
pub mod Defs
pub mod Lifecycle
mod Tests
