-- ===== src/Repair.antt =====
-- internal/domain/repair/aggregate.go and errors.go: the repair request aggregate.
pub mod Defs
pub mod Graph
pub mod Normal
mod Tests
