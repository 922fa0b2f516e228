-- ===== src/Journal.antt =====
-- internal/domain/journal/aggregate.go: journal logs.
pub mod Defs
pub mod Normal
mod Tests
