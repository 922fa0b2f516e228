-- ===== src/Tx.antt =====
-- Transactions and events: internal/platform/database/txrunner/runner.go and
-- internal/platform/eventbus/bus.go.
pub mod Bus
pub mod Runner
pub mod Atomic
mod Tests
