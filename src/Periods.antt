-- ===== src/Periods.antt =====
-- internal/domain/lease/billing.go: the billing periods of a lease and its payment dates.
pub mod Defs
pub mod Clamp
pub mod Window
pub mod Loop
pub mod Coverage
pub mod Anchor
pub mod NextPayment
pub mod Bimonthly
mod Tests
