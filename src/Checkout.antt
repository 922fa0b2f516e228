-- ===== src/Checkout.antt =====
-- internal/application/lease/checkout_settlement.go: the calculation of a checkout settlement.
pub mod Defs
pub mod Unblocked
pub mod Totals
mod Tests
