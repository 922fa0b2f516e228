-- ===== src/Services.antt =====
-- The application services: internal/application/billing and internal/application/lease.
pub mod Dates
pub mod Payment
pub mod Meter
pub mod Leases
pub mod Transaction
pub mod History
mod Tests
