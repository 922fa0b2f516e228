-- ===== src/Tenant.antt =====
-- internal/domain/tenant/aggregate.go: tenants.
pub mod Defs
pub mod Normal
pub mod Update
mod Tests
