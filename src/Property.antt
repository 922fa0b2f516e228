-- ===== src/Property.antt =====
-- internal/domain/property/aggregate.go and errors.go: the property aggregate and the room aggregate.
pub mod Defs
pub mod Normal
pub mod Update
pub mod Room
pub mod Deletable
mod Tests
