-- ===== src/Property/Room.antt =====
-- Rooms: `RoomState` and the methods of `RoomAggregate`.
pub mod Defs
pub mod Rules
