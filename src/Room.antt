-- ===== src/Room.antt =====
-- server/src/room: the rooms and the registry that holds them.
pub mod Registry
