-- ===== src/Wire/Packets.antt =====
-- The packets of server/include/server/Packets.hpp, one record each, with `MakeHeader`,
-- `Serialize` and `Deserialize`.
pub mod Session
pub mod Lobby
pub mod Settings
pub mod Gameplay
pub mod Score
pub mod EntityState
pub mod Snapshot
