-- ===== src/Client.antt =====
-- ServerConnection of client/network/Network.hpp and Network.cpp.
pub mod Header
pub mod State
pub mod Payloads
pub mod Handlers
pub mod Stream
pub mod Send
pub mod Snapshots
