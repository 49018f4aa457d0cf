-- ===== src/Lobby.antt =====
-- The server's lobby: connections, players and the packets that start a game.
pub mod Connections
pub mod Handler
pub mod Sender
