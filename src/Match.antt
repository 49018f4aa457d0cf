-- ===== src/Match.antt =====
-- The match on top of the lobby: server/src/server/Server.cpp and server/include/server/Server.hpp.
pub mod Records
pub mod State
pub mod Play
pub mod Turns
pub mod Phases
pub mod Departures
pub mod Histories
pub mod GameOver
pub mod Delays
pub mod VictoryDelay
pub mod Input
pub mod Choice
pub mod Winner
pub mod Ranking
pub mod Leaderboard
