-- ===== src/WorldGen.antt =====
-- World generation: server/include/server/worldgen.
pub mod Rng
