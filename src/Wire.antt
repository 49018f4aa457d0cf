-- ===== src/Wire.antt =====
-- The binary protocol: server/include/server/PacketBuffer.hpp, PacketTypes.hpp, Packets.hpp and
-- PacketFactory.hpp.
pub mod Endian
pub mod Buffer
pub mod Codec
pub mod Written
pub mod Fields
pub mod Packets
pub mod Factory
pub mod Consume
pub mod Names
