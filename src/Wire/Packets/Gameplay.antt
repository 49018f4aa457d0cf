-- ===== src/Wire/Packets/Gameplay.antt =====
-- PlayerInputPacket and PlayerStatsPacket. The inputs are the bitmask of InputFlags.
use r_type_j_a_m_e_s.Base.{ℕ, ◌<◌, refl, List}
use r_type_j_a_m_e_s.Wire.Endian.{Endian}
use r_type_j_a_m_e_s.Wire.Buffer.{
  Writer, Reader, ◌⨾◌, ◌>>=◌, pure, write_uint8, write_uint32, read_uint8, read_uint32,
  CommonHeader, header_of, write_header,
}
use r_type_j_a_m_e_s.Wire.Codec.{
  Codec, Codec-uint8, Codec-uint32, Codec-size, Codec-then, Codec-last,
}
use r_type_j_a_m_e_s.Wire.Fields.{PacketType, code, IsArray, write_array, read_array, Codec-array}

-- struct PlayerInputPacket.
pub record PlayerInputPacket : Type 0 where
  pub inputs : ℕ
  pub reserved : List ℕ

unfoldable pub make_header_player_input : ℕ → CommonHeader
make_header_player_input tick_id = header_of (code PacketType.player_input) 4 tick_id 0 1

unfoldable pub write_player_input : Endian → PlayerInputPacket → Writer
write_player_input e p = write_uint8 p.inputs ⨾ write_array p.reserved

unfoldable pub serialize_player_input : Endian → PlayerInputPacket → ℕ → Writer
serialize_player_input e p tick_id =
    write_header e (make_header_player_input tick_id) ⨾ write_player_input e p

unfoldable pub deserialize_player_input : Endian → Reader PlayerInputPacket
deserialize_player_input d = do
  inputs' ← read_uint8
  reserved' ← read_array 3
  pure (record { inputs = inputs'; reserved = reserved' })

pub record IsPlayerInput (p : PlayerInputPacket) : Type 0 where
  pub inputs : p.inputs < 256
  pub reserved : IsArray 3 p.reserved

-- The payload is 4 bytes long and is read back as it was.
pub Codec-player_input :
    (e d : Endian) (p : PlayerInputPacket)
    → IsPlayerInput p
    → Codec 4 (write_player_input e p) (deserialize_player_input d) p
unfolding write_player_input deserialize_player_input
Codec-player_input e d p v = Codec-size refl (
    Codec-then _ (Codec-uint8 p.inputs v.inputs)
      (Codec-last _ (Codec-array 3 p.reserved v.reserved) refl))

-- struct PlayerStatsPacket.
pub record PlayerStatsPacket : Type 0 where
  pub player_id : ℕ
  pub lives : ℕ
  pub reserved : List ℕ
  pub score : ℕ

unfoldable pub make_header_player_stats : ℕ → CommonHeader
make_header_player_stats tick_id = header_of (code PacketType.player_stats) 8 tick_id 0 1

unfoldable pub write_player_stats : Endian → PlayerStatsPacket → Writer
write_player_stats e p =
    write_uint8 p.player_id ⨾ write_uint8 p.lives ⨾ write_array p.reserved ⨾ write_uint32 e p.score

unfoldable pub serialize_player_stats : Endian → PlayerStatsPacket → ℕ → Writer
serialize_player_stats e p tick_id =
    write_header e (make_header_player_stats tick_id) ⨾ write_player_stats e p

unfoldable pub deserialize_player_stats : Endian → Reader PlayerStatsPacket
deserialize_player_stats d = do
  player_id' ← read_uint8
  lives' ← read_uint8
  reserved' ← read_array 2
  score' ← read_uint32 d
  pure (record { player_id = player_id'; lives = lives'; reserved = reserved'; score = score' })

pub record IsPlayerStats (p : PlayerStatsPacket) : Type 0 where
  pub player_id : p.player_id < 256
  pub lives : p.lives < 256
  pub reserved : IsArray 2 p.reserved
  pub score : p.score < 4294967296

-- The payload is 8 bytes long and is read back as it was.
pub Codec-player_stats :
    (e d : Endian) (p : PlayerStatsPacket)
    → IsPlayerStats p
    → Codec 8 (write_player_stats e p) (deserialize_player_stats d) p
unfolding write_player_stats deserialize_player_stats
Codec-player_stats e d p v = Codec-size refl (
    Codec-then _ (Codec-uint8 p.player_id v.player_id) (
      Codec-then _ (Codec-uint8 p.lives v.lives) (
        Codec-then _ (Codec-array 2 p.reserved v.reserved)
          (Codec-last _ (Codec-uint32 e d p.score v.score) refl))))
