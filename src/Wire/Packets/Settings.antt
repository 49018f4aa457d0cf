-- ===== src/Wire/Packets/Settings.antt =====
-- SetGameSpeedPacket, SetDifficultyPacket and SetKillableProjectilesPacket. The speed is the bit
-- pattern of a float.
use r_type_j_a_m_e_s.Base.{ℕ, ◌<◌, refl}
use r_type_j_a_m_e_s.Wire.Endian.{Endian}
use r_type_j_a_m_e_s.Wire.Buffer.{
  Writer, Reader, ◌⨾◌, ◌>>=◌, pure, write_uint8, write_float, read_uint8, read_float, CommonHeader,
  tcp_header, write_header,
}
use r_type_j_a_m_e_s.Wire.Codec.{Codec, Codec-uint8, Codec-float, Codec-size, Codec-last}
use r_type_j_a_m_e_s.Wire.Fields.{PacketType, code}

-- struct SetGameSpeedPacket.
pub record SetGameSpeedPacket : Type 0 where
  pub speed : ℕ

unfoldable pub make_header_set_game_speed : CommonHeader
make_header_set_game_speed = tcp_header (code PacketType.set_game_speed) 4

unfoldable pub write_set_game_speed : Endian → SetGameSpeedPacket → Writer
write_set_game_speed e p = write_float e p.speed

unfoldable pub serialize_set_game_speed : Endian → SetGameSpeedPacket → Writer
serialize_set_game_speed e p = write_header e make_header_set_game_speed ⨾ write_set_game_speed e p

unfoldable pub deserialize_set_game_speed : Endian → Reader SetGameSpeedPacket
deserialize_set_game_speed d = do speed' ← read_float d; pure (record { speed = speed' })

pub record IsSetGameSpeed (p : SetGameSpeedPacket) : Type 0 where
  pub speed : p.speed < 4294967296

-- The payload is 4 bytes long and is read back as it was.
pub Codec-set_game_speed :
    (e d : Endian) (p : SetGameSpeedPacket)
    → IsSetGameSpeed p
    → Codec 4 (write_set_game_speed e p) (deserialize_set_game_speed d) p
unfolding write_set_game_speed deserialize_set_game_speed
Codec-set_game_speed e d p v = Codec-size refl (Codec-last _ (Codec-float e d p.speed v.speed) refl)

-- struct SetDifficultyPacket.
pub record SetDifficultyPacket : Type 0 where
  pub difficulty : ℕ

unfoldable pub make_header_set_difficulty : CommonHeader
make_header_set_difficulty = tcp_header (code PacketType.set_difficulty) 1

unfoldable pub write_set_difficulty : Endian → SetDifficultyPacket → Writer
write_set_difficulty e p = write_uint8 p.difficulty

unfoldable pub serialize_set_difficulty : Endian → SetDifficultyPacket → Writer
serialize_set_difficulty e p = write_header e make_header_set_difficulty ⨾ write_set_difficulty e p

unfoldable pub deserialize_set_difficulty : Endian → Reader SetDifficultyPacket
deserialize_set_difficulty d = do
  difficulty' ← read_uint8
  pure (record { difficulty = difficulty' })

pub record IsSetDifficulty (p : SetDifficultyPacket) : Type 0 where
  pub difficulty : p.difficulty < 256

-- The payload is 1 bytes long and is read back as it was.
pub Codec-set_difficulty :
    (e d : Endian) (p : SetDifficultyPacket)
    → IsSetDifficulty p
    → Codec 1 (write_set_difficulty e p) (deserialize_set_difficulty d) p
unfolding write_set_difficulty deserialize_set_difficulty
Codec-set_difficulty e d p v =
    Codec-size refl (Codec-last _ (Codec-uint8 p.difficulty v.difficulty) refl)

-- struct SetKillableProjectilesPacket.
pub record SetKillableProjectilesPacket : Type 0 where
  pub enabled : ℕ

unfoldable pub make_header_set_killable_projectiles : CommonHeader
make_header_set_killable_projectiles = tcp_header (code PacketType.set_killable_projectiles) 1

unfoldable pub write_set_killable_projectiles : Endian → SetKillableProjectilesPacket → Writer
write_set_killable_projectiles e p = write_uint8 p.enabled

unfoldable pub serialize_set_killable_projectiles : Endian → SetKillableProjectilesPacket → Writer
serialize_set_killable_projectiles e p =
    write_header e make_header_set_killable_projectiles ⨾ write_set_killable_projectiles e p

unfoldable pub deserialize_set_killable_projectiles : Endian → Reader SetKillableProjectilesPacket
deserialize_set_killable_projectiles d = do
  enabled' ← read_uint8
  pure (record { enabled = enabled' })

pub record IsSetKillableProjectiles (p : SetKillableProjectilesPacket) : Type 0 where
  pub enabled : p.enabled < 256

-- The payload is 1 bytes long and is read back as it was.
pub Codec-set_killable_projectiles :
    (e d : Endian) (p : SetKillableProjectilesPacket)
    → IsSetKillableProjectiles p
    → Codec 1 (write_set_killable_projectiles e p) (deserialize_set_killable_projectiles d) p
unfolding write_set_killable_projectiles deserialize_set_killable_projectiles
Codec-set_killable_projectiles e d p v =
    Codec-size refl (Codec-last _ (Codec-uint8 p.enabled v.enabled) refl)
