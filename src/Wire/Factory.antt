-- ===== src/Wire/Factory.antt =====
-- server/include/server/PacketFactory.hpp: the variant of packets, DeserializePacket and
-- SerializePacket.
pub mod Frame
pub mod RoundTrip
pub mod Accepts
pub mod Sizes
use r_type_j_a_m_e_s.Base.{
  ℕ, ◌≡◌, refl, Option, none, some, List, [], length, ltb, ◌==◌, if◌then◌else◌,
}
use r_type_j_a_m_e_s.Wire.Endian.{Endian}
use r_type_j_a_m_e_s.Wire.Buffer.{
  PacketBuffer, Writer, Reader, ◌>>=◌, pure, skip, of_data, remaining, CommonHeader, default_header,
  read_header,
}
use r_type_j_a_m_e_s.Wire.Fields.{PacketType, code}
use r_type_j_a_m_e_s.Wire.Packets.Session.{
  ConnectReqPacket, ConnectAckPacket, DisconnectReqPacket, NotifyDisconnectPacket, GameStartPacket,
  serialize_connect_req, serialize_connect_ack, serialize_disconnect_req,
  serialize_notify_disconnect, serialize_game_start, deserialize_connect_req,
  deserialize_connect_ack, deserialize_disconnect_req, deserialize_notify_disconnect,
  deserialize_game_start,
}
use r_type_j_a_m_e_s.Wire.Packets.Lobby.{
  ReadyStatusPacket, serialize_ready_status, deserialize_ready_status,
}
use r_type_j_a_m_e_s.Wire.Packets.Settings.{
  SetGameSpeedPacket, SetDifficultyPacket, SetKillableProjectilesPacket, deserialize_set_game_speed,
  deserialize_set_difficulty, deserialize_set_killable_projectiles,
}
use r_type_j_a_m_e_s.Wire.Packets.Gameplay.{
  PlayerInputPacket, PlayerStatsPacket, serialize_player_input, serialize_player_stats,
  deserialize_player_input, deserialize_player_stats,
}
use r_type_j_a_m_e_s.Wire.Packets.Score.{GameEndPacket, serialize_game_end, deserialize_game_end}
use r_type_j_a_m_e_s.Wire.Packets.EntityState.{EntityState, player_kind}
use r_type_j_a_m_e_s.Wire.Packets.Snapshot.{
  WorldSnapshotPacket, serialize_world_snapshot, deserialize_world_snapshot,
}

-- using PacketVariant = std::variant<…>.
pub data PacketVariant : Type 0 where
  connect_req : ConnectReqPacket → PacketVariant
  connect_ack : ConnectAckPacket → PacketVariant
  disconnect_req : DisconnectReqPacket → PacketVariant
  notify_disconnect : NotifyDisconnectPacket → PacketVariant
  game_start : GameStartPacket → PacketVariant
  game_end : GameEndPacket → PacketVariant
  ready_status : ReadyStatusPacket → PacketVariant
  set_game_speed : SetGameSpeedPacket → PacketVariant
  set_difficulty : SetDifficultyPacket → PacketVariant
  set_killable_projectiles : SetKillableProjectilesPacket → PacketVariant
  player_input : PlayerInputPacket → PacketVariant
  world_snapshot : WorldSnapshotPacket → PacketVariant
  player_stats : PlayerStatsPacket → PacketVariant

-- The error texts of DeserializePacket, with the numbers that they print.
pub data ParseError : Type 0 where
  too_small : ParseError
  payload_mismatch : ℕ → ℕ → ParseError
  unknown_op_code : ℕ → ParseError
  buffer_overflow : ParseError

-- PacketParseResult. With `success` false its packet is a default ConnectReqPacket that says
-- nothing, and is left out.
pub data PacketParseResult : Type 0 where
  parsed : PacketVariant → CommonHeader → PacketParseResult
  failed : ParseError → CommonHeader → PacketParseResult

-- One case of the switch: the packet's Deserialize, and the packet put into the variant.
unfoldable pub read_as : {A : Type 0} → Reader A → (A → PacketVariant) → Reader PacketVariant
read_as m tag = m >>= λ a. pure (tag a)

-- The switch on the packet type; `none` is its default case.
unfoldable pub reader_for : Endian → EntityState → ℕ → Option (Reader PacketVariant)
reader_for d blank op =
    if op == code PacketType.connect_req
    then some (read_as (deserialize_connect_req d) PacketVariant.connect_req)
    else if op == code PacketType.connect_ack
    then some (read_as (deserialize_connect_ack d) PacketVariant.connect_ack)
    else if op == code PacketType.disconnect_req
    then some (read_as deserialize_disconnect_req PacketVariant.disconnect_req)
    else if op == code PacketType.notify_disconnect
    then some (read_as (deserialize_notify_disconnect d) PacketVariant.notify_disconnect)
    else if op == code PacketType.game_start
    then some (read_as (deserialize_game_start d) PacketVariant.game_start)
    else if op == code PacketType.game_end
    then some (read_as (deserialize_game_end d) PacketVariant.game_end)
    else if op == code PacketType.ready_status
    then some (read_as (deserialize_ready_status d) PacketVariant.ready_status)
    else if op == code PacketType.set_game_speed
    then some (read_as (deserialize_set_game_speed d) PacketVariant.set_game_speed)
    else if op == code PacketType.set_difficulty
    then some (read_as (deserialize_set_difficulty d) PacketVariant.set_difficulty)
    else if op == code PacketType.set_killable_projectiles
    then some
        (read_as (deserialize_set_killable_projectiles d) PacketVariant.set_killable_projectiles)
    else if op == code PacketType.player_input
    then some (read_as (deserialize_player_input d) PacketVariant.player_input)
    else if op == code PacketType.world_snapshot
    then some
        (read_as (deserialize_world_snapshot d blank player_kind) PacketVariant.world_snapshot)
    else if op == code PacketType.player_stats
    then some (read_as (deserialize_player_stats d) PacketVariant.player_stats)
    else none

-- The end of a case: what the Deserialize of the packet gives, or the handler of std::out_of_range.
unfoldable pub finish : CommonHeader → Option (PacketVariant × PacketBuffer) → PacketParseResult
finish header none = failed buffer_overflow default_header
finish header (some (packet, b)) = parsed packet header

unfoldable pub switch :
    CommonHeader → PacketBuffer → Option (Reader PacketVariant) → PacketParseResult
unfolding finish
switch header b none = failed (unknown_op_code header.op_code) header
switch header b (some m) = finish header (m b)

unfoldable pub after_header :
    Endian → EntityState → Option (CommonHeader × PacketBuffer) → PacketParseResult
unfolding switch reader_for read_as remaining
after_header d blank none = failed buffer_overflow default_header
after_header d blank (some (header, b)) =
    if ltb (remaining b) header.payload_size
    then failed (payload_mismatch header.payload_size (remaining b)) header
    else switch header b (reader_for d blank header.op_code)

-- DeserializePacket. `blank` is what the memory of an EntityState holds before it is set.
unfoldable pub deserialize_packet : Endian → EntityState → List ℕ → PacketParseResult
unfolding after_header of_data
deserialize_packet d blank bytes =
    if ltb (length bytes) 12
    then failed too_small default_header
    else after_header d blank (read_header d (of_data bytes))

-- SerializePacket. The packets that set the game up are in none of the three groups that the
-- visitor knows, so nothing is written for them.
unfoldable pub write_packet : Endian → PacketVariant → ℕ → ℕ → ℕ → Writer
write_packet e (PacketVariant.connect_req p) tick index count = serialize_connect_req e p
write_packet e (PacketVariant.connect_ack p) tick index count = serialize_connect_ack e p
write_packet e (PacketVariant.disconnect_req p) tick index count = serialize_disconnect_req e p
write_packet e (PacketVariant.notify_disconnect p) tick index count =
    serialize_notify_disconnect e p
write_packet e (PacketVariant.game_start p) tick index count = serialize_game_start e p
write_packet e (PacketVariant.game_end p) tick index count = serialize_game_end e p
write_packet e (PacketVariant.ready_status p) tick index count = serialize_ready_status e p
write_packet e (PacketVariant.set_game_speed p) tick index count = skip
write_packet e (PacketVariant.set_difficulty p) tick index count = skip
write_packet e (PacketVariant.set_killable_projectiles p) tick index count = skip
write_packet e (PacketVariant.player_input p) tick index count = serialize_player_input e p tick
write_packet e (PacketVariant.world_snapshot p) tick index count =
    serialize_world_snapshot e p tick index count
write_packet e (PacketVariant.player_stats p) tick index count = serialize_player_stats e p tick

unfoldable pub serialize_packet : Endian → PacketVariant → ℕ → ℕ → ℕ → PacketBuffer
unfolding write_packet of_data
serialize_packet e packet tick index count = write_packet e packet tick index count (of_data [])
