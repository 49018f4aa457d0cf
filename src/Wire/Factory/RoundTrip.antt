-- ===== src/Wire/Factory/RoundTrip.antt =====
-- SerializePacket and DeserializePacket undo one another, and what they do with the packets that
-- SerializePacket does not know.
use r_type_j_a_m_e_s.Base.{ℕ, ◌+◌, ◌*◌, ◌<◌, ◌≡◌, refl, [], arith, map, All}
use r_type_j_a_m_e_s.Wire.Endian.{Endian}
use r_type_j_a_m_e_s.Wire.Buffer.{◌⨾◌, skip, of_data, CommonHeader, default_header}
use r_type_j_a_m_e_s.Wire.Codec.{Codec-none}
use r_type_j_a_m_e_s.Wire.Packets.EntityState.{EntityState, player_kind}
use r_type_j_a_m_e_s.Wire.Packets.EntityState.RoundTrip.{
  received_player, received_head, Codec-player_state,
}
use r_type_j_a_m_e_s.Wire.Packets.Snapshot.{
  IsWorldSnapshot, Codec-world_snapshot, serialize_world_snapshot, write_world_snapshot,
  deserialize_world_snapshot, make_header_world_snapshot, snapshot_payload_size,
}
use r_type_j_a_m_e_s.Wire.Packets.Session.{
  make_header_connect_req, serialize_connect_req, deserialize_connect_req, IsConnectReq,
  Codec-connect_req, write_connect_req, make_header_connect_ack, serialize_connect_ack,
  deserialize_connect_ack, IsConnectAck, Codec-connect_ack, write_connect_ack,
  make_header_disconnect_req, serialize_disconnect_req, deserialize_disconnect_req,
  make_header_notify_disconnect, serialize_notify_disconnect, deserialize_notify_disconnect,
  IsNotifyDisconnect, Codec-notify_disconnect, write_notify_disconnect, make_header_game_start,
  serialize_game_start, deserialize_game_start, IsGameStart, Codec-game_start, write_game_start,
  disconnect_req_packet,
}
use r_type_j_a_m_e_s.Wire.Packets.Score.{
  make_header_game_end, serialize_game_end, deserialize_game_end, IsGameEnd, Codec-game_end,
  write_game_end, game_end_payload_size,
}
use r_type_j_a_m_e_s.Wire.Packets.Lobby.{
  make_header_ready_status, serialize_ready_status, deserialize_ready_status, IsReadyStatus,
  Codec-ready_status, write_ready_status,
}
use r_type_j_a_m_e_s.Wire.Packets.Gameplay.{
  make_header_player_input, serialize_player_input, deserialize_player_input, IsPlayerInput,
  Codec-player_input, write_player_input, make_header_player_stats, serialize_player_stats,
  deserialize_player_stats, IsPlayerStats, Codec-player_stats, write_player_stats,
}
use r_type_j_a_m_e_s.Wire.Factory.{
  PacketVariant, parsed, failed, too_small, reader_for, write_packet, serialize_packet,
  deserialize_packet,
}
use r_type_j_a_m_e_s.Wire.Factory.Frame.{parse_frame}

-- Packets whose members fit their C++ types, of the kinds that SerializePacket writes. The entities
-- of a snapshot are players.
abbrev pub IsSendable : PacketVariant → Type 0
IsSendable (PacketVariant.connect_req p) = IsConnectReq p
IsSendable (PacketVariant.connect_ack p) = IsConnectAck p
IsSendable (PacketVariant.disconnect_req p) = Unit
IsSendable (PacketVariant.notify_disconnect p) = IsNotifyDisconnect p
IsSendable (PacketVariant.game_start p) = IsGameStart p
IsSendable (PacketVariant.game_end p) = IsGameEnd p
IsSendable (PacketVariant.ready_status p) = IsReadyStatus p
IsSendable (PacketVariant.player_input p) = IsPlayerInput p
IsSendable (PacketVariant.player_stats p) = IsPlayerStats p
IsSendable (PacketVariant.world_snapshot p) =
    IsWorldSnapshot p × All (λ s. s.entity_type ≡ player_kind) p.entities
IsSendable _ = ⊥

-- The packet as the receiver has it. What a player's state does not carry is left as it was.
abbrev pub seen : EntityState → PacketVariant → PacketVariant
seen blank (PacketVariant.world_snapshot p) =
    PacketVariant.world_snapshot
      (record p { entities = map (λ s. received_player (received_head blank s) s) p.entities })
seen blank packet = packet

abbrev pub header_for : PacketVariant → ℕ → ℕ → ℕ → CommonHeader
header_for (PacketVariant.connect_req p) tick index count = make_header_connect_req
header_for (PacketVariant.connect_ack p) tick index count = make_header_connect_ack
header_for (PacketVariant.disconnect_req p) tick index count = make_header_disconnect_req
header_for (PacketVariant.notify_disconnect p) tick index count = make_header_notify_disconnect
header_for (PacketVariant.game_start p) tick index count = make_header_game_start
header_for (PacketVariant.game_end p) tick index count = make_header_game_end p
header_for (PacketVariant.ready_status p) tick index count = make_header_ready_status
header_for (PacketVariant.player_input p) tick index count = make_header_player_input tick
header_for (PacketVariant.player_stats p) tick index count = make_header_player_stats tick
header_for (PacketVariant.world_snapshot p) tick index count =
    make_header_world_snapshot p tick index count
header_for _ tick index count = default_header

-- The last three arguments of SerializePacket fit their types.
pub record IsFraming (tick index count : ℕ) : Type 0 where
  pub tick_bound : tick < 4294967296
  pub index_bound : index < 256
  pub count_bound : count < 256

-- A packet of a kind that SerializePacket knows, whose members fit their types and whose lists are
-- as long as their counters say, handed to DeserializePacket on a machine of either byte order,
-- gives the packet and its header back, whatever the byte order of the sender, if the last three
-- arguments fit their types too. A snapshot is one of players, and of each the receiver keeps what
-- a player's state does not carry as its memory held it.
pub deserialize_packet-serialize_packet :
    (e d : Endian) (blank : EntityState) (packet : PacketVariant) (tick index count : ℕ)
    → IsSendable packet
    → IsFraming tick index count
    → deserialize_packet d blank (serialize_packet e packet tick index count).buffer
      ≡ parsed (seen blank packet) (header_for packet tick index count)
unfolding serialize_packet write_packet reader_for skip ◌⨾◌ serialize_connect_req
    make_header_connect_req serialize_connect_ack make_header_connect_ack serialize_disconnect_req
    make_header_disconnect_req serialize_notify_disconnect make_header_notify_disconnect
    serialize_game_start make_header_game_start serialize_game_end make_header_game_end
    serialize_ready_status make_header_ready_status serialize_player_input make_header_player_input
    serialize_player_stats make_header_player_stats deserialize_disconnect_req game_end_payload_size
    serialize_world_snapshot make_header_world_snapshot snapshot_payload_size
deserialize_packet-serialize_packet e d blank (PacketVariant.connect_req p) tick index count v f =
    parse_frame e d blank _ 32 (write_connect_req e p) (deserialize_connect_req d)
      PacketVariant.connect_req p (omega arith) (Codec-connect_req e d p v) (omega arith) refl
deserialize_packet-serialize_packet e d blank (PacketVariant.connect_ack p) tick index count v f =
    parse_frame e d blank _ 8 (write_connect_ack e p) (deserialize_connect_ack d)
      PacketVariant.connect_ack p (omega arith) (Codec-connect_ack e d p v) (omega arith) refl
deserialize_packet-serialize_packet e d blank (PacketVariant.disconnect_req disconnect_req_packet)
      tick index count v f =
    parse_frame e d blank _ 0 skip _ PacketVariant.disconnect_req disconnect_req_packet
      (omega arith) (Codec-none _) (omega arith) refl
deserialize_packet-serialize_packet e d blank (PacketVariant.notify_disconnect p) tick index count v
      f =
    parse_frame e d blank _ 4 (write_notify_disconnect e p) (deserialize_notify_disconnect d)
      PacketVariant.notify_disconnect p (omega arith) (Codec-notify_disconnect e d p v)
      (omega arith) refl
deserialize_packet-serialize_packet e d blank (PacketVariant.game_start p) tick index count v f =
    parse_frame e d blank _ 4 (write_game_start e p) (deserialize_game_start d)
      PacketVariant.game_start p (omega arith) (Codec-game_start e d p v) (omega arith) refl
deserialize_packet-serialize_packet e d blank (PacketVariant.game_end p) tick index count v f =
    parse_frame e d blank _ (game_end_payload_size p) (write_game_end e p) (deserialize_game_end d)
      PacketVariant.game_end p (omega arith) (Codec-game_end e d p v) (omega arith) refl
deserialize_packet-serialize_packet e d blank (PacketVariant.ready_status p) tick index count v f =
    parse_frame e d blank _ 4 (write_ready_status e p) (deserialize_ready_status d)
      PacketVariant.ready_status p (omega arith) (Codec-ready_status e d p v) (omega arith) refl
deserialize_packet-serialize_packet e d blank (PacketVariant.player_input p) tick index count v f =
    parse_frame e d blank _ 4 (write_player_input e p) (deserialize_player_input d)
      PacketVariant.player_input p (omega arith) (Codec-player_input e d p v) (omega arith) refl
deserialize_packet-serialize_packet e d blank (PacketVariant.player_stats p) tick index count v f =
    parse_frame e d blank _ 8 (write_player_stats e p) (deserialize_player_stats d)
      PacketVariant.player_stats p (omega arith) (Codec-player_stats e d p v) (omega arith) refl
deserialize_packet-serialize_packet e d blank (PacketVariant.world_snapshot p) tick index count v
      f =
    parse_frame e d blank _ (4 + p.entity_count * 22) (write_world_snapshot e p)
      (deserialize_world_snapshot d blank player_kind) PacketVariant.world_snapshot _ (omega arith)
      (Codec-world_snapshot player_kind 22 e d (λ s. received_player (received_head blank s) s)
        blank (Codec-player_state e d blank) p v.0 v.1)
      (omega (arith, v.0.counted)) refl
deserialize_packet-serialize_packet e d blank (PacketVariant.set_game_speed p) tick index count v
      f =
    absurd v
deserialize_packet-serialize_packet e d blank (PacketVariant.set_difficulty p) tick index count v
      f =
    absurd v
deserialize_packet-serialize_packet e d blank (PacketVariant.set_killable_projectiles p) tick index
      count v f =
    absurd v

-- The packets that set the game up.
abbrev pub IsSetting : PacketVariant → Type 0
IsSetting (PacketVariant.set_game_speed p) = Unit
IsSetting (PacketVariant.set_difficulty p) = Unit
IsSetting (PacketVariant.set_killable_projectiles p) = Unit
IsSetting _ = ⊥

-- SerializePacket writes no byte for a packet that sets the game up, and DeserializePacket refuses
-- the result as too small.
pub serialize_packet_setting :
    (e d : Endian) (blank : EntityState) (packet : PacketVariant) (tick index count : ℕ)
    → IsSetting packet
    → (serialize_packet e packet tick index count ≡ of_data [])
      × (deserialize_packet d blank (serialize_packet e packet tick index count).buffer
          ≡ failed too_small default_header)
unfolding serialize_packet write_packet skip deserialize_packet of_data
serialize_packet_setting e d blank (PacketVariant.set_game_speed p) tick index count v =
    (refl, refl)
serialize_packet_setting e d blank (PacketVariant.set_difficulty p) tick index count v =
    (refl, refl)
serialize_packet_setting e d blank (PacketVariant.set_killable_projectiles p) tick index count v =
    (refl, refl)
serialize_packet_setting e d blank (PacketVariant.connect_req p) tick index count v = absurd v
serialize_packet_setting e d blank (PacketVariant.connect_ack p) tick index count v = absurd v
serialize_packet_setting e d blank (PacketVariant.disconnect_req p) tick index count v = absurd v
serialize_packet_setting e d blank (PacketVariant.notify_disconnect p) tick index count v = absurd v
serialize_packet_setting e d blank (PacketVariant.game_start p) tick index count v = absurd v
serialize_packet_setting e d blank (PacketVariant.game_end p) tick index count v = absurd v
serialize_packet_setting e d blank (PacketVariant.ready_status p) tick index count v = absurd v
serialize_packet_setting e d blank (PacketVariant.player_input p) tick index count v = absurd v
serialize_packet_setting e d blank (PacketVariant.player_stats p) tick index count v = absurd v
serialize_packet_setting e d blank (PacketVariant.world_snapshot p) tick index count v = absurd v
