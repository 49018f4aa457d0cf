-- ===== src/Wire/Factory/Sizes.antt =====
-- How many bytes SerializePacket writes, against the payload size that the header announces.
use r_type_j_a_m_e_s.Base.{ℕ, ◌+◌, ◌*◌, ◌<◌, ◌≡◌, ap, ◌∙◌, [], arith, length, length-append}
use r_type_j_a_m_e_s.Wire.Endian.{Endian}
use r_type_j_a_m_e_s.Wire.Buffer.{Writer, Reader, ◌⨾◌, skip, of_data, CommonHeader, write_header}
use r_type_j_a_m_e_s.Wire.Codec.{Codec, Codec-none}
use r_type_j_a_m_e_s.Wire.Fields.{IsHeader, Codec-header}
use r_type_j_a_m_e_s.Wire.Packets.EntityState.{EntityState, player_kind}
use r_type_j_a_m_e_s.Wire.Packets.EntityState.RoundTrip.{
  received_player, received_head, Codec-player_state,
}
use r_type_j_a_m_e_s.Wire.Packets.Snapshot.{
  WorldSnapshotPacket, Codec-world_snapshot, serialize_world_snapshot, write_world_snapshot,
  deserialize_world_snapshot, make_header_world_snapshot, snapshot_payload_size,
}
use r_type_j_a_m_e_s.Wire.Packets.Session.{
  make_header_connect_req, serialize_connect_req, deserialize_connect_req, Codec-connect_req,
  write_connect_req, make_header_connect_ack, serialize_connect_ack, deserialize_connect_ack,
  Codec-connect_ack, write_connect_ack, make_header_disconnect_req, serialize_disconnect_req,
  deserialize_disconnect_req, make_header_notify_disconnect, serialize_notify_disconnect,
  deserialize_notify_disconnect, Codec-notify_disconnect, write_notify_disconnect,
  make_header_game_start, serialize_game_start, deserialize_game_start, Codec-game_start,
  write_game_start, disconnect_req_packet,
}
use r_type_j_a_m_e_s.Wire.Packets.Score.{
  make_header_game_end, serialize_game_end, deserialize_game_end, Codec-game_end, write_game_end,
  game_end_payload_size,
}
use r_type_j_a_m_e_s.Wire.Packets.Lobby.{
  make_header_ready_status, serialize_ready_status, deserialize_ready_status, Codec-ready_status,
  write_ready_status,
}
use r_type_j_a_m_e_s.Wire.Packets.Gameplay.{
  make_header_player_input, serialize_player_input, deserialize_player_input, Codec-player_input,
  write_player_input, make_header_player_stats, serialize_player_stats, deserialize_player_stats,
  Codec-player_stats, write_player_stats,
}
use r_type_j_a_m_e_s.Wire.Factory.{PacketVariant, write_packet, serialize_packet}
use r_type_j_a_m_e_s.Wire.Factory.RoundTrip.{IsSendable, IsFraming, header_for}

abbrev blank : EntityState
blank = record {
  entity_id = 0;
  entity_type = 0;
  reserved = 0;
  pos_x = 0;
  pos_y = 0;
  angle = 0;
  velocity_x = 0;
  velocity_y = 0;
  projectile_type = 0;
  enemy_type = 0;
  current_animation = 0;
  current_frame = 0;
  health = 0;
  invincibility_time = 0;
  score = 0;
}

frame_length :
    {A : Type 0} (e d : Endian) (h : CommonHeader) (n : ℕ) (w : Writer) (m : Reader A) (a : A)
    → IsHeader h
    → Codec n w m a
    → length ((write_header e h ⨾ w) (of_data [])).buffer ≡ 12 + n
unfolding ◌⨾◌ of_data
frame_length e d h n w m a v c =
    let head = Codec-header e d h v in
    ap (λ b. length (w b).buffer) (head.writes (of_data []))
    ∙ ap (λ b. length b.buffer) (c.writes (record { buffer = head.bytes; read_offset = 0 }))
    ∙ length-append head.bytes c.bytes
    ∙ omega (arith, head.size, c.size)

-- The packets that SerializePacket knows, but the snapshot.
abbrev pub IsPlain : PacketVariant → Type 0
IsPlain (PacketVariant.world_snapshot p) = ⊥
IsPlain packet = IsSendable packet

-- For every packet of a kind that SerializePacket knows, but the snapshot, whose members fit their
-- types and whose leaderboard is as long as its counter says, the bytes behind the twelve of the
-- header are as many as the header says.
pub serialize_packet-payload_size :
    (e : Endian) (packet : PacketVariant) (tick index count : ℕ)
    → IsPlain packet
    → IsFraming tick index count
    → length (serialize_packet e packet tick index count).buffer
      ≡ 12 + (header_for packet tick index count).payload_size
unfolding serialize_packet write_packet skip ◌⨾◌ serialize_connect_req make_header_connect_req
    serialize_connect_ack make_header_connect_ack serialize_disconnect_req
    make_header_disconnect_req serialize_notify_disconnect make_header_notify_disconnect
    serialize_game_start make_header_game_start serialize_game_end make_header_game_end
    serialize_ready_status make_header_ready_status serialize_player_input make_header_player_input
    serialize_player_stats make_header_player_stats deserialize_disconnect_req game_end_payload_size
serialize_packet-payload_size e (PacketVariant.connect_req p) tick index count v f =
    frame_length e e _ 32 (write_connect_req e p) (deserialize_connect_req e) p (omega arith)
      (Codec-connect_req e e p v)
serialize_packet-payload_size e (PacketVariant.connect_ack p) tick index count v f =
    frame_length e e _ 8 (write_connect_ack e p) (deserialize_connect_ack e) p (omega arith)
      (Codec-connect_ack e e p v)
serialize_packet-payload_size e (PacketVariant.disconnect_req disconnect_req_packet) tick index
      count v f =
    frame_length e e _ 0 skip _ disconnect_req_packet (omega arith) (Codec-none _)
serialize_packet-payload_size e (PacketVariant.notify_disconnect p) tick index count v f =
    frame_length e e _ 4 (write_notify_disconnect e p) (deserialize_notify_disconnect e) p
      (omega arith) (Codec-notify_disconnect e e p v)
serialize_packet-payload_size e (PacketVariant.game_start p) tick index count v f =
    frame_length e e _ 4 (write_game_start e p) (deserialize_game_start e) p (omega arith)
      (Codec-game_start e e p v)
serialize_packet-payload_size e (PacketVariant.game_end p) tick index count v f =
    frame_length e e _ (game_end_payload_size p) (write_game_end e p) (deserialize_game_end e) p
      (omega arith) (Codec-game_end e e p v)
    ∙ omega (arith, v.counted, v.player_count)
serialize_packet-payload_size e (PacketVariant.ready_status p) tick index count v f =
    frame_length e e _ 4 (write_ready_status e p) (deserialize_ready_status e) p (omega arith)
      (Codec-ready_status e e p v)
serialize_packet-payload_size e (PacketVariant.player_input p) tick index count v f =
    frame_length e e _ 4 (write_player_input e p) (deserialize_player_input e) p (omega arith)
      (Codec-player_input e e p v)
serialize_packet-payload_size e (PacketVariant.player_stats p) tick index count v f =
    frame_length e e _ 8 (write_player_stats e p) (deserialize_player_stats e) p (omega arith)
      (Codec-player_stats e e p v)
serialize_packet-payload_size e (PacketVariant.world_snapshot p) tick index count v f = absurd v
serialize_packet-payload_size e (PacketVariant.set_game_speed p) tick index count v f = absurd v
serialize_packet-payload_size e (PacketVariant.set_difficulty p) tick index count v f = absurd v
serialize_packet-payload_size e (PacketVariant.set_killable_projectiles p) tick index count v f =
    absurd v

-- A snapshot of players, at least one, whose members fit their types, has more payload behind its
-- header than the header says: 22 bytes are written for a player, and 12 are counted.
pub serialize_world_snapshot-payload_size :
    (e : Endian) (p : WorldSnapshotPacket) (tick index count : ℕ)
    → IsSendable (PacketVariant.world_snapshot p)
    → IsFraming tick index count
    → 0 < p.entity_count
    → 12 + (make_header_world_snapshot p tick index count).payload_size
      < length (serialize_world_snapshot e p tick index count (of_data [])).buffer
unfolding serialize_world_snapshot make_header_world_snapshot snapshot_payload_size
serialize_world_snapshot-payload_size e p tick index count v f some_entity = omega (
  arith,
  v.0.counted,
  frame_length e e (make_header_world_snapshot p tick index count) (4 + p.entity_count * 22)
      (write_world_snapshot e p) (deserialize_world_snapshot e blank player_kind) _ (omega arith)
      (Codec-world_snapshot player_kind 22 e e (λ s. received_player (received_head blank s) s)
        blank (Codec-player_state e e blank) p v.0 v.1),
)
