-- ===== src/Tests/Wire.antt =====
-- Packets on concrete values.
use r_type_j_a_m_e_s.Base.{◌+◌, ◌<◌, ◌≡◌, refl, [], ◌∷◌, arith, length}
use r_type_j_a_m_e_s.Wire.Endian.{big, little}
use r_type_j_a_m_e_s.Wire.Buffer.{of_data, default_header}
use r_type_j_a_m_e_s.Wire.Packets.Session.{ConnectAckPacket, make_header_connect_ack}
use r_type_j_a_m_e_s.Wire.Packets.EntityState.{EntityState}
use r_type_j_a_m_e_s.Wire.Packets.EntityState.RoundTrip.{IsEntityState}
use r_type_j_a_m_e_s.Wire.Packets.Snapshot.{
  WorldSnapshotPacket, make_header_world_snapshot, serialize_world_snapshot,
}
use r_type_j_a_m_e_s.Wire.Factory.{
  PacketVariant, parsed, failed, too_small, serialize_packet, deserialize_packet,
}
use r_type_j_a_m_e_s.Wire.Factory.RoundTrip.{
  IsFraming, IsSendable, header_for, deserialize_packet-serialize_packet, serialize_packet_setting,
}
use r_type_j_a_m_e_s.Wire.Factory.Accepts.{Checked, deserialize_packet-Checked}
use r_type_j_a_m_e_s.Wire.Factory.Sizes.{
  serialize_packet-payload_size, serialize_world_snapshot-payload_size,
}

abbrev blank : EntityState
blank = record {
  entity_id = 0;
  entity_type = 0;
  reserved = 0;
  pos_x = 0;
  pos_y = 0;
  angle = 0;
  velocity_x = 0;
  velocity_y = 0;
  projectile_type = 0;
  enemy_type = 0;
  current_animation = 0;
  current_frame = 0;
  health = 0;
  invincibility_time = 0;
  score = 0;
}

abbrev ack : ConnectAckPacket
ack = record {
  player_id = 7;
  status = 0;
  connected_players = 2;
  ready_players = 1;
  max_players = 4;
  min_players = 2;
  reserved = 513;
}

ack_valid : IsSendable (PacketVariant.connect_ack ack)
ack_valid = record {
  player_id = omega arith;
  status = omega arith;
  connected_players = omega arith;
  ready_players = omega arith;
  max_players = omega arith;
  min_players = omega arith;
  reserved = omega arith;
}

framing : IsFraming 70000 0 1
framing = record { tick_bound = omega arith; index_bound = omega arith; count_bound = omega arith }

deserialize_packet-serialize_packet_example :
    deserialize_packet little blank
      (serialize_packet big (PacketVariant.connect_ack ack) 70000 0 1).buffer
    ≡ parsed (PacketVariant.connect_ack ack) make_header_connect_ack
deserialize_packet-serialize_packet_example =
    deserialize_packet-serialize_packet big little blank (PacketVariant.connect_ack ack) 70000 0 1
      ack_valid framing

serialize_packet_setting_example :
    (serialize_packet big (PacketVariant.set_difficulty (record { difficulty = 2 })) 1 0 1
      ≡ of_data [])
    × (deserialize_packet little blank
          (serialize_packet big
            (PacketVariant.set_difficulty (record { difficulty = 2 }))
            1
            0
            1).buffer
        ≡ failed too_small default_header)
serialize_packet_setting_example =
    serialize_packet_setting big little blank
      (PacketVariant.set_difficulty (record { difficulty = 2 })) 1 0 1 tt

deserialize_packet-Checked_example :
    Checked little blank
      (serialize_packet big (PacketVariant.connect_ack ack) 70000 0 1).buffer
      make_header_connect_ack
deserialize_packet-Checked_example =
    deserialize_packet-Checked little blank
      (serialize_packet big (PacketVariant.connect_ack ack) 70000 0 1).buffer
      deserialize_packet-serialize_packet_example

serialize_packet-payload_size_example :
    length (serialize_packet big (PacketVariant.connect_ack ack) 70000 0 1).buffer
    ≡ 12 + (header_for (PacketVariant.connect_ack ack) 70000 0 1).payload_size
serialize_packet-payload_size_example =
    serialize_packet-payload_size big (PacketVariant.connect_ack ack) 70000 0 1 ack_valid framing

-- A snapshot of one player.
abbrev snapshot : WorldSnapshotPacket
snapshot = record { entity_count = 1; reserved = 0 ∷ 0 ∷ []; entities = blank ∷ [] }

blank-IsEntityState : IsEntityState blank
blank-IsEntityState = record {
  entity_id = omega arith;
  entity_type = omega arith;
  reserved = omega arith;
  pos_x = omega arith;
  pos_y = omega arith;
  angle = omega arith;
  velocity_x = omega arith;
  velocity_y = omega arith;
  projectile_type = omega arith;
  enemy_type = omega arith;
  current_animation = omega arith;
  current_frame = omega arith;
  health = omega arith;
  invincibility_time = omega arith;
  score = omega arith;
}

snapshot_valid : IsSendable (PacketVariant.world_snapshot snapshot)
snapshot_valid = (
  record {
    entity_count = omega arith;
    reserved = record { size = refl; bytes = (omega arith, (omega arith, tt)) };
    counted = refl;
    entities = (blank-IsEntityState, tt);
  },
  (refl, tt),
)

serialize_world_snapshot-payload_size_example :
    12 + (make_header_world_snapshot snapshot 70000 0 1).payload_size
    < length (serialize_world_snapshot big snapshot 70000 0 1 (of_data [])).buffer
serialize_world_snapshot-payload_size_example =
    serialize_world_snapshot-payload_size big snapshot 70000 0 1 snapshot_valid framing
      (omega arith)
