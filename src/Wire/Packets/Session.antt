-- ===== src/Wire/Packets/Session.antt =====
-- ConnectReqPacket, ConnectAckPacket, DisconnectReqPacket, NotifyDisconnectPacket and
-- GameStartPacket.
use r_type_j_a_m_e_s.Base.{ℕ, ◌<◌, refl, List}
use r_type_j_a_m_e_s.Wire.Endian.{Endian}
use r_type_j_a_m_e_s.Wire.Buffer.{
  Writer, Reader, ◌⨾◌, ◌>>=◌, pure, write_uint8, write_uint16, write_uint32, read_uint8,
  read_uint16, read_uint32, CommonHeader, tcp_header, write_header,
}
use r_type_j_a_m_e_s.Wire.Codec.{
  Codec, Codec-uint8, Codec-uint16, Codec-uint32, Codec-size, Codec-then, Codec-last,
}
use r_type_j_a_m_e_s.Wire.Fields.{PacketType, code, IsArray, write_array, read_array, Codec-array}

-- struct ConnectReqPacket.
pub record ConnectReqPacket : Type 0 where
  pub username : List ℕ

unfoldable pub make_header_connect_req : CommonHeader
make_header_connect_req = tcp_header (code PacketType.connect_req) 32

unfoldable pub write_connect_req : Endian → ConnectReqPacket → Writer
write_connect_req e p = write_array p.username

unfoldable pub serialize_connect_req : Endian → ConnectReqPacket → Writer
serialize_connect_req e p = write_header e make_header_connect_req ⨾ write_connect_req e p

unfoldable pub deserialize_connect_req : Endian → Reader ConnectReqPacket
deserialize_connect_req d = do username' ← read_array 32; pure (record { username = username' })

pub record IsConnectReq (p : ConnectReqPacket) : Type 0 where
  pub username : IsArray 32 p.username

-- The payload is 32 bytes long and is read back as it was.
pub Codec-connect_req :
    (e d : Endian) (p : ConnectReqPacket)
    → IsConnectReq p
    → Codec 32 (write_connect_req e p) (deserialize_connect_req d) p
unfolding write_connect_req deserialize_connect_req
Codec-connect_req e d p v =
    Codec-size refl (Codec-last _ (Codec-array 32 p.username v.username) refl)

-- struct ConnectAckPacket.
pub record ConnectAckPacket : Type 0 where
  pub player_id : ℕ
  pub status : ℕ
  pub connected_players : ℕ
  pub ready_players : ℕ
  pub max_players : ℕ
  pub min_players : ℕ
  pub reserved : ℕ

unfoldable pub make_header_connect_ack : CommonHeader
make_header_connect_ack = tcp_header (code PacketType.connect_ack) 8

unfoldable pub write_connect_ack : Endian → ConnectAckPacket → Writer
write_connect_ack e p =
    write_uint8 p.player_id
    ⨾ write_uint8 p.status
    ⨾ write_uint8 p.connected_players
    ⨾ write_uint8 p.ready_players
    ⨾ write_uint8 p.max_players
    ⨾ write_uint8 p.min_players
    ⨾ write_uint16 e p.reserved

unfoldable pub serialize_connect_ack : Endian → ConnectAckPacket → Writer
serialize_connect_ack e p = write_header e make_header_connect_ack ⨾ write_connect_ack e p

unfoldable pub deserialize_connect_ack : Endian → Reader ConnectAckPacket
deserialize_connect_ack d = do
  player_id' ← read_uint8
  status' ← read_uint8
  connected_players' ← read_uint8
  ready_players' ← read_uint8
  max_players' ← read_uint8
  min_players' ← read_uint8
  reserved' ← read_uint16 d
  pure (record {
    player_id = player_id';
    status = status';
    connected_players = connected_players';
    ready_players = ready_players';
    max_players = max_players';
    min_players = min_players';
    reserved = reserved';
  })

pub record IsConnectAck (p : ConnectAckPacket) : Type 0 where
  pub player_id : p.player_id < 256
  pub status : p.status < 256
  pub connected_players : p.connected_players < 256
  pub ready_players : p.ready_players < 256
  pub max_players : p.max_players < 256
  pub min_players : p.min_players < 256
  pub reserved : p.reserved < 65536

-- The payload is 8 bytes long and is read back as it was.
pub Codec-connect_ack :
    (e d : Endian) (p : ConnectAckPacket)
    → IsConnectAck p
    → Codec 8 (write_connect_ack e p) (deserialize_connect_ack d) p
unfolding write_connect_ack deserialize_connect_ack
Codec-connect_ack e d p v = Codec-size refl (
    Codec-then _ (Codec-uint8 p.player_id v.player_id) (
      Codec-then _ (Codec-uint8 p.status v.status) (
        Codec-then _ (Codec-uint8 p.connected_players v.connected_players) (
          Codec-then _ (Codec-uint8 p.ready_players v.ready_players) (
            Codec-then _ (Codec-uint8 p.max_players v.max_players) (
              Codec-then _ (Codec-uint8 p.min_players v.min_players)
                (Codec-last _ (Codec-uint16 e d p.reserved v.reserved) refl)))))))

-- struct DisconnectReqPacket, which has no field and no payload.
pub data DisconnectReqPacket : Type 0 where
  disconnect_req_packet : DisconnectReqPacket

unfoldable pub make_header_disconnect_req : CommonHeader
make_header_disconnect_req = tcp_header (code PacketType.disconnect_req) 0

unfoldable pub serialize_disconnect_req : Endian → DisconnectReqPacket → Writer
serialize_disconnect_req e p = write_header e make_header_disconnect_req

unfoldable pub deserialize_disconnect_req : Reader DisconnectReqPacket
deserialize_disconnect_req = pure disconnect_req_packet

-- struct NotifyDisconnectPacket.
pub record NotifyDisconnectPacket : Type 0 where
  pub player_id : ℕ
  pub reserved : List ℕ

unfoldable pub make_header_notify_disconnect : CommonHeader
make_header_notify_disconnect = tcp_header (code PacketType.notify_disconnect) 4

unfoldable pub write_notify_disconnect : Endian → NotifyDisconnectPacket → Writer
write_notify_disconnect e p = write_uint8 p.player_id ⨾ write_array p.reserved

unfoldable pub serialize_notify_disconnect : Endian → NotifyDisconnectPacket → Writer
serialize_notify_disconnect e p =
    write_header e make_header_notify_disconnect ⨾ write_notify_disconnect e p

unfoldable pub deserialize_notify_disconnect : Endian → Reader NotifyDisconnectPacket
deserialize_notify_disconnect d = do
  player_id' ← read_uint8
  reserved' ← read_array 3
  pure (record { player_id = player_id'; reserved = reserved' })

pub record IsNotifyDisconnect (p : NotifyDisconnectPacket) : Type 0 where
  pub player_id : p.player_id < 256
  pub reserved : IsArray 3 p.reserved

-- The payload is 4 bytes long and is read back as it was.
pub Codec-notify_disconnect :
    (e d : Endian) (p : NotifyDisconnectPacket)
    → IsNotifyDisconnect p
    → Codec 4 (write_notify_disconnect e p) (deserialize_notify_disconnect d) p
unfolding write_notify_disconnect deserialize_notify_disconnect
Codec-notify_disconnect e d p v = Codec-size refl (
    Codec-then _ (Codec-uint8 p.player_id v.player_id)
      (Codec-last _ (Codec-array 3 p.reserved v.reserved) refl))

-- struct GameStartPacket.
pub record GameStartPacket : Type 0 where
  pub controlled_entity_id : ℕ

unfoldable pub make_header_game_start : CommonHeader
make_header_game_start = tcp_header (code PacketType.game_start) 4

unfoldable pub write_game_start : Endian → GameStartPacket → Writer
write_game_start e p = write_uint32 e p.controlled_entity_id

unfoldable pub serialize_game_start : Endian → GameStartPacket → Writer
serialize_game_start e p = write_header e make_header_game_start ⨾ write_game_start e p

unfoldable pub deserialize_game_start : Endian → Reader GameStartPacket
deserialize_game_start d = do
  controlled_entity_id' ← read_uint32 d
  pure (record { controlled_entity_id = controlled_entity_id' })

pub record IsGameStart (p : GameStartPacket) : Type 0 where
  pub controlled_entity_id : p.controlled_entity_id < 4294967296

-- The payload is 4 bytes long and is read back as it was.
pub Codec-game_start :
    (e d : Endian) (p : GameStartPacket)
    → IsGameStart p
    → Codec 4 (write_game_start e p) (deserialize_game_start d) p
unfolding write_game_start deserialize_game_start
Codec-game_start e d p v =
    Codec-size refl
      (Codec-last _ (Codec-uint32 e d p.controlled_entity_id v.controlled_entity_id) refl)
