-- ===== src/Wire/Packets/Lobby.antt =====
-- ReadyStatusPacket, NotifyConnectPacket and NotifyReadyPacket.
use r_type_j_a_m_e_s.Base.{ℕ, ◌<◌, refl, List}
use r_type_j_a_m_e_s.Wire.Endian.{Endian}
use r_type_j_a_m_e_s.Wire.Buffer.{
  Writer, Reader, ◌⨾◌, ◌>>=◌, pure, write_uint8, read_uint8, CommonHeader, tcp_header, write_header,
}
use r_type_j_a_m_e_s.Wire.Codec.{Codec, Codec-uint8, Codec-size, Codec-then, Codec-last}
use r_type_j_a_m_e_s.Wire.Fields.{PacketType, code, IsArray, write_array, read_array, Codec-array}

-- struct ReadyStatusPacket.
pub record ReadyStatusPacket : Type 0 where
  pub is_ready : ℕ
  pub reserved : List ℕ

unfoldable pub make_header_ready_status : CommonHeader
make_header_ready_status = tcp_header (code PacketType.ready_status) 4

unfoldable pub write_ready_status : Endian → ReadyStatusPacket → Writer
write_ready_status e p = write_uint8 p.is_ready ⨾ write_array p.reserved

unfoldable pub serialize_ready_status : Endian → ReadyStatusPacket → Writer
serialize_ready_status e p = write_header e make_header_ready_status ⨾ write_ready_status e p

unfoldable pub deserialize_ready_status : Endian → Reader ReadyStatusPacket
deserialize_ready_status d = do
  is_ready' ← read_uint8
  reserved' ← read_array 3
  pure (record { is_ready = is_ready'; reserved = reserved' })

pub record IsReadyStatus (p : ReadyStatusPacket) : Type 0 where
  pub is_ready : p.is_ready < 256
  pub reserved : IsArray 3 p.reserved

-- The payload is 4 bytes long and is read back as it was.
pub Codec-ready_status :
    (e d : Endian) (p : ReadyStatusPacket)
    → IsReadyStatus p
    → Codec 4 (write_ready_status e p) (deserialize_ready_status d) p
unfolding write_ready_status deserialize_ready_status
Codec-ready_status e d p v = Codec-size refl (
    Codec-then _ (Codec-uint8 p.is_ready v.is_ready)
      (Codec-last _ (Codec-array 3 p.reserved v.reserved) refl))

-- struct NotifyConnectPacket.
pub record NotifyConnectPacket : Type 0 where
  pub player_id : ℕ
  pub reserved : List ℕ
  pub username : List ℕ

unfoldable pub make_header_notify_connect : CommonHeader
make_header_notify_connect = tcp_header (code PacketType.notify_connect) 36

unfoldable pub write_notify_connect : Endian → NotifyConnectPacket → Writer
write_notify_connect e p = write_uint8 p.player_id ⨾ write_array p.reserved ⨾ write_array p.username

unfoldable pub serialize_notify_connect : Endian → NotifyConnectPacket → Writer
serialize_notify_connect e p = write_header e make_header_notify_connect ⨾ write_notify_connect e p

unfoldable pub deserialize_notify_connect : Endian → Reader NotifyConnectPacket
deserialize_notify_connect d = do
  player_id' ← read_uint8
  reserved' ← read_array 3
  username' ← read_array 32
  pure (record { player_id = player_id'; reserved = reserved'; username = username' })

pub record IsNotifyConnect (p : NotifyConnectPacket) : Type 0 where
  pub player_id : p.player_id < 256
  pub reserved : IsArray 3 p.reserved
  pub username : IsArray 32 p.username

-- The payload of a NOTIFY_CONNECT whose members fit their types is 36 bytes long, and a reader of
-- either byte order has the packet back from them and consumes no more.
pub Codec-notify_connect :
    (e d : Endian) (p : NotifyConnectPacket)
    → IsNotifyConnect p
    → Codec 36 (write_notify_connect e p) (deserialize_notify_connect d) p
unfolding write_notify_connect deserialize_notify_connect
Codec-notify_connect e d p v = Codec-size refl (
    Codec-then _ (Codec-uint8 p.player_id v.player_id) (
      Codec-then _ (Codec-array 3 p.reserved v.reserved)
        (Codec-last _ (Codec-array 32 p.username v.username) refl)))

-- struct NotifyReadyPacket.
pub record NotifyReadyPacket : Type 0 where
  pub player_id : ℕ
  pub is_ready : ℕ
  pub reserved : List ℕ

unfoldable pub make_header_notify_ready : CommonHeader
make_header_notify_ready = tcp_header (code PacketType.notify_ready) 4

unfoldable pub write_notify_ready : Endian → NotifyReadyPacket → Writer
write_notify_ready e p = write_uint8 p.player_id ⨾ write_uint8 p.is_ready ⨾ write_array p.reserved

unfoldable pub serialize_notify_ready : Endian → NotifyReadyPacket → Writer
serialize_notify_ready e p = write_header e make_header_notify_ready ⨾ write_notify_ready e p

unfoldable pub deserialize_notify_ready : Endian → Reader NotifyReadyPacket
deserialize_notify_ready d = do
  player_id' ← read_uint8
  is_ready' ← read_uint8
  reserved' ← read_array 2
  pure (record { player_id = player_id'; is_ready = is_ready'; reserved = reserved' })

pub record IsNotifyReady (p : NotifyReadyPacket) : Type 0 where
  pub player_id : p.player_id < 256
  pub is_ready : p.is_ready < 256
  pub reserved : IsArray 2 p.reserved

-- The payload is 4 bytes long and is read back as it was.
pub Codec-notify_ready :
    (e d : Endian) (p : NotifyReadyPacket)
    → IsNotifyReady p
    → Codec 4 (write_notify_ready e p) (deserialize_notify_ready d) p
unfolding write_notify_ready deserialize_notify_ready
Codec-notify_ready e d p v = Codec-size refl (
    Codec-then _ (Codec-uint8 p.player_id v.player_id) (
      Codec-then _ (Codec-uint8 p.is_ready v.is_ready)
        (Codec-last _ (Codec-array 2 p.reserved v.reserved) refl)))
