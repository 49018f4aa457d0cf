-- ===== src/Client/Send/Delivered.antt =====
-- What the server makes of the messages that the client sends: client/network/Network.cpp against
-- DeserializePacket of server/include/server/PacketFactory.hpp.
use r_type_j_a_m_e_s.Base.{
  ℕ, ◌/◌, ◌<◌, ◌≡◌, refl, ap, ◌∙◌, Bool, true, List, [], ◌∷◌, ◌++◌, arith, All, if◌then◌else◌,
}
use r_type_j_a_m_e_s.Wire.Endian.{Endian, little, bytes_le}
use r_type_j_a_m_e_s.Wire.Buffer.{skip, CommonHeader, write_float}
use r_type_j_a_m_e_s.Wire.Codec.{Codec-none}
use r_type_j_a_m_e_s.Wire.Fields.{IsArray}
use r_type_j_a_m_e_s.Wire.Written.{
  Writes-uint8, Writes-uint32, Writes-skip, ◌then_writes◌, Writes-array,
}
use r_type_j_a_m_e_s.Wire.Packets.EntityState.{EntityState}
use r_type_j_a_m_e_s.Wire.Packets.Session.{
  ConnectReqPacket, disconnect_req_packet, write_connect_req, deserialize_connect_req,
  deserialize_disconnect_req, Codec-connect_req,
}
use r_type_j_a_m_e_s.Wire.Packets.Lobby.{
  write_ready_status, deserialize_ready_status, Codec-ready_status,
}
use r_type_j_a_m_e_s.Wire.Packets.Settings.{
  write_set_game_speed, deserialize_set_game_speed, Codec-set_game_speed, write_set_difficulty,
  deserialize_set_difficulty, Codec-set_difficulty, write_set_killable_projectiles,
  deserialize_set_killable_projectiles, Codec-set_killable_projectiles,
}
use r_type_j_a_m_e_s.Wire.Packets.Gameplay.{
  write_player_input, deserialize_player_input, Codec-player_input,
}
use r_type_j_a_m_e_s.Wire.Factory.{PacketVariant, parsed, reader_for, deserialize_packet}
use r_type_j_a_m_e_s.Client.Header
use r_type_j_a_m_e_s.Client.Send.Framing.{
  client_header, client_header-IsHeader, delivered, padded_username-IsArray,
}
use r_type_j_a_m_e_s.Client.State.{
  ServerConnection, Action, tcp_sent, udp_sent, game_speed_changed, difficulty_changed,
  killable_projectiles_changed, disconnect, say_goodbye,
}
use r_type_j_a_m_e_s.Client.Send.{
  established, padded_username, connect_req_bytes, connect_to_server, input_bytes, send_input,
  ready_bytes, send_ready_status, set_speed_bytes, send_game_speed, set_difficulty_bytes,
  send_difficulty, set_killable_bytes, send_killable_enemy_projectiles,
}

-- The calls by which the client says something to the server.
pub data Request : Type 0 where
  connect : List ℕ → Request
  goodbye : Request
  input : ℕ → Request
  ready : Bool → Request
  game_speed : ℕ → Request
  difficulty : ℕ → Request
  killable_projectiles : Bool → Request

abbrev pub call : Request → ServerConnection → ServerConnection
call (connect username) s = connect_to_server established username s
call goodbye s = disconnect s
call (input flags) s = send_input flags s
call (ready is_ready) s = send_ready_status is_ready s
call (game_speed speed) s = send_game_speed speed s
call (difficulty level) s = send_difficulty level s
call (killable_projectiles enabled) s = send_killable_enemy_projectiles enabled s

-- When the call sends anything, and whether its arguments fit their types.
abbrev pub CanSend : Request → ServerConnection → Type 0
CanSend (connect username) s = All (λ c. c < 256) username
CanSend goodbye s = s.tcp_open ≡ true
CanSend (input flags) s = (s.connected ≡ true) × (flags < 256)
CanSend (ready is_ready) s = s.connected ≡ true
CanSend (game_speed speed) s = (s.connected ≡ true) × (speed < 4294967296)
CanSend (difficulty level) s = (s.connected ≡ true) × (level < 256)
CanSend (killable_projectiles enabled) s = s.connected ≡ true

-- The packet that the call stands for.
abbrev pub meant : Request → PacketVariant
meant (connect username) =
    PacketVariant.connect_req (record { username = padded_username username })
meant goodbye = PacketVariant.disconnect_req disconnect_req_packet
meant (input flags) =
    PacketVariant.player_input (record { inputs = flags; reserved = 0 ∷ 0 ∷ 0 ∷ [] })
meant (ready is_ready) =
    PacketVariant.ready_status
      (record { is_ready = if is_ready then 1 else 0; reserved = 0 ∷ 0 ∷ 0 ∷ [] })
meant (game_speed speed) = PacketVariant.set_game_speed (record { speed = speed })
meant (difficulty level) = PacketVariant.set_difficulty (record { difficulty = level })
meant (killable_projectiles enabled) =
    PacketVariant.set_killable_projectiles (record { enabled = if enabled then 1 else 0 })

abbrev pub header_for : Request → ℕ → CommonHeader
header_for (connect username) tick = client_header 1 32 tick
header_for goodbye tick = client_header 3 0 tick
header_for (input flags) tick = client_header 16 4 tick
header_for (ready is_ready) tick = client_header 7 4 0
header_for (game_speed speed) tick = client_header 10 4 0
header_for (difficulty level) tick = client_header 12 1 0
header_for (killable_projectiles enabled) tick = client_header 13 1 0

-- The bytes that an action puts on a socket.
abbrev pub sent : Action → List ℕ
sent (tcp_sent bytes) = bytes
sent (udp_sent bytes) = bytes
sent (game_speed_changed speed) = []
sent (difficulty_changed level) = []
sent (killable_projectiles_changed enabled) = []

three_zeros : IsArray 3 (0 ∷ 0 ∷ 0 ∷ [])
three_zeros = record { size = refl; bytes = (omega arith, (omega arith, (omega arith, tt))) }

Flag-byte : (b : Bool) → (if b then 1 else 0) < 256
Flag-byte b = ground arith

connect_read :
    (d : Endian) (blank : EntityState) (name : List ℕ) (tick : ℕ)
    → tick < 4294967296
    → All (λ c. c < 256) name
    → deserialize_packet d blank (connect_req_bytes name tick)
      ≡ parsed (meant (connect name)) (header_for (connect name) tick)
unfolding connect_req_bytes write_connect_req reader_for
connect_read d blank name tick t h =
    let p : ConnectReqPacket = record { username = padded_username name } in
    delivered d blank 1 32 tick (write_connect_req little p) (deserialize_connect_req d)
      PacketVariant.connect_req p (padded_username name)
      (client_header-IsHeader 1 32 tick (omega arith) (omega arith) t)
      (Writes-array (padded_username name))
      (Codec-connect_req little d p (record { username = padded_username-IsArray name h })) refl

goodbye_read :
    (d : Endian) (blank : EntityState) (tick : ℕ)
    → tick < 4294967296
    → deserialize_packet d blank (Header.write_header 3 0 tick 0 1)
      ≡ parsed (meant goodbye) (header_for goodbye tick)
unfolding reader_for deserialize_disconnect_req Header.write_header Header.write_le16
    Header.write_le32
goodbye_read d blank tick t =
    delivered d blank 3 0 tick skip deserialize_disconnect_req PacketVariant.disconnect_req
      disconnect_req_packet [] (client_header-IsHeader 3 0 tick (omega arith) (omega arith) t)
      Writes-skip (Codec-none disconnect_req_packet) refl

input_read :
    (d : Endian) (blank : EntityState) (flags tick : ℕ)
    → tick < 4294967296
    → flags < 256
    → deserialize_packet d blank (input_bytes flags tick)
      ≡ parsed (meant (input flags)) (header_for (input flags) tick)
unfolding input_bytes write_player_input reader_for
input_read d blank flags tick t h =
    delivered d blank 16 4 tick _ (deserialize_player_input d) PacketVariant.player_input _
      (flags ∷ 0 ∷ 0 ∷ 0 ∷ []) (client_header-IsHeader 16 4 tick (omega arith) (omega arith) t)
      (Writes-uint8 flags then_writes Writes-array (0 ∷ 0 ∷ 0 ∷ []))
      (Codec-player_input little d (record { inputs = flags; reserved = 0 ∷ 0 ∷ 0 ∷ [] })
        (record { inputs = h; reserved = three_zeros }))
      refl

ready_read :
    (d : Endian) (blank : EntityState) (flag : Bool) (tick : ℕ)
    → deserialize_packet d blank (ready_bytes flag)
      ≡ parsed (meant (ready flag)) (header_for (ready flag) tick)
unfolding ready_bytes write_ready_status reader_for
ready_read d blank flag tick =
    delivered d blank 7 4 0 _ (deserialize_ready_status d) PacketVariant.ready_status _
      ((if flag then 1 else 0) ∷ 0 ∷ 0 ∷ 0 ∷ [])
      (client_header-IsHeader 7 4 0 (omega arith) (omega arith) (omega arith))
      (Writes-uint8 (if flag then 1 else 0) then_writes Writes-array (0 ∷ 0 ∷ 0 ∷ []))
      (Codec-ready_status little d
        (record { is_ready = if flag then 1 else 0; reserved = 0 ∷ 0 ∷ 0 ∷ [] })
        (record { is_ready = Flag-byte flag; reserved = three_zeros }))
      refl

speed_bytes_lem :
    (speed : ℕ) → set_speed_bytes speed ≡ Header.write_header 10 4 0 0 1 ++ bytes_le 4 speed
unfolding set_speed_bytes bytes_le Header.write_header Header.write_le16 Header.write_le32
speed_bytes_lem speed =
    let third : speed / 65536 ≡ speed / 256 / 256 = omega arith in
    let fourth : speed / 16777216 ≡ speed / 256 / 256 / 256 = omega arith in rw (third, fourth) refl

game_speed_read :
    (d : Endian) (blank : EntityState) (speed tick : ℕ)
    → speed < 4294967296
    → deserialize_packet d blank (set_speed_bytes speed)
      ≡ parsed (meant (game_speed speed)) (header_for (game_speed speed) tick)
unfolding write_set_game_speed write_float reader_for
game_speed_read d blank speed tick h =
    ap (deserialize_packet d blank) (speed_bytes_lem speed)
    ∙ delivered d blank 10 4 0 (write_set_game_speed little (record { speed = speed }))
        (deserialize_set_game_speed d) PacketVariant.set_game_speed (record { speed = speed })
        (bytes_le 4 speed) (client_header-IsHeader 10 4 0 (omega arith) (omega arith) (omega arith))
        (Writes-uint32 little speed h)
        (Codec-set_game_speed little d (record { speed = speed }) (record { speed = h })) refl

difficulty_read :
    (d : Endian) (blank : EntityState) (level tick : ℕ)
    → level < 256
    → deserialize_packet d blank (set_difficulty_bytes level)
      ≡ parsed (meant (difficulty level)) (header_for (difficulty level) tick)
unfolding set_difficulty_bytes write_set_difficulty reader_for
difficulty_read d blank level tick h =
    delivered d blank 12 1 0 (write_set_difficulty little (record { difficulty = level }))
      (deserialize_set_difficulty d) PacketVariant.set_difficulty (record { difficulty = level })
      (level ∷ []) (client_header-IsHeader 12 1 0 (omega arith) (omega arith) (omega arith))
      (Writes-uint8 level)
      (Codec-set_difficulty little d (record { difficulty = level }) (record { difficulty = h }))
      refl

killable_read :
    (d : Endian) (blank : EntityState) (flag : Bool) (tick : ℕ)
    → deserialize_packet d blank (set_killable_bytes flag)
      ≡ parsed (meant (killable_projectiles flag)) (header_for (killable_projectiles flag) tick)
unfolding set_killable_bytes write_set_killable_projectiles reader_for
killable_read d blank flag tick =
    delivered d blank 13 1 0 _ (deserialize_set_killable_projectiles d)
      PacketVariant.set_killable_projectiles _ ((if flag then 1 else 0) ∷ [])
      (client_header-IsHeader 13 1 0 (omega arith) (omega arith) (omega arith))
      (Writes-uint8 (if flag then 1 else 0))
      (Codec-set_killable_projectiles little d (record { enabled = if flag then 1 else 0 })
        (record { enabled = Flag-byte flag }))
      refl

-- For each of the calls by which the client connects, leaves, or sends its input, its readiness or
-- a setting, where it has a connection to send on, its arguments fit their types, and the tick fits
-- 32 bits: the call does one thing more than before, and sends bytes that DeserializePacket takes
-- for the packet that the call stands for, on a server of either byte order.
pub call-delivered :
    (d : Endian) (blank : EntityState) (r : Request) (s : ServerConnection)
    → s.current_tick < 4294967296
    → CanSend r s
    → (a : Action) × ((call r s).log ≡ s.log ++ a ∷ [])
      × (deserialize_packet d blank (sent a) ≡ parsed (meant r) (header_for r s.current_tick))
unfolding connect_to_server disconnect say_goodbye send_input send_ready_status send_game_speed
    send_difficulty send_killable_enemy_projectiles
call-delivered d blank (connect username) s t h = (
  tcp_sent (connect_req_bytes username s.current_tick),
  refl,
  connect_read d blank username s.current_tick t h,
)
call-delivered d blank goodbye s t h = (
  tcp_sent (Header.write_header 3 0 s.current_tick 0 1),
  rw (h, disconnect, say_goodbye) refl,
  goodbye_read d blank s.current_tick t,
)
call-delivered d blank (input flags) s t h = (
  udp_sent (input_bytes flags s.current_tick),
  rw (h.0, send_input) refl,
  input_read d blank flags s.current_tick t h.1,
)
call-delivered d blank (ready is_ready) s t h = (
  tcp_sent (ready_bytes is_ready),
  rw (h, send_ready_status) refl,
  ready_read d blank is_ready s.current_tick,
)
call-delivered d blank (game_speed speed) s t h = (
  tcp_sent (set_speed_bytes speed),
  rw (h.0, send_game_speed) refl,
  game_speed_read d blank speed s.current_tick h.1,
)
call-delivered d blank (difficulty level) s t h = (
  tcp_sent (set_difficulty_bytes level),
  rw (h.0, send_difficulty) refl,
  difficulty_read d blank level s.current_tick h.1,
)
call-delivered d blank (killable_projectiles enabled) s t h = (
  tcp_sent (set_killable_bytes enabled),
  rw (h, send_killable_enemy_projectiles) refl,
  killable_read d blank enabled s.current_tick,
)
