-- ===== src/Lobby/Sender.antt =====
-- PacketSender of server/src/server/PacketSender.cpp, for the packets that go over TCP. A delivery
-- is the socket and the bytes that async_send is called with; `e` is the byte order of the server.
use r_type_j_a_m_e_s.Base.{ℕ, suc, ◌/◌, ◌%◌, Bool, ◌&&◌, List, [], ◌∷◌, ◌==◌, length, if◌then◌else◌}
use r_type_j_a_m_e_s.Wire.Endian.{Endian}
use r_type_j_a_m_e_s.Wire.Buffer.{Writer, of_data}
use r_type_j_a_m_e_s.Wire.Fields.{PacketType, code}
use r_type_j_a_m_e_s.Wire.Names.{notify_name}
use r_type_j_a_m_e_s.Wire.Packets.Session.{
  ConnectAckPacket, serialize_connect_ack, serialize_notify_disconnect, serialize_game_start,
}
use r_type_j_a_m_e_s.Wire.Packets.Lobby.{serialize_notify_connect, serialize_notify_ready}
use r_type_j_a_m_e_s.Wire.Packets.Score.{PlayerScoreData, serialize_game_end}
use r_type_j_a_m_e_s.Lobby.Connections.{
  ClientConnection, Clients, Manager, is_authenticated, authenticated_count,
}

abbrev pub Delivery : Type 0
Delivery = ℕ × List ℕ

-- PacketBuffer buffer; packet.Serialize(buffer); buffer.Data().
abbrev pub data_of : Writer → List ℕ
data_of w = (w (of_data [])).buffer

-- The loop that sends to the authenticated clients.
unfoldable pub to_players : List ℕ → Clients → List Delivery
to_players bytes [] = []
to_players bytes ((k, c) ∷ rest) =
    if c.player_id == 0
    then to_players bytes rest
    else (c.tcp_socket, bytes) ∷ to_players bytes rest

-- The same, which leaves out one player too.
unfoldable pub to_others : ℕ → List ℕ → Clients → List Delivery
to_others player bytes [] = []
to_others player bytes ((k, c) ∷ rest) =
    if c.player_id == 0
    then to_others player bytes rest
    else if c.player_id == player
    then to_others player bytes rest
    else (c.tcp_socket, bytes) ∷ to_others player bytes rest

unfoldable pub ready_count : Clients → ℕ
ready_count [] = 0
ready_count ((k, c) ∷ rest) =
    if is_authenticated c && c.ready then suc (ready_count rest) else ready_count rest

-- SendConnectAck. The two counters are of eight bits.
unfoldable pub ack_packet : Manager → ℕ → ℕ → ConnectAckPacket
unfolding authenticated_count ready_count
ack_packet m status player = record {
  player_id = player;
  status = status;
  connected_players = authenticated_count m.clients % 256;
  ready_players = ready_count m.clients % 256;
  max_players = m.max_clients;
  min_players = 1;
  reserved = 0;
}

unfoldable pub send_connect_ack : Endian → Manager → ClientConnection → ℕ → ℕ → Delivery
unfolding ack_packet
send_connect_ack e m c status player =
    (c.tcp_socket, data_of (serialize_connect_ack e (ack_packet m status player)))

-- SendGameStart: each player is told its own id as that of its entity.
unfoldable pub send_game_start : Endian → Clients → List Delivery
send_game_start e [] = []
send_game_start e ((k, c) ∷ rest) =
    if c.player_id == 0
    then send_game_start e rest
    else (
      c.tcp_socket,
      data_of (serialize_game_start e (record { controlled_entity_id = c.player_id })),
    )
      ∷ send_game_start e rest

unfoldable pub send_game_end : Endian → ℕ → ℕ → List PlayerScoreData → Clients → List Delivery
unfolding to_players
send_game_end e winner mode leaderboard l =
    to_players
      (data_of (
        serialize_game_end e (record {
          winning_player_id = winner;
          game_mode = mode;
          player_count = length leaderboard % 256;
          reserved = 0 ∷ 0 ∷ 0 ∷ 0 ∷ 0 ∷ [];
          leaderboard = leaderboard;
        })))
      l

unfoldable pub send_notify_connect : Endian → ℕ → List ℕ → Clients → List Delivery
unfolding to_others notify_name
send_notify_connect e player username l =
    to_others player
      (data_of (
        serialize_notify_connect e (record {
          player_id = player;
          reserved = 0 ∷ 0 ∷ 0 ∷ [];
          username = notify_name username;
        })))
      l

unfoldable pub send_notify_ready : Endian → ℕ → Bool → Clients → List Delivery
unfolding to_players
send_notify_ready e player ready l =
    to_players
      (data_of (
        serialize_notify_ready e (record {
          player_id = player;
          is_ready = if ready then 1 else 0;
          reserved = 0 ∷ 0 ∷ [];
        })))
      l

unfoldable pub send_notify_disconnect : Endian → ℕ → Clients → List Delivery
unfolding to_others
send_notify_disconnect e player l =
    to_others player
      (data_of
        (serialize_notify_disconnect e (record { player_id = player; reserved = 0 ∷ 0 ∷ 0 ∷ [] })))
      l

-- The three notifications that are written byte by byte.
unfoldable pub game_speed_bytes : ℕ → List ℕ
game_speed_bytes speed =
    code PacketType.notify_game_speed
    ∷ 4
    ∷ 0
    ∷ 0
    ∷ 0
    ∷ 0
    ∷ 0
    ∷ 0
    ∷ 0
    ∷ 0
    ∷ 0
    ∷ 0
    ∷ speed % 256
    ∷ (speed / 256) % 256
    ∷ (speed / 65536) % 256
    ∷ (speed / 16777216) % 256
    ∷ []

unfoldable pub send_notify_game_speed : ℕ → Clients → List Delivery
unfolding to_players game_speed_bytes
send_notify_game_speed speed l = to_players (game_speed_bytes speed) l

unfoldable pub difficulty_bytes : ℕ → List ℕ
difficulty_bytes difficulty =
    0x52 ∷ 0x54 ∷ 0 ∷ 0 ∷ 0 ∷ 0 ∷ 0x0c ∷ 0 ∷ 1 ∷ 0 ∷ 0 ∷ 0 ∷ difficulty ∷ []

unfoldable pub send_notify_difficulty : ℕ → Clients → List Delivery
unfolding to_players difficulty_bytes
send_notify_difficulty difficulty l = to_players (difficulty_bytes difficulty) l

unfoldable pub killable_projectiles_bytes : Bool → List ℕ
killable_projectiles_bytes enabled =
    0x52 ∷ 0x54 ∷ 0 ∷ 0 ∷ 0 ∷ 0 ∷ 0x0d ∷ 0 ∷ 1 ∷ 0 ∷ 0 ∷ 0 ∷ (if enabled then 1 else 0) ∷ []

unfoldable pub send_notify_killable_projectiles : Bool → Clients → List Delivery
unfolding to_players killable_projectiles_bytes
send_notify_killable_projectiles enabled l = to_players (killable_projectiles_bytes enabled) l
