-- ===== src/Client/Stream/Notices.antt =====
-- The messages of PacketSender (server/src/server/PacketSender.cpp) that the client knows, and what
-- each is to do to the client's state.
use r_type_j_a_m_e_s.Base.{
  ℕ, ◌+◌, ◌/◌, ◌%◌, ◌≤◌, ◌<◌, true, false, List, [], ◌∷◌, ◌++◌, map, ◌==◌, length, if◌then◌else◌,
}
use r_type_j_a_m_e_s.Wire.Endian.{Endian}
use r_type_j_a_m_e_s.Wire.Packets.Session.{
  ConnectAckPacket, IsConnectAck, serialize_connect_ack, NotifyDisconnectPacket, IsNotifyDisconnect,
  serialize_notify_disconnect, GameStartPacket, IsGameStart, serialize_game_start,
}
use r_type_j_a_m_e_s.Wire.Packets.Lobby.{
  NotifyConnectPacket, IsNotifyConnect, serialize_notify_connect, NotifyReadyPacket, IsNotifyReady,
  serialize_notify_ready,
}
use r_type_j_a_m_e_s.Wire.Packets.Score.{GameEndPacket, IsGameEnd, serialize_game_end}
use r_type_j_a_m_e_s.Lobby.Sender.{data_of, game_speed_bytes}
use r_type_j_a_m_e_s.Client.State.{ServerConnection, tcp_sent, udp_sent, game_speed_changed}
use r_type_j_a_m_e_s.Client.Stream.Entries.{shown}

-- The messages that PacketSender sends and the client knows, but those whose layout is foreign.
pub data Notice : Type 0 where
  connect_ack : ConnectAckPacket → Notice
  game_start : GameStartPacket → Notice
  game_end : GameEndPacket → Notice
  notify_disconnect : NotifyDisconnectPacket → Notice
  notify_connect : NotifyConnectPacket → Notice
  notify_ready : NotifyReadyPacket → Notice
  notify_game_speed : ℕ → Notice

-- The bytes that the server sends.
abbrev pub noticed : Endian → Notice → List ℕ
noticed e (connect_ack p) = data_of (serialize_connect_ack e p)
noticed e (game_start p) = data_of (serialize_game_start e p)
noticed e (game_end p) = data_of (serialize_game_end e p)
noticed e (notify_disconnect p) = data_of (serialize_notify_disconnect e p)
noticed e (notify_connect p) = data_of (serialize_notify_connect e p)
noticed e (notify_ready p) = data_of (serialize_notify_ready e p)
noticed e (notify_game_speed speed) = game_speed_bytes speed

-- The members fit their types. There are at most twelve entries on a leaderboard.
abbrev pub IsNotice : Notice → Type 0
IsNotice (connect_ack p) = IsConnectAck p
IsNotice (game_start p) = IsGameStart p
IsNotice (game_end p) = IsGameEnd p × (length p.leaderboard ≤ 12)
IsNotice (notify_disconnect p) = IsNotifyDisconnect p
IsNotice (notify_connect p) = IsNotifyConnect p
IsNotice (notify_ready p) = IsNotifyReady p
IsNotice (notify_game_speed speed) = speed < 4294967296

-- A header as the client is to send it, little endian: the opcode, the payload size in two bytes,
-- the fragment 0, the tick in four bytes, one fragment, and three bytes of zero.
abbrev pub headed : ℕ → ℕ → ℕ → List ℕ
headed opcode payload_size tick =
    opcode
    ∷ payload_size % 256
    ∷ payload_size / 256 % 256
    ∷ 0
    ∷ tick % 256
    ∷ tick / 256 % 256
    ∷ tick / 65536 % 256
    ∷ tick / 16777216 % 256
    ∷ 1
    ∷ 0
    ∷ 0
    ∷ 0
    ∷ []

-- The client that the server has let in: it is the player that the message names, knows the lobby,
-- and, if it has a UDP socket, sends a PLAYER_INPUT with its id on it, which tells its port.
abbrev pub let_in : ConnectAckPacket → ServerConnection → ServerConnection
let_in p s = record s {
  player_id = p.player_id;
  connected = true;
  was_connected_once = true;
  lobby_connected_count = p.connected_players;
  lobby_ready_count = p.ready_players;
  lobby_max_players = p.max_players;
  log =
      if s.udp_open
      then s.log ++ udp_sent (headed 16 4 s.current_tick ++ p.player_id ∷ 0 ∷ 0 ∷ 0 ∷ []) ∷ []
      else s.log;
}

-- The client that the server has refused: it keeps the reason, says DISCONNECT_REQ, if its TCP
-- socket is open, and has no connection.
abbrev pub turned_away : ConnectAckPacket → ServerConnection → ServerConnection
turned_away p s = record s {
  last_rejection_status = p.status;
  udp_open = false;
  tcp_open = false;
  connected = false;
  log = if s.tcp_open then s.log ++ tcp_sent (headed 3 0 s.current_tick) ∷ [] else s.log;
}

-- What a message is to do to the client's state.
abbrev pub heeded : Notice → ServerConnection → ServerConnection
heeded (connect_ack p) s = if p.status == 0 then let_in p s else turned_away p s
heeded (game_start p) s = record s {
  controlled_entity_id = p.controlled_entity_id;
  game_started = true;
  game_ended = false;
}
heeded (game_end p) s = record s {
  winning_player_id = p.winning_player_id;
  game_mode = p.game_mode;
  game_ended = true;
  game_started = false;
  lobby_ready_count = 0;
  is_local_player_ready = false;
  leaderboard = map shown p.leaderboard;
}
heeded (notify_disconnect p) s =
    if p.player_id == s.player_id
    then s
    else record s { lobby_connected_count = (s.lobby_connected_count + 255) % 256 }
heeded (notify_connect p) s =
    if p.player_id == s.player_id
    then s
    else record s { lobby_connected_count = (s.lobby_connected_count + 1) % 256 }
heeded (notify_ready p) s = record s {
  lobby_ready_count =
      if p.is_ready == 0
      then (s.lobby_ready_count + 255) % 256
      else (s.lobby_ready_count + 1) % 256;
}
heeded (notify_game_speed speed) s =
    if s.on_game_speed_changed then record s { log = s.log ++ game_speed_changed speed ∷ [] } else s
