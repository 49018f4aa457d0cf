-- ===== src/Tests/Sender.antt =====
-- What is sent to two players and a client that is none.
use r_type_j_a_m_e_s.Base.{ℕ, ◌≤◌, ◌≡◌, refl, true, false, List, [], ◌∷◌, arith, In}
use r_type_j_a_m_e_s.Wire.Endian.{big}
use r_type_j_a_m_e_s.Lobby.Connections.{ClientConnection, Clients, Manager}
use r_type_j_a_m_e_s.Lobby.Connections.Ids.{player_ids}
use r_type_j_a_m_e_s.Lobby.Sender.{send_connect_ack, send_game_start, send_notify_disconnect}
use r_type_j_a_m_e_s.Client.State.{ServerConnection}
use r_type_j_a_m_e_s.Client.Stream.Notices.{turned_away}
use r_type_j_a_m_e_s.Client.Stream.Deliveries.{
  told, resumes, heard, plays, sees_leave, heard-send_game_start, heard-send_notify_disconnect,
  heard-send_connect_ack,
}

abbrev connection : ℕ → ℕ → ClientConnection
connection socket player = record {
  client_id = socket;
  player_id = player;
  tcp_socket = socket;
  udp_endpoint = record { address = socket; port = 50000 };
  last_activity = 0;
  username = [];
  ready = true;
}

abbrev three : Clients
three = (1, connection 1 4) ∷ (2, connection 2 0) ∷ (3, connection 3 9) ∷ []

three_ids : (p : ℕ) → In p (player_ids three) → p ≤ 255
three_ids p m = ground arith

-- The clients at the other ends, whose own ids are the sockets'.
abbrev client : ℕ → ServerConnection
client socket = record {
  on_game_speed_changed = false;
  on_difficulty_changed = false;
  on_killable_projectiles_changed = false;
  udp_open = true;
  tcp_open = true;
  connected = true;
  player_id = socket;
  game_started = false;
  game_ended = false;
  winning_player_id = 0;
  game_mode = 0;
  was_connected_once = true;
  current_tick = 0;
  controlled_entity_id = 0;
  leaderboard = [];
  lobby_connected_count = 2;
  lobby_ready_count = 1;
  lobby_max_players = 4;
  is_local_player_ready = false;
  last_rejection_status = 0;
  snapshot_queue = [];
  log = [];
}

abbrev nothing : ℕ → List ℕ
nothing socket = []

all_open : (socket : ℕ) → (client socket).tcp_open ≡ true
all_open socket = refl

heard-send_game_start_example :
    heard client nothing all_open (send_game_start big three)
    ≡ resumes client nothing all_open 1 (plays client nothing all_open 4 (client 1))
      ∷ resumes client nothing all_open 3 (plays client nothing all_open 9 (client 3))
      ∷ []
heard-send_game_start_example = heard-send_game_start client nothing all_open big three three_ids

heard-send_notify_disconnect_example :
    heard client nothing all_open (send_notify_disconnect big 4 three)
    ≡ resumes client nothing all_open 3 (sees_leave client nothing all_open 4 (client 3)) ∷ []
heard-send_notify_disconnect_example =
    heard-send_notify_disconnect client nothing all_open big 4 three (omega arith)

abbrev host : Manager
host = record {
  clients = three;
  next_client_id = 4;
  next_player_id = 10;
  max_clients = 4;
  server_udp_port = 50000;
}

-- The second client is told that the server is full.
heard-send_connect_ack_example :
    heard client nothing all_open (send_connect_ack big host (connection 2 0) 1 0 ∷ [])
    ≡ resumes client nothing all_open 2 (turned_away (told host 1 0) (client 2)) ∷ []
heard-send_connect_ack_example =
    heard-send_connect_ack client nothing all_open big host (connection 2 0) 1 0 (omega arith)
      (omega arith) (omega arith)
