-- ===== src/Tests/Lobby.antt =====
-- The connection manager with a few clients.
use r_type_j_a_m_e_s.Base.{
  ℕ, ◌≤◌, ◌≡◌, refl, ◌↔◌, Bool, true, false, Option, some, List, [], ◌∷◌, arith, In,
}
use r_type_j_a_m_e_s.Lobby.Connections.{
  Endpoint, ClientConnection, Manager, new_manager, authenticate_client, assign_player_id,
  authenticated_count, all_players_ready, has_client, set_ready, find,
}
use r_type_j_a_m_e_s.Lobby.Connections.Ids.{player_ids, assign_player_id-free}
use r_type_j_a_m_e_s.Lobby.Connections.Invariant.{Inv}
use r_type_j_a_m_e_s.Lobby.Connections.Authentication.{Outcome, authenticate_client-Outcome}
use r_type_j_a_m_e_s.Lobby.Connections.Histories.{adds, authenticates, calls, calls-new_manager-Inv}
use r_type_j_a_m_e_s.Lobby.Connections.Ready.{PlayersReady, all_players_ready-PlayersReady}
use r_type_j_a_m_e_s.Wire.Names.{get_name}
use r_type_j_a_m_e_s.Lobby.Handler.{
  Room, trim, handle_connect_req, handle_ready_status, find_first_not_of, find_last_not_of,
}
use r_type_j_a_m_e_s.Lobby.Handler.Connecting.{Answer, handle_connect_req-Answer}
use r_type_j_a_m_e_s.Lobby.Handler.Readiness.{Progress, handle_ready_status-Progress}

abbrev remote : ℕ → Option Endpoint
remote socket = some (record { address = socket; port = 40000 })

abbrev client : ℕ → ℕ → List ℕ → Bool → ClientConnection
client id player name ready = record {
  client_id = id;
  player_id = player;
  tcp_socket = id;
  udp_endpoint = record { address = id; port = 50000 };
  last_activity = 0;
  username = name;
  ready = ready;
}

-- A player, and a client that is not one yet.
abbrev two_clients : Manager
two_clients = record {
  clients = (2, client 2 0 [] false) ∷ (1, client 1 1 (97 ∷ []) true) ∷ [];
  next_client_id = 3;
  next_player_id = 1;
  max_clients = 4;
  server_udp_port = 50000;
}

two_clients-Inv : Inv two_clients
unfolding authenticated_count
two_clients-Inv = record {
  roster = record {
    keyed = (refl, (refl, tt));
    keys_distinct = (λ m. ground arith, (λ m. m, tt));
    ids_distinct = (λ m. m, tt);
    ids_range = λ p m. ground arith;
    names_distinct = (λ m. m, tt);
    capacity = omega arith;
  };
  limit = omega arith;
  next_lo = omega arith;
  next_hi = omega arith;
}

-- The id 1 is taken, and the id 2 is given.
assign_player_id_run : assign_player_id two_clients ≡ some (2, 3)
unfolding assign_player_id
assign_player_id_run = refl

assign_player_id-free_example :
    (p : ℕ) × (q : ℕ) × (assign_player_id two_clients ≡ some (p, q))
    × (1 ≤ p)
    × (p ≤ 255)
    × ¬ (In p (player_ids two_clients.clients))
    × (1 ≤ q)
    × (q ≤ 255)
unfolding authenticated_count
assign_player_id-free_example =
    assign_player_id-free two_clients (omega arith) (omega arith) (omega arith)

authenticate_client-Outcome_example :
    (player : ℕ) × (m' : Manager) × (authenticate_client 2 (98 ∷ []) two_clients
      ≡ some (player, m'))
    × Outcome 2 (98 ∷ []) two_clients player m'
    × Inv m'
authenticate_client-Outcome_example =
    authenticate_client-Outcome 2 (98 ∷ []) two_clients two_clients-Inv

calls-new_manager-Inv_example :
    (m : Manager) × (calls remote
        (new_manager 4 50000)
        (adds 0 7 ∷ adds 0 8 ∷ authenticates 1 (97 ∷ []) ∷ authenticates 2 (97 ∷ []) ∷ [])
      ≡ some m)
    × Inv m
calls-new_manager-Inv_example =
    calls-new_manager-Inv remote 4 50000
      (adds 0 7 ∷ adds 0 8 ∷ authenticates 1 (97 ∷ []) ∷ authenticates 2 (97 ∷ []) ∷ [])
      (omega arith)

all_players_ready-PlayersReady_example :
    (all_players_ready two_clients.clients ≡ true) ↔ PlayersReady two_clients.clients
all_players_ready-PlayersReady_example = all_players_ready-PlayersReady two_clients.clients

-- " a", a tab.
abbrev padded_name : List ℕ
padded_name = 32 ∷ 97 ∷ 9 ∷ []

trim_run : trim padded_name ≡ 97 ∷ []
unfolding trim find_first_not_of find_last_not_of
trim_run = refl

abbrev waiting : Room
waiting = record { manager = two_clients; running = false; sent = [] }

-- The second client asks for a name of one letter.
handle_connect_req-Answer_example :
    (r' : Room) × (handle_connect_req
        (client 2 0 [] false)
        (record { username = 32 ∷ 98 ∷ 0 ∷ [] })
        waiting
      ≡ some r')
    × Answer (client 2 0 [] false) (trim (get_name (32 ∷ 98 ∷ 0 ∷ []))) waiting r'
    × Inv r'.manager
unfolding has_client find
handle_connect_req-Answer_example =
    handle_connect_req-Answer (client 2 0 [] false) (record { username = 32 ∷ 98 ∷ 0 ∷ [] }) waiting
      two_clients-Inv refl

handle_ready_status-Progress_example :
    let r' =
      handle_ready_status
        (client 1 1 (97 ∷ []) true)
        (record { is_ready = 1; reserved = 0 ∷ 0 ∷ 0 ∷ [] })
        waiting in
    (r'.manager ≡ set_ready 1 true two_clients)
    × Progress (client 1 1 (97 ∷ []) true) true waiting r'
handle_ready_status-Progress_example =
    handle_ready_status-Progress (client 1 1 (97 ∷ []) true)
      (record { is_ready = 1; reserved = 0 ∷ 0 ∷ 0 ∷ [] }) waiting (λ e. omega (arith, e))
