-- ===== src/Tests/Input.antt =====
-- A player's input over UDP.
use r_type_j_a_m_e_s.Base.{ℕ, ◌≡◌, refl, true, false, Option, none, some, List, [], ◌∷◌}
use r_type_j_a_m_e_s.Lobby.Connections.{Endpoint, ClientConnection}
use r_type_j_a_m_e_s.Match.Input.{Controls, handle_udp_player_input}
use r_type_j_a_m_e_s.Base.Int.{pos, negsuc}
use r_type_j_a_m_e_s.Match.Input.Outcome.{Outcome, handle_udp_player_input-Outcome}

-- The player 2, whose port is known, and whose entity is the first and has no inputs yet.
abbrev pilot : ClientConnection
pilot = record {
  client_id = 1;
  player_id = 2;
  tcp_socket = 4;
  udp_endpoint = record { address = 5; port = 9 };
  last_activity = 0;
  username = 65 ∷ [];
  ready = true;
}

abbrev controls : Controls
controls = record {
  manager = record {
    clients = (1, pilot) ∷ [];
    next_client_id = 2;
    next_player_id = 3;
    max_clients = 4;
    server_udp_port = 50000;
  };
  network_ids = record { cells = some 2 ∷ [] };
  inputs = record { cells = [] };
}

abbrev no_socket : ℕ → Option Endpoint
no_socket handle = none

-- Twelve bytes of header, then up and shoot.
abbrev up_and_shoot : List ℕ
up_and_shoot = 16 ∷ 4 ∷ 0 ∷ 0 ∷ 0 ∷ 0 ∷ 0 ∷ 0 ∷ 0 ∷ 0 ∷ 0 ∷ 0 ∷ 17 ∷ 0 ∷ 0 ∷ 0 ∷ []

handle_udp_player_input-Outcome_example :
    Outcome no_socket 50000 pilot.udp_endpoint 17 controls
      (handle_udp_player_input no_socket 50000 pilot.udp_endpoint up_and_shoot controls)
handle_udp_player_input-Outcome_example =
    handle_udp_player_input-Outcome no_socket 50000 pilot.udp_endpoint 17 controls up_and_shoot refl

-- The entity flies up and shoots.
flown :
    handle_udp_player_input no_socket 50000 pilot.udp_endpoint up_and_shoot controls
    ≡ some (
      true,
      record controls {
        inputs = record {
          cells =
              some (record {
                horizontal = pos 0;
                vertical = negsuc 0;
                shoot = true;
                last_shoot_state = false;
              })
              ∷ [];
        };
      },
    )
unfolding handle_udp_player_input
flown = refl
