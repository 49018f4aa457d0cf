-- ===== src/Match/Input.antt =====
-- HandleUdpPlayerInput of server/src/server/ServerInputHandler.cpp. The axes of an Inputs only take
-- the values -1, 0 and 1, which stand for the floats. An address is that of Lobby/Connections.
pub mod Steering
pub mod Announcement
pub mod Senders
pub mod Entities
pub mod Outcome
use Prim.Native.Nat.{bit_and}
use r_type_j_a_m_e_s.Base.{
  ℕ, ◌+◌, Bool, true, false, not, ◌&&◌, Option, none, some, List, [], ◌∷◌, ◌==◌, if◌then◌else◌,
  get_elem?,
}
use r_type_j_a_m_e_s.Base.Int.{ℤ, pos, next, pred}
use r_type_j_a_m_e_s.Engine.SparseArray
use r_type_j_a_m_e_s.Engine.SparseArray.{SparseArray}
use r_type_j_a_m_e_s.Lobby.Connections.{
  Endpoint, ClientConnection, Clients, Manager, find_client_by_ip, find_client_by_player_id,
  update_client_udp_endpoint,
}

pub record Inputs : Type 0 where
  pub horizontal : ℤ
  pub vertical : ℤ
  pub shoot : Bool
  pub last_shoot_state : Bool

abbrev pub no_inputs : Inputs
no_inputs = record { horizontal = pos 0; vertical = pos 0; shoot = false; last_shoot_state = false }

-- What the handler reads and writes of the server: the connections, and of the registry the arrays
-- of NetworkId and Inputs.
pub record Controls : Type 0 where
  pub manager : Manager
  pub network_ids : SparseArray ℕ
  pub inputs : SparseArray Inputs

-- (input_flags & bit) != 0.
abbrev pub pressed : ℕ → ℕ → Bool
pressed input_flags bit = not (bit_and input_flags bit == 0)

-- 0.0f, with 1.0f added and taken away.
unfoldable pub axis : Bool → Bool → ℤ
unfolding next pred
axis up down =
    let raised : ℤ = if up then next (pos 0) else pos 0 in if down then pred raised else raised

unfoldable pub steer : ℕ → Inputs → Inputs
unfolding axis
steer input_flags inp = record inp {
  horizontal = axis (pressed input_flags 8) (pressed input_flags 4);
  vertical = axis (pressed input_flags 2) (pressed input_flags 1);
  shoot = pressed input_flags 16;
}

-- The client whose stored endpoint is the sender's.
unfoldable pub client_at : Endpoint → Clients → Option ClientConnection
client_at endpoint [] = none
client_at endpoint ((k, c) ∷ rest) =
    if (c.udp_endpoint.address == endpoint.address) && (c.udp_endpoint.port == endpoint.port)
    then some c
    else client_at endpoint rest

-- The loop over the network ids: the index of the entity, if there is one; `none` where the loop
-- dereferences an empty optional. `idx` is the index of the head.
unfoldable pub entity_of : ℕ → ℕ → List (Option ℕ) → Option (Option ℕ)
entity_of pid idx [] = some none
entity_of pid idx (none ∷ rest) = none
entity_of pid idx (some id ∷ rest) =
    if id == pid then some (some idx) else entity_of pid (idx + 1) rest

-- An entity that has no Inputs gets them.
unfoldable pub ensure_inputs : ℕ → SparseArray Inputs → SparseArray Inputs
unfolding SparseArray.has SparseArray.insert_at
ensure_inputs i inputs =
    if SparseArray.has inputs i then inputs else SparseArray.insert_at inputs i no_inputs

-- The write to `maybe_inp`.
unfoldable pub write_inputs : ℕ → ℕ → Controls → Option Inputs → Bool × Controls
unfolding steer SparseArray.emplace_at
write_inputs input_flags i s none = (false, s)
write_inputs input_flags i s (some inp) =
    (true, record s { inputs = SparseArray.emplace_at s.inputs i (steer input_flags inp) })

unfoldable pub set_inputs : ℕ → Controls → Option ℕ → Bool × Controls
unfolding ensure_inputs write_inputs SparseArray.value_at
set_inputs input_flags s none = (false, s)
set_inputs input_flags s (some i) =
    let ensured = ensure_inputs i s.inputs in
    write_inputs input_flags i (record s { inputs = ensured }) (SparseArray.value_at ensured i)

-- The handler behind the choice of the client.
unfoldable pub input_of : ℕ → Controls → Option ClientConnection → Option (Bool × Controls)
unfolding entity_of set_inputs
input_of input_flags s none = some (false, s)
input_of input_flags s (some c) =
    if c.player_id == 0
    then some (false, s)
    else elim (entity_of c.player_id 0 s.network_ids.cells) [
      | none ↦ none
      | some found ↦ some (set_inputs input_flags s found)
    ]

module _ (remote : ℕ → Option Endpoint) (server_port : ℕ) where
  -- The client that a payload announces the port of.
  unfoldable pub discovered : ℕ → Endpoint → Manager → Option ℕ
  unfolding find_client_by_player_id
  discovered payload endpoint m =
      if payload == 0 then none else elim (find_client_by_player_id payload m.clients) [
        | none ↦ none
        | some conn ↦
            if (conn.udp_endpoint.port == server_port) && not (endpoint.port == server_port)
            then some conn.client_id
            else none
      ]

  unfoldable pub sender : Endpoint → Clients → Option ClientConnection
  unfolding client_at find_client_by_ip
  sender endpoint clients = elim (client_at endpoint clients) [
    | some c ↦ some c
    | none ↦ find_client_by_ip remote endpoint.address clients
  ]

  unfoldable pub handle_payload : ℕ → Endpoint → Controls → Option (Bool × Controls)
  unfolding discovered sender input_of update_client_udp_endpoint
  handle_payload payload endpoint s = elim (discovered payload endpoint s.manager) [
    | some id ↦ some (true, record s { manager = update_client_udp_endpoint id endpoint s.manager })
    | none ↦ input_of payload s (sender endpoint s.manager.clients)
  ]

  -- `none` also where `data` is shorter than the caller makes sure of.
  unfoldable pub handle_udp_player_input : Endpoint → List ℕ → Controls → Option (Bool × Controls)
  unfolding handle_payload
  handle_udp_player_input endpoint datagram s = elim (get_elem? datagram 12) [
    | none ↦ none
    | some payload ↦ handle_payload payload endpoint s
  ]
