-- ===== src/Lobby/Handler.antt =====
-- PacketHandler of server/src/server/PacketHandler.cpp: the handlers of CONNECT_REQ and
-- READY_STATUS, over the connection manager, the flag that Server::IsGameRunning gives, and the log
-- of the calls that leave the handler, the newest first.
pub mod Trim
pub mod Connecting
pub mod Readiness
use r_type_j_a_m_e_s.Base.{
  ℕ, suc, ◌+◌, ◌-◌, Bool, true, false, not, ◌&&◌, ◌||◌, Option, none, some, List, [], ◌∷◌, ◌==◌,
  take, drop, if◌then◌else◌,
}
use r_type_j_a_m_e_s.Wire.Names.{get_name}
use r_type_j_a_m_e_s.Wire.Packets.Session.{ConnectReqPacket}
use r_type_j_a_m_e_s.Wire.Packets.Lobby.{ReadyStatusPacket}
use r_type_j_a_m_e_s.Lobby.Connections.{
  ClientConnection, Manager, is_username_taken, is_full, authenticate_client, all_players_ready,
  set_ready,
}

-- Calls of PacketSender, with their arguments; and the rest of Server::Start behind its flag, which
-- clears the registry and sets the entities and the timer up.
pub data Message : Type 0 where
  connect_ack : ℕ → ℕ → ℕ → Message
  notify_connect : ℕ → List ℕ → Message
  notify_ready : ℕ → Bool → Message
  game_start : Message
  match_set_up : Message

pub record Room : Type 0 where
  pub manager : Manager
  pub running : Bool
  pub sent : List Message

-- ConnectAckPacket::Status.
abbrev pub ok : ℕ
ok = 0

abbrev pub server_full : ℕ
server_full = 1

abbrev pub bad_username : ℕ
bad_username = 2

abbrev pub in_game : ℕ
in_game = 3

-- The default whitespace of Trim: a space or a tab.
abbrev pub is_blank : ℕ → Bool
is_blank c = (c == 32) || (c == 9)

-- std::string::find_first_not_of and find_last_not_of; `none` is npos.
unfoldable pub find_first_not_of : List ℕ → Option ℕ
find_first_not_of [] = none
find_first_not_of (c ∷ cs) =
    if is_blank c
    then elim (find_first_not_of cs) [ some i ↦ some (suc i) | none ↦ none ]
    else some 0

unfoldable pub find_last_not_of : List ℕ → Option ℕ
find_last_not_of [] = none
find_last_not_of (c ∷ cs) = elim (find_last_not_of cs) [
  | some i ↦ some (suc i)
  | none ↦ if is_blank c then none else some 0
]

-- Trim. Where the first search finds something, so does the last.
unfoldable pub trim : List ℕ → List ℕ
unfolding find_first_not_of find_last_not_of
trim str = elim (find_first_not_of str) [
  | none ↦ []
  | some first ↦ elim (find_last_not_of str) [
    | none ↦ []
    | some last ↦ take (last - first + 1) (drop first str)
  ]
]

-- username.find_first_not_of('\0') == npos, which an empty name satisfies too.
unfoldable pub all_nul : List ℕ → Bool
all_nul [] = true
all_nul (c ∷ cs) = (c == 0) && all_nul cs

abbrev pub reject : ClientConnection → ℕ → Room → Room
reject c status r = record r { sent = connect_ack c.client_id status 0 ∷ r.sent }

-- The end of HandleConnectReq, with what AuthenticateClient gives; `none` is its exception.
unfoldable pub answer : ClientConnection → List ℕ → Room → Option (ℕ × Manager) → Option Room
answer c username r none = none
answer c username r (some (player, m)) =
    if player == 0
    then some (reject c bad_username (record r { manager = m }))
    else some (record r {
      manager = m;
      sent = notify_connect player username ∷ connect_ack c.client_id ok player ∷ r.sent;
    })

-- HandleConnectReq behind the trimming of the name.
unfoldable pub connect_as : ClientConnection → List ℕ → Room → Option Room
unfolding all_nul answer
connect_as c username r =
    if r.running
    then some (reject c in_game r)
    else if all_nul username
    then some (reject c bad_username r)
    else if is_username_taken username r.manager.clients
    then some (reject c bad_username r)
    else if is_full r.manager
    then some (reject c server_full r)
    else answer c username r (authenticate_client c.client_id username r.manager)

unfoldable pub handle_connect_req : ClientConnection → ConnectReqPacket → Room → Option Room
unfolding connect_as trim
handle_connect_req c packet r = connect_as c (trim (get_name packet.username)) r

-- Server::Start, the callback on_game_start_.
unfoldable pub start : Room → Room
start r = if r.running then r else record r { running = true; sent = match_set_up ∷ r.sent }

abbrev pub notify_game_start : Room → Room
notify_game_start r = record r { sent = game_start ∷ r.sent }

-- HandleReadyStatus: the write of the flag and its broadcast.
unfoldable pub mark_ready : ClientConnection → Bool → Room → Room
mark_ready c ready r = record r {
  manager = set_ready c.client_id ready r.manager;
  sent = notify_ready c.player_id ready ∷ r.sent;
}

unfoldable pub handle_ready_status : ClientConnection → ReadyStatusPacket → Room → Room
unfolding start mark_ready
handle_ready_status c packet r =
    let marked = mark_ready c (not (packet.is_ready == 0)) r in
    if c.player_id == 0
    then r
    else if all_players_ready marked.manager.clients
    then notify_game_start (start marked)
    else marked
