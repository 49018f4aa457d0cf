-- ===== src/Lobby/Connections.antt =====
-- ClientConnectionManager of server/src/server/ClientConnectionManager.cpp and
-- server/include/server/ClientConnectionManager.hpp. The map of clients is an association list in
-- the order of its iteration. A socket is a handle; `remote` is its remote_endpoint(), `none` where
-- that throws. A text is the list of its bytes. What is only printed is left out.
pub mod Ids
pub mod Entries
pub mod Invariant
pub mod Authentication
pub mod Histories
pub mod Ready
pub mod Lookup
use r_type_j_a_m_e_s.Base.{
  ℕ, zero, suc, ◌+◌, ◌%◌, Bool, true, false, not, ◌&&◌, Option, none, some, List, [], ◌∷◌, ◌==◌,
  leb, ltb, if◌then◌else◌,
}

pub record Endpoint : Type 0 where
  pub address : ℕ
  pub port : ℕ

pub record ClientConnection : Type 0 where
  pub client_id : ℕ
  pub player_id : ℕ
  pub tcp_socket : ℕ
  pub udp_endpoint : Endpoint
  pub last_activity : ℕ
  pub username : List ℕ
  pub ready : Bool

abbrev pub Clients : Type 0
Clients = List (ℕ × ClientConnection)

pub record Manager : Type 0 where
  pub clients : Clients
  pub next_client_id : ℕ
  pub next_player_id : ℕ
  pub max_clients : ℕ
  pub server_udp_port : ℕ

-- std::string's operator==.
unfoldable pub eq_bytes : List ℕ → List ℕ → Bool
eq_bytes [] [] = true
eq_bytes (x ∷ xs) (y ∷ ys) = (x == y) && eq_bytes xs ys
eq_bytes _ _ = false

-- The constructor of ClientConnection: the client's address with the server's port, or the invalid
-- endpoint where the socket has no remote one.
unfoldable pub default_endpoint : Option Endpoint → ℕ → Endpoint
default_endpoint (some e) port = record e { port = port }
default_endpoint none port = record { address = 0; port = 0 }

unfoldable pub new_connection : (ℕ → Option Endpoint) → ℕ → ℕ → ℕ → ℕ → ℕ → ClientConnection
unfolding default_endpoint
new_connection remote now cid pid socket port = record {
  client_id = cid;
  player_id = pid;
  tcp_socket = socket;
  udp_endpoint = default_endpoint (remote socket) port;
  last_activity = now;
  username = [];
  ready = false;
}

-- ClientConnection::IsAuthenticated.
abbrev pub is_authenticated : ClientConnection → Bool
is_authenticated c = not (c.player_id == 0)

unfoldable pub new_manager : ℕ → ℕ → Manager
new_manager max_clients port = record {
  clients = [];
  next_client_id = 1;
  next_player_id = 1;
  max_clients = max_clients;
  server_udp_port = port;
}

-- clients_.find, and a write through the iterator that it returns.
unfoldable pub find : ℕ → Clients → Option ClientConnection
find id [] = none
find id ((k, c) ∷ rest) = if k == id then some c else find id rest

unfoldable pub update : ℕ → (ClientConnection → ClientConnection) → Clients → Clients
update id f [] = []
update id f ((k, c) ∷ rest) = if k == id then (k, f c) ∷ rest else (k, c) ∷ update id f rest

-- clients_.emplace: a key that is there keeps its value.
unfoldable pub emplace : ℕ → ClientConnection → Clients → Clients
unfolding find
emplace id c clients = elim (find id clients) [ some _ ↦ clients | none ↦ (id, c) ∷ clients ]

unfoldable pub erase : ℕ → Clients → Clients
erase id [] = []
erase id ((k, c) ∷ rest) = if k == id then rest else (k, c) ∷ erase id rest

-- AssignClientId and AddClient: the new client's id with the new state.
unfoldable pub add_client : (ℕ → Option Endpoint) → ℕ → ℕ → Manager → ℕ × Manager
unfolding new_connection emplace
add_client remote now socket m = (
  m.next_client_id,
  record m {
    clients =
        emplace m.next_client_id
          (new_connection remote now m.next_client_id 0 socket m.server_udp_port) m.clients;
    next_client_id = (m.next_client_id + 1) % 4294967296;
  },
)

unfoldable pub has_client : ℕ → Manager → Bool
unfolding find
has_client id m = elim (find id m.clients) [ some _ ↦ true | none ↦ false ]

-- GetClient; `none` is the std::out_of_range of `at`.
unfoldable pub get_client : ℕ → Manager → Option ClientConnection
unfolding find
get_client id m = find id m.clients

unfoldable pub is_username_taken : List ℕ → Clients → Bool
unfolding eq_bytes
is_username_taken name [] = false
is_username_taken name ((k, c) ∷ rest) =
    if is_authenticated c && eq_bytes c.username name then true else is_username_taken name rest

unfoldable pub authenticated_count : Clients → ℕ
authenticated_count [] = 0
authenticated_count ((k, c) ∷ rest) =
    if is_authenticated c then suc (authenticated_count rest) else authenticated_count rest

unfoldable pub is_full : Manager → Bool
unfolding authenticated_count
is_full m = leb m.max_clients (authenticated_count m.clients)

-- The loop of AllPlayersReady, which leaves at the first player who is not ready.
unfoldable pub all_players_ready : Clients → Bool
all_players_ready [] = true
all_players_ready ((k, c) ∷ rest) =
    if c.player_id == 0
    then all_players_ready rest
    else if not c.ready
    then false
    else all_players_ready rest

-- next_player_id_++ on a uint8_t, which skips 0.
unfoldable pub bump : ℕ → ℕ
bump n = if (n + 1) % 256 == 0 then 1 else (n + 1) % 256

-- The loop over the clients in AssignPlayerId.
unfoldable pub id_taken : ℕ → Clients → Bool
id_taken id [] = false
id_taken id ((k, c) ∷ rest) =
    if is_authenticated c && (c.player_id == id) then true else id_taken id rest

-- The while loop, on the attempts that are left; `none` is the std::runtime_error behind it. It
-- gives the id and the next value of next_player_id_.
unfoldable pub try_ids : ℕ → Clients → ℕ → ℕ → Option (ℕ × ℕ)
unfolding id_taken bump
try_ids zero clients id next = none
try_ids (suc n) clients id next =
    let rest = try_ids n clients next (bump next) in
    if id_taken id clients then rest else some (id, next)

unfoldable pub assign_player_id : Manager → Option (ℕ × ℕ)
unfolding try_ids
assign_player_id m = try_ids 255 m.clients m.next_player_id (bump m.next_player_id)

abbrev pub authenticate : ℕ → List ℕ → ClientConnection → ClientConnection
authenticate player name c = record c { player_id = player; username = name }

-- The end of AuthenticateClient, once an id is found.
unfoldable pub finish_authentication : ℕ → List ℕ → Manager → Option (ℕ × ℕ) → Option (ℕ × Manager)
unfolding update
finish_authentication id name m none = none
finish_authentication id name m (some (player, next)) = some (
  player,
  record m { clients = update id (authenticate player name) m.clients; next_player_id = next },
)

-- AuthenticateClient: the player id, or 0 if the client is refused. `none` is the exception of
-- AssignPlayerId.
unfoldable pub authenticate_client : ℕ → List ℕ → Manager → Option (ℕ × Manager)
unfolding has_client is_username_taken is_full assign_player_id finish_authentication
authenticate_client id name m =
    if not (has_client id m)
    then some (0, m)
    else if is_username_taken name m.clients
    then some (0, m)
    else if is_full m
    then some (0, m)
    else finish_authentication id name m (assign_player_id m)

-- RemoveClient.
unfoldable pub remove_client : ℕ → Manager → Manager
unfolding erase
remove_client id m = record m { clients = erase id m.clients }

unfoldable pub update_client_udp_endpoint : ℕ → Endpoint → Manager → Manager
unfolding update
update_client_udp_endpoint id endpoint m = record m {
  clients = update id (λ c. record c { udp_endpoint = endpoint }) m.clients;
}

abbrev pub has_address : ℕ → Option Endpoint → Bool
has_address ip none = false
has_address ip (some e) = e.address == ip

-- FindClientByIp: the first client whose socket has that remote address.
unfoldable pub find_client_by_ip : (ℕ → Option Endpoint) → ℕ → Clients → Option ClientConnection
find_client_by_ip remote ip [] = none
find_client_by_ip remote ip ((k, c) ∷ rest) =
    if has_address ip (remote c.tcp_socket) then some c else find_client_by_ip remote ip rest

unfoldable pub find_client_by_player_id : ℕ → Clients → Option ClientConnection
find_client_by_player_id player [] = none
find_client_by_player_id player ((k, c) ∷ rest) =
    if c.player_id == player then some c else find_client_by_player_id player rest

unfoldable pub reset_ready : Clients → Clients
reset_ready [] = []
reset_ready ((k, c) ∷ rest) = (k, record c { ready = false }) ∷ reset_ready rest

unfoldable pub reset_all_ready_states : Manager → Manager
unfolding reset_ready
reset_all_ready_states m = record m { clients = reset_ready m.clients }

-- `client.ready_ = is_ready` and `client.last_activity_ = now` of the packet handler, which write
-- through GetClient's reference.
unfoldable pub set_ready : ℕ → Bool → Manager → Manager
unfolding update
set_ready id ready m = record m { clients = update id (λ c. record c { ready = ready }) m.clients }

unfoldable pub touch : ℕ → ℕ → Manager → Manager
unfolding update
touch id now m = record m { clients = update id (λ c. record c { last_activity = now }) m.clients }
