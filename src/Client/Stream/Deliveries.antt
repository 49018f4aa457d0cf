-- ===== src/Client/Stream/Deliveries.antt =====
-- The deliveries of PacketSender (server/src/server/PacketSender.cpp), as the clients at the other
-- ends of the sockets take them off their streams.
use r_type_j_a_m_e_s.Base.{
  ℕ, suc, ◌+◌, ◌%◌, ◌≤◌, ◌<◌, ◌≡◌, refl, ap, ◌∙◌, inl, inr, true, false, not, ◌&&◌, Option, List,
  [], ◌∷◌, ◌++◌, map, arith, length, ◌==◌, if◌then◌else◌, Bool-cases, In,
}
use r_type_j_a_m_e_s.Wire.Endian.{Endian}
use r_type_j_a_m_e_s.Wire.Packets.Session.{ConnectAckPacket}
use r_type_j_a_m_e_s.Lobby.Connections.{ClientConnection, Clients, Manager, is_authenticated}
use r_type_j_a_m_e_s.Lobby.Connections.Ids.{collect, player_ids, length-player_ids}
use r_type_j_a_m_e_s.Lobby.Sender.{
  Delivery, to_others, ready_count, ack_packet, send_connect_ack, send_game_start,
  send_notify_disconnect,
}
use r_type_j_a_m_e_s.Client.State.{ServerConnection}
use r_type_j_a_m_e_s.Client.Stream.{receive_all}
use r_type_j_a_m_e_s.Client.Stream.Notices.{Notice, noticed, let_in, turned_away}
use r_type_j_a_m_e_s.Client.Stream.Server.{receive_all-noticed}

-- The ids of the players who are ready, in the order of the map.
abbrev pub ready_ids : Clients → List ℕ
ready_ids [] = []
ready_ids ((k, c) ∷ rest) =
    if is_authenticated c && c.ready then c.player_id ∷ ready_ids rest else ready_ids rest

length-ready_ids : (l : Clients) → length (ready_ids l) ≡ ready_count l
unfolding ready_count
length-ready_ids [] = refl
length-ready_ids ((k, c) ∷ rest) = elim (Bool-cases (is_authenticated c && c.ready)) [
  | inl e ↦ rw e (ap suc (length-ready_ids rest))
  | inr e ↦ rw e (length-ready_ids rest)
]

-- The CONNECT_ACK that a client is to get: whether and as whom it is let in, and how many players
-- there are, are ready, and may be.
abbrev pub told : Manager → ℕ → ℕ → ConnectAckPacket
told m status player = record {
  player_id = player;
  status = status;
  connected_players = length (player_ids m.clients) % 256;
  ready_players = length (ready_ids m.clients) % 256;
  max_players = m.max_clients;
  min_players = 1;
  reserved = 0;
}

ack_packet-told :
    (m : Manager) (status player : ℕ) → ack_packet m status player ≡ told m status player
unfolding ack_packet
ack_packet-told m status player = rw (length-player_ids m.clients, length-ready_ids m.clients) refl

-- The clients by their sockets at the server, and what stands behind a delivery on their streams.
module _ (client : ℕ → ServerConnection) (behind : ℕ → List ℕ)
    (opened : (socket : ℕ) → (client socket).tcp_open ≡ true) where
  -- What a client goes on with, in another state.
  abbrev pub resumes : ℕ → ServerConnection → ℕ × Option (ServerConnection × List ℕ)
  resumes socket s = (socket, receive_all (behind socket) s)

  -- What each delivery does to its client.
  abbrev pub heard : List Delivery → List (ℕ × Option (ServerConnection × List ℕ))
  heard = map (λ d. (d.0, receive_all (d.1 ++ behind d.0) (client d.0)))

  -- GAME_START: the client's entity is the player's, and the game has begun.
  abbrev pub plays : ℕ → ServerConnection → ServerConnection
  plays player s = record s {
    controlled_entity_id = player;
    game_started = true;
    game_ended = false;
  }

  -- NOTIFY_DISCONNECT: another player than the client's own leaves the lobby.
  abbrev pub sees_leave : ℕ → ServerConnection → ServerConnection
  sees_leave player s =
      if player == s.player_id
      then s
      else record s { lobby_connected_count = (s.lobby_connected_count + 255) % 256 }

  In-player_ids-later :
      (k : ℕ) (c : ClientConnection) (rest : Clients) (p : ℕ)
      → In p (player_ids rest)
      → In p (player_ids ((k, c) ∷ rest))
  In-player_ids-later k c rest p m = elim (Bool-cases (c.player_id == 0)) [
    | inl e ↦ rw e m
    | inr e ↦ rw e (inr m)
  ]

  In-player_ids-here :
      (k : ℕ) (c : ClientConnection) (rest : Clients)
      → (c.player_id == 0) ≡ false
      → In c.player_id (player_ids ((k, c) ∷ rest))
  In-player_ids-here k c rest e = rw e (inl refl)

  -- Where the ids of the players are at most 255, SendGameStart sends one message to each player
  -- and none to another client, and each of these clients, its connection open, learns that the
  -- game has begun and that its own id is that of its entity, and goes on with what stands behind.
  pub heard-send_game_start :
      (e : Endian) (l : Clients)
      → ((p : ℕ) → In p (player_ids l) → p ≤ 255)
      → heard (send_game_start e l)
        ≡ collect (λ c. resumes c.tcp_socket (plays c.player_id (client c.tcp_socket))) l
  unfolding send_game_start
  heard-send_game_start e [] h = refl
  heard-send_game_start e ((k, c) ∷ rest) h =
      let later = heard-send_game_start e rest (λ p m. h p (In-player_ids-later k c rest p m)) in
      elim (Bool-cases (c.player_id == 0)) [
        | inl zero ↦ rw zero later
        | inr player ↦
            let small : c.player_id ≤ 255 = h c.player_id (In-player_ids-here k c rest player) in
            rw player (
              ap (λ x. (c.tcp_socket, x) ∷ heard (send_game_start e rest))
                (receive_all-noticed e
                  (Notice.game_start (record { controlled_entity_id = c.player_id }))
                  (behind c.tcp_socket) (client c.tcp_socket)
                  (record { controlled_entity_id = omega (arith, small) }) (opened c.tcp_socket))
              ∙ ap (λ xs. resumes c.tcp_socket (plays c.player_id (client c.tcp_socket)) ∷ xs)
                  later)
      ]

  -- The sockets of the players but one.
  abbrev pub sockets_but : ℕ → Clients → List ℕ
  sockets_but player [] = []
  sockets_but player ((k, c) ∷ rest) =
      if is_authenticated c && not (c.player_id == player)
      then c.tcp_socket ∷ sockets_but player rest
      else sockets_but player rest

  heard-to_others :
      (player : ℕ) (bytes : List ℕ) (l : Clients)
      → heard (to_others player bytes l)
        ≡ map (λ s. (s, receive_all (bytes ++ behind s) (client s))) (sockets_but player l)
  unfolding to_others
  heard-to_others player bytes [] = refl
  heard-to_others player bytes ((k, c) ∷ rest) =
      let later = heard-to_others player bytes rest in
      elim (Bool-cases (c.player_id == 0)) [
        | inl e ↦ rw e later
        | inr e ↦ elim (Bool-cases (c.player_id == player)) [
          | inl same ↦ rw (e, same) later
          | inr other ↦
              rw (e, other)
                (ap
                  (λ xs.
                    (c.tcp_socket, receive_all (bytes ++ behind c.tcp_socket) (client c.tcp_socket))
                    ∷ xs)
                  later)
        ]
      ]

  map-cong : {A : Type 0} (f g : ℕ → A) (l : List ℕ) → ((x : ℕ) → f x ≡ g x) → map f l ≡ map g l
  map-cong f g [] h = refl
  map-cong f g (x ∷ l) h = ap (λ y. y ∷ map f l) (h x) ∙ ap (λ ys. g x ∷ ys) (map-cong f g l h)

  -- SendNotifyDisconnect for an id of at most 255 sends one message to each other player and none
  -- to another client, and each of these clients, its connection open, counts one player less in
  -- the lobby, unless the id is its own, and goes on with what stands behind.
  pub heard-send_notify_disconnect :
      (e : Endian) (player : ℕ) (l : Clients)
      → player ≤ 255
      → heard (send_notify_disconnect e player l)
        ≡ map (λ socket. resumes socket (sees_leave player (client socket))) (sockets_but player l)
  unfolding send_notify_disconnect
  heard-send_notify_disconnect e player l h =
      heard-to_others player _ l
      ∙ map-cong _ _ (sockets_but player l) (λ socket.
        ap (λ x. (socket, x))
          (receive_all-noticed e
            (Notice.notify_disconnect (record { player_id = player; reserved = 0 ∷ 0 ∷ 0 ∷ [] }))
            (behind socket) (client socket)
            (record {
              player_id = omega (arith, h);
              reserved = record {
                size = refl;
                bytes = (omega arith, (omega arith, (omega arith, tt)));
              };
            })
            (opened socket)))

  -- SendConnectAck with a status, an id and a largest number of players that fit eight bits sends
  -- one message, to the client that it answers. With the status 0 that client, its connection open,
  -- has the id as its own, is connected and takes over the counts of the lobby, and its UDP socket,
  -- if open, tells the server its port; with another status it keeps that status, says goodbye and
  -- closes its sockets. The counts are those of the players and of the ready ones.
  pub heard-send_connect_ack :
      (e : Endian) (m : Manager) (c : ClientConnection) (status player : ℕ)
      → status < 256
      → player < 256
      → m.max_clients < 256
      → heard (send_connect_ack e m c status player ∷ [])
        ≡ resumes c.tcp_socket (
            if status == 0
            then let_in (told m status player) (client c.tcp_socket)
            else turned_away (told m status player) (client c.tcp_socket))
          ∷ []
  unfolding send_connect_ack
  heard-send_connect_ack e m c status player hs hp hm =
      let packet = told m status player in
      ap
        (λ p.
          (
            c.tcp_socket,
            receive_all (noticed e (Notice.connect_ack p) ++ behind c.tcp_socket)
                (client c.tcp_socket),
          )
          ∷ [])
        (ack_packet-told m status player)
      ∙ ap (λ x. (c.tcp_socket, x) ∷ [])
          (receive_all-noticed e (Notice.connect_ack packet) (behind c.tcp_socket)
            (client c.tcp_socket)
            (record {
              player_id = hp;
              status = hs;
              connected_players = omega arith;
              ready_players = omega arith;
              max_players = hm;
              min_players = omega arith;
              reserved = omega arith;
            })
            (opened c.tcp_socket))
