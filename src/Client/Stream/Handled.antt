-- ===== src/Client/Stream/Handled.antt =====
-- The handlers of client/network/Network.cpp do what the messages of PacketSender
-- (server/src/server/PacketSender.cpp) are to do.
use r_type_j_a_m_e_s.Base.{
  ℕ, ◌+◌, ◌*◌, ◌/◌, ◌%◌, ◌<◌, ◌≡◌, refl, sym, ap, ◌∙◌, true, false, some, List, [], ◌∷◌, ◌++◌,
  append-nil, arith, ltb, ge→ltb, Bool-cases, inl, inr, Bool, ◌==◌, length, length-append, drop,
  drop-length-append, if◌then◌else◌,
}
use r_type_j_a_m_e_s.Wire.Endian.{bytes_le}
use r_type_j_a_m_e_s.Wire.Packets.Session.{
  ConnectAckPacket, NotifyDisconnectPacket, IsNotifyDisconnect, GameStartPacket, IsGameStart,
}
use r_type_j_a_m_e_s.Wire.Packets.Lobby.{
  NotifyConnectPacket, IsNotifyConnect, NotifyReadyPacket, IsNotifyReady,
}
use r_type_j_a_m_e_s.Wire.Packets.Score.{GameEndPacket, IsGameEnd}
use r_type_j_a_m_e_s.Client.Header.{read_le16, write_header, write_le16, write_le32}
use r_type_j_a_m_e_s.Client.State.{
  ServerConnection, Action, tcp_sent, udp_sent, game_speed_changed, act, disconnect, say_goodbye,
}
use r_type_j_a_m_e_s.Client.Handlers.{
  dispatch, on_status, handle_connect_ack, handle_game_start, handle_game_end,
  handle_notify_disconnect, handle_notify_connect, handle_notify_ready, handle_notify_game_speed,
  send_discovery,
}
use r_type_j_a_m_e_s.Client.Stream.Entries.{
  leaderboard_bytes, length-leaderboard_bytes, read_leaderboard-leaderboard_bytes,
  read_name-get_name,
}
use r_type_j_a_m_e_s.Client.Stream.Notices.{
  connect_ack, game_start, game_end, notify_disconnect, notify_connect, notify_ready,
  notify_game_speed, headed, let_in, turned_away, heeded,
}

logged_if :
    (b : Bool) (a : Action) (s : ServerConnection)
    → (if b then act a s else s) ≡ record s { log = if b then s.log ++ a ∷ [] else s.log }
logged_if true a s = refl
logged_if false a s = refl

on_status-let_in :
    (p : ConnectAckPacket) (s : ServerConnection)
    → (p.status == 0) ≡ true
    → on_status p.player_id p.status p.connected_players p.ready_players p.max_players s
      ≡ let_in p s
unfolding on_status send_discovery write_header write_le16 write_le32
on_status-let_in p s e = rw e (
    logged_if s.udp_open (udp_sent (headed 16 4 s.current_tick ++ p.player_id ∷ 0 ∷ 0 ∷ 0 ∷ []))
      (record s {
        player_id = p.player_id;
        connected = true;
        was_connected_once = true;
        lobby_connected_count = p.connected_players;
        lobby_ready_count = p.ready_players;
        lobby_max_players = p.max_players;
      }))

on_status-turned_away :
    (p : ConnectAckPacket) (s : ServerConnection)
    → (p.status == 0) ≡ false
    → on_status p.player_id p.status p.connected_players p.ready_players p.max_players s
      ≡ turned_away p s
unfolding on_status disconnect say_goodbye write_header write_le16 write_le32
on_status-turned_away p s e = rw e (
    ap
      (λ (u : ServerConnection). record u { udp_open = false; tcp_open = false; connected = false })
      (logged_if s.tcp_open (tcp_sent (headed 3 0 s.current_tick))
        (record s { last_rejection_status = p.status })))

on_status-heeded :
    (p : ConnectAckPacket) (s : ServerConnection)
    → on_status p.player_id p.status p.connected_players p.ready_players p.max_players s
      ≡ heeded (connect_ack p) s
on_status-heeded p s = elim (Bool-cases (p.status == 0)) [
  | inl e ↦ on_status-let_in p s e ∙ ap (λ b. if b then let_in p s else turned_away p s) (sym e)
  | inr e ↦
      on_status-turned_away p s e ∙ ap (λ b. if b then let_in p s else turned_away p s) (sym e)
]

pub handled_connect_ack :
    (p : ConnectAckPacket) (s : ServerConnection)
    → dispatch 2
        (p.player_id
          ∷ p.status
          ∷ p.connected_players
          ∷ p.ready_players
          ∷ p.max_players
          ∷ p.min_players
          ∷ bytes_le 2 p.reserved)
        s
      ≡ some (heeded (connect_ack p) s)
unfolding dispatch handle_connect_ack read_le16 bytes_le
handled_connect_ack p s = ap some (on_status-heeded p s)

value_bytes :
    (v : ℕ)
    → v < 4294967296
    → v % 256
        + v / 256 % 256 * 256
        + v / 256 / 256 % 256 * 65536
        + v / 256 / 256 / 256 % 256 * 16777216
      ≡ v
value_bytes v h = omega arith

pub handled_game_start :
    (p : GameStartPacket) (s : ServerConnection)
    → IsGameStart p
    → dispatch 5 (bytes_le 4 p.controlled_entity_id) s ≡ some (heeded (game_start p) s)
unfolding dispatch handle_game_start bytes_le
handled_game_start p s v =
    ap
      (λ entity.
        some (record s { controlled_entity_id = entity; game_started = true; game_ended = false }))
      (value_bytes p.controlled_entity_id v.controlled_entity_id)

pub handled_notify_disconnect :
    (p : NotifyDisconnectPacket) (s : ServerConnection)
    → IsNotifyDisconnect p
    → dispatch 4 (p.player_id ∷ p.reserved) s ≡ some (heeded (notify_disconnect p) s)
unfolding dispatch handle_notify_disconnect
handled_notify_disconnect p s v =
    rw (ge→ltb (length (p.player_id ∷ p.reserved)) 4 (omega (arith, v.reserved.size)))
      (ground arith)

pub handled_notify_connect :
    (p : NotifyConnectPacket) (s : ServerConnection)
    → IsNotifyConnect p
    → dispatch 8 (p.player_id ∷ (p.reserved ++ p.username)) s ≡ some (heeded (notify_connect p) s)
unfolding dispatch handle_notify_connect
handled_notify_connect p s v =
    let enough : ltb (length (p.player_id ∷ (p.reserved ++ p.username))) 36 ≡ false =
      ge→ltb (length (p.player_id ∷ (p.reserved ++ p.username))) 36
        (omega (arith, length-append p.reserved p.username, v.reserved.size, v.username.size)) in
    let behind : drop 3 (p.reserved ++ p.username) ≡ p.username ++ [] =
      ap (λ k. drop k (p.reserved ++ p.username)) (sym v.reserved.size)
      ∙ drop-length-append p.reserved p.username
      ∙ sym (append-nil p.username) in
    let name = read_name-get_name 32 p.username [] v.username.size in
    rw (enough, behind, name) (ground arith)

pub handled_notify_ready :
    (p : NotifyReadyPacket) (s : ServerConnection)
    → IsNotifyReady p
    → dispatch 9 (p.player_id ∷ p.is_ready ∷ p.reserved) s ≡ some (heeded (notify_ready p) s)
unfolding dispatch handle_notify_ready
handled_notify_ready p s v =
    rw (ge→ltb (length (p.player_id ∷ p.is_ready ∷ p.reserved)) 4 (omega (arith, v.reserved.size)))
      refl

pub handled_notify_game_speed :
    (speed : ℕ) (s : ServerConnection)
    → speed < 4294967296
    → dispatch 11 (bytes_le 4 speed) s ≡ some (heeded (notify_game_speed speed) s)
unfolding dispatch handle_notify_game_speed bytes_le
handled_notify_game_speed speed s h =
    ap (λ v. some (if s.on_game_speed_changed then act (game_speed_changed v) s else s))
      (value_bytes speed h)

-- The payload of a GAME_END.
abbrev pub game_end_bytes : GameEndPacket → List ℕ
game_end_bytes p =
    p.winning_player_id
    ∷ p.game_mode
    ∷ p.player_count
    ∷ (p.reserved ++ leaderboard_bytes p.leaderboard)

pub length-game_end_bytes :
    (p : GameEndPacket) → IsGameEnd p → length (game_end_bytes p) ≡ 8 + length p.leaderboard * 39
length-game_end_bytes p v = omega (
  arith,
  length-append p.reserved (leaderboard_bytes p.leaderboard),
  v.reserved.size,
  length-leaderboard_bytes p.leaderboard v.leaderboard,
)

pub handled_game_end :
    (p : GameEndPacket) (s : ServerConnection)
    → IsGameEnd p
    → dispatch 6 (game_end_bytes p) s ≡ some (heeded (game_end p) s)
unfolding dispatch handle_game_end
handled_game_end p s v =
    let enough : ltb (length (game_end_bytes p)) 8 ≡ false =
      ge→ltb (length (game_end_bytes p)) 8 (omega (arith, length-game_end_bytes p v)) in
    let behind : drop 5 (p.reserved ++ leaderboard_bytes p.leaderboard)
        ≡ leaderboard_bytes p.leaderboard =
      ap (λ k. drop k (p.reserved ++ leaderboard_bytes p.leaderboard)) (sym v.reserved.size)
      ∙ drop-length-append p.reserved (leaderboard_bytes p.leaderboard) in
    rw
      (
        enough,
        behind,
        sym v.counted,
        read_leaderboard-leaderboard_bytes p.leaderboard v.leaderboard,
      )
      refl
