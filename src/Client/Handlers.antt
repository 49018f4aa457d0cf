-- ===== src/Client/Handlers.antt =====
-- The handlers of client/network/Network.cpp, one for each kind of message that the server sends
-- over TCP. `none` is a read past the end of the payload.
use r_type_j_a_m_e_s.Base.{
  ℕ, ◌+◌, ◌%◌, true, false, not, Option, some, List, [], ◌∷◌, ◌++◌, ltb, ◌==◌, length, get_elem?,
  drop, if◌then◌else◌,
}
use r_type_j_a_m_e_s.Client.Header.{
  ◌>>=◌, read_le16, read_le32, write_header, op_player_input, op_connect_ack, op_game_start,
  op_game_end, op_notify_disconnect, op_notify_connect, op_notify_ready, op_notify_game_speed,
  op_notify_difficulty, op_notify_killable_projectiles,
}
use r_type_j_a_m_e_s.Client.State.{
  ServerConnection, udp_sent, game_speed_changed, difficulty_changed, killable_projectiles_changed,
  act, disconnect,
}
use r_type_j_a_m_e_s.Client.Payloads.{read_name, read_leaderboard}

-- fetch_add(1) and fetch_sub(1) on a counter of eight bits.
abbrev pub increment : ℕ → ℕ
increment n = (n + 1) % 256

abbrev pub decrement : ℕ → ℕ
decrement n = (n + 255) % 256

-- The packet that tells the server the UDP port: `local_endpoint` throws on a closed socket.
unfoldable pub send_discovery : ServerConnection → ServerConnection
unfolding write_header
send_discovery s =
    if s.udp_open
    then act
        (udp_sent
          (write_header op_player_input 4 s.current_tick 0 1 ++ s.player_id ∷ 0 ∷ 0 ∷ 0 ∷ []))
        s
    else s

-- The end of HandleConnectAck.
unfoldable pub on_status : ℕ → ℕ → ℕ → ℕ → ℕ → ServerConnection → ServerConnection
unfolding send_discovery disconnect
on_status pid status connected' ready max_players s =
    if status == 0
    then send_discovery (record s {
      player_id = pid;
      connected = true;
      was_connected_once = true;
      lobby_connected_count = connected';
      lobby_ready_count = ready;
      lobby_max_players = max_players;
    })
    else disconnect (record s { last_rejection_status = status })

unfoldable pub handle_connect_ack : List ℕ → ServerConnection → Option ServerConnection
unfolding on_status read_le16
handle_connect_ack payload s = if ltb (length payload) 4 then some s else do
  pid ← get_elem? payload 0
  status ← get_elem? payload 1
  connected' ← get_elem? payload 2
  ready ← get_elem? payload 3
  max_players ← get_elem? payload 4
  min_players ← get_elem? payload 5
  reserved ← read_le16 (drop 6 payload)
  some (on_status pid status connected' ready max_players s)

unfoldable pub handle_game_start : List ℕ → ServerConnection → Option ServerConnection
unfolding read_le32
handle_game_start payload s = if ltb (length payload) 4 then some s else do
  entity ← read_le32 payload
  some (record s { controlled_entity_id = entity; game_started = true; game_ended = false })

unfoldable pub handle_game_end : List ℕ → ServerConnection → Option ServerConnection
unfolding read_leaderboard
handle_game_end payload s = if ltb (length payload) 8 then some s else do
  winner ← get_elem? payload 0
  mode ← get_elem? payload 1
  player_count ← get_elem? payload 2
  entries ← read_leaderboard player_count (drop 8 payload)
  some (record s {
    winning_player_id = winner;
    game_mode = mode;
    game_ended = true;
    game_started = false;
    lobby_ready_count = 0;
    is_local_player_ready = false;
    leaderboard = entries;
  })

unfoldable pub handle_notify_disconnect : List ℕ → ServerConnection → Option ServerConnection
handle_notify_disconnect payload s = if ltb (length payload) 4 then some s else do
  player ← get_elem? payload 0
  if player == s.player_id
      then some s
      else some (record s { lobby_connected_count = decrement s.lobby_connected_count })

-- The username is only printed.
unfoldable pub handle_notify_connect : List ℕ → ServerConnection → Option ServerConnection
unfolding read_name
handle_notify_connect payload s = if ltb (length payload) 36 then some s else do
  player ← get_elem? payload 0
  if player == s.player_id then some s else do
    username ← read_name 32 (drop 4 payload)
    some (record s { lobby_connected_count = increment s.lobby_connected_count })

unfoldable pub handle_notify_ready : List ℕ → ServerConnection → Option ServerConnection
handle_notify_ready payload s = if ltb (length payload) 4 then some s else do
  player ← get_elem? payload 0
  is_ready ← get_elem? payload 1
  some (record s {
    lobby_ready_count =
        if is_ready == 0 then decrement s.lobby_ready_count else increment s.lobby_ready_count;
  })

-- The speed is the bit pattern of a float.
unfoldable pub handle_notify_game_speed : List ℕ → ServerConnection → Option ServerConnection
unfolding read_le32
handle_notify_game_speed payload s = if ltb (length payload) 4 then some s else do
  speed ← read_le32 payload
  some (if s.on_game_speed_changed then act (game_speed_changed speed) s else s)

unfoldable pub handle_notify_difficulty : List ℕ → ServerConnection → Option ServerConnection
handle_notify_difficulty payload s = if ltb (length payload) 1 then some s else do
  difficulty ← get_elem? payload 0
  some (if s.on_difficulty_changed then act (difficulty_changed difficulty) s else s)

unfoldable pub handle_notify_killable_projectiles :
    List ℕ → ServerConnection → Option ServerConnection
handle_notify_killable_projectiles payload s = if ltb (length payload) 1 then some s else do
  enabled ← get_elem? payload 0
  some (
      if s.on_killable_projectiles_changed
      then act (killable_projectiles_changed (not (enabled == 0))) s
      else s)

-- The chain of tests on the opcode, behind a payload that was read. An unknown one is ignored.
unfoldable pub dispatch : ℕ → List ℕ → ServerConnection → Option ServerConnection
unfolding handle_connect_ack handle_game_start handle_game_end handle_notify_disconnect
    handle_notify_connect handle_notify_ready handle_notify_game_speed handle_notify_difficulty
    handle_notify_killable_projectiles
dispatch opcode payload s =
    if opcode == op_connect_ack
    then handle_connect_ack payload s
    else if opcode == op_game_start
    then handle_game_start payload s
    else if opcode == op_game_end
    then handle_game_end payload s
    else if opcode == op_notify_disconnect
    then handle_notify_disconnect payload s
    else if opcode == op_notify_connect
    then handle_notify_connect payload s
    else if opcode == op_notify_ready
    then handle_notify_ready payload s
    else if opcode == op_notify_game_speed
    then handle_notify_game_speed payload s
    else if opcode == op_notify_difficulty
    then handle_notify_difficulty payload s
    else if opcode == op_notify_killable_projectiles
    then handle_notify_killable_projectiles payload s
    else some s
