-- ===== src/Client/Send.antt =====
-- ConnectToServer and the senders of client/network/Network.cpp.
pub mod Framing
pub mod Delivered
use r_type_j_a_m_e_s.Base.{
  ℕ, ◌+◌, ◌-◌, ◌/◌, ◌%◌, Bool, true, false, List, [], ◌∷◌, ◌++◌, min, take, drop, replicate, length,
  if◌then◌else◌,
}
use r_type_j_a_m_e_s.Client.Header.{
  write_header, op_connect_req, op_player_input, op_ready_status, op_set_game_speed,
  op_set_difficulty, op_set_killable_projectiles,
}
use r_type_j_a_m_e_s.Client.State.{ServerConnection, tcp_sent, udp_sent, act}

-- How the attempt to connect ends: the address is none, the server does not answer, or it does.
pub data Attempt : Type 0 where
  bad_address refused established : Attempt

-- The array of 32 zeros that the username is copied into, as far as it has room.
unfoldable pub padded_username : List ℕ → List ℕ
padded_username username =
    take (min (length username) 32) username ++ drop (min (length username) 32) (replicate 32 0)

unfoldable pub connect_req_bytes : List ℕ → ℕ → List ℕ
unfolding write_header padded_username
connect_req_bytes username tick =
    write_header op_connect_req 32 tick 0 1 ++ padded_username username

-- ConnectToServer. `async_connect` opens the socket.
unfoldable pub connect_to_server : Attempt → List ℕ → ServerConnection → ServerConnection
unfolding connect_req_bytes
connect_to_server bad_address username s = s
connect_to_server refused username s = record s { tcp_open = true }
connect_to_server established username s =
    act (tcp_sent (connect_req_bytes username s.current_tick)) (record s { tcp_open = true })

unfoldable pub input_bytes : ℕ → ℕ → List ℕ
unfolding write_header
input_bytes flags tick = write_header op_player_input 4 tick 0 1 ++ flags ∷ 0 ∷ 0 ∷ 0 ∷ []

unfoldable pub send_input : ℕ → ServerConnection → ServerConnection
unfolding input_bytes
send_input flags s = if s.connected then act (udp_sent (input_bytes flags s.current_tick)) s else s

unfoldable pub ready_bytes : Bool → List ℕ
unfolding write_header
ready_bytes is_ready =
    write_header op_ready_status 4 0 0 1 ++ (if is_ready then 1 else 0) ∷ 0 ∷ 0 ∷ 0 ∷ []

unfoldable pub send_ready_status : Bool → ServerConnection → ServerConnection
unfolding ready_bytes
send_ready_status is_ready s =
    if s.connected
    then act (tcp_sent (ready_bytes is_ready)) (record s { is_local_player_ready = is_ready })
    else s

unfoldable pub set_speed_bytes : ℕ → List ℕ
unfolding write_header
set_speed_bytes speed =
    write_header op_set_game_speed 4 0 0 1
    ++ (speed % 256)
      ∷ ((speed / 256) % 256)
      ∷ ((speed / 65536) % 256)
      ∷ ((speed / 16777216) % 256)
      ∷ []

unfoldable pub send_game_speed : ℕ → ServerConnection → ServerConnection
unfolding set_speed_bytes
send_game_speed speed s = if s.connected then act (tcp_sent (set_speed_bytes speed)) s else s

unfoldable pub set_difficulty_bytes : ℕ → List ℕ
unfolding write_header
set_difficulty_bytes difficulty = write_header op_set_difficulty 1 0 0 1 ++ difficulty ∷ []

unfoldable pub send_difficulty : ℕ → ServerConnection → ServerConnection
unfolding set_difficulty_bytes
send_difficulty difficulty s =
    if s.connected then act (tcp_sent (set_difficulty_bytes difficulty)) s else s

unfoldable pub set_killable_bytes : Bool → List ℕ
unfolding write_header
set_killable_bytes enabled =
    write_header op_set_killable_projectiles 1 0 0 1 ++ (if enabled then 1 else 0) ∷ []

unfoldable pub send_killable_enemy_projectiles : Bool → ServerConnection → ServerConnection
unfolding set_killable_bytes
send_killable_enemy_projectiles enabled s =
    if s.connected then act (tcp_sent (set_killable_bytes enabled)) s else s
