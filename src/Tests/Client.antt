-- ===== src/Tests/Client.antt =====
-- A client that hears the messages of a server, and a server that hears those of a client.
use r_type_j_a_m_e_s.Base.{
  ℕ, ◌≤◌, ◌<◌, ◌≡◌, ◌↔◌, refl, true, false, ltb, none, some, List, [], ◌∷◌, ◌++◌, arith, replicate,
  In, if◌then◌else◌,
}
use r_type_j_a_m_e_s.Wire.Endian.{big}
use r_type_j_a_m_e_s.Wire.Buffer.{CommonHeader}
use r_type_j_a_m_e_s.Wire.Written.{header_bytes}
use r_type_j_a_m_e_s.Wire.Packets.EntityState.{EntityState}
use r_type_j_a_m_e_s.Wire.Factory.{parsed, deserialize_packet}
use r_type_j_a_m_e_s.Client.Header.{op_connect_ack}
use r_type_j_a_m_e_s.Client.State.{ServerConnection, Action}
use r_type_j_a_m_e_s.Client.Handlers.{dispatch}
use r_type_j_a_m_e_s.Client.Send.{padded_username}
use r_type_j_a_m_e_s.Client.Send.Framing.{In-padded_username}
use r_type_j_a_m_e_s.Client.Send.Delivered.{Request, call, meant, header_for, sent, call-delivered}
use r_type_j_a_m_e_s.Client.Stream.{receive, receive_all}
use r_type_j_a_m_e_s.Client.Stream.Chunks.{receive-enough, receive_all-append}
use r_type_j_a_m_e_s.Client.Stream.Reads.{dispatch-none}
use r_type_j_a_m_e_s.Client.Stream.Notices.{Notice, noticed, heeded}
use r_type_j_a_m_e_s.Client.Stream.Server.{
  Setting, setting_bytes, receive_all-noticed, receive_all-setting_bytes,
}
use r_type_j_a_m_e_s.Client.Snapshots.{receive_datagram}
use r_type_j_a_m_e_s.Client.Snapshots.Queue.{
  IsQueue, carried, receive_datagram-IsQueue, receive_datagram-message,
}

abbrev blank_state : EntityState
blank_state = record {
  entity_id = 0;
  entity_type = 0;
  reserved = 0;
  pos_x = 0;
  pos_y = 0;
  angle = 0;
  velocity_x = 0;
  velocity_y = 0;
  projectile_type = 0;
  enemy_type = 0;
  current_animation = 0;
  current_frame = 0;
  health = 0;
  invincibility_time = 0;
  score = 0;
}

-- A connected player.
abbrev player : ServerConnection
player = record {
  on_game_speed_changed = true;
  on_difficulty_changed = true;
  on_killable_projectiles_changed = false;
  udp_open = true;
  tcp_open = true;
  connected = true;
  player_id = 3;
  game_started = false;
  game_ended = false;
  winning_player_id = 0;
  game_mode = 0;
  was_connected_once = true;
  current_tick = 0;
  controlled_entity_id = 0;
  leaderboard = [];
  lobby_connected_count = 2;
  lobby_ready_count = 1;
  lobby_max_players = 4;
  is_local_player_ready = false;
  last_rejection_status = 0;
  snapshot_queue = [];
  log = [];
}

-- A GAME_START and the first bytes of a NOTIFY_DISCONNECT, and the rest of it.
abbrev start_bytes : List ℕ
start_bytes = 5 ∷ 4 ∷ 0 ∷ 0 ∷ 0 ∷ 0 ∷ 0 ∷ 0 ∷ 1 ∷ 255 ∷ 0 ∷ 0 ∷ 7 ∷ 0 ∷ 0 ∷ 0 ∷ 4 ∷ 4 ∷ 0 ∷ []

abbrev rest_bytes : List ℕ
rest_bytes = 0 ∷ 0 ∷ 0 ∷ 0 ∷ 0 ∷ 1 ∷ 255 ∷ 0 ∷ 0 ∷ 9 ∷ 0 ∷ 0 ∷ 0 ∷ []

abbrev started : ServerConnection
started = record player { controlled_entity_id = 7; game_started = true }

start_received : receive_all start_bytes player ≡ some (started, 4 ∷ 4 ∷ 0 ∷ [])
unfolding receive_all
start_received = refl

receive_all-append_example :
    receive_all ((4 ∷ 4 ∷ 0 ∷ []) ++ rest_bytes) started
    ≡ receive_all (start_bytes ++ rest_bytes) player
receive_all-append_example =
    receive_all-append start_bytes rest_bytes (4 ∷ 4 ∷ 0 ∷ []) player started start_received

receive-enough_example : receive 20 start_bytes player ≡ receive 50 start_bytes player
receive-enough_example = receive-enough 20 50 start_bytes player (omega arith) (omega arith)

dispatch-none_example :
    (dispatch 2 (1 ∷ 0 ∷ 2 ∷ 1 ∷ 4 ∷ []) player ≡ none)
    ↔ ((op_connect_ack ≡ op_connect_ack) × (4 ≤ 5) × (5 < 8))
dispatch-none_example = dispatch-none 2 (1 ∷ 0 ∷ 2 ∷ 1 ∷ 4 ∷ []) player

call-delivered_example :
    (a : Action) × ((call (Request.ready true) player).log ≡ [] ++ a ∷ [])
    × (deserialize_packet big blank_state (sent a)
        ≡ parsed (meant (Request.ready true)) (header_for (Request.ready true) 0))
call-delivered_example =
    call-delivered big blank_state (Request.ready true) player (omega arith) refl

receive_all-noticed_example :
    receive_all
      (noticed big
          (Notice.notify_ready (record { player_id = 9; is_ready = 1; reserved = 0 ∷ 0 ∷ [] }))
        ++ rest_bytes)
      player
    ≡ receive_all rest_bytes (
        heeded
          (Notice.notify_ready (record { player_id = 9; is_ready = 1; reserved = 0 ∷ 0 ∷ [] }))
          player)
receive_all-noticed_example =
    receive_all-noticed big
      (Notice.notify_ready (record { player_id = 9; is_ready = 1; reserved = 0 ∷ 0 ∷ [] }))
      rest_bytes player
      (record {
        player_id = omega arith;
        is_ready = omega arith;
        reserved = record { size = refl; bytes = (omega arith, (omega arith, tt)) };
      })
      refl

receive_all-setting_bytes_example :
    receive_all ((setting_bytes (Setting.difficulty 2) ++ replicate 83 0) ++ []) player
    ≡ receive_all [] player
receive_all-setting_bytes_example =
    receive_all-setting_bytes (Setting.difficulty 2) (replicate 83 0) [] player refl refl

In-padded_username_example : In 0 (padded_username (65 ∷ 66 ∷ [])) ↔ (2 < 32)
In-padded_username_example = In-padded_username (65 ∷ 66 ∷ []) ((λ e. cc), ((λ e. cc), tt))

receive_datagram-IsQueue_example :
    (t : ServerConnection) × (receive_datagram start_bytes player ≡ some t) × IsQueue t
receive_datagram-IsQueue_example =
    receive_datagram-IsQueue start_bytes player (record { bound = omega arith; whole = tt })

abbrev snapshot_header : CommonHeader
snapshot_header = record {
  op_code = 0x20;
  payload_size = 2;
  packet_index = 0;
  tick_id = 300;
  packet_count = 1;
  entity_type = 1;
  reserved0 = 0;
  reserved1 = 0;
}

receive_datagram-message_example :
    receive_datagram (header_bytes snapshot_header ++ ((8 ∷ 9 ∷ []) ++ [])) player
    ≡ some (
        if ltb 0 256
        then record player { snapshot_queue = [] ++ carried snapshot_header (8 ∷ 9 ∷ []) ∷ [] }
        else player)
receive_datagram-message_example =
    receive_datagram-message snapshot_header (8 ∷ 9 ∷ []) [] player
      (record {
        op_code = omega arith;
        payload_size = omega arith;
        packet_index = omega arith;
        tick_id = omega arith;
        packet_count = omega arith;
        entity_type = omega arith;
        reserved0 = omega arith;
        reserved1 = omega arith;
      })
      refl refl (omega arith)
