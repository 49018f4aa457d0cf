-- ===== src/Client/State.antt =====
-- The members of ServerConnection (client/network/Network.hpp), its accessors, and Disconnect.
-- What the connection does outside itself is a log: bytes for a socket, and calls of callbacks.
use r_type_j_a_m_e_s.Base.{
  ℕ, Bool, false, not, ◌&&◌, ◌||◌, List, [], ◌∷◌, ◌++◌, ◌==◌, if◌then◌else◌,
}
use r_type_j_a_m_e_s.Client.Header.{write_header, op_disconnect_req}

-- struct LeaderboardEntry. A text is the list of its bytes.
pub record LeaderboardEntry : Type 0 where
  pub player_id : ℕ
  pub name : List ℕ
  pub score : ℕ
  pub death_order : ℕ
  pub is_winner : Bool

-- struct SnapshotPacket. Of its array of 1460 bytes, those that were copied into it: only the
-- first `payload_size` are set.
pub record SnapshotPacket : Type 0 where
  pub tick : ℕ
  pub payload : List ℕ
  pub payload_size : ℕ
  pub entity_type : ℕ

pub data Action : Type 0 where
  tcp_sent : List ℕ → Action
  udp_sent : List ℕ → Action
  game_speed_changed : ℕ → Action
  difficulty_changed : ℕ → Action
  killable_projectiles_changed : Bool → Action

-- The buffers are not members here: the bytes in them are arguments of the functions that read
-- them. A callback is known by whether it is set.
pub record ServerConnection : Type 0 where
  pub on_game_speed_changed : Bool
  pub on_difficulty_changed : Bool
  pub on_killable_projectiles_changed : Bool
  pub udp_open : Bool
  pub tcp_open : Bool
  pub connected : Bool
  pub player_id : ℕ
  pub game_started : Bool
  pub game_ended : Bool
  pub winning_player_id : ℕ
  pub game_mode : ℕ
  pub was_connected_once : Bool
  pub current_tick : ℕ
  pub controlled_entity_id : ℕ
  pub leaderboard : List LeaderboardEntry
  pub lobby_connected_count : ℕ
  pub lobby_ready_count : ℕ
  pub lobby_max_players : ℕ
  pub is_local_player_ready : Bool
  pub last_rejection_status : ℕ
  pub snapshot_queue : List SnapshotPacket
  pub log : List Action

-- The constructor, where the UDP socket could be opened or not.
unfoldable pub new_connection : Bool → ServerConnection
new_connection udp_opened = record {
  on_game_speed_changed = false;
  on_difficulty_changed = false;
  on_killable_projectiles_changed = false;
  udp_open = udp_opened;
  tcp_open = false;
  connected = false;
  player_id = 0;
  game_started = false;
  game_ended = false;
  winning_player_id = 0;
  game_mode = 0;
  was_connected_once = false;
  current_tick = 0;
  controlled_entity_id = 0;
  leaderboard = [];
  lobby_connected_count = 0;
  lobby_ready_count = 0;
  lobby_max_players = 4;
  is_local_player_ready = false;
  last_rejection_status = 0;
  snapshot_queue = [];
  log = [];
}

abbrev pub act : Action → ServerConnection → ServerConnection
act a s = record s { log = s.log ++ a ∷ [] }

-- SetOnGameSpeedChanged, SetOnDifficultyChanged and SetOnKillableProjectilesChanged, with a
-- function or an empty one.
unfoldable pub set_on_game_speed_changed : Bool → ServerConnection → ServerConnection
set_on_game_speed_changed callable s = record s { on_game_speed_changed = callable }

unfoldable pub set_on_difficulty_changed : Bool → ServerConnection → ServerConnection
set_on_difficulty_changed callable s = record s { on_difficulty_changed = callable }

unfoldable pub set_on_killable_projectiles_changed : Bool → ServerConnection → ServerConnection
set_on_killable_projectiles_changed callable s = record s {
  on_killable_projectiles_changed = callable;
}

-- ResetGameStarted, ResetGameEnded and ResetRejectionStatus.
unfoldable pub reset_game_started : ServerConnection → ServerConnection
reset_game_started s = record s { game_started = false }

unfoldable pub reset_game_ended : ServerConnection → ServerConnection
reset_game_ended s = record s {
  game_ended = false;
  is_local_player_ready = false;
  winning_player_id = 0;
  game_mode = 0;
  leaderboard = [];
}

unfoldable pub reset_rejection_status : ServerConnection → ServerConnection
reset_rejection_status s = record s { last_rejection_status = 0 }

-- IsVictory, WasRejectedPermanently and WasDisconnectedUnexpectedly.
unfoldable pub is_victory : ServerConnection → Bool
is_victory s =
    if s.game_ended then s.winning_player_id == 255 || s.winning_player_id == s.player_id else false

unfoldable pub was_rejected_permanently : ServerConnection → Bool
was_rejected_permanently s = s.last_rejection_status == 3

unfoldable pub was_disconnected_unexpectedly : ServerConnection → Bool
was_disconnected_unexpectedly s = s.was_connected_once && not s.connected

-- Disconnect: a DISCONNECT_REQ if the TCP socket is open; both sockets are closed.
unfoldable pub say_goodbye : ServerConnection → ServerConnection
unfolding write_header
say_goodbye s =
    if s.tcp_open then act (tcp_sent (write_header op_disconnect_req 0 s.current_tick 0 1)) s else s

unfoldable pub disconnect : ServerConnection → ServerConnection
unfolding say_goodbye
disconnect s = record (say_goodbye s) { udp_open = false; tcp_open = false; connected = false }
