-- ===== src/Match/State.antt =====
-- The state and the operations of server::Server for a running match: server/src/server/Server.cpp
-- and ServerSetupGame.cpp, with the handler of DISCONNECT_REQ of PacketHandler.cpp. Of the registry
-- only the array of PlayerTag shows, of the world generation what the match asks it.
use r_type_j_a_m_e_s.Base.{
  ℕ, ◌+◌, ◌%◌, Bool, true, false, not, ◌&&◌, Option, none, some, List, [], ◌∷◌, map, ◌++◌, ◌==◌,
  if◌then◌else◌,
}
use r_type_j_a_m_e_s.Base.Int.{ℤ, pos}
use r_type_j_a_m_e_s.Wire.Packets.Score.{PlayerScoreData}
use r_type_j_a_m_e_s.Engine.SparseArray.{SparseArray}
use r_type_j_a_m_e_s.Lobby.Connections.{ClientConnection, Manager}
use r_type_j_a_m_e_s.Match.Records
use r_type_j_a_m_e_s.Match.Records.{
  PlayerDeathRecord, Records, Sort, determine_winner, build_leaderboard,
}

-- The two members of Component::PlayerTag that the server looks at.
pub record PlayerTag : Type 0 where
  pub player_number : ℕ
  pub score : ℤ

-- What the server asks WorldGenManager: IsActive, IsLevelComplete, IsEndlessMode, and whether the
-- spawn callback is set.
pub record World : Type 0 where
  pub active : Bool
  pub complete : Bool
  pub endless : Bool
  pub callback : Bool

-- Calls of PacketSender: SendGameEnd, SendNotifyDisconnect, SendGameStart, and
-- SendSnapshotsToAllClients.
pub data Sent : Type 0 where
  game_end : ℕ → ℕ → List PlayerScoreData → Sent
  notify_disconnect : ℕ → Sent
  game_start : Sent
  snapshots : Sent

-- The floats that measure the delays: 0.0f, `+`, and the test against 3.0f.
pub record Clock : Type 1 where
  pub Time : Type 0
  pub start : Time
  pub add : Time → Time → Time
  pub reached : Time → Bool

-- A map that has a value for the key gets a new one, else the entry is added.
unfoldable pub put_record : ℕ → PlayerDeathRecord → Records → Records
put_record id r [] = (id, r) ∷ []
put_record id r ((k, q) ∷ rest) = if k == id then (k, r) ∷ rest else (k, q) ∷ put_record id r rest

-- The loops that look for the entity of a player: its index and its tag. `first` is the index of
-- the head.
unfoldable pub find_player : ℕ → ℕ → List (Option PlayerTag) → Option (ℕ × PlayerTag)
find_player player first [] = none
find_player player first (none ∷ rest) = find_player player (first + 1) rest
find_player player first (some tag ∷ rest) =
    if tag.player_number == player then some (first, tag) else find_player player (first + 1) rest

-- The record of a player who dies.
abbrev pub died : ℕ → ℤ → PlayerDeathRecord → PlayerDeathRecord
died order final r = record r { death_order = order; is_alive = false; score = final }

abbrev pub new_record : ClientConnection → PlayerDeathRecord
new_record c = record {
  player_id = c.player_id;
  username = c.username;
  score = pos 0;
  death_order = 0;
  is_alive = true;
}

-- Update's copy of the scores of those who live, for one tag.
unfoldable pub update_score : PlayerTag → Records → Records
unfolding Records.update
update_score tag l =
    Records.update (tag.player_number % 256)
      (λ r. if r.is_alive then record r { score = tag.score } else r) l

unfoldable pub update_scores : List (Option PlayerTag) → Records → Records
unfolding update_score
update_scores [] l = l
update_scores (none ∷ rest) l = update_scores rest l
update_scores (some tag ∷ rest) l = update_scores rest (update_score tag l)

-- IsLevelComplete() && !IsEndlessMode(), and the game mode of a GAME_END.
unfoldable pub level_won : Option World → Bool
level_won none = false
level_won (some w) = w.complete && not w.endless

unfoldable pub game_mode : Option World → ℕ
game_mode none = 1
game_mode (some w) = if w.endless then 1 else 0

unfoldable pub stop_world : Option World → Option World
stop_world none = none
stop_world (some w) = some (record w { active = false; callback = false })

-- The members of Server that the match uses. The tick timer is known by whether it is armed, and
-- the log has the calls of PacketSender, in order.
pub record Server (Time : Type 0) : Type 0 where
  pub running : Bool
  pub manager : Manager
  pub player_tags : SparseArray PlayerTag
  pub total_players : ℕ
  pub alive_players : ℤ
  pub player_records : Records
  pub death_order_counter : ℕ
  pub victory_pending : Bool
  pub victory_timer : Time
  pub game_over_pending : Bool
  pub game_over_timer : Time
  pub worldgen_manager : Option World
  pub worldgen_system : Bool
  pub timer_armed : Bool
  pub sent : List Sent

abbrev pub send : {T : Type 0} → Sent → Server T → Server T
send m s = record s { sent = s.sent ++ m ∷ [] }

-- What ClearAllEntities does to the array of PlayerTag: it erases every cell and keeps the length.
abbrev pub clear_tags : SparseArray PlayerTag → SparseArray PlayerTag
clear_tags tags = record { cells = map (λ cell. none) tags.cells }
