-- ===== src/Match/Records.antt =====
-- PlayerDeathRecord (server/include/server/Server.hpp), and NotifyPlayerDeath's part in it,
-- DetermineWinner and BuildLeaderboard of server/src/server/Server.cpp. The map of the records is
-- an association list in the order of its iteration.
use r_type_j_a_m_e_s.Base.{
  ℕ, ◌%◌, Bool, true, false, not, ◌&&◌, ◌||◌, List, [], ◌∷◌, map, ltb, ◌==◌, if◌then◌else◌,
}
use r_type_j_a_m_e_s.Base.Int.{ℤ, pos, negsuc, less_than, equals, clamp_zero}
use r_type_j_a_m_e_s.Wire.Names.{set_name}
use r_type_j_a_m_e_s.Wire.Packets.Score.{PlayerScoreData}

pub record PlayerDeathRecord : Type 0 where
  pub player_id : ℕ
  pub username : List ℕ
  pub score : ℤ
  -- 0 as long as the player lives, then 1 for who died first, and so on.
  pub death_order : ℕ
  pub is_alive : Bool

abbrev pub Records : Type 0
Records = List (ℕ × PlayerDeathRecord)

-- A write to the record of a key that is there; without the key nothing happens.
unfoldable pub update : ℕ → (PlayerDeathRecord → PlayerDeathRecord) → Records → Records
update id f [] = []
update id f ((k, r) ∷ rest) = if k == id then (k, f r) ∷ rest else (k, r) ∷ update id f rest

-- The loops of DetermineWinner: a candidate that may win and whose key is greater than the best so
-- far takes its place.
module _ {K : Type 0} (eligible : PlayerDeathRecord → Bool) (key : PlayerDeathRecord → K)
    (greater : K → K → Bool) where
  unfoldable pub consider : K × ℕ → ℕ × PlayerDeathRecord → K × ℕ
  consider (best, winner) (pid, rec) =
      if eligible rec && greater (key rec) best then (key rec, pid) else (best, winner)

  unfoldable pub choose : K × ℕ → Records → K × ℕ
  unfolding consider
  choose best [] = best
  choose best (candidate ∷ rest) = choose (consider best candidate) rest

unfoldable pub anyone_alive : Records → Bool
anyone_alive [] = false
anyone_alive ((pid, rec) ∷ rest) = if rec.is_alive then true else anyone_alive rest

-- -999999, 99999 and -1.
abbrev pub lowest_score : ℤ
lowest_score = negsuc 999998

abbrev pub alive_rank : ℕ
alive_rank = 99999

abbrev pub greater_score : ℤ → ℤ → Bool
greater_score a b = less_than b a

-- The highest score among those who live.
unfoldable pub best_survivor : Records → ℕ
unfolding choose
best_survivor l =
    (choose (λ rec. rec.is_alive) (λ rec. rec.score) greater_score (lowest_score, 0) l).1

abbrev pub order_key : PlayerDeathRecord → ℤ × ℤ
order_key rec = (pos (if rec.is_alive then alive_rank else rec.death_order), rec.score)

abbrev pub greater_order : ℤ × ℤ → ℤ × ℤ → Bool
greater_order (order, score) (best_order, best_score) =
    less_than best_order order || (equals order best_order && less_than best_score score)

-- Who died last, or who of these has the higher score.
unfoldable pub last_alive : Records → ℕ
unfolding choose
last_alive l = (choose (λ rec. true) order_key greater_order ((negsuc 0, lowest_score), 0) l).1

unfoldable pub determine_winner : Bool → Records → ℕ
unfolding anyone_alive best_survivor last_alive
determine_winner is_victory [] = 0
determine_winner is_victory (candidate ∷ rest) =
    if is_victory && anyone_alive (candidate ∷ rest)
    then best_survivor (candidate ∷ rest)
    else last_alive (candidate ∷ rest)

-- One entry of the leaderboard.
unfoldable pub entry_of : ℕ → ℕ × PlayerDeathRecord → PlayerScoreData
unfolding set_name clamp_zero
entry_of winner (pid, rec) = record {
  player_id = pid;
  name = set_name rec.username;
  score = clamp_zero rec.score;
  death_order = rec.death_order % 256;
  is_winner = if pid == winner then 1 else 0;
}

-- The comparison that BuildLeaderboard sorts by.
unfoldable pub ranks_before : PlayerScoreData → PlayerScoreData → Bool
ranks_before a b =
    if not (a.is_winner == b.is_winner)
    then ltb b.is_winner a.is_winner
    else if a.death_order == 0 && not (b.death_order == 0)
    then true
    else if b.death_order == 0 && not (a.death_order == 0)
    then false
    else if not (a.death_order == b.death_order)
    then ltb b.death_order a.death_order
    else ltb b.score a.score

-- BuildLeaderboard, which does not look at its flag. `sort` is std::sort with a comparison.
abbrev pub Sort : Type 0
Sort = (PlayerScoreData → PlayerScoreData → Bool) → List PlayerScoreData → List PlayerScoreData

unfoldable pub build_leaderboard : Sort → ℕ → Records → List PlayerScoreData
unfolding entry_of
build_leaderboard sort winner l = sort ranks_before (map (entry_of winner) l)
