-- ===== src/Client/Payloads.antt =====
-- The parts of the TCP handlers of client/network/Network.cpp that take a payload apart. `none` is
-- a read past the end of the vector.
use r_type_j_a_m_e_s.Base.{
  ℕ, zero, suc, not, Option, none, some, List, [], ◌∷◌, ◌==◌, leb, length, get_elem?, drop,
  if◌then◌else◌,
}
use r_type_j_a_m_e_s.Client.Header.{◌>>=◌, read_le32}
use r_type_j_a_m_e_s.Client.State.{LeaderboardEntry}

-- The loops that read a name of at most `n` bytes, up to a NUL.
unfoldable pub read_name : ℕ → List ℕ → Option (List ℕ)
read_name zero src = some []
read_name (suc n) [] = none
read_name (suc n) (c ∷ src) =
    if c == 0 then some [] else (read_name n src >>= λ name. some (c ∷ name))

-- One turn of the loop in HandleGameEnd; `entry` is what stands behind `offset`.
unfoldable pub read_entry : List ℕ → Option LeaderboardEntry
unfolding read_name read_le32
read_entry entry = do
  id ← get_elem? entry 0
  text ← read_name 32 (drop 1 entry)
  points ← read_le32 (drop 33 entry)
  order ← get_elem? entry 37
  winner ← get_elem? entry 38
  some (record {
    player_id = id;
    name = text;
    score = points;
    death_order = order;
    is_winner = not (winner == 0);
  })

-- The loop in HandleGameEnd: `count` turns are left, and `entries` stands behind `offset`.
unfoldable pub read_leaderboard : ℕ → List ℕ → Option (List LeaderboardEntry)
unfolding read_entry
read_leaderboard zero entries = some []
read_leaderboard (suc count) entries =
    if leb 39 (length entries)
    then (do
      entry ← read_entry entries
      rest ← read_leaderboard count (drop 39 entries)
      some (entry ∷ rest))
    else some []
