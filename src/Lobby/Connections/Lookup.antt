-- ===== src/Lobby/Connections/Lookup.antt =====
-- FindClientByPlayerId.
use r_type_j_a_m_e_s.Base.{
  ℕ, ◌≡◌, ◌≢◌, refl, inl, inr, ◌↔◌, some, [], ◌∷◌, arith, ◌==◌, In, Bool-cases, ==→eq,
}
use r_type_j_a_m_e_s.Lobby.Connections.{ClientConnection, Clients, find_client_by_player_id}
use r_type_j_a_m_e_s.Lobby.Connections.Ids.{player_ids}

abbrev pub Found : ℕ → Clients → Type 0
Found player l =
    (c : ClientConnection) × (find_client_by_player_id player l ≡ some c) × (c.player_id ≡ player)

find-Found : (player : ℕ) (l : Clients) → player ≢ 0 → In player (player_ids l) → Found player l
unfolding find_client_by_player_id
find-Found player [] pos m = absurd m
find-Found player ((k, c) ∷ rest) pos m = elim (Bool-cases (c.player_id == player)) [
  | inl same ↦ (c, rw same refl, ==→eq c.player_id player same)
  | inr other ↦
      let later : In player (player_ids rest) = ground arith in
      let (f, e, q) = find-Found player rest pos later in (f, rw other e, q)
]

Found-In : (player : ℕ) (l : Clients) → player ≢ 0 → Found player l → In player (player_ids l)
unfolding find_client_by_player_id
Found-In player [] pos (f, e, q) = absurd (cc)
Found-In player ((k, c) ∷ rest) pos (f, e, q) = elim (Bool-cases (c.player_id == player)) [
  | inl same ↦ ground arith
  | inr other ↦ let later = Found-In player rest pos (f, rw other at e, q) in ground arith
]

-- For an id that is not 0, FindClientByPlayerId finds a client, and one with that id, exactly if it
-- is the id of a player.
pub find_client_by_player_id-Found :
    (player : ℕ) (l : Clients) → player ≢ 0 → In player (player_ids l) ↔ Found player l
find_client_by_player_id-Found player l pos = (find-Found player l pos, Found-In player l pos)
