-- ===== src/Match/Leaderboard.antt =====
-- The leaderboard of server/src/server/Server.cpp: what its entries say, and in which order.
use r_type_j_a_m_e_s.Base.{
  ℕ, ◌%◌, ◌≤◌, ◌<◌, ◌⊎◌, ◌≡◌, refl, Bool-cases, ◌==◌, ==→eq, if◌then◌else◌, ap, subst, ◌∙◌, inl,
  inr, false, List, [], ◌∷◌, map, arith, All,
}
use mathlib.Core.List.{Perm}
use r_type_j_a_m_e_s.Base.Int.{pos_part, clamp_zero}
use r_type_j_a_m_e_s.Wire.Names.{set_name}
use r_type_j_a_m_e_s.Wire.Packets.Score.{PlayerScoreData}
use r_type_j_a_m_e_s.Match.Records.{
  PlayerDeathRecord, Records, entry_of, ranks_before, Sort, build_leaderboard,
}
use r_type_j_a_m_e_s.Match.Ranking.{Sorted, IsSort, build_leaderboard-Sorted}

-- What the entry of a player is to say: its id and name, its score or 0 if that is negative, the
-- low byte of its place among the dead, and whether it is the winner.
abbrev pub standing : ℕ → ℕ × PlayerDeathRecord → PlayerScoreData
standing winner (pid, rec) = record {
  player_id = pid;
  name = set_name rec.username;
  score = pos_part rec.score;
  death_order = rec.death_order % 256;
  is_winner = if pid == winner then 1 else 0;
}

entry_of-standing : (winner : ℕ) (x : ℕ × PlayerDeathRecord) → entry_of winner x ≡ standing winner x
unfolding entry_of clamp_zero
entry_of-standing winner (pid, rec) = refl

-- Who outlived whom: a survivor one who died, of two dead the one who died later; and among equals
-- the one with at least as many points.
abbrev pub Outlived : PlayerScoreData → PlayerScoreData → Type 0
Outlived x y =
    ((x.death_order ≡ 0) × (0 < y.death_order))
    ⊎ (((0 < y.death_order) × (y.death_order < x.death_order))
        ⊎ ((x.death_order ≡ y.death_order) × (y.score ≤ x.score)))

-- Who may stand in front of whom: the winner, and else who outlived the other.
abbrev pub Ahead : PlayerScoreData → PlayerScoreData → Type 0
Ahead x y = (y.is_winner < x.is_winner) ⊎ ((x.is_winner ≡ y.is_winner) × Outlived x y)

abbrev pub Ranked : List PlayerScoreData → Type 0
Ranked [] = Unit
Ranked (x ∷ xs) = All (λ y. Ahead x y) xs × Ranked xs

outlived :
    (x y : PlayerScoreData) → x.is_winner ≡ y.is_winner → ranks_before y x ≡ false → Outlived x y
unfolding ranks_before
outlived x y w h = elim (Bool-cases (x.death_order == y.death_order)) [
  | inl same ↦ inr (inr (ground arith, ground arith))
  | inr other ↦ elim (Bool-cases (x.death_order == 0)) [
    | inl lives ↦ inl (ground arith, ground arith)
    | inr died ↦ inr (inl (ground arith, ground arith))
  ]
]

ahead : (x y : PlayerScoreData) → ranks_before y x ≡ false → Ahead x y
unfolding ranks_before
ahead x y h = elim (Bool-cases (x.is_winner == y.is_winner)) [
  | inl same ↦
      inr (==→eq x.is_winner y.is_winner same, outlived x y (==→eq x.is_winner y.is_winner same) h)
  | inr other ↦ inl (ground arith)
]

All-Ahead :
    (x : PlayerScoreData) (xs : List PlayerScoreData)
    → All (λ y. ranks_before y x ≡ false) xs
    → All (λ y. Ahead x y) xs
All-Ahead x [] h = tt
All-Ahead x (y ∷ xs) h = (ahead x y h.0, All-Ahead x xs h.1)

Sorted-Ranked : (xs : List PlayerScoreData) → Sorted ranks_before xs → Ranked xs
Sorted-Ranked [] h = tt
Sorted-Ranked (x ∷ xs) h = (All-Ahead x xs h.0, Sorted-Ranked xs h.1)

map-standing : (winner : ℕ) (l : Records) → map (entry_of winner) l ≡ map (standing winner) l
map-standing winner [] = refl
map-standing winner (x ∷ l) =
    ap (λ e. e ∷ map (entry_of winner) l) (entry_of-standing winner x)
    ∙ ap (λ es. standing winner x ∷ es) (map-standing winner l)

-- With a sort that permutes and sorts by any strict weak ordering, the leaderboard has the entries
-- of all players, as often as there are records: each with the player's id and name, the score, 0
-- for a negative one, the low byte of the place among the dead, and whether it is the winner's. Of
-- two entries the winner's is in front; else a survivor's stands before that of a dead, of two dead
-- who died later is in front, and where these are equal who has at least as many points.
pub build_leaderboard-Ranked :
    (sort : Sort) (winner : ℕ) (l : Records)
    → IsSort sort
    → Perm (build_leaderboard sort winner l) (map (standing winner) l)
      × Ranked (build_leaderboard sort winner l)
build_leaderboard-Ranked sort winner l law =
    let sorted = build_leaderboard-Sorted sort winner l law in
    (
      subst (λ es. Perm (build_leaderboard sort winner l) es) (map-standing winner l) sorted.0,
      Sorted-Ranked (build_leaderboard sort winner l) sorted.1,
    )
