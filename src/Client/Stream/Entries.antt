-- ===== src/Client/Stream/Entries.antt =====
-- The leaderboard of a GAME_END: the entries that the server writes, read by the loop of
-- HandleGameEnd.
use r_type_j_a_m_e_s.Base.{
  ℕ, zero, suc, ◌+◌, ◌*◌, ◌≤◌, ◌<◌, ◌≡◌, refl, sym, ap, ◌∙◌, inl, inr, not, some, List, [], ◌∷◌,
  ◌++◌, map, append_assoc, arith, le→leb, ◌==◌, Bool-cases, All, length, length-append, get_elem?,
  drop, drop-length-append,
}
use r_type_j_a_m_e_s.Wire.Endian.{Endian, bytes_le}
use r_type_j_a_m_e_s.Wire.Buffer.{write_all}
use r_type_j_a_m_e_s.Wire.Names.{get_name}
use r_type_j_a_m_e_s.Wire.Packets.Score.{
  PlayerScoreData, IsPlayerScoreData, serialize_player_score_data,
}
use r_type_j_a_m_e_s.Wire.Written.{
  Writes, Writes-uint8, Writes-uint32, Writes-skip, Writes-array, ◌then_writes◌,
}
use r_type_j_a_m_e_s.Client.Header.{read_le32}
use r_type_j_a_m_e_s.Client.State.{LeaderboardEntry}
use r_type_j_a_m_e_s.Client.Payloads.{read_name, read_entry, read_leaderboard}

-- What the client shows of an entry.
abbrev pub shown : PlayerScoreData → LeaderboardEntry
shown p = record {
  player_id = p.player_id;
  name = get_name p.name;
  score = p.score;
  death_order = p.death_order;
  is_winner = not (p.is_winner == 0);
}

abbrev pub entry_bytes : PlayerScoreData → List ℕ
entry_bytes p = p.player_id ∷ (p.name ++ (bytes_le 4 p.score ++ p.death_order ∷ p.is_winner ∷ []))

abbrev pub leaderboard_bytes : List PlayerScoreData → List ℕ
leaderboard_bytes [] = []
leaderboard_bytes (p ∷ ps) = entry_bytes p ++ leaderboard_bytes ps

Writes-entry :
    (e : Endian) (p : PlayerScoreData)
    → IsPlayerScoreData p
    → Writes (serialize_player_score_data e p) (entry_bytes p)
unfolding serialize_player_score_data
Writes-entry e p v =
    Writes-uint8 p.player_id
    then_writes Writes-array p.name
    then_writes Writes-uint32 e p.score v.score
    then_writes Writes-uint8 p.death_order
    then_writes Writes-uint8 p.is_winner

pub Writes-leaderboard :
    (e : Endian) (ps : List PlayerScoreData)
    → All IsPlayerScoreData ps
    → Writes (write_all (serialize_player_score_data e) ps) (leaderboard_bytes ps)
unfolding write_all
Writes-leaderboard e [] h = Writes-skip
Writes-leaderboard e (p ∷ ps) h = Writes-entry e p h.0 then_writes Writes-leaderboard e ps h.1

-- The four bytes of a value, put together again.
pub read_le32-bytes_le :
    (v : ℕ) (rest : List ℕ) → v < 4294967296 → read_le32 (bytes_le 4 v ++ rest) ≡ some v
unfolding read_le32 bytes_le
read_le32-bytes_le v rest h = ap some (omega arith)

-- A name is read up to its first NUL.
pub read_name-get_name :
    (n : ℕ) (name rest : List ℕ)
    → length name ≡ n
    → read_name n (name ++ rest) ≡ some (get_name name)
unfolding read_name get_name
read_name-get_name zero [] rest e = refl
read_name-get_name zero (c ∷ cs) rest e = absurd (omega arith)
read_name-get_name (suc n) [] rest e = absurd (omega arith)
read_name-get_name (suc n) (c ∷ cs) rest e = elim (Bool-cases (c == 0)) [
  | inl nul ↦ rw nul refl
  | inr char ↦ rw (char, read_name-get_name n cs rest (omega arith)) refl
]

get_elem?-drop : (n i : ℕ) (xs : List ℕ) → get_elem? xs (n + i) ≡ get_elem? (drop n xs) i
get_elem?-drop zero i xs = ap (get_elem? xs) (omega arith)
get_elem?-drop (suc n) i [] = refl
get_elem?-drop (suc n) i (x ∷ xs) =
    ap (get_elem? (x ∷ xs)) (let e : suc n + i ≡ suc (n + i) = omega arith in e)
    ∙ get_elem?-drop n i xs

module _ (p : PlayerScoreData) (v : IsPlayerScoreData p) (more : List ℕ) where
  -- What stands behind the name.
  tail_bytes : List ℕ
  tail_bytes = bytes_le 4 p.score ++ p.death_order ∷ p.is_winner ∷ more

  entry_layout : entry_bytes p ++ more ≡ p.player_id ∷ (p.name ++ tail_bytes)
  unfolding tail_bytes bytes_le
  entry_layout = ap (◌∷◌ p.player_id) (append_assoc p.name _ more)

  behind_name : drop 33 (p.player_id ∷ (p.name ++ tail_bytes)) ≡ tail_bytes
  behind_name =
      ap (λ k. drop k (p.name ++ tail_bytes)) (sym v.name.size)
      ∙ drop-length-append p.name tail_bytes

  read_entry-laid_out : read_entry (p.player_id ∷ (p.name ++ tail_bytes)) ≡ some (shown p)
  unfolding read_entry tail_bytes bytes_le
  read_entry-laid_out =
      let bytes : List ℕ = p.player_id ∷ (p.name ++ tail_bytes) in
      let order : get_elem? bytes 37 ≡ some p.death_order =
        get_elem?-drop 33 4 bytes ∙ ap (λ xs. get_elem? xs 4) behind_name in
      let winner : get_elem? bytes 38 ≡ some p.is_winner =
        get_elem?-drop 33 5 bytes ∙ ap (λ xs. get_elem? xs 5) behind_name in
      let points : read_le32 (drop 33 bytes) ≡ some p.score =
        ap read_le32 behind_name
        ∙ read_le32-bytes_le p.score (p.death_order ∷ p.is_winner ∷ more) v.score in
      let text : read_name 32 (drop 1 bytes) ≡ some (get_name p.name) =
        read_name-get_name 32 p.name tail_bytes v.name.size in
      rw (text, points, order, winner) refl

  read_entry-entry_bytes : read_entry (entry_bytes p ++ more) ≡ some (shown p)
  read_entry-entry_bytes = ap read_entry entry_layout ∙ read_entry-laid_out

length-entry_bytes : (p : PlayerScoreData) → IsPlayerScoreData p → length (entry_bytes p) ≡ 39
unfolding bytes_le
length-entry_bytes p v =
    ap suc (length-append p.name (bytes_le 4 p.score ++ p.death_order ∷ p.is_winner ∷ []))
    ∙ omega (arith, v.name.size)

drop-entry_bytes :
    (p : PlayerScoreData) (more : List ℕ)
    → IsPlayerScoreData p
    → drop 39 (entry_bytes p ++ more) ≡ more
drop-entry_bytes p more v =
    ap (λ k. drop k (entry_bytes p ++ more)) (sym (length-entry_bytes p v))
    ∙ drop-length-append (entry_bytes p) more

pub length-leaderboard_bytes :
    (ps : List PlayerScoreData)
    → All IsPlayerScoreData ps
    → length (leaderboard_bytes ps) ≡ length ps * 39
length-leaderboard_bytes [] h = omega arith
length-leaderboard_bytes (p ∷ ps) h =
    length-append (entry_bytes p) (leaderboard_bytes ps)
    ∙ omega (arith, length-entry_bytes p h.0, length-leaderboard_bytes ps h.1)

read_leaderboard-step :
    (n : ℕ) (bytes more : List ℕ) (entry : LeaderboardEntry) (entries : List LeaderboardEntry)
    → 39 ≤ length bytes
    → read_entry bytes ≡ some entry
    → drop 39 bytes ≡ more
    → read_leaderboard n more ≡ some entries
    → read_leaderboard (suc n) bytes ≡ some (entry ∷ entries)
unfolding read_leaderboard
read_leaderboard-step n bytes more entry entries h e d r =
    rw (le→leb 39 (length bytes) h, e, d, r) refl

-- The client reads the entries that the server wrote.
pub read_leaderboard-leaderboard_bytes :
    (ps : List PlayerScoreData)
    → All IsPlayerScoreData ps
    → read_leaderboard (length ps) (leaderboard_bytes ps) ≡ some (map shown ps)
unfolding read_leaderboard
read_leaderboard-leaderboard_bytes [] h = refl
read_leaderboard-leaderboard_bytes (p ∷ ps) h =
    read_leaderboard-step (length ps) (entry_bytes p ++ leaderboard_bytes ps) (leaderboard_bytes ps)
      (shown p) (map shown ps)
      (omega
        (arith, length-append (entry_bytes p) (leaderboard_bytes ps), length-entry_bytes p h.0))
      (read_entry-entry_bytes p h.0 (leaderboard_bytes ps))
      (drop-entry_bytes p (leaderboard_bytes ps) h.0) (read_leaderboard-leaderboard_bytes ps h.1)
