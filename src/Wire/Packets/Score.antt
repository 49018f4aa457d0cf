-- ===== src/Wire/Packets/Score.antt =====
-- PlayerScoreData and GameEndPacket.
use r_type_j_a_m_e_s.Base.{
  ℕ, ◌+◌, ◌*◌, ◌%◌, ◌<◌, ◌≡◌, refl, subst, List, length, All, arith, [], ◌∷◌,
}
use r_type_j_a_m_e_s.Wire.Endian.{Endian}
use r_type_j_a_m_e_s.Wire.Buffer.{
  Writer, Reader, write_all, read_times, ◌⨾◌, ◌>>=◌, pure, write_uint8, write_uint32, read_uint8,
  read_uint32, CommonHeader, tcp_header, write_header,
}
use r_type_j_a_m_e_s.Wire.Codec.{
  Codec, Codec-uint8, Codec-uint32, Codec-size, Codec-then, Codec-last, Codec-All,
}
use r_type_j_a_m_e_s.Wire.Fields.{PacketType, code, IsArray, write_array, read_array, Codec-array}

-- struct PlayerScoreData.
pub record PlayerScoreData : Type 0 where
  pub player_id : ℕ
  pub name : List ℕ
  pub score : ℕ
  pub death_order : ℕ
  pub is_winner : ℕ

unfoldable pub serialize_player_score_data : Endian → PlayerScoreData → Writer
serialize_player_score_data e p =
    write_uint8 p.player_id
    ⨾ write_array p.name
    ⨾ write_uint32 e p.score
    ⨾ write_uint8 p.death_order
    ⨾ write_uint8 p.is_winner

unfoldable pub deserialize_player_score_data : Endian → Reader PlayerScoreData
deserialize_player_score_data d = do
  player_id' ← read_uint8
  name' ← read_array 32
  score' ← read_uint32 d
  death_order' ← read_uint8
  is_winner' ← read_uint8
  pure (record {
    player_id = player_id';
    name = name';
    score = score';
    death_order = death_order';
    is_winner = is_winner';
  })

pub record IsPlayerScoreData (p : PlayerScoreData) : Type 0 where
  pub player_id : p.player_id < 256
  pub name : IsArray 32 p.name
  pub score : p.score < 4294967296
  pub death_order : p.death_order < 256
  pub is_winner : p.is_winner < 256

-- An entry is 39 bytes long and is read back as it was.
pub Codec-player_score_data :
    (e d : Endian) (p : PlayerScoreData)
    → IsPlayerScoreData p
    → Codec 39 (serialize_player_score_data e p) (deserialize_player_score_data d) p
unfolding serialize_player_score_data deserialize_player_score_data
Codec-player_score_data e d p v = Codec-size refl (
    Codec-then _ (Codec-uint8 p.player_id v.player_id) (
      Codec-then _ (Codec-array 32 p.name v.name) (
        Codec-then _ (Codec-uint32 e d p.score v.score) (
          Codec-then _ (Codec-uint8 p.death_order v.death_order)
            (Codec-last _ (Codec-uint8 p.is_winner v.is_winner) refl)))))

-- struct GameEndPacket.
pub record GameEndPacket : Type 0 where
  pub winning_player_id : ℕ
  pub game_mode : ℕ
  pub player_count : ℕ
  pub reserved : List ℕ
  pub leaderboard : List PlayerScoreData

-- GameEndPacket::PayloadSize.
unfoldable pub game_end_payload_size : GameEndPacket → ℕ
game_end_payload_size p = 8 + length p.leaderboard * 39

unfoldable pub make_header_game_end : GameEndPacket → CommonHeader
make_header_game_end p = tcp_header (code PacketType.game_end) (game_end_payload_size p % 65536)

unfoldable pub write_game_end : Endian → GameEndPacket → Writer
write_game_end e p =
    write_uint8 p.winning_player_id
    ⨾ write_uint8 p.game_mode
    ⨾ write_uint8 p.player_count
    ⨾ write_array p.reserved
    ⨾ write_all (serialize_player_score_data e) p.leaderboard

unfoldable pub serialize_game_end : Endian → GameEndPacket → Writer
serialize_game_end e p = write_header e (make_header_game_end p) ⨾ write_game_end e p

unfoldable pub deserialize_game_end : Endian → Reader GameEndPacket
deserialize_game_end d = do
  winner ← read_uint8
  mode ← read_uint8
  count ← read_uint8
  reserved' ← read_array 5
  entries ← read_times count (deserialize_player_score_data d)
  pure (record {
    winning_player_id = winner;
    game_mode = mode;
    player_count = count;
    reserved = reserved';
    leaderboard = entries;
  })

pub record IsGameEnd (p : GameEndPacket) : Type 0 where
  pub winning_player_id : p.winning_player_id < 256
  pub game_mode : p.game_mode < 256
  pub player_count : p.player_count < 256
  pub reserved : IsArray 5 p.reserved
  pub counted : length p.leaderboard ≡ p.player_count
  pub leaderboard : All IsPlayerScoreData p.leaderboard

Codec-entries :
    (e d : Endian) (xs : List PlayerScoreData)
    → All IsPlayerScoreData xs
    → All (λ x. Codec 39 (serialize_player_score_data e x) (deserialize_player_score_data d) x) xs
Codec-entries e d [] h = tt
Codec-entries e d (x ∷ xs) h = (Codec-player_score_data e d x h.0, Codec-entries e d xs h.1)

Codec-leaderboard :
    (e d : Endian) (n : ℕ) (xs : List PlayerScoreData)
    → length xs ≡ n
    → All IsPlayerScoreData xs
    → Codec
        (n * 39)
        (write_all (serialize_player_score_data e) xs)
        (read_times n (deserialize_player_score_data d))
        xs
Codec-leaderboard e d n xs size h =
    subst
      (λ k.
        Codec (k * 39) (write_all (serialize_player_score_data e) xs)
          (read_times k (deserialize_player_score_data d)) xs)
      size
      (Codec-All 39 (serialize_player_score_data e) (deserialize_player_score_data d) xs
        (Codec-entries e d xs h))

-- The payload has the length that PayloadSize says, and is read back as it was.
pub Codec-game_end :
    (e d : Endian) (p : GameEndPacket)
    → IsGameEnd p
    → Codec (game_end_payload_size p) (write_game_end e p) (deserialize_game_end d) p
unfolding game_end_payload_size write_game_end deserialize_game_end
Codec-game_end e d p v = Codec-size (omega (arith, v.counted)) (
    Codec-then _ (Codec-uint8 p.winning_player_id v.winning_player_id) (
      Codec-then _ (Codec-uint8 p.game_mode v.game_mode) (
        Codec-then _ (Codec-uint8 p.player_count v.player_count) (
          Codec-then _ (Codec-array 5 p.reserved v.reserved) (
            Codec-last _
              (Codec-leaderboard e d p.player_count p.leaderboard v.counted v.leaderboard) refl)))))
