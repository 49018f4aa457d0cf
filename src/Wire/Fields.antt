-- ===== src/Wire/Fields.antt =====
-- What the packets share: arrays of bytes, the fixed-size names, the packet codes of
-- server/include/server/PacketTypes.hpp, and the header on the wire.
use r_type_j_a_m_e_s.Base.{ℕ, ◌<◌, ◌≡◌, refl, subst, List, [], ◌∷◌, arith, length, All}
use r_type_j_a_m_e_s.Wire.Endian.{Endian}
use r_type_j_a_m_e_s.Wire.Buffer.{
  Writer, Reader, write_all, read_times, write_uint8, read_uint8, CommonHeader, write_header,
  read_header,
}
use r_type_j_a_m_e_s.Wire.Codec.{
  Codec, Codec-uint8, Codec-uint16, Codec-uint32, Codec-size, Codec-then, Codec-last, Codec-All,
}

-- enum class PacketType.
pub data PacketType : Type 0 where
  connect_req connect_ack disconnect_req notify_disconnect game_start game_end ready_status
        notify_connect notify_ready set_game_speed notify_game_speed set_difficulty
        set_killable_projectiles player_input world_snapshot player_stats :
      PacketType

-- static_cast<uint8_t>(type).
abbrev pub code : PacketType → ℕ
code connect_req = 0x01
code connect_ack = 0x02
code disconnect_req = 0x03
code notify_disconnect = 0x04
code game_start = 0x05
code game_end = 0x06
code ready_status = 0x07
code notify_connect = 0x08
code notify_ready = 0x09
code set_game_speed = 0x0a
code notify_game_speed = 0x0b
code set_difficulty = 0x0c
code set_killable_projectiles = 0x0d
code player_input = 0x10
code world_snapshot = 0x20
code player_stats = 0x21

-- A std::array of `n` bytes.
pub record IsArray (n : ℕ) (xs : List ℕ) : Type 0 where
  pub size : length xs ≡ n
  pub bytes : All (λ x. x < 256) xs

abbrev pub write_array : List ℕ → Writer
write_array = write_all write_uint8

abbrev pub read_array : ℕ → Reader (List ℕ)
read_array n = read_times n read_uint8

Codec-bytes :
    (xs : List ℕ) → All (λ x. x < 256) xs → All (λ x. Codec 1 (write_uint8 x) read_uint8 x) xs
Codec-bytes [] h = tt
Codec-bytes (x ∷ xs) h = (Codec-uint8 x h.0, Codec-bytes xs h.1)

pub Codec-array : (n : ℕ) (xs : List ℕ) → IsArray n xs → Codec n (write_array xs) (read_array n) xs
Codec-array n xs h =
    subst (λ k. Codec k (write_array xs) (read_array k) xs) h.size
      (Codec-size (omega arith) (Codec-All 1 write_uint8 read_uint8 xs (Codec-bytes xs h.bytes)))

-- The fields fit their C++ types.
pub record IsHeader (h : CommonHeader) : Type 0 where
  pub op_code : h.op_code < 256
  pub payload_size : h.payload_size < 65536
  pub packet_index : h.packet_index < 256
  pub tick_id : h.tick_id < 4294967296
  pub packet_count : h.packet_count < 256
  pub entity_type : h.entity_type < 256
  pub reserved0 : h.reserved0 < 256
  pub reserved1 : h.reserved1 < 256

-- A header is twelve bytes, and is read back as it was written, on a machine of either order.
pub Codec-header :
    (e d : Endian) (h : CommonHeader) → IsHeader h → Codec 12 (write_header e h) (read_header d) h
unfolding write_header read_header
Codec-header e d h v = Codec-size refl (
    Codec-then _ (Codec-uint8 h.op_code v.op_code) (
      Codec-then _ (Codec-uint16 e d h.payload_size v.payload_size) (
        Codec-then _ (Codec-uint8 h.packet_index v.packet_index) (
          Codec-then _ (Codec-uint32 e d h.tick_id v.tick_id) (
            Codec-then _ (Codec-uint8 h.packet_count v.packet_count) (
              Codec-then _ (Codec-uint8 h.entity_type v.entity_type) (
                Codec-then _ (Codec-uint8 h.reserved0 v.reserved0)
                  (Codec-last _ (Codec-uint8 h.reserved1 v.reserved1) refl))))))))
