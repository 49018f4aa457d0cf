-- ===== src/Client/Header.antt =====
-- The protocol constants and byte helpers at the top of client/network/Network.cpp, which do not
-- depend on the machine's byte order. A pointer into a buffer is the list of the bytes behind it;
-- reading past its end is `none`.
use r_type_j_a_m_e_s.Base.{
  ℕ, ◌+◌, ◌*◌, ◌/◌, ◌%◌, Option, none, some, List, [], ◌∷◌, ◌++◌, get_elem?,
}

-- constexpr uint8_t kOp….
abbrev pub op_connect_req : ℕ
op_connect_req = 0x01

abbrev pub op_connect_ack : ℕ
op_connect_ack = 0x02

abbrev pub op_disconnect_req : ℕ
op_disconnect_req = 0x03

abbrev pub op_notify_disconnect : ℕ
op_notify_disconnect = 0x04

abbrev pub op_game_start : ℕ
op_game_start = 0x05

abbrev pub op_game_end : ℕ
op_game_end = 0x06

abbrev pub op_ready_status : ℕ
op_ready_status = 0x07

abbrev pub op_notify_connect : ℕ
op_notify_connect = 0x08

abbrev pub op_notify_ready : ℕ
op_notify_ready = 0x09

abbrev pub op_set_game_speed : ℕ
op_set_game_speed = 0x0a

abbrev pub op_notify_game_speed : ℕ
op_notify_game_speed = 0x0b

abbrev pub op_set_difficulty : ℕ
op_set_difficulty = 0x0c

abbrev pub op_set_killable_projectiles : ℕ
op_set_killable_projectiles = 0x0d

abbrev pub op_notify_difficulty : ℕ
op_notify_difficulty = 0x0e

abbrev pub op_notify_killable_projectiles : ℕ
op_notify_killable_projectiles = 0x0f

abbrev pub op_player_input : ℕ
op_player_input = 0x10

abbrev pub op_world_snapshot : ℕ
op_world_snapshot = 0x20

-- kHeaderSize.
abbrev pub header_size : ℕ
header_size = 12

-- A check that failed, and what comes after a read.
infixl 5 ◌>>=◌
abbrev pub ◌>>=◌ : {A B : Type 0} → Option A → (A → Option B) → Option B
none >>= f = none
some a >>= f = f a

-- WriteLe16 and WriteLe32: the bytes they store.
unfoldable pub write_le16 : ℕ → List ℕ
write_le16 v = (v % 256) ∷ ((v / 256) % 256) ∷ []

unfoldable pub write_le32 : ℕ → List ℕ
write_le32 v = (v % 256) ∷ ((v / 256) % 256) ∷ ((v / 65536) % 256) ∷ ((v / 16777216) % 256) ∷ []

-- ReadLe16 and ReadLe32. The shifted bytes do not overlap, so that `|` adds them.
unfoldable pub read_le16 : List ℕ → Option ℕ
read_le16 src = do b0 ← get_elem? src 0; b1 ← get_elem? src 1; some (b0 + b1 * 256)

unfoldable pub read_le32 : List ℕ → Option ℕ
read_le32 src = do
  b0 ← get_elem? src 0
  b1 ← get_elem? src 1
  b2 ← get_elem? src 2
  b3 ← get_elem? src 3
  some (b0 + b1 * 256 + b2 * 65536 + b3 * 16777216)

-- WriteHeader: opcode, payload size, packet index, tick, packet count, and three bytes of zero.
unfoldable pub write_header : ℕ → ℕ → ℕ → ℕ → ℕ → List ℕ
unfolding write_le16 write_le32
write_header opcode payload_size tick_id packet_index packet_count =
    opcode
    ∷ (write_le16 payload_size
        ++ packet_index ∷ (write_le32 tick_id ++ packet_count ∷ 0 ∷ 0 ∷ 0 ∷ []))
