-- ===== src/Wire/Buffer.antt =====
-- PacketBuffer and CommonHeader of server/include/server/PacketBuffer.hpp. A method that changes
-- the buffer takes it last and returns the new one. `none` is the std::out_of_range of CheckBounds:
-- nobody looks at the buffer after it. A char is its byte, and a float or double its bit pattern.
use r_type_j_a_m_e_s.Base.{
  ℕ, zero, suc, ◌+◌, ◌-◌, Option, none, some, List, [], ◌∷◌, ◌++◌, ltb, if◌then◌else◌, length, take,
  drop,
}
use r_type_j_a_m_e_s.Wire.Endian.{
  Endian, to_little_endian, from_little_endian, memcpy_out, memcpy_in,
}

pub record PacketBuffer : Type 0 where
  pub buffer : List ℕ
  pub read_offset : ℕ

abbrev pub Writer : Type 0
Writer = PacketBuffer → PacketBuffer

abbrev pub Reader : Type 0 → Type 0
Reader A = PacketBuffer → Option (A × PacketBuffer)

-- Statements in sequence.
infixr 4 ◌⨾◌
unfoldable pub ◌⨾◌ : Writer → Writer → Writer
(w ⨾ w') b = w' (w b)

unfoldable pub skip : Writer
skip b = b

infixl 5 ◌>>=◌
unfoldable pub ◌>>=◌ : {A B : Type 0} → Reader A → (A → Reader B) → Reader B
◌>>=◌ m f b = elim (m b) [ none ↦ none | some (a, b') ↦ f a b' ]

unfoldable pub pure : {A : Type 0} → A → Reader A
pure a b = some (a, b)

-- A loop over a collection, and a loop that reads `n` items.
unfoldable pub write_all : {A : Type 0} → (A → Writer) → List A → Writer
write_all w [] = skip
write_all w (x ∷ xs) = w x ⨾ write_all w xs

unfoldable pub read_times : {A : Type 0} → ℕ → Reader A → Reader (List A)
read_times zero m = pure []
read_times (suc n) m = do x ← m; xs ← read_times n m; pure (x ∷ xs)

-- The constructor over a byte vector.
unfoldable pub of_data : List ℕ → PacketBuffer
of_data bytes = record { buffer = bytes; read_offset = 0 }

unfoldable pub remaining : PacketBuffer → ℕ
remaining b = length b.buffer - b.read_offset

unfoldable pub reset_read_offset : Writer
reset_read_offset b = record b { read_offset = 0 }

unfoldable pub clear : Writer
clear b = record { buffer = []; read_offset = 0 }

abbrev push_back : List ℕ → Writer
push_back bytes b = record b { buffer = b.buffer ++ bytes }

unfoldable pub write_uint8 : ℕ → Writer
write_uint8 value = push_back (value ∷ [])

-- WriteUint16, WriteUint32 and WriteUint64 differ in the width alone.
unfoldable pub write_uint : ℕ → Endian → ℕ → Writer
write_uint w e value = push_back (memcpy_out e w (to_little_endian e w value))

unfoldable pub write_uint16 : Endian → ℕ → Writer
write_uint16 = write_uint 2

unfoldable pub write_uint32 : Endian → ℕ → Writer
write_uint32 = write_uint 4

unfoldable pub write_uint64 : Endian → ℕ → Writer
write_uint64 = write_uint 8

unfoldable pub write_float : Endian → ℕ → Writer
write_float = write_uint32

unfoldable pub write_double : Endian → ℕ → Writer
write_double = write_uint64

-- CheckBounds, followed by the copy of `w` bytes and the step of the offset.
unfoldable pub read_bytes : ℕ → Reader (List ℕ)
read_bytes w b =
    if ltb (length b.buffer) (b.read_offset + w)
    then none
    else some (take w (drop b.read_offset b.buffer), record b { read_offset = b.read_offset + w })

unfoldable pub read_uint : ℕ → Endian → Reader ℕ
read_uint w e = do bytes ← read_bytes w; pure (from_little_endian e w (memcpy_in e bytes))

-- One byte has no order.
unfoldable pub read_uint8 : Reader ℕ
read_uint8 = read_uint 1 Endian.little

unfoldable pub read_uint16 : Endian → Reader ℕ
read_uint16 = read_uint 2

unfoldable pub read_uint32 : Endian → Reader ℕ
read_uint32 = read_uint 4

unfoldable pub read_uint64 : Endian → Reader ℕ
read_uint64 = read_uint 8

unfoldable pub read_float : Endian → Reader ℕ
read_float = read_uint32

unfoldable pub read_double : Endian → Reader ℕ
read_double = read_uint64

pub record CommonHeader : Type 0 where
  pub op_code : ℕ
  pub payload_size : ℕ
  pub packet_index : ℕ
  pub tick_id : ℕ
  pub packet_count : ℕ
  pub entity_type : ℕ
  pub reserved0 : ℕ
  pub reserved1 : ℕ

-- CommonHeader's constructors.
abbrev pub default_header : CommonHeader
default_header = record {
  op_code = 0;
  payload_size = 0;
  packet_index = 0;
  tick_id = 0;
  packet_count = 1;
  entity_type = 0xff;
  reserved0 = 0;
  reserved1 = 0;
}

abbrev pub header_of : ℕ → ℕ → ℕ → ℕ → ℕ → CommonHeader
header_of op size tick index count = record {
  op_code = op;
  payload_size = size;
  packet_index = index;
  tick_id = tick;
  packet_count = count;
  entity_type = 0xff;
  reserved0 = 0;
  reserved1 = 0;
}

-- A TCP packet's header: the defaults of the second constructor.
abbrev pub tcp_header : ℕ → ℕ → CommonHeader
tcp_header op size = header_of op size 0 0 1

unfoldable pub write_header : Endian → CommonHeader → Writer
write_header e h =
    write_uint8 h.op_code
    ⨾ write_uint16 e h.payload_size
    ⨾ write_uint8 h.packet_index
    ⨾ write_uint32 e h.tick_id
    ⨾ write_uint8 h.packet_count
    ⨾ write_uint8 h.entity_type
    ⨾ write_uint8 h.reserved0
    ⨾ write_uint8 h.reserved1

unfoldable pub read_header : Endian → Reader CommonHeader
read_header e = do
  op ← read_uint8
  size ← read_uint16 e
  index ← read_uint8
  tick ← read_uint32 e
  count ← read_uint8
  entity ← read_uint8
  r0 ← read_uint8
  r1 ← read_uint8
  pure (record {
    op_code = op;
    payload_size = size;
    packet_index = index;
    tick_id = tick;
    packet_count = count;
    entity_type = entity;
    reserved0 = r0;
    reserved1 = r1;
  })
