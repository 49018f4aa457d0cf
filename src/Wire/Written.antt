-- ===== src/Wire/Written.antt =====
-- The bytes that a writer appends, spelled out, and the header that the client writes.
use r_type_j_a_m_e_s.Base.{
  ℕ, ◌<◌, ◌≡◌, refl, sym, ap, ◌∙◌, List, [], ◌∷◌, ◌++◌, append_assoc, append-nil, arith,
}
use r_type_j_a_m_e_s.Wire.Endian.{Endian, bytes_le, memcpy_out-to_little_endian}
use r_type_j_a_m_e_s.Wire.Buffer.{
  PacketBuffer, Writer, ◌⨾◌, write_all, skip, of_data, write_uint8, write_uint, write_uint16,
  write_uint32, CommonHeader, write_header,
}
use r_type_j_a_m_e_s.Wire.Fields.{IsHeader, write_array}

pub record Writes (w : Writer) (bytes : List ℕ) : Type 0 where
  pub appends : (b : PacketBuffer) → w b ≡ record b { buffer = b.buffer ++ bytes }

pub Writes-uint8 : (v : ℕ) → Writes (write_uint8 v) (v ∷ [])
unfolding write_uint8
Writes-uint8 v = record { appends = λ b. refl }

pub Writes-uint16 : (e : Endian) (v : ℕ) → v < 65536 → Writes (write_uint16 e v) (bytes_le 2 v)
unfolding write_uint16 write_uint
Writes-uint16 e v h = record {
  appends = λ b. rw (memcpy_out-to_little_endian e 2 v (omega arith)) refl;
}

pub Writes-uint32 : (e : Endian) (v : ℕ) → v < 4294967296 → Writes (write_uint32 e v) (bytes_le 4 v)
unfolding write_uint32 write_uint
Writes-uint32 e v h = record {
  appends = λ b. rw (memcpy_out-to_little_endian e 4 v (omega arith)) refl;
}

pub Writes-skip : Writes skip []
unfolding skip
Writes-skip = record {
  appends = λ b. ap (λ xs. record b { buffer = xs }) (sym (append-nil b.buffer));
}

infixr 4 ◌then_writes◌
pub ◌then_writes◌ :
    {w w' : Writer} {xs ys : List ℕ} → Writes w xs → Writes w' ys → Writes (w ⨾ w') (xs ++ ys)
unfolding ◌⨾◌
◌then_writes◌ {w = w} {w' = w'} {xs = xs} {ys = ys} p q = record {
  appends = λ b.
      ap w' (p.appends b)
      ∙ q.appends (record b { buffer = b.buffer ++ xs })
      ∙ ap (λ zs. record b { buffer = zs }) (append_assoc b.buffer xs ys);
}

pub Writes-array : (xs : List ℕ) → Writes (write_array xs) xs
unfolding write_all
Writes-array [] = Writes-skip
Writes-array (x ∷ xs) = Writes-uint8 x then_writes Writes-array xs

-- The bytes of a header, the same on a machine of either order.
abbrev pub header_bytes : CommonHeader → List ℕ
header_bytes h =
    h.op_code
    ∷ (bytes_le 2 h.payload_size
        ++ h.packet_index
          ∷ (bytes_le 4 h.tick_id
              ++ h.packet_count ∷ h.entity_type ∷ h.reserved0 ∷ h.reserved1 ∷ []))

pub Writes-header :
    (e : Endian) (h : CommonHeader) → IsHeader h → Writes (write_header e h) (header_bytes h)
unfolding write_header bytes_le
Writes-header e h v =
    Writes-uint8 h.op_code
    then_writes Writes-uint16 e h.payload_size v.payload_size
    then_writes Writes-uint8 h.packet_index
    then_writes Writes-uint32 e h.tick_id v.tick_id
    then_writes Writes-uint8 h.packet_count
    then_writes Writes-uint8 h.entity_type
    then_writes Writes-uint8 h.reserved0
    then_writes Writes-uint8 h.reserved1

pub Writes-fresh : {w : Writer} {xs : List ℕ} → Writes w xs → (w (of_data [])).buffer ≡ xs
unfolding of_data
Writes-fresh {w = w} {xs = xs} p = ap (λ b. b.buffer) (p.appends (of_data []))
