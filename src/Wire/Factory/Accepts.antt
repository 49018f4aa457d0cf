-- ===== src/Wire/Factory/Accepts.antt =====
-- What DeserializePacket has checked of a packet that it accepts.
use r_type_j_a_m_e_s.Base.{
  ℕ, ◌+◌, ◌≤◌, ◌≡◌, ◌≢◌, refl, ap, inl, inr, Option, none, some, List, arith, Bool-cases, ltb,
  ltb→ge, subst, length,
}
use r_type_j_a_m_e_s.Wire.Endian.{Endian}
use r_type_j_a_m_e_s.Wire.Buffer.{
  PacketBuffer, Reader, of_data, remaining, CommonHeader, read_header,
}
use r_type_j_a_m_e_s.Wire.Consume.{Steps, Consumes-header}
use r_type_j_a_m_e_s.Wire.Packets.EntityState.{EntityState}
use r_type_j_a_m_e_s.Wire.Factory.{
  PacketVariant, parsed, reader_for, finish, switch, after_header, deserialize_packet,
}

finish_parsed :
    (h k : CommonHeader) (r : Option (PacketVariant × PacketBuffer)) (p : PacketVariant)
    → finish h r ≡ parsed p k
    → h ≡ k
unfolding finish
finish_parsed h k none p e = cc
finish_parsed h k (some (q, b)) p e = cc

switch_parsed :
    (h k : CommonHeader) (b : PacketBuffer) (r : Option (Reader PacketVariant)) (p : PacketVariant)
    → switch h b r ≡ parsed p k
    → (h ≡ k) × (r ≢ none)
unfolding switch
switch_parsed h k b none p e = cc
switch_parsed h k b (some m) p e = (finish_parsed h k (m b) p e, λ n. cc)

-- The header that comes with an accepted packet: it is the one at the front of the bytes, its
-- payload lies in them, and its code is one of the switch.
abbrev pub Checked : Endian → EntityState → List ℕ → CommonHeader → Type 0
Checked d blank bytes h =
    (12 + h.payload_size ≤ length bytes) × (reader_for d blank h.op_code ≢ none)

after_header-Checked :
    (d : Endian) (blank : EntityState) (bytes : List ℕ) (h k : CommonHeader) (b : PacketBuffer)
    (p : PacketVariant)
    → Steps 12 (of_data bytes) b
    → 12 ≤ length bytes
    → after_header d blank (some (h, b)) ≡ parsed p k
    → Checked d blank bytes k
unfolding after_header of_data remaining switch finish
after_header-Checked d blank bytes h k b p s long e =
    elim (Bool-cases (ltb (remaining b) h.payload_size)) [
      | inl short ↦ absurd (cc (rw short at e))
      | inr fits ↦
          let (same, known) = switch_parsed h k b _ p (rw fits at e) in
          subst (Checked d blank bytes) same
            (omega (arith, ltb→ge (remaining b) h.payload_size fits, ap length s.same), known)
    ]

read-Checked :
    (d : Endian) (blank : EntityState) (bytes : List ℕ) (k : CommonHeader) (p : PacketVariant)
    (r : Option (CommonHeader × PacketBuffer))
    → read_header d (of_data bytes) ≡ r
    → 12 ≤ length bytes
    → after_header d blank r ≡ parsed p k
    → Checked d blank bytes k
unfolding after_header
read-Checked d blank bytes k p none q long e = absurd (cc)
read-Checked d blank bytes k p (some (h, b)) q long e =
    after_header-Checked d blank bytes h k b p (Consumes-header d (of_data bytes) b h q) long e

-- A packet that DeserializePacket accepts comes with a header whose payload size lies within the
-- bytes that follow the header, and whose code is one that the switch knows.
pub deserialize_packet-Checked :
    (d : Endian) (blank : EntityState) (bytes : List ℕ) {p : PacketVariant} {h : CommonHeader}
    → deserialize_packet d blank bytes ≡ parsed p h
    → Checked d blank bytes h
unfolding deserialize_packet
deserialize_packet-Checked d blank bytes {p = p} {h = h} e =
    elim (Bool-cases (ltb (length bytes) 12)) [
      | inl short ↦ absurd (cc (rw short at e))
      | inr long ↦
          read-Checked d blank bytes h p _ refl (ltb→ge (length bytes) 12 long) (rw long at e)
    ]
