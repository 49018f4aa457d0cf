-- ===== src/Wire/Factory/Frame.antt =====
-- A header with its payload, handed to DeserializePacket.
use r_type_j_a_m_e_s.Base.{
  ℕ, ◌+◌, ◌≤◌, ◌≡◌, refl, sym, ap, ◌∙◌, some, List, [], ◌++◌, arith, ge→ltb, length, length-append,
  append-nil, drop, drop-length-append,
}
use r_type_j_a_m_e_s.Wire.Endian.{Endian}
use r_type_j_a_m_e_s.Wire.Buffer.{
  PacketBuffer, Writer, Reader, ◌⨾◌, pure, of_data, remaining, CommonHeader, write_header,
  read_header,
}
use r_type_j_a_m_e_s.Wire.Codec.{Codec, advance, unread, >>=-some}
use r_type_j_a_m_e_s.Wire.Fields.{IsHeader, Codec-header}
use r_type_j_a_m_e_s.Wire.Packets.EntityState.{EntityState}
use r_type_j_a_m_e_s.Wire.Factory.{
  PacketVariant, parsed, read_as, reader_for, finish, switch, after_header, deserialize_packet,
}

-- A header whose size fits what is left leads to the reader of its packet.
after_header-fits :
    (d : Endian) (blank : EntityState) (h : CommonHeader) (b : PacketBuffer)
    → h.payload_size ≤ remaining b
    → after_header d blank (some (h, b)) ≡ switch h b (reader_for d blank h.op_code)
unfolding after_header
after_header-fits d blank h b fits = rw (ge→ltb (remaining b) h.payload_size fits)

switch-reads :
    {A : Type 0} (h : CommonHeader) (b b' : PacketBuffer) (m : Reader A) (tag : A → PacketVariant)
    (a : A)
    → m b ≡ some (a, b')
    → switch h b (some (read_as m tag)) ≡ parsed (tag a) h
unfolding switch finish read_as pure
switch-reads h b b' m tag a e = ap (finish h) (>>=-some m (λ x. pure (tag x)) b b' a e)

module _ {A : Type 0} (e d : Endian) (blank : EntityState) (h : CommonHeader) (n : ℕ) (w : Writer)
    (m : Reader A) (tag : A → PacketVariant) (a : A) where
  long_enough :
      (bytes : List ℕ)
      → 12 ≤ length bytes
      → deserialize_packet d blank bytes ≡ after_header d blank (read_header d (of_data bytes))
  unfolding deserialize_packet
  long_enough bytes k = rw (ge→ltb (length bytes) 12 k)

  remaining_lem :
      (bytes : List ℕ) (k : ℕ)
      → length bytes ≡ 12 + k
      → h.payload_size ≤ k
      → h.payload_size ≤ remaining (advance (of_data bytes) 12)
  unfolding remaining of_data
  remaining_lem bytes k total fits = omega arith

  pub parse_frame :
      IsHeader h
      → Codec n w m a
      → h.payload_size ≤ n
      → reader_for d blank h.op_code ≡ some (read_as m tag)
      → deserialize_packet d blank ((write_header e h ⨾ w) (of_data [])).buffer ≡ parsed (tag a) h
  unfolding deserialize_packet ◌⨾◌ of_data
  parse_frame v c fits known =
      let head = Codec-header e d h v in
      let bytes : List ℕ = head.bytes ++ c.bytes in
      let written : (w (write_header e h (of_data []))).buffer ≡ bytes =
        ap (λ b. (w b).buffer) (head.writes (of_data []))
        ∙ ap (λ b. b.buffer) (c.writes (record { buffer = head.bytes; read_offset = 0 })) in
      let total : length bytes ≡ 12 + n =
        length-append head.bytes c.bytes ∙ omega (arith, head.size, c.size) in
      let b : PacketBuffer = advance (of_data bytes) 12 in
      let header_read : read_header d (of_data bytes) ≡ some (h, b) =
        head.reads (of_data bytes) c.bytes refl in
      let payload : unread b ≡ c.bytes ++ [] =
        ap (λ k. drop k bytes) (sym head.size)
        ∙ drop-length-append head.bytes c.bytes
        ∙ sym (append-nil c.bytes) in
      ap (deserialize_packet d blank) written
      ∙ long_enough bytes (omega arith)
      ∙ ap (after_header d blank) header_read
      ∙ after_header-fits d blank h b (remaining_lem bytes n total fits)
      ∙ ap (switch h b) known
      ∙ switch-reads h b (advance b n) m tag a (c.reads b [] payload)
