-- ===== src/Wire/Consume.antt =====
-- How far a reader moves: a successful read steps over its bytes, all of which are in the buffer.
use r_type_j_a_m_e_s.Base.{
  ℕ, ◌+◌, ◌≤◌, ◌≡◌, sym, subst, ◌∙◌, inl, inr, none, some, arith, Option-cases, length,
}
use r_type_j_a_m_e_s.Wire.Endian.{Endian}
use r_type_j_a_m_e_s.Wire.Buffer.{
  PacketBuffer, Reader, ◌>>=◌, pure, read_bytes, read_uint, read_uint8, read_uint16, read_uint32,
  read_header,
}
use r_type_j_a_m_e_s.Wire.Codec.{>>=-some}

-- From a place in the buffer, `m` moves `n` bytes on and stays in it.
pub record Steps (n : ℕ) (b b' : PacketBuffer) : Type 0 where
  pub same : b'.buffer ≡ b.buffer
  pub moved : b'.read_offset ≡ b.read_offset + n
  pub inside : b.read_offset ≤ length b.buffer → b'.read_offset ≤ length b.buffer

abbrev pub Consumes : {A : Type 0} → ℕ → Reader A → Type 0
Consumes {A} n m = (b b' : PacketBuffer) (a : A) → m b ≡ some (a, b') → Steps n b b'

>>=-none :
    {A B : Type 0} (m : Reader A) (f : A → Reader B) (b : PacketBuffer) {r : B × PacketBuffer}
    → m b ≡ none
    → (m >>= f) b ≡ some r
    → ⊥
unfolding ◌>>=◌
>>=-none m f b e h = cc (rw (e, ◌>>=◌) at h)

>>=-inv :
    {A B : Type 0} (m : Reader A) (f : A → Reader B) (b b' : PacketBuffer) (c : B)
    → (m >>= f) b ≡ some (c, b')
    → (a : A) × (b₁ : PacketBuffer) × (m b ≡ some (a, b₁)) × (f a b₁ ≡ some (c, b'))
unfolding ◌>>=◌
>>=-inv m f b b' c h = elim (Option-cases (m b)) [
  | inl e ↦ absurd (>>=-none m f b e h)
  | inr (x, e) ↦ (x.0, x.1, e, sym (>>=-some m f b x.1 x.0 e) ∙ h)
]

pub Consumes-bind :
    {A B : Type 0} (n k : ℕ) (m : Reader A) (f : A → Reader B)
    → Consumes n m
    → ((a : A) → Consumes k (f a))
    → Consumes (n + k) (m >>= f)
Consumes-bind n k m f p q b b' c h =
    let (a, b₁, e, e') = >>=-inv m f b b' c h in
    let s = p b b₁ a e in
    let t = q a b₁ b' c e' in
    record {
      same = t.same ∙ s.same;
      moved = omega (arith, s.moved, t.moved);
      inside = λ k'.
          subst (λ xs. b'.read_offset ≤ length xs) s.same
            (t.inside (subst (λ xs. b₁.read_offset ≤ length xs) (sym s.same) (s.inside k')));
    }

pub Consumes-pure : {A : Type 0} (a : A) → Consumes 0 (pure a)
unfolding pure
Consumes-pure a b b' x h = ground arith

pub Consumes-bytes : (w : ℕ) → Consumes w (read_bytes w)
unfolding read_bytes
Consumes-bytes w b b' x h = ground arith

pub Consumes-uint : (w : ℕ) (d : Endian) → Consumes w (read_uint w d)
unfolding read_uint
Consumes-uint w d b b' x h =
    subst (λ n. Steps n b b') (omega arith)
      (Consumes-bind w 0 (read_bytes w) _ (Consumes-bytes w) (λ bs. Consumes-pure _) b b' x h)

pub Consumes-header : (d : Endian) → Consumes 12 (read_header d)
unfolding read_header read_uint8 read_uint16 read_uint32
Consumes-header d = Consumes-bind 1 11 _ _ (Consumes-uint 1 Endian.little) λ op.
    Consumes-bind 2 9 _ _ (Consumes-uint 2 d) λ size.
      Consumes-bind 1 8 _ _ (Consumes-uint 1 Endian.little) λ index.
        Consumes-bind 4 4 _ _ (Consumes-uint 4 d) λ tick.
          Consumes-bind 1 3 _ _ (Consumes-uint 1 Endian.little) λ count.
            Consumes-bind 1 2 _ _ (Consumes-uint 1 Endian.little) λ entity.
              Consumes-bind 1 1 _ _ (Consumes-uint 1 Endian.little)
                λ r0. Consumes-bind 1 0 _ _ (Consumes-uint 1 Endian.little) λ r1. Consumes-pure _
