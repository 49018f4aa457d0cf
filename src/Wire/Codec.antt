-- ===== src/Wire/Codec.antt =====
-- What a writer puts on the wire the reader takes off it, also on a machine of the other byte
-- order; with the number of bytes, and closed under sequence and loops.
use r_type_j_a_m_e_s.Base.{
  ℕ, ◌+◌, ◌-◌, ◌*◌, ◌^◌, ◌<◌, ◌≡◌, refl, sym, ap, subst, ◌∙◌, some, List, [], ◌∷◌, ◌++◌, map,
  append_assoc, append-nil, arith, ge→ltb, length, take, drop, length-append, length-drop,
  take-length-append, drop-length-append, drop-drop, All,
}
use r_type_j_a_m_e_s.Wire.Endian.{
  Endian, bytes_le, length-bytes_le, memcpy_out-to_little_endian, from_little_endian-memcpy_in,
  from_little_endian, to_little_endian, memcpy_in, value_le,
}
use r_type_j_a_m_e_s.Wire.Buffer.{
  PacketBuffer, Writer, Reader, ◌⨾◌, ◌>>=◌, pure, write_all, read_times, skip, of_data, write_uint8,
  write_uint, write_float, write_double, read_float, read_double, write_uint16, write_uint32,
  write_uint64, read_uint16, read_uint32, read_uint64, read_bytes, read_uint, read_uint8,
}
use native.Mathlib.Nat.{add_assoc}

-- The bytes that are still to be read.
abbrev pub unread : PacketBuffer → List ℕ
unread b = drop b.read_offset b.buffer

abbrev pub advance : PacketBuffer → ℕ → PacketBuffer
advance b n = record b { read_offset = b.read_offset + n }

pub record Codec {A : Type 0} (n : ℕ) (w : Writer) (m : Reader A) (a : A) : Type 0 where
  pub bytes : List ℕ
  pub size : length bytes ≡ n
  pub writes : (b : PacketBuffer) → w b ≡ record b { buffer = b.buffer ++ bytes }
  pub reads :
      (b : PacketBuffer) (rest : List ℕ) → unread b ≡ bytes ++ rest → m b ≡ some (a, advance b n)

pub >>=-some :
    {A B : Type 0} (m : Reader A) (f : A → Reader B) (b b' : PacketBuffer) (a : A)
    → m b ≡ some (a, b')
    → (m >>= f) b ≡ f a b'
unfolding ◌>>=◌
>>=-some m f b b' a h = rw (h, ◌>>=◌)

read_bytes_lem :
    (w : ℕ) (bs rest : List ℕ) (b : PacketBuffer)
    → 0 < w
    → length bs ≡ w
    → unread b ≡ bs ++ rest
    → read_bytes w b ≡ some (bs, advance b w)
unfolding read_bytes
read_bytes_lem w bs rest b pos size e =
    let total : length b.buffer - b.read_offset ≡ w + length rest =
      sym (length-drop b.read_offset b.buffer)
      ∙ ap length e
      ∙ length-append bs rest
      ∙ ap (λ k. k + length rest) size in
    let first : take w (unread b) ≡ bs =
      ap (take w) e ∙ ap (λ k. take k (bs ++ rest)) (sym size) ∙ take-length-append bs rest in
    rw (ge→ltb (length b.buffer) (b.read_offset + w) (omega arith), first)

Codec-uint :
    (w : ℕ) (e d : Endian) (v : ℕ)
    → 0 < w
    → v < 256 ^ w
    → Codec w (write_uint w e v) (read_uint w d) v
unfolding write_uint read_uint pure
Codec-uint w e d v pos h = record {
  bytes = bytes_le w v;
  size = length-bytes_le w v;
  writes = λ b. rw (memcpy_out-to_little_endian e w v h);
  reads = λ b rest u.
      >>=-some (read_bytes w) _ b (advance b w) (bytes_le w v)
        (read_bytes_lem w (bytes_le w v) rest b pos (length-bytes_le w v) u)
      ∙ ap (λ x. some (x, advance b w)) (from_little_endian-memcpy_in d w v h);
}

pub Codec-uint8 : (v : ℕ) → v < 256 → Codec 1 (write_uint8 v) read_uint8 v
unfolding write_uint8 read_uint8 read_uint pure from_little_endian to_little_endian memcpy_in
    value_le
Codec-uint8 v h = record {
  bytes = v ∷ [];
  size = refl;
  writes = λ b. refl;
  reads = λ b rest u.
      >>=-some (read_bytes 1) _ b (advance b 1) (v ∷ [])
        (read_bytes_lem 1 (v ∷ []) rest b (omega arith) refl u)
      ∙ ap (λ x. some (x, advance b 1)) (omega arith);
}

pub Codec-uint16 : (e d : Endian) (v : ℕ) → v < 65536 → Codec 2 (write_uint16 e v) (read_uint16 d) v
unfolding write_uint16 read_uint16
Codec-uint16 e d v h = Codec-uint 2 e d v (omega arith) (omega arith)

pub Codec-uint32 :
    (e d : Endian) (v : ℕ) → v < 4294967296 → Codec 4 (write_uint32 e v) (read_uint32 d) v
unfolding write_uint32 read_uint32
Codec-uint32 e d v h = Codec-uint 4 e d v (omega arith) (omega arith)

pub Codec-uint64 :
    (e d : Endian) (v : ℕ) → v < 18446744073709551616 → Codec 8 (write_uint64 e v) (read_uint64 d) v
unfolding write_uint64 read_uint64
Codec-uint64 e d v h = Codec-uint 8 e d v (omega arith) (omega arith)

pub Codec-size :
    {A : Type 0} {n k : ℕ} {w : Writer} {m : Reader A} {a : A}
    → n ≡ k
    → Codec n w m a
    → Codec k w m a
Codec-size {w = w} {m = m} {a = a} e c = subst (λ i. Codec i w m a) e c

pub Codec-then :
    {A B : Type 0} {n k : ℕ} {w w' : Writer} {m : Reader A} (f : A → Reader B) {a : A} {c : B}
    → Codec n w m a
    → Codec k w' (f a) c
    → Codec (n + k) (w ⨾ w') (m >>= f) c
unfolding ◌⨾◌
Codec-then {n = n} {k = k} {w = w} {w' = w'} {m = m} f {a = a} {c = c} p q = record {
  bytes = p.bytes ++ q.bytes;
  size = length-append p.bytes q.bytes ∙ omega (arith, p.size, q.size);
  writes = λ b.
      ap w' (p.writes b)
      ∙ q.writes (record b { buffer = b.buffer ++ p.bytes })
      ∙ ap (λ xs. record b { buffer = xs }) (append_assoc b.buffer p.bytes q.bytes);
  reads = λ b rest u.
      let first = p.reads b (q.bytes ++ rest) (u ∙ append_assoc p.bytes q.bytes rest) in
      let left : unread (advance b n) ≡ q.bytes ++ rest =
        drop-drop b.read_offset n b.buffer
        ∙ ap (drop n) (u ∙ append_assoc p.bytes q.bytes rest)
        ∙ ap (λ j. drop j (p.bytes ++ (q.bytes ++ rest))) (sym p.size)
        ∙ drop-length-append p.bytes (q.bytes ++ rest) in
      >>=-some m f b (advance b n) a first
      ∙ q.reads (advance b n) rest left
      ∙ ap (λ j. some (c, record b { read_offset = j })) (add_assoc b.read_offset n k);
}

-- The last field: the reader only packs the values up.
pub Codec-last :
    {A B : Type 0} {n : ℕ} {w : Writer} {m : Reader A} (f : A → Reader B) {a : A} {c : B}
    → Codec n w m a
    → f a ≡ pure c
    → Codec n w (m >>= f) c
unfolding pure
Codec-last {n = n} {m = m} f {a = a} p e = record {
  bytes = p.bytes;
  size = p.size;
  writes = p.writes;
  reads =
      λ b rest u. >>=-some m f b (advance b n) a (p.reads b rest u) ∙ ap (λ r. r (advance b n)) e;
}

pub Codec-none : {A : Type 0} (a : A) → Codec 0 skip (pure a) a
unfolding pure skip
Codec-none a = record {
  bytes = [];
  size = refl;
  writes = λ b. ap (λ xs. record b { buffer = xs }) (sym (append-nil b.buffer));
  reads = λ b rest u. ap (λ j. some (a, record b { read_offset = j })) (omega arith);
}

-- A loop that writes the items of a list, and one that reads as many.
pub Codec-All :
    {A : Type 0} (n : ℕ) (w : A → Writer) (m : Reader A) (xs : List A)
    → All (λ x. Codec n (w x) m x) xs
    → Codec (length xs * n) (write_all w xs) (read_times (length xs) m) xs
unfolding write_all read_times
Codec-All n w m [] h = Codec-size (omega arith) (Codec-none [])
Codec-All n w m (x ∷ xs) h =
    Codec-size (omega arith) (Codec-then _ h.0 (Codec-last _ (Codec-All n w m xs h.1) refl))

-- Reading back what was just written to an empty buffer.
pub Codec-fresh :
    {A : Type 0} {n : ℕ} {w : Writer} {m : Reader A} {a : A}
    → Codec n w m a
    → m (w (of_data [])) ≡ some (a, advance (w (of_data [])) n)
unfolding of_data
Codec-fresh {n = n} {w = w} {m = m} {a = a} c =
    c.reads (w (of_data [])) [] (ap unread (c.writes (of_data [])) ∙ sym (append-nil c.bytes))

pub Codec-float :
    (e d : Endian) (v : ℕ) → v < 4294967296 → Codec 4 (write_float e v) (read_float d) v
unfolding write_float read_float
Codec-float = Codec-uint32

pub Codec-double :
    (e d : Endian) (v : ℕ) → v < 18446744073709551616 → Codec 8 (write_double e v) (read_double d) v
unfolding write_double read_double
Codec-double = Codec-uint64

-- The same, where the reader gets a view of each item.
pub Codec-map :
    {A B : Type 0} (n : ℕ) (w : A → Writer) (m : Reader B) (view : A → B) (xs : List A)
    → All (λ x. Codec n (w x) m (view x)) xs
    → Codec (length xs * n) (write_all w xs) (read_times (length xs) m) (map view xs)
unfolding write_all read_times
Codec-map n w m view [] h = Codec-size (omega arith) (Codec-none [])
Codec-map n w m view (x ∷ xs) h =
    Codec-size (omega arith) (Codec-then _ h.0 (Codec-last _ (Codec-map n w m view xs h.1) refl))
