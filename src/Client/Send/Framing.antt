-- ===== src/Client/Send/Framing.antt =====
-- The header and the username that client/network/Network.cpp writes, against those of the server.
use r_type_j_a_m_e_s.Base.{
  ℕ, zero, suc, ◌/◌, ◌<◌, ◌≡◌, refl, sym, ap, ◌∙◌, ◌≢◌, ◌↔◌, inl, inr, In, some, List, [], ◌∷◌,
  ◌++◌, arith, min, length, take, drop, replicate, All, length-append, length-take, length-drop,
  length-replicate,
}
use r_type_j_a_m_e_s.Wire.Endian.{Endian, little, bytes_le}
use r_type_j_a_m_e_s.Wire.Buffer.{Writer, Reader, CommonHeader}
use r_type_j_a_m_e_s.Wire.Codec.{Codec}
use r_type_j_a_m_e_s.Wire.Fields.{IsHeader, IsArray}
use r_type_j_a_m_e_s.Wire.Written.{Writes, ◌then_writes◌, Writes-header, Writes-fresh, header_bytes}
use r_type_j_a_m_e_s.Wire.Packets.EntityState.{EntityState}
use r_type_j_a_m_e_s.Wire.Factory.{PacketVariant, parsed, read_as, reader_for, deserialize_packet}
use r_type_j_a_m_e_s.Wire.Factory.Frame.{parse_frame}
use r_type_j_a_m_e_s.Client.Header
use r_type_j_a_m_e_s.Client.Send.{padded_username}

-- The header of a message of the client: its last four bytes are zero, but for the packet count.
abbrev pub client_header : ℕ → ℕ → ℕ → CommonHeader
client_header op size tick = record {
  op_code = op;
  payload_size = size;
  packet_index = 0;
  tick_id = tick;
  packet_count = 1;
  entity_type = 0;
  reserved0 = 0;
  reserved1 = 0;
}

write_header_lem :
    (op size tick : ℕ)
    → Header.write_header op size tick 0 1 ≡ header_bytes (client_header op size tick)
unfolding Header.write_header bytes_le
write_header_lem op size tick =
    let third : tick / 65536 ≡ tick / 256 / 256 = omega arith in
    let fourth : tick / 16777216 ≡ tick / 256 / 256 / 256 = omega arith in rw (third, fourth) refl

pub client_header-IsHeader :
    (op size tick : ℕ)
    → op < 256
    → size < 65536
    → tick < 4294967296
    → IsHeader (client_header op size tick)
client_header-IsHeader op size tick h k l = record {
  op_code = h;
  payload_size = k;
  packet_index = omega arith;
  tick_id = l;
  packet_count = omega arith;
  entity_type = omega arith;
  reserved0 = omega arith;
  reserved1 = omega arith;
}

-- The header and the payload that the client puts together, for any packet of the server.
pub delivered :
    {A : Type 0} (d : Endian) (blank : EntityState) (op size tick : ℕ) (w : Writer) (m : Reader A)
    (tag : A → PacketVariant) (a : A) (payload : List ℕ)
    → IsHeader (client_header op size tick)
    → Writes w payload
    → Codec size w m a
    → reader_for d blank op ≡ some (read_as m tag)
    → deserialize_packet d blank (Header.write_header op size tick 0 1 ++ payload)
      ≡ parsed (tag a) (client_header op size tick)
delivered d blank op size tick w m tag a payload v p c known =
    ap (λ xs. deserialize_packet d blank (xs ++ payload)) (write_header_lem op size tick)
    ∙ ap (deserialize_packet d blank)
        (sym (Writes-fresh (Writes-header little (client_header op size tick) v then_writes p)))
    ∙ parse_frame little d blank (client_header op size tick) size w m tag a v c (omega arith) known

All-zeros : (n : ℕ) → All (λ c. c < 256) (replicate n 0)
All-zeros zero = tt
All-zeros (suc n) = (omega arith, All-zeros n)

All-take : (P : ℕ → Type 0) (n : ℕ) (xs : List ℕ) → All P xs → All P (take n xs)
All-take P zero xs h = tt
All-take P (suc n) [] h = tt
All-take P (suc n) (x ∷ xs) h = (h.0, All-take P n xs h.1)

All-drop : (P : ℕ → Type 0) (n : ℕ) (xs : List ℕ) → All P xs → All P (drop n xs)
All-drop P zero xs h = h
All-drop P (suc n) [] h = tt
All-drop P (suc n) (x ∷ xs) h = All-drop P n xs h.1

All-append : (P : ℕ → Type 0) (xs ys : List ℕ) → All P xs → All P ys → All P (xs ++ ys)
All-append P [] ys h k = k
All-append P (x ∷ xs) ys h k = (h.0, All-append P xs ys h.1 k)

pub padded_username-IsArray :
    (name : List ℕ) → All (λ c. c < 256) name → IsArray 32 (padded_username name)
unfolding padded_username
padded_username-IsArray name h =
    let m : ℕ = min (length name) 32 in
    record {
      size =
          length-append (take m name) (drop m (replicate 32 0))
          ∙ omega (
            arith,
            length-take m name,
            length-drop {A = ℕ} m (replicate 32 0),
            length-replicate {A = ℕ} 32 0,
          );
      bytes =
          All-append (λ c. c < 256) (take m name) (drop m (replicate 32 0))
            (All-take (λ c. c < 256) m name h)
            (All-drop (λ c. c < 256) m (replicate 32 0) (All-zeros 32));
    }

nul_behind :
    (n : ℕ) (name : List ℕ) (m : ℕ)
    → m ≡ min (length name) n
    → All (λ c. c ≢ 0) name
    → In 0 (take m name ++ drop m (replicate n 0))
    → length name < n
nul_behind zero name zero e h i = absurd i
nul_behind zero name (suc m) e h i = absurd (omega arith)
nul_behind (suc n) [] m e h i = omega arith
nul_behind (suc n) (x ∷ xs) zero e h i = absurd (omega arith)
nul_behind (suc n) (x ∷ xs) (suc m) e h (inl zero_x) = absurd (h.0 (sym zero_x))
nul_behind (suc n) (x ∷ xs) (suc m) e h (inr later) =
    let less = nul_behind n xs m (omega arith) h.1 later in omega arith

nul_there :
    (n : ℕ) (name : List ℕ) (m : ℕ)
    → m ≡ min (length name) n
    → length name < n
    → In 0 (take m name ++ drop m (replicate n 0))
nul_there zero name m e h = absurd (omega arith)
nul_there (suc n) [] zero e h = inl refl
nul_there (suc n) [] (suc m) e h = absurd (omega arith)
nul_there (suc n) (x ∷ xs) zero e h = absurd (omega arith)
nul_there (suc n) (x ∷ xs) (suc m) e h = inr (nul_there n xs m (omega arith) (omega arith))

-- Where a username has no NUL in it, the array of 32 bytes that the client sends for it has one
-- exactly if the username is shorter than 32 characters.
pub In-padded_username :
    (name : List ℕ) → All (λ c. c ≢ 0) name → (In 0 (padded_username name) ↔ (length name < 32))
unfolding padded_username
In-padded_username name h = (
  nul_behind 32 name (min (length name) 32) refl h,
  nul_there 32 name (min (length name) 32) refl,
)
