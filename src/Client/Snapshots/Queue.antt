-- ===== src/Client/Snapshots/Queue.antt =====
-- What stands in the client's queue of snapshots.
use r_type_j_a_m_e_s.Base.{
  ℕ, ◌+◌, ◌*◌, ◌/◌, ◌%◌, ◌≤◌, ◌≡◌, refl, ap, ◌∙◌, inl, inr, false, ◌&&◌, Option, none, some, List,
  [], ◌∷◌, ◌++◌, arith, ltb, leb, ◌==◌, ltb→lt, ltb→ge, ge→ltb, leb→le, le→leb, Bool-cases, All,
  length, length-append, length-take, length-drop, take, drop, take-length-append, if◌then◌else◌,
}
use r_type_j_a_m_e_s.Wire.Endian.{bytes_le}
use r_type_j_a_m_e_s.Wire.Buffer.{CommonHeader}
use r_type_j_a_m_e_s.Wire.Fields.{IsHeader}
use r_type_j_a_m_e_s.Wire.Written.{header_bytes}
use r_type_j_a_m_e_s.Client.State.{ServerConnection, SnapshotPacket}
use r_type_j_a_m_e_s.Client.Snapshots.{push, snapshot_from, snapshot_in, receive_datagram}

-- A snapshot has the bytes that its size says, and these fit its array.
abbrev pub IsSnapshot : SnapshotPacket → Type 0
IsSnapshot snap = (length snap.payload ≡ snap.payload_size) × (snap.payload_size ≤ 1460)

pub record IsQueue (s : ServerConnection) : Type 0 where
  pub bound : length s.snapshot_queue ≤ 256
  pub whole : All IsSnapshot s.snapshot_queue

All-append :
    (xs ys : List SnapshotPacket)
    → All IsSnapshot xs
    → All IsSnapshot ys
    → All IsSnapshot (xs ++ ys)
All-append [] ys h k = k
All-append (x ∷ xs) ys h k = (h.0, All-append xs ys h.1 k)

push-IsQueue :
    (snap : SnapshotPacket) (s : ServerConnection)
    → IsSnapshot snap
    → IsQueue s
    → IsQueue (push snap s)
unfolding push
push-IsQueue snap s h q = elim (Bool-cases (ltb (length s.snapshot_queue) 256)) [
  | inr full ↦ rw (full, push) q
  | inl room ↦
      rw (room, push)
        (record {
          bound =
              let less = ltb→lt (length s.snapshot_queue) 256 room in
              omega (arith, length-append s.snapshot_queue (snap ∷ []));
          whole = All-append s.snapshot_queue (snap ∷ []) q.whole (h, tt);
        })
]

-- What the handler can find in a datagram.
abbrev Found : Option SnapshotPacket → Type 0
Found none = Unit
Found (some snap) = IsSnapshot snap

snapshot_from-Found :
    (opcode size tick entity : ℕ) (bytes : List ℕ)
    → Found (snapshot_from opcode size tick entity bytes)
unfolding snapshot_from
snapshot_from-Found opcode size tick entity bytes = elim (Bool-cases (ltb 1460 size)) [
  | inl large ↦ rw large tt
  | inr fits ↦ elim (Bool-cases (opcode == 32 && leb (12 + size) (length bytes))) [
    | inr other ↦ rw (fits, other) tt
    | inl whole ↦
        let there : 12 + size ≤ length bytes = ground arith in
        rw (fits, whole)
          (
            length-take size (drop 12 bytes) ∙ omega (arith, length-drop 12 bytes),
            ltb→ge 1460 size fits,
          )
  ]
]

-- A datagram as long as a header.
data HasHeader : List ℕ → Type 0 where
  with_header :
      (b0 b1 b2 b3 b4 b5 b6 b7 b8 b9 b10 b11 : ℕ) (xs : List ℕ)
      → HasHeader (b0 ∷ b1 ∷ b2 ∷ b3 ∷ b4 ∷ b5 ∷ b6 ∷ b7 ∷ b8 ∷ b9 ∷ b10 ∷ b11 ∷ xs)

HasHeader-length : (bytes : List ℕ) → 12 ≤ length bytes → HasHeader bytes
HasHeader-length (b0 ∷ b1 ∷ b2 ∷ b3 ∷ b4 ∷ b5 ∷ b6 ∷ b7 ∷ b8 ∷ b9 ∷ b10 ∷ b11 ∷ xs) h =
    with_header b0 b1 b2 b3 b4 b5 b6 b7 b8 b9 b10 b11 xs
HasHeader-length bytes h = absurd (omega arith)

header_read :
    (bytes : List ℕ)
    → HasHeader bytes
    → (opcode : ℕ) × (size : ℕ) × (tick : ℕ) × (entity : ℕ) × (snapshot_in bytes
        ≡ some (snapshot_from opcode size tick entity bytes))
unfolding snapshot_in
header_read _ (with_header b0 b1 b2 b3 b4 b5 b6 b7 b8 b9 b10 b11 xs) =
    let bytes : List ℕ = b0 ∷ b1 ∷ b2 ∷ b3 ∷ b4 ∷ b5 ∷ b6 ∷ b7 ∷ b8 ∷ b9 ∷ b10 ∷ b11 ∷ xs in
    (
      b0,
      b1 + b2 * 256,
      b4 + b5 * 256 + b6 * 65536 + b7 * 16777216,
      b9,
      rw (le→leb 12 (length bytes) (omega arith)) refl,
    )

no_header : (bytes : List ℕ) → leb 12 (length bytes) ≡ false → snapshot_in bytes ≡ some none
unfolding snapshot_in
no_header bytes e = rw e refl

received_none :
    (bytes : List ℕ) (s : ServerConnection)
    → snapshot_in bytes ≡ some none
    → receive_datagram bytes s ≡ some s
unfolding receive_datagram
received_none bytes s e = rw e refl

received_snapshot :
    (bytes : List ℕ) (snap : SnapshotPacket) (s : ServerConnection)
    → snapshot_in bytes ≡ some (some snap)
    → receive_datagram bytes s ≡ some (push snap s)
unfolding receive_datagram
received_snapshot bytes snap s e = rw e refl

pushed-Found :
    (bytes : List ℕ) (s : ServerConnection) (found : Option SnapshotPacket)
    → IsQueue s
    → Found found
    → snapshot_in bytes ≡ some found
    → (t : ServerConnection) × (receive_datagram bytes s ≡ some t) × IsQueue t
pushed-Found bytes s none q h e = (s, received_none bytes s e, q)
pushed-Found bytes s (some snap) q h e =
    (push snap s, received_snapshot bytes snap s e, push-IsQueue snap s h q)

-- The handler of a datagram reads no byte that did not arrive, whatever the datagram is; it leaves
-- at most 256 snapshots in the queue, each with as many bytes as its size says and at most 1460, if
-- this held before.
pub receive_datagram-IsQueue :
    (bytes : List ℕ) (s : ServerConnection)
    → IsQueue s
    → (t : ServerConnection) × (receive_datagram bytes s ≡ some t) × IsQueue t
receive_datagram-IsQueue bytes s q = elim (Bool-cases (leb 12 (length bytes))) [
  | inr less ↦ pushed-Found bytes s none q tt (no_header bytes less)
  | inl enough ↦
      let read = header_read bytes (HasHeader-length bytes (leb→le 12 (length bytes) enough)) in
      pushed-Found bytes s (snapshot_from read.0 read.1 read.2 read.3 bytes) q
        (snapshot_from-Found read.0 read.1 read.2 read.3 bytes) read.4
]

-- The snapshot that a datagram of the server stands for.
abbrev pub carried : CommonHeader → List ℕ → SnapshotPacket
carried h payload' = record {
  tick = h.tick_id;
  payload = payload';
  payload_size = length payload';
  entity_type = h.entity_type;
}

snapshot_from-whole :
    (size tick entity : ℕ) (bytes : List ℕ)
    → size ≤ 1460
    → 12 + size ≤ length bytes
    → snapshot_from 32 size tick entity bytes
      ≡ some (record {
        tick = tick;
        payload = take size (drop 12 bytes);
        payload_size = size;
        entity_type = entity;
      })
unfolding snapshot_from
snapshot_from-whole size tick entity bytes h k =
    rw (ge→ltb 1460 size h, le→leb (12 + size) (length bytes) k) refl

abbrev carried_as : CommonHeader → ℕ → List ℕ → SnapshotPacket
carried_as h size payload' = record {
  tick = h.tick_id;
  payload = payload';
  payload_size = size;
  entity_type = h.entity_type;
}

snapshot_in-message :
    (h : CommonHeader) (payload more : List ℕ)
    → IsHeader h
    → h.op_code ≡ 0x20
    → h.payload_size ≡ length payload
    → length payload ≤ 1460
    → snapshot_in (header_bytes h ++ (payload ++ more)) ≡ some (some (carried h payload))
unfolding snapshot_in bytes_le
snapshot_in-message h payload more v op size fits =
    let bytes : List ℕ = header_bytes h ++ (payload ++ more) in
    let long : length bytes ≡ 12 + length payload + length more =
      omega (arith, length-append payload more) in
    let size_read : (h.payload_size % 256) + ((h.payload_size / 256) % 256) * 256 ≡ length payload =
      omega (arith, size, v.payload_size) in
    let tick_read : (h.tick_id % 256)
          + ((h.tick_id / 256) % 256) * 256
          + ((h.tick_id / 256 / 256) % 256) * 65536
          + ((h.tick_id / 256 / 256 / 256) % 256) * 16777216
        ≡ h.tick_id =
      omega (arith, v.tick_id) in
    rw (le→leb 12 (length bytes) (omega arith), size_read, tick_read, op)
      (ap some (
        snapshot_from-whole (length payload) h.tick_id h.entity_type bytes fits (omega arith)
        ∙ ap (λ xs. some (carried_as h (length payload) xs)) (take-length-append payload more)))

-- A datagram that is a header of the server's for a snapshot with its payload, in which everything
-- fits, adds that snapshot behind those that wait, if fewer than 256 do, and is dropped otherwise.
pub receive_datagram-message :
    (h : CommonHeader) (payload more : List ℕ) (s : ServerConnection)
    → IsHeader h
    → h.op_code ≡ 0x20
    → h.payload_size ≡ length payload
    → length payload ≤ 1460
    → receive_datagram (header_bytes h ++ (payload ++ more)) s
      ≡ some (
          if ltb (length s.snapshot_queue) 256
          then record s { snapshot_queue = s.snapshot_queue ++ carried h payload ∷ [] }
          else s)
unfolding push
receive_datagram-message h payload more s v op size fits =
    received_snapshot (header_bytes h ++ (payload ++ more)) (carried h payload) s
      (snapshot_in-message h payload more v op size fits)
