-- ===== src/Wire/Packets/Snapshot.antt =====
-- WorldSnapshotPacket. Each entity is written by its own kind; the reader takes one kind for all.
use r_type_j_a_m_e_s.Base.{
  ℕ, ◌+◌, ◌*◌, ◌%◌, ◌<◌, ◌≡◌, refl, sym, subst, List, length, All, arith, [], ◌∷◌, map,
}
use r_type_j_a_m_e_s.Wire.Endian.{Endian}
use r_type_j_a_m_e_s.Wire.Buffer.{
  Writer, Reader, write_all, read_times, ◌⨾◌, ◌>>=◌, pure, write_uint16, read_uint16, CommonHeader,
  header_of, write_header,
}
use r_type_j_a_m_e_s.Wire.Codec.{Codec, Codec-uint16, Codec-size, Codec-then, Codec-last, Codec-map}
use r_type_j_a_m_e_s.Wire.Fields.{PacketType, code, IsArray, write_array, read_array, Codec-array}
use r_type_j_a_m_e_s.Wire.Packets.EntityState.{
  EntityState, serialize_entity_state, deserialize_entity_state,
}
use r_type_j_a_m_e_s.Wire.Packets.EntityState.RoundTrip.{IsEntityState}

-- struct WorldSnapshotPacket.
pub record WorldSnapshotPacket : Type 0 where
  pub entity_count : ℕ
  pub reserved : List ℕ
  pub entities : List EntityState

-- WorldSnapshotPacket::PayloadSize.
unfoldable pub snapshot_payload_size : WorldSnapshotPacket → ℕ
snapshot_payload_size p = 4 + length p.entities * 12

unfoldable pub make_header_world_snapshot : WorldSnapshotPacket → ℕ → ℕ → ℕ → CommonHeader
make_header_world_snapshot p tick_id index count =
    header_of (code PacketType.world_snapshot) (snapshot_payload_size p % 65536) tick_id index count

unfoldable pub write_entity : Endian → EntityState → Writer
write_entity e s = serialize_entity_state e s s.entity_type

unfoldable pub write_world_snapshot : Endian → WorldSnapshotPacket → Writer
write_world_snapshot e p =
    write_uint16 e p.entity_count ⨾ write_array p.reserved ⨾ write_all (write_entity e) p.entities

unfoldable pub serialize_world_snapshot : Endian → WorldSnapshotPacket → ℕ → ℕ → ℕ → Writer
serialize_world_snapshot e p tick_id index count =
    write_header e (make_header_world_snapshot p tick_id index count) ⨾ write_world_snapshot e p

unfoldable pub deserialize_world_snapshot : Endian → EntityState → ℕ → Reader WorldSnapshotPacket
deserialize_world_snapshot d blank kind = do
  count ← read_uint16 d
  reserved' ← read_array 2
  entities' ← read_times count (deserialize_entity_state d blank kind)
  pure (record { entity_count = count; reserved = reserved'; entities = entities' })

-- The members fit their types and `entity_count` counts the entities.
pub record IsWorldSnapshot (p : WorldSnapshotPacket) : Type 0 where
  pub entity_count : p.entity_count < 65536
  pub reserved : IsArray 2 p.reserved
  pub counted : length p.entities ≡ p.entity_count
  pub entities : All IsEntityState p.entities

module _ (kind n : ℕ) (e d : Endian) (view : EntityState → EntityState) (blank : EntityState)
    (codec : (s : EntityState)
      → IsEntityState s
      → Codec n
          (serialize_entity_state e s kind)
          (deserialize_entity_state d blank kind)
          (view s)) where
  Codec-each :
      (xs : List EntityState)
      → All IsEntityState xs
      → All (λ s. s.entity_type ≡ kind) xs
      → All (λ s. Codec n (write_entity e s) (deserialize_entity_state d blank kind) (view s)) xs
  unfolding write_entity
  Codec-each [] h k = tt
  Codec-each (x ∷ xs) h k = (
    subst
        (λ j.
          Codec n (serialize_entity_state e x j) (deserialize_entity_state d blank kind) (view x))
        (sym k.0) (codec x h.0),
    Codec-each xs h.1 k.1,
  )

  Codec-entities :
      (count : ℕ) (xs : List EntityState)
      → length xs ≡ count
      → All IsEntityState xs
      → All (λ s. s.entity_type ≡ kind) xs
      → Codec
          (count * n)
          (write_all (write_entity e) xs)
          (read_times count (deserialize_entity_state d blank kind))
          (map view xs)
  Codec-entities count xs size h k =
      subst
        (λ j.
          Codec (j * n) (write_all (write_entity e) xs)
            (read_times j (deserialize_entity_state d blank kind)) (map view xs))
        size
        (Codec-map n (write_entity e) (deserialize_entity_state d blank kind) view xs
          (Codec-each xs h k))

  -- A snapshot of entities of one kind, read as that kind.
  pub Codec-world_snapshot :
      (p : WorldSnapshotPacket)
      → IsWorldSnapshot p
      → All (λ s. s.entity_type ≡ kind) p.entities
      → Codec
          (4 + p.entity_count * n)
          (write_world_snapshot e p)
          (deserialize_world_snapshot d blank kind)
          (record p { entities = map view p.entities })
  unfolding write_world_snapshot deserialize_world_snapshot
  Codec-world_snapshot p v k = Codec-size (omega arith) (
      Codec-then _ (Codec-uint16 e d p.entity_count v.entity_count) (
        Codec-then _ (Codec-array 2 p.reserved v.reserved)
          (Codec-last _ (Codec-entities p.entity_count p.entities v.counted v.entities k) refl)))
