-- ===== src/Wire/Packets/EntityState.antt =====
-- EntityState: the members that go on the wire depend on the kind of the entity. Members that
-- `Deserialize` does not set are those of `blank`, which stands for what the memory held.
pub mod RoundTrip
use r_type_j_a_m_e_s.Base.{ℕ, if◌then◌else◌, ◌==◌}
use r_type_j_a_m_e_s.Wire.Endian.{Endian}
use r_type_j_a_m_e_s.Wire.Buffer.{
  Writer, Reader, skip, ◌⨾◌, ◌>>=◌, pure, write_uint8, write_uint16, write_uint32, read_uint8,
  read_uint16, read_uint32,
}

-- enum class EntityType. The byte of a packet may hold any value.
abbrev pub player_kind : ℕ
player_kind = 0x00

abbrev pub enemy_kind : ℕ
enemy_kind = 0x01

abbrev pub projectile_kind : ℕ
projectile_kind = 0x02

pub record EntityState : Type 0 where
  pub entity_id : ℕ
  pub entity_type : ℕ
  pub reserved : ℕ
  pub pos_x : ℕ
  pub pos_y : ℕ
  pub angle : ℕ
  pub velocity_x : ℕ
  pub velocity_y : ℕ
  pub projectile_type : ℕ
  pub enemy_type : ℕ
  pub current_animation : ℕ
  pub current_frame : ℕ
  pub health : ℕ
  pub invincibility_time : ℕ
  pub score : ℕ

unfoldable pub write_player : Endian → EntityState → Writer
write_player e p =
    write_uint16 e p.pos_x
    ⨾ write_uint16 e p.pos_y
    ⨾ write_uint16 e p.angle
    ⨾ write_uint16 e p.velocity_x
    ⨾ write_uint16 e p.velocity_y
    ⨾ write_uint16 e p.health
    ⨾ write_uint16 e p.invincibility_time
    ⨾ write_uint16 e p.score

unfoldable pub write_enemy : Endian → EntityState → Writer
write_enemy e p =
    write_uint16 e p.pos_x
    ⨾ write_uint16 e p.pos_y
    ⨾ write_uint16 e p.angle
    ⨾ write_uint16 e p.velocity_x
    ⨾ write_uint16 e p.velocity_y
    ⨾ write_uint8 p.enemy_type
    ⨾ write_uint8 p.current_animation
    ⨾ write_uint8 p.current_frame
    ⨾ write_uint16 e p.health

unfoldable pub write_projectile : Endian → EntityState → Writer
write_projectile e p =
    write_uint16 e p.pos_x
    ⨾ write_uint16 e p.pos_y
    ⨾ write_uint16 e p.angle
    ⨾ write_uint16 e p.velocity_x
    ⨾ write_uint16 e p.velocity_y
    ⨾ write_uint8 p.projectile_type

-- The branches on the kind; a kind that is none of the three adds nothing.
unfoldable pub write_kind : Endian → EntityState → ℕ → Writer
write_kind e p kind =
    if kind == player_kind
    then write_player e p
    else if kind == enemy_kind
    then write_enemy e p
    else if kind == projectile_kind
    then write_projectile e p
    else skip

unfoldable pub serialize_entity_state : Endian → EntityState → ℕ → Writer
serialize_entity_state e p kind =
    write_uint32 e p.entity_id
    ⨾ write_uint8 p.entity_type
    ⨾ write_uint8 p.reserved
    ⨾ write_kind e p kind

unfoldable pub read_player : Endian → EntityState → Reader EntityState
read_player d s = do
  pos_x' ← read_uint16 d
  pos_y' ← read_uint16 d
  angle' ← read_uint16 d
  velocity_x' ← read_uint16 d
  velocity_y' ← read_uint16 d
  health' ← read_uint16 d
  invincibility_time' ← read_uint16 d
  score' ← read_uint16 d
  pure (record s {
    pos_x = pos_x';
    pos_y = pos_y';
    angle = angle';
    velocity_x = velocity_x';
    velocity_y = velocity_y';
    health = health';
    invincibility_time = invincibility_time';
    score = score';
  })

unfoldable pub read_enemy : Endian → EntityState → Reader EntityState
read_enemy d s = do
  pos_x' ← read_uint16 d
  pos_y' ← read_uint16 d
  angle' ← read_uint16 d
  velocity_x' ← read_uint16 d
  velocity_y' ← read_uint16 d
  enemy_type' ← read_uint8
  current_animation' ← read_uint8
  current_frame' ← read_uint8
  health' ← read_uint16 d
  pure (record s {
    pos_x = pos_x';
    pos_y = pos_y';
    angle = angle';
    velocity_x = velocity_x';
    velocity_y = velocity_y';
    enemy_type = enemy_type';
    current_animation = current_animation';
    current_frame = current_frame';
    health = health';
  })

unfoldable pub read_projectile : Endian → EntityState → Reader EntityState
read_projectile d s = do
  pos_x' ← read_uint16 d
  pos_y' ← read_uint16 d
  angle' ← read_uint16 d
  velocity_x' ← read_uint16 d
  velocity_y' ← read_uint16 d
  projectile_type' ← read_uint8
  pure (record s {
    pos_x = pos_x';
    pos_y = pos_y';
    angle = angle';
    velocity_x = velocity_x';
    velocity_y = velocity_y';
    projectile_type = projectile_type';
  })

unfoldable pub read_kind : Endian → EntityState → ℕ → Reader EntityState
read_kind d s kind =
    if kind == player_kind
    then read_player d s
    else if kind == enemy_kind
    then read_enemy d s
    else if kind == projectile_kind
    then read_projectile d s
    else pure s

unfoldable pub deserialize_entity_state : Endian → EntityState → ℕ → Reader EntityState
deserialize_entity_state d blank kind = do
  id ← read_uint32 d
  type ← read_uint8
  reserved' ← read_uint8
  read_kind d (record blank { entity_id = id; entity_type = type; reserved = reserved' }) kind
