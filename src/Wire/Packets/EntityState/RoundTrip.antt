-- ===== src/Wire/Packets/EntityState/RoundTrip.antt =====
-- The states of server/include/server/Packets.hpp are read back as they were written.
use r_type_j_a_m_e_s.Base.{◌<◌, refl}
use r_type_j_a_m_e_s.Wire.Endian.{Endian}
use r_type_j_a_m_e_s.Wire.Codec.{
  Codec, Codec-uint8, Codec-uint16, Codec-uint32, Codec-size, Codec-then, Codec-last,
}
use r_type_j_a_m_e_s.Wire.Packets.EntityState.{
  player_kind, enemy_kind, projectile_kind, EntityState, write_player, write_enemy,
  write_projectile, write_kind, serialize_entity_state, read_player, read_enemy, read_projectile,
  read_kind, deserialize_entity_state,
}

pub record IsEntityState (p : EntityState) : Type 0 where
  pub entity_id : p.entity_id < 4294967296
  pub entity_type : p.entity_type < 256
  pub reserved : p.reserved < 256
  pub pos_x : p.pos_x < 65536
  pub pos_y : p.pos_y < 65536
  pub angle : p.angle < 65536
  pub velocity_x : p.velocity_x < 65536
  pub velocity_y : p.velocity_y < 65536
  pub projectile_type : p.projectile_type < 256
  pub enemy_type : p.enemy_type < 256
  pub current_animation : p.current_animation < 256
  pub current_frame : p.current_frame < 256
  pub health : p.health < 65536
  pub invincibility_time : p.invincibility_time < 65536
  pub score : p.score < 65536

-- The state as the receiver has it: the members of the kind, over those of `blank`.
abbrev pub received_head : EntityState → EntityState → EntityState
received_head blank p = record blank {
  entity_id = p.entity_id;
  entity_type = p.entity_type;
  reserved = p.reserved;
}

abbrev pub received_player : EntityState → EntityState → EntityState
received_player s p = record s {
  pos_x = p.pos_x;
  pos_y = p.pos_y;
  angle = p.angle;
  velocity_x = p.velocity_x;
  velocity_y = p.velocity_y;
  health = p.health;
  invincibility_time = p.invincibility_time;
  score = p.score;
}

abbrev pub received_enemy : EntityState → EntityState → EntityState
received_enemy s p = record s {
  pos_x = p.pos_x;
  pos_y = p.pos_y;
  angle = p.angle;
  velocity_x = p.velocity_x;
  velocity_y = p.velocity_y;
  enemy_type = p.enemy_type;
  current_animation = p.current_animation;
  current_frame = p.current_frame;
  health = p.health;
}

abbrev pub received_projectile : EntityState → EntityState → EntityState
received_projectile s p = record s {
  pos_x = p.pos_x;
  pos_y = p.pos_y;
  angle = p.angle;
  velocity_x = p.velocity_x;
  velocity_y = p.velocity_y;
  projectile_type = p.projectile_type;
}

Codec-player :
    (e d : Endian) (s p : EntityState)
    → IsEntityState p
    → Codec 16 (write_player e p) (read_player d s) (received_player s p)
unfolding write_player read_player
Codec-player e d s p v = Codec-size refl (
    Codec-then _ (Codec-uint16 e d p.pos_x v.pos_x) (
      Codec-then _ (Codec-uint16 e d p.pos_y v.pos_y) (
        Codec-then _ (Codec-uint16 e d p.angle v.angle) (
          Codec-then _ (Codec-uint16 e d p.velocity_x v.velocity_x) (
            Codec-then _ (Codec-uint16 e d p.velocity_y v.velocity_y) (
              Codec-then _ (Codec-uint16 e d p.health v.health) (
                Codec-then _ (Codec-uint16 e d p.invincibility_time v.invincibility_time)
                  (Codec-last _ (Codec-uint16 e d p.score v.score) refl))))))))

Codec-enemy :
    (e d : Endian) (s p : EntityState)
    → IsEntityState p
    → Codec 15 (write_enemy e p) (read_enemy d s) (received_enemy s p)
unfolding write_enemy read_enemy
Codec-enemy e d s p v = Codec-size refl (
    Codec-then _ (Codec-uint16 e d p.pos_x v.pos_x) (
      Codec-then _ (Codec-uint16 e d p.pos_y v.pos_y) (
        Codec-then _ (Codec-uint16 e d p.angle v.angle) (
          Codec-then _ (Codec-uint16 e d p.velocity_x v.velocity_x) (
            Codec-then _ (Codec-uint16 e d p.velocity_y v.velocity_y) (
              Codec-then _ (Codec-uint8 p.enemy_type v.enemy_type) (
                Codec-then _ (Codec-uint8 p.current_animation v.current_animation) (
                  Codec-then _ (Codec-uint8 p.current_frame v.current_frame)
                    (Codec-last _ (Codec-uint16 e d p.health v.health) refl)))))))))

Codec-projectile :
    (e d : Endian) (s p : EntityState)
    → IsEntityState p
    → Codec 11 (write_projectile e p) (read_projectile d s) (received_projectile s p)
unfolding write_projectile read_projectile
Codec-projectile e d s p v = Codec-size refl (
    Codec-then _ (Codec-uint16 e d p.pos_x v.pos_x) (
      Codec-then _ (Codec-uint16 e d p.pos_y v.pos_y) (
        Codec-then _ (Codec-uint16 e d p.angle v.angle) (
          Codec-then _ (Codec-uint16 e d p.velocity_x v.velocity_x) (
            Codec-then _ (Codec-uint16 e d p.velocity_y v.velocity_y)
              (Codec-last _ (Codec-uint8 p.projectile_type v.projectile_type) refl))))))

-- The state of a player whose members fit their types is written as 22 bytes, and a reader of
-- either byte order has from them the members that this kind carries, and consumes no more.
pub Codec-player_state :
    (e d : Endian) (blank p : EntityState)
    → IsEntityState p
    → Codec 22
        (serialize_entity_state e p player_kind)
        (deserialize_entity_state d blank player_kind)
        (received_player (received_head blank p) p)
unfolding serialize_entity_state deserialize_entity_state write_kind read_kind
Codec-player_state e d blank p v = Codec-size refl (
    Codec-then _ (Codec-uint32 e d p.entity_id v.entity_id) (
      Codec-then _ (Codec-uint8 p.entity_type v.entity_type) (
        Codec-then _ (Codec-uint8 p.reserved v.reserved)
          (Codec-player e d (received_head blank p) p v))))

-- The state of an enemy whose members fit their types is written as 21 bytes, and a reader of
-- either byte order has from them the members that this kind carries, and consumes no more.
pub Codec-enemy_state :
    (e d : Endian) (blank p : EntityState)
    → IsEntityState p
    → Codec 21
        (serialize_entity_state e p enemy_kind)
        (deserialize_entity_state d blank enemy_kind)
        (received_enemy (received_head blank p) p)
unfolding serialize_entity_state deserialize_entity_state write_kind read_kind
Codec-enemy_state e d blank p v = Codec-size refl (
    Codec-then _ (Codec-uint32 e d p.entity_id v.entity_id) (
      Codec-then _ (Codec-uint8 p.entity_type v.entity_type) (
        Codec-then _ (Codec-uint8 p.reserved v.reserved)
          (Codec-enemy e d (received_head blank p) p v))))

-- The state of a projectile whose members fit their types is written as 17 bytes, and a reader of
-- either byte order has from them the members that this kind carries, and consumes no more.
pub Codec-projectile_state :
    (e d : Endian) (blank p : EntityState)
    → IsEntityState p
    → Codec 17
        (serialize_entity_state e p projectile_kind)
        (deserialize_entity_state d blank projectile_kind)
        (received_projectile (received_head blank p) p)
unfolding serialize_entity_state deserialize_entity_state write_kind read_kind
Codec-projectile_state e d blank p v = Codec-size refl (
    Codec-then _ (Codec-uint32 e d p.entity_id v.entity_id) (
      Codec-then _ (Codec-uint8 p.entity_type v.entity_type) (
        Codec-then _ (Codec-uint8 p.reserved v.reserved)
          (Codec-projectile e d (received_head blank p) p v))))
