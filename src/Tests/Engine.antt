-- ===== src/Tests/Engine.antt =====
-- The engine on small registries and arrays.
use r_type_j_a_m_e_s.Base.{ℕ, ◌≡◌, refl, ◌↔◌, true, none, some, [], ◌∷◌, arith, In, Distinct}
use r_type_j_a_m_e_s.Engine.SparseArray
use r_type_j_a_m_e_s.Engine.SparseArray.{SparseArray}
use r_type_j_a_m_e_s.Engine.Registry.{
  Registry, new_registry, register_component, spawn_entity, kill_entity, clear_all_entities, find,
}
use r_type_j_a_m_e_s.Engine.Registry.Lookup.{component}
use r_type_j_a_m_e_s.Engine.Registry.Lifecycle.{Spawned}
use r_type_j_a_m_e_s.Engine.Registry.History.{
  Reach, start, next, spawns, kills, registers, Reach-Spawned, clear_all_entities-bare,
  kill_entity_twice, Reach-Inv,
}
use r_type_j_a_m_e_s.Engine.Zipper.{
  visited, all_set, visited-all_set, zipper_size, begin, skip_to_valid, end, next_index,
}

abbrev gappy : SparseArray ℕ
gappy = record { cells = some 5 ∷ none ∷ some 7 ∷ [] }

-- One component type, and one entity that has it.
abbrev populated : Registry ℕ
populated = record {
  components_arrays = (3, record { cells = some 8 ∷ [] }) ∷ [];
  erase_fns = 3 ∷ [];
  next_entity = 1;
  dead_entities = [];
}

kill_entity_twice_example :
    let s = spawn_entity (kill_entity (kill_entity populated 0) 0) in
    (s.0 ≡ 0) × ((spawn_entity s.1).0 ≡ 0)
kill_entity_twice_example = kill_entity_twice populated 0

registered : Registry ℕ
registered = record {
  components_arrays = (3, SparseArray.empty) ∷ [];
  erase_fns = 3 ∷ [];
  next_entity = 0;
  dead_entities = [];
}

registered-Reach : Reach registered
unfolding registered register_component new_registry find
registered-Reach = next start (registers 3 refl)

spawned : Registry ℕ
unfolding registered
spawned = record registered { next_entity = 1 }

spawned-Reach : Reach spawned
unfolding spawned spawn_entity
spawned-Reach = next registered-Reach (spawns refl)

killed : Registry ℕ
unfolding spawned
killed = kill_entity spawned 0

killed-Reach : Reach killed
unfolding killed
killed-Reach = next spawned-Reach (kills 0 (omega arith, λ h. h) refl)

Reach-Spawned_example : Spawned killed (spawn_entity killed).0 (spawn_entity killed).1
Reach-Spawned_example = Reach-Spawned killed killed-Reach

visited-all_set_example :
    Distinct (visited (gappy ∷ []))
    × ((i : ℕ) → In i (visited (gappy ∷ [])) ↔ (all_set (gappy ∷ []) i ≡ true))
visited-all_set_example = visited-all_set (gappy ∷ []) (λ e. cc)

visited-gappy : visited (gappy ∷ []) ≡ 0 ∷ 2 ∷ []
unfolding visited zipper_size begin skip_to_valid all_set SparseArray.has end next_index
visited-gappy = refl

clear_all_entities-bare_example : component (clear_all_entities killed).components_arrays 3 0 ≡ none
clear_all_entities-bare_example = clear_all_entities-bare killed 3 0 (Reach-Inv killed-Reach)
