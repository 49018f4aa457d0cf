-- ===== src/Engine/Registry.antt =====
-- engine/include/registry.hpp, registry.tpp and engine/src/registry.cpp. A component type is its
-- type index; the arrays hold values of one type `C`, which the templates cast to and from. `none`
-- is the std::runtime_error of a component that is registered twice, or not at all, or that an
-- entity does not have. An entity is its id.
pub mod Lookup
pub mod Lifecycle
pub mod History
use r_type_j_a_m_e_s.Base.{
  ℕ, zero, suc, ◌+◌, Option, none, some, List, [], ◌∷◌, ◌++◌, ◌==◌, if◌then◌else◌,
}
use r_type_j_a_m_e_s.Engine.SparseArray
use r_type_j_a_m_e_s.Engine.SparseArray.{SparseArray}

-- components_arrays_: the arrays by type index, each index once.
abbrev pub Arrays : Type 0 → Type 0
Arrays C = List (ℕ × SparseArray C)

pub record Registry (C : Type 0) : Type 0 where
  pub components_arrays : Arrays C
  -- One erase function for each registered type, which is known by its index.
  pub erase_fns : List ℕ
  pub next_entity : ℕ
  -- The back of the vector is the head of the list.
  pub dead_entities : List ℕ

unfoldable pub entity_from_index : ℕ → ℕ
entity_from_index idx = idx

module _ {C : Type 0} where
  unfoldable pub find : Arrays C → ℕ → Option (SparseArray C)
  find [] type = none
  find ((t, a) ∷ rest) type = if t == type then some a else find rest type

  -- A write through the reference that GetComponents returns.
  unfoldable pub put : Arrays C → ℕ → SparseArray C → Arrays C
  put [] type a = []
  put ((t, b) ∷ rest) type a = if t == type then (t, a) ∷ rest else (t, b) ∷ put rest type a

  unfoldable pub new_registry : Registry C
  new_registry = record {
    components_arrays = [];
    erase_fns = [];
    next_entity = 0;
    dead_entities = [];
  }

  unfoldable pub register_component : Registry C → ℕ → Option (Registry C)
  register_component r type = elim (find r.components_arrays type) [
    | some a ↦ none
    | none ↦ some (record r {
      components_arrays = (type, SparseArray.empty) ∷ r.components_arrays;
      erase_fns = r.erase_fns ++ type ∷ [];
    })
  ]

  unfoldable pub get_components : Registry C → ℕ → Option (SparseArray C)
  get_components r type = find r.components_arrays type

  unfoldable pub get_component : Registry C → ℕ → ℕ → Option C
  unfolding get_components
  get_component r type e = elim (get_components r type) [
    | none ↦ none
    | some a ↦ if SparseArray.has a e then SparseArray.value_at a e else none
  ]

  -- Applies a method of the array of `type`.
  unfoldable pub with_components :
      Registry C → ℕ → (SparseArray C → SparseArray C) → Option (Registry C)
  unfolding get_components
  with_components r type f = elim (get_components r type) [
    | none ↦ none
    | some a ↦ some (record r { components_arrays = put r.components_arrays type (f a) })
  ]

  unfoldable pub add_component : Registry C → ℕ → ℕ → C → Option (Registry C)
  unfolding with_components
  add_component r type to c = with_components r type (λ a. SparseArray.insert_at a to c)

  unfoldable pub emplace_component : Registry C → ℕ → ℕ → C → Option (Registry C)
  unfolding with_components
  emplace_component r type to c = with_components r type (λ a. SparseArray.emplace_at a to c)

  unfoldable pub remove_component : Registry C → ℕ → ℕ → Option (Registry C)
  unfolding with_components
  remove_component r type from = with_components r type (λ a. SparseArray.erase a from)

  -- The test on the dead entities: their back is used again, else a new id is made.
  unfoldable pub spawn_from : List ℕ → Registry C → ℕ × Registry C
  spawn_from (id ∷ rest) r = (id, record r { dead_entities = rest })
  spawn_from [] r = (r.next_entity, record r { next_entity = r.next_entity + 1 })

  unfoldable pub spawn_entity : Registry C → ℕ × Registry C
  unfolding spawn_from
  spawn_entity r = spawn_from r.dead_entities r

  -- The function that RegisterComponent pushes: it swallows the error of a missing array.
  unfoldable pub erase_fn : ℕ → ℕ → Arrays C → Arrays C
  erase_fn type e arrays = elim (find arrays type) [
    | none ↦ arrays
    | some a ↦ put arrays type (SparseArray.erase a e)
  ]

  -- The loop over erase_fns_.
  unfoldable pub run_erase_fns : List ℕ → ℕ → Arrays C → Arrays C
  run_erase_fns [] e arrays = arrays
  run_erase_fns (type ∷ rest) e arrays = run_erase_fns rest e (erase_fn type e arrays)

  unfoldable pub kill_entity : Registry C → ℕ → Registry C
  kill_entity r e = record r {
    components_arrays = run_erase_fns r.erase_fns e r.components_arrays;
    dead_entities = e ∷ r.dead_entities;
  }

  -- for (id = first; id < first + n; ++id): run every erase function on it.
  unfoldable pub erase_ids : List ℕ → ℕ → ℕ → Arrays C → Arrays C
  erase_ids fns first zero arrays = arrays
  erase_ids fns first (suc n) arrays = erase_ids fns (first + 1) n (run_erase_fns fns first arrays)

  unfoldable pub clear_all_entities : Registry C → Registry C
  clear_all_entities r = record r {
    components_arrays = erase_ids r.erase_fns 0 r.next_entity r.components_arrays;
    dead_entities = [];
    next_entity = 0;
  }

  -- RunSystems over systems_: each in turn, on what the one before left.
  unfoldable pub run_systems : List (Registry C → Registry C) → Registry C → Registry C
  run_systems [] r = r
  run_systems (s ∷ rest) r = run_systems rest (s r)
