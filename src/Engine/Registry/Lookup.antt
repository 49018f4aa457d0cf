-- ===== src/Engine/Registry/Lookup.antt =====
-- What each operation does to the component of an entity, seen as a map from type and entity.
use r_type_j_a_m_e_s.Base.{
  ℕ, zero, suc, ◌+◌, ◌≡◌, refl, inl, inr, Bool, true, false, ◌&&◌, Option, none, some, List, [],
  ◌∷◌, arith, ◌==◌, leb, ltb, if◌then◌else◌, Option-cases,
}
use r_type_j_a_m_e_s.Engine.SparseArray
use r_type_j_a_m_e_s.Engine.SparseArray.{SparseArray}
use r_type_j_a_m_e_s.Engine.SparseArray.Laws.{has-value_at, value_at-erase, value_at-emplace_at}
use r_type_j_a_m_e_s.Engine.Registry.{
  Registry, Arrays, find, put, erase_fn, run_erase_fns, erase_ids, kill_entity, get_component,
  add_component, remove_component,
}

-- Whether a type is among those of the erase functions.
unfoldable pub mem_type : ℕ → List ℕ → Bool
mem_type k [] = false
mem_type k (t ∷ ts) = if t == k then true else mem_type k ts

module _ {C : Type 0} where
  -- The component of a type that an entity has, if there is one.
  unfoldable pub component : Arrays C → ℕ → ℕ → Option C
  component arrays type e = elim (find arrays type) [
    | none ↦ none
    | some a ↦ SparseArray.value_at a e
  ]

  pub find-put :
      (arrays : Arrays C) (type k : ℕ) (a b : SparseArray C)
      → find arrays type ≡ some b
      → find (put arrays type a) k ≡ (if type == k then some a else find arrays k)
  unfolding find put
  find-put [] type k a b h = cc
  find-put ((t, x) ∷ rest) type k a b h = ground (arith, find-put rest type k a b)

  -- An erase function takes the component of one type from one entity.
  pub component-erase_fn :
      (type e : ℕ) (arrays : Arrays C) (k i : ℕ)
      → component (erase_fn type e arrays) k i
        ≡ (if (type == k) && (e == i) then none else component arrays k i)
  unfolding component erase_fn
  component-erase_fn type e arrays k i = elim (Option-cases (find arrays type)) [
    | inl missing ↦ ground arith
    | inr (a, found) ↦
        ground (arith, find-put arrays type k (SparseArray.erase a e) a found, value_at-erase a e i)
  ]

  pub component-run_erase_fns :
      (fns : List ℕ) (e : ℕ) (arrays : Arrays C) (k i : ℕ)
      → component (run_erase_fns fns e arrays) k i
        ≡ (if mem_type k fns && (e == i) then none else component arrays k i)
  unfolding run_erase_fns mem_type
  component-run_erase_fns [] e arrays k i = refl
  component-run_erase_fns (t ∷ fns) e arrays k i = ground (
    arith,
    component-run_erase_fns fns e (erase_fn t e arrays) k i,
    component-erase_fn t e arrays k i,
  )

  -- KillEntity takes every component whose type has an erase function from the entity, and changes
  -- no other component.
  pub component-kill_entity :
      (r : Registry C) (e k i : ℕ)
      → component (kill_entity r e).components_arrays k i
        ≡ (if mem_type k r.erase_fns && (e == i) then none else component r.components_arrays k i)
  unfolding kill_entity
  component-kill_entity r e k i = component-run_erase_fns r.erase_fns e r.components_arrays k i

  -- Where AddComponent does not throw, the entity has the component afterwards, and every other
  -- component is as it was.
  pub component-add_component :
      (r r' : Registry C) (type to : ℕ) (c : C) (k i : ℕ)
      → add_component r type to c ≡ some r'
      → component r'.components_arrays k i
        ≡ (if (type == k) && (to == i) then some c else component r.components_arrays k i)
  unfolding add_component component SparseArray.insert_at
  component-add_component r r' type to c k i h =
      elim (Option-cases (find r.components_arrays type)) [
        | inl missing ↦ ground arith
        | inr (a, found) ↦ ground (
          arith,
          find-put r.components_arrays type k (SparseArray.insert_at a to c) a found,
          value_at-emplace_at a to i c,
        )
      ]

  pub component-remove_component :
      (r r' : Registry C) (type from k i : ℕ)
      → remove_component r type from ≡ some r'
      → component r'.components_arrays k i
        ≡ (if (type == k) && (from == i) then none else component r.components_arrays k i)
  unfolding remove_component component
  component-remove_component r r' type from k i h =
      elim (Option-cases (find r.components_arrays type)) [
        | inl missing ↦ ground arith
        | inr (a, found) ↦ ground (
          arith,
          find-put r.components_arrays type k (SparseArray.erase a from) a found,
          value_at-erase a from i,
        )
      ]

  -- GetComponent reads that map, and fails where it has nothing.
  pub get_component-component :
      (r : Registry C) (type e : ℕ) → get_component r type e ≡ component r.components_arrays type e
  unfolding get_component component
  get_component-component r type e = elim (Option-cases (find r.components_arrays type)) [
    | inl missing ↦ ground arith
    | inr (a, found) ↦ ground (arith, has-value_at a e)
  ]

  pub component-erase_ids :
      (fns : List ℕ) (first n : ℕ) (arrays : Arrays C) (k i : ℕ)
      → component (erase_ids fns first n arrays) k i ≡ (
          if mem_type k fns && (leb first i && ltb i (first + n))
          then none
          else component arrays k i)
  unfolding erase_ids
  component-erase_ids fns first zero arrays k i = ground arith
  component-erase_ids fns first (suc n) arrays k i = ground (
    arith,
    component-erase_ids fns (first + 1) n (run_erase_fns fns first arrays) k i,
    component-run_erase_fns fns first arrays k i,
  )
