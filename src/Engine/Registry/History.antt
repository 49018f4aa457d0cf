-- ===== src/Engine/Registry/History.antt =====
-- Histories of a registry in which components are given to live entities, and live entities are
-- killed: its invariant holds after each of them. And what happens when an entity is killed twice.
use r_type_j_a_m_e_s.Base.{
  ℕ, zero, suc, ◌+◌, ◌≡◌, refl, ap, subst, ◌∙◌, inl, inr, none, some, List, arith, ◌==◌, ltb,
  Bool-cases, Option-cases, ==→eq, ltb→ge,
}
use r_type_j_a_m_e_s.Engine.SparseArray.{SparseArray}
use r_type_j_a_m_e_s.Engine.Registry.{
  Registry, Arrays, find, put, new_registry, register_component, with_components, add_component,
  remove_component, spawn_entity, run_erase_fns, erase_ids, kill_entity, clear_all_entities,
}
use r_type_j_a_m_e_s.Engine.Registry.Lookup.{
  component, mem_type, find-put, component-add_component, component-remove_component,
  component-erase_ids,
}
use r_type_j_a_m_e_s.Engine.Registry.Lifecycle.{
  IsLive, Inv, Spawned, new_registry-Inv, register_component-Inv, spawn_entity-Inv, kill_entity-Inv,
  spawn_entity-Spawned, find-run_erase_fns, component-missing,
}

module _ {C : Type 0} where
  changed : Registry C → ℕ → SparseArray C → Registry C
  changed r type a = record r { components_arrays = put r.components_arrays type a }

  with_components-changed :
      (r r' : Registry C) (type : ℕ) (f : SparseArray C → SparseArray C)
      → with_components r type f ≡ some r'
      → (a : SparseArray C) × (find r.components_arrays type ≡ some a) × (changed r type (f a) ≡ r')
  unfolding with_components changed
  with_components-changed r r' type f h = elim (Option-cases (find r.components_arrays type)) [
    | inl missing ↦ absurd (cc (rw (missing, with_components) at h))
    | inr (a, found) ↦ (a, found, ground arith)
  ]

  changed-Inv :
      (r r' : Registry C) (type : ℕ) (f : SparseArray C → SparseArray C)
      → with_components r type f ≡ some r'
      → ((i : ℕ) → ¬ (IsLive r i) → (k : ℕ) → component r'.components_arrays k i ≡ none)
      → Inv r
      → Inv r'
  unfolding changed
  changed-Inv r r' type f h clean v =
      let (a, found, e) = with_components-changed r r' type f h in
      subst Inv e (record {
        dead_below = v.dead_below;
        dead_distinct = v.dead_distinct;
        clean = λ i n k. ap (λ (q : Registry C). component q.components_arrays k i) e ∙ clean i n k;
        erasable = λ k new.
            find-put r.components_arrays type k (f a) a found ∙ (elim (Bool-cases (type == k)) [
              | inl same ↦
                  absurd (cc (v.erasable k new, ap (find r.components_arrays) (==→eq type k same)))
              | inr other ↦ rw other (v.erasable k new)
            ]);
      })

  add_component-Inv :
      (r r' : Registry C) (type to : ℕ) (c : C)
      → IsLive r to
      → add_component r type to c ≡ some r'
      → Inv r
      → Inv r'
  unfolding add_component
  add_component-Inv r r' type to c live h v =
      changed-Inv r r' type _ h
        (λ i n k. component-add_component r r' type to c k i h ∙ (elim (Bool-cases (to == i)) [
          | inl same ↦ absurd (n (subst (IsLive r) (==→eq to i same) live))
          | inr other ↦ ground (arith, v.clean i n k)
        ]))
        v

  remove_component-Inv :
      (r r' : Registry C) (type from : ℕ) → remove_component r type from ≡ some r' → Inv r → Inv r'
  unfolding remove_component
  remove_component-Inv r r' type from h v =
      changed-Inv r r' type _ h
        (λ i n k. component-remove_component r r' type from k i h ∙ ground (arith, v.clean i n k)) v

  find-erase_ids :
      (fns : List ℕ) (first n : ℕ) (arrays : Arrays C) (k : ℕ)
      → find arrays k ≡ none
      → find (erase_ids fns first n arrays) k ≡ none
  unfolding erase_ids
  find-erase_ids fns first zero arrays k h = h
  find-erase_ids fns first (suc n) arrays k h =
      find-erase_ids fns (first + 1) n (run_erase_fns fns first arrays) k
        (find-run_erase_fns fns first arrays k h)

  -- In a registry that satisfies the invariant, ClearAllEntities leaves no component of any type on
  -- any entity.
  pub clear_all_entities-bare :
      (r : Registry C) (k i : ℕ)
      → Inv r
      → component (clear_all_entities r).components_arrays k i ≡ none
  unfolding clear_all_entities
  clear_all_entities-bare r k i v =
      component-erase_ids r.erase_fns 0 r.next_entity r.components_arrays k i
      ∙ (elim (Bool-cases (mem_type k r.erase_fns)) [
        | inr new ↦ rw new (component-missing r.components_arrays k i (v.erasable k new))
        | inl known ↦ elim (Bool-cases (ltb i r.next_entity)) [
          | inl below ↦ ground arith
          | inr above ↦
              ground (arith, v.clean i (λ l. omega (arith, l.0, ltb→ge i r.next_entity above)) k)
        ]
      ])

  clear_all_entities-Inv : (r : Registry C) → Inv r → Inv (clear_all_entities r)
  unfolding clear_all_entities
  clear_all_entities-Inv r v = record {
    dead_below = λ d h. absurd h;
    dead_distinct = tt;
    clean = λ i n k. clear_all_entities-bare r k i v;
    erasable = λ k new.
        find-erase_ids r.erase_fns 0 r.next_entity r.components_arrays k (v.erasable k new);
  }

  -- One call from outside.
  pub data Step (r r' : Registry C) : Type 0 where
    registers : (type : ℕ) → register_component r type ≡ some r' → Step r r'
    spawns : (spawn_entity r).1 ≡ r' → Step r r'
    kills : (e : ℕ) → IsLive r e → kill_entity r e ≡ r' → Step r r'
    adds : (type to : ℕ) (c : C) → IsLive r to → add_component r type to c ≡ some r' → Step r r'
    removes : (type from : ℕ) → remove_component r type from ≡ some r' → Step r r'
    clears : clear_all_entities r ≡ r' → Step r r'

  pub data Reach : Registry C → Type 0 where
    start : Reach new_registry
    next : {r r' : Registry C} → Reach r → Step r r' → Reach r'

  Step-Inv : (r r' : Registry C) → Step r r' → Inv r → Inv r'
  Step-Inv r r' (registers type h) v = register_component-Inv r r' type h v
  Step-Inv r r' (spawns h) v = subst Inv h (spawn_entity-Inv r v)
  Step-Inv r r' (kills e live h) v = subst Inv h (kill_entity-Inv r e live v)
  Step-Inv r r' (adds type to c live h) v = add_component-Inv r r' type to c live h v
  Step-Inv r r' (removes type from h) v = remove_component-Inv r r' type from h v
  Step-Inv r r' (clears h) v = subst Inv h (clear_all_entities-Inv r v)

  -- The invariant holds in every registry that such calls lead to.
  pub Reach-Inv : {r : Registry C} → Reach r → Inv r
  Reach-Inv start = new_registry-Inv
  Reach-Inv (next {r} {r'} h s) = Step-Inv r r' s (Reach-Inv h)

  -- After any calls of the registry that kill only live entities and give components only to live
  -- ones, SpawnEntity gives an id that no live entity has, that carries no component, and that is
  -- live from then on; the entities that were live stay live.
  pub Reach-Spawned : (r : Registry C) → Reach r → Spawned r (spawn_entity r).0 (spawn_entity r).1
  Reach-Spawned r h = spawn_entity-Spawned r (Reach-Inv h)

  -- KillEntity has no guard against an entity that is dead already: after two kills of one entity
  -- the next two spawns both return it.
  pub kill_entity_twice :
      (r : Registry C) (e : ℕ)
      → let s = spawn_entity (kill_entity (kill_entity r e) e) in
        (s.0 ≡ e) × ((spawn_entity s.1).0 ≡ e)
  unfolding kill_entity spawn_entity
  kill_entity_twice r e = (refl, refl)
