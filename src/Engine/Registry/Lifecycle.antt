-- ===== src/Engine/Registry/Lifecycle.antt =====
-- The life of entities: which ids are in use, and that an id that is handed out carries nothing.
use r_type_j_a_m_e_s.Base.{
  ℕ, ◌<◌, ◌≡◌, ◌≢◌, refl, sym, ap, subst, ◌∙◌, inl, inr, ◌↔◌, false, none, some, List, [], ◌∷◌,
  ◌++◌, arith, ◌==◌, Bool-cases, Option-cases, ==→eq, ==→ne, In, Distinct,
}
use r_type_j_a_m_e_s.Engine.SparseArray
use r_type_j_a_m_e_s.Engine.SparseArray.{SparseArray}
use r_type_j_a_m_e_s.Engine.SparseArray.Laws.{value_at-empty}
use r_type_j_a_m_e_s.Engine.Registry.{
  Registry, Arrays, find, new_registry, register_component, spawn_entity, spawn_from, run_erase_fns,
  erase_fn, kill_entity,
}
use r_type_j_a_m_e_s.Engine.Registry.Lookup.{component, mem_type, find-put, component-kill_entity}

mem_type-append :
    (k t : ℕ) (ts : List ℕ)
    → mem_type k (ts ++ t ∷ []) ≡ false
    → (mem_type k ts ≡ false) × ((t == k) ≡ false)
unfolding mem_type
mem_type-append k t [] h = ground arith
mem_type-append k t (x ∷ ts) h = ground (arith, mem_type-append k t ts)

module _ {C : Type 0} where
  abbrev pub IsLive : Registry C → ℕ → Type 0
  IsLive r e = (e < r.next_entity) × ¬ (In e r.dead_entities)

  pub record Inv (r : Registry C) : Type 0 where
    pub dead_below : (d : ℕ) → In d r.dead_entities → d < r.next_entity
    pub dead_distinct : Distinct r.dead_entities
    -- What is not live has no component.
    pub clean : (i : ℕ) → ¬ (IsLive r i) → (k : ℕ) → component r.components_arrays k i ≡ none
    -- Every array has its erase function.
    pub erasable : (k : ℕ) → mem_type k r.erase_fns ≡ false → find r.components_arrays k ≡ none

  pub new_registry-Inv : Inv new_registry
  unfolding new_registry component find
  new_registry-Inv = record {
    dead_below = λ d h. absurd h;
    dead_distinct = tt;
    clean = λ i h k. refl;
    erasable = λ k h. refl;
  }

  registered : Registry C → ℕ → Registry C
  registered r type = record r {
    components_arrays = (type, SparseArray.empty) ∷ r.components_arrays;
    erase_fns = r.erase_fns ++ type ∷ [];
  }

  registered-Inv :
      (r : Registry C) (type : ℕ)
      → find r.components_arrays type ≡ none
      → Inv r
      → Inv (registered r type)
  unfolding registered component find
  registered-Inv r type missing v = record {
    dead_below = v.dead_below;
    dead_distinct = v.dead_distinct;
    clean = λ i h k. ground (arith, v.clean i h k, value_at-empty {A = C} i);
    erasable = λ k h. ground (arith, mem_type-append k type r.erase_fns h, v.erasable k);
  }

  pub register_component-Inv :
      (r r' : Registry C) (type : ℕ) → register_component r type ≡ some r' → Inv r → Inv r'
  unfolding register_component registered
  register_component-Inv r r' type h v = elim (Option-cases (find r.components_arrays type)) [
    | inr (a, found) ↦ absurd (cc (rw (found, register_component) at h))
    | inl missing ↦
        let e : registered r type ≡ r' = ground arith in
        subst Inv e (registered-Inv r type missing v)
  ]

  -- What a spawn gives: an id that was not live and is now, with no component, and no other change.
  pub record Spawned (r : Registry C) (e : ℕ) (r' : Registry C) : Type 0 where
    pub fresh : ¬ (IsLive r e)
    pub live : IsLive r' e
    pub bare : (k : ℕ) → component r'.components_arrays k e ≡ none
    pub others : (i : ℕ) → i ≢ e → IsLive r' i ↔ IsLive r i
    pub kept : r'.components_arrays ≡ r.components_arrays

  spawn_from-Spawned :
      (r : Registry C) (dead : List ℕ)
      → r.dead_entities ≡ dead
      → Inv r
      → let s = spawn_from dead r in Spawned r s.0 s.1
  unfolding spawn_from
  spawn_from-Spawned r [] e v = record {
    fresh = λ h. omega (arith, h.0);
    live = (omega arith, λ h. omega (arith, v.dead_below r.next_entity h));
    bare = λ k. v.clean r.next_entity (λ h. omega (arith, h.0)) k;
    others = λ i h. (λ l. (omega (arith, l.0, h), l.1), λ l. (omega (arith, l.0), λ m. l.1 m));
    kept = refl;
  }
  spawn_from-Spawned r (id ∷ rest) e v =
      let dead : In id r.dead_entities = subst (In id) (sym e) (inl refl) in
      record {
        fresh = λ h. h.1 dead;
        live = (v.dead_below id dead, (subst Distinct e v.dead_distinct).0);
        bare = λ k. v.clean id (λ h. h.1 dead) k;
        others = λ i h. (
          λ l. (l.0, λ m. elim (subst (In i) e m) [ inl same ↦ h same | inr others ↦ l.1 others ]),
          λ l. (l.0, λ m. l.1 (subst (In i) (sym e) (inr m))),
        );
        kept = refl;
      }

  spawn_from-Inv :
      (r : Registry C) (dead : List ℕ) → r.dead_entities ≡ dead → Inv r → Inv (spawn_from dead r).1
  unfolding spawn_from
  spawn_from-Inv r [] e v = record {
    dead_below = λ d h. omega (arith, v.dead_below d h);
    dead_distinct = v.dead_distinct;
    clean = λ i h k. v.clean i (λ l. h (omega (arith, l.0), l.1)) k;
    erasable = v.erasable;
  }
  spawn_from-Inv r (id ∷ rest) e v = record {
    dead_below = λ d h. v.dead_below d (subst (In d) (sym e) (inr h));
    dead_distinct = (subst Distinct e v.dead_distinct).1;
    clean = λ i h k. v.clean i (λ l. h (l.0, λ m. l.1 (subst (In i) (sym e) (inr m)))) k;
    erasable = v.erasable;
  }

  pub spawn_entity-Inv : (r : Registry C) → Inv r → Inv (spawn_entity r).1
  unfolding spawn_entity
  spawn_entity-Inv r v = spawn_from-Inv r r.dead_entities refl v

  find-erase_fn :
      (t e : ℕ) (arrays : Arrays C) (k : ℕ)
      → find arrays k ≡ none
      → find (erase_fn t e arrays) k ≡ none
  unfolding erase_fn
  find-erase_fn t e arrays k h = elim (Option-cases (find arrays t)) [
    | inl missing ↦ ground arith
    | inr (a, found) ↦ elim (Bool-cases (t == k)) [
      | inl same ↦ absurd (cc (ap (find arrays) (==→eq t k same)))
      | inr other ↦ ground (arith, find-put arrays t k (SparseArray.erase a e) a found)
    ]
  ]

  pub find-run_erase_fns :
      (fns : List ℕ) (e : ℕ) (arrays : Arrays C) (k : ℕ)
      → find arrays k ≡ none
      → find (run_erase_fns fns e arrays) k ≡ none
  unfolding run_erase_fns
  find-run_erase_fns [] e arrays k h = h
  find-run_erase_fns (t ∷ fns) e arrays k h =
      find-run_erase_fns fns e (erase_fn t e arrays) k (find-erase_fn t e arrays k h)

  pub component-missing :
      (arrays : Arrays C) (k i : ℕ) → find arrays k ≡ none → component arrays k i ≡ none
  unfolding component
  component-missing arrays k i h = ground arith

  kill_entity-clean :
      (r : Registry C) (e i k : ℕ)
      → Inv r
      → ¬ (IsLive (kill_entity r e) i)
      → component (kill_entity r e).components_arrays k i ≡ none
  unfolding kill_entity
  kill_entity-clean r e i k v h = component-kill_entity r e k i ∙ (elim (Bool-cases (e == i)) [
    | inl same ↦ elim (Bool-cases (mem_type k r.erase_fns)) [
      | inl known ↦ rw (same, known)
      | inr new ↦ rw new (component-missing r.components_arrays k i (v.erasable k new))
    ]
    | inr other ↦
        let was : component r.components_arrays k i ≡ none =
          v.clean i (λ l. h (l.0, λ m. elim m [ inl s ↦ ==→ne e i other (sym s) | inr o ↦ l.1 o ]))
            k in
        elim (Bool-cases (mem_type k r.erase_fns)) [
          | inl known ↦ rw (known, other) was
          | inr new ↦ rw new was
        ]
  ])

  pub kill_entity-Inv : (r : Registry C) (e : ℕ) → IsLive r e → Inv r → Inv (kill_entity r e)
  unfolding kill_entity
  kill_entity-Inv r e live v = record {
    dead_below =
        λ d h. elim h [ inl same ↦ omega (arith, same, live.0) | inr old ↦ v.dead_below d old ];
    dead_distinct = (live.1, v.dead_distinct);
    clean = λ i h k. kill_entity-clean r e i k v h;
    erasable = λ k h. find-run_erase_fns r.erase_fns e r.components_arrays k (v.erasable k h);
  }

  -- The entity that SpawnEntity returns was not live and is, carries no component of any type, and
  -- nothing else changes.
  pub spawn_entity-Spawned :
      (r : Registry C) → Inv r → Spawned r (spawn_entity r).0 (spawn_entity r).1
  unfolding spawn_entity
  spawn_entity-Spawned r v = spawn_from-Spawned r r.dead_entities refl v
