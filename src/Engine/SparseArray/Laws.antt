-- ===== src/Engine/SparseArray/Laws.antt =====
-- A sparse array is a finite map from indices to components that grows on a write.
use r_type_j_a_m_e_s.Base.{
  ℕ, zero, suc, ◌+◌, ◌-◌, ◌≤◌, ◌<◌, max, ◌≡◌, refl, ap, ◌∙◌, Option, none, some, List, [], ◌∷◌,
  ◌++◌, arith, leb, ltb, ◌==◌, if◌then◌else◌, length, get_elem?, set, replicate, Bool-cases, inl,
  inr, ltb→ge, leb→gt, leb→le, ==→eq, ==→ne, get_elem?-set_self, get_elem?-set_ne, get_elem?-none,
  length-append, length-replicate, length-set,
}
use r_type_j_a_m_e_s.Engine.SparseArray.{
  SparseArray, empty, size, has_value, flat, value_at, has, resize, emplace_at, erase,
}

module _ {A : Type 0} where
  resized :
      (cells : List (Option A)) (n j : ℕ)
      → flat (get_elem? (cells ++ replicate n none) j) ≡ flat (get_elem? cells j)
  resized [] zero j = refl
  resized [] (suc n) zero = refl
  resized [] (suc n) (suc j) = resized [] n j
  resized (x ∷ xs) n zero = refl
  resized (x ∷ xs) n (suc j) = resized xs n j

  flat-set :
      (cells : List (Option A)) (i j : ℕ) (v : Option A)
      → i < length cells
      → flat (get_elem? (set cells i v) j) ≡ (if i == j then v else flat (get_elem? cells j))
  flat-set cells i j v h = elim (Bool-cases (i == j)) [
    | inl e ↦ rw (e, ← ==→eq i j e, get_elem?-set_self cells i v h)
    | inr e ↦ rw (e, get_elem?-set_ne cells i j v (==→ne i j e))
  ]

  resized_at :
      (cells : List (Option A)) (n j : ℕ)
      → flat (get_elem? (resize cells n) j) ≡ flat (get_elem? cells j)
  unfolding resize
  resized_at cells n j = resized cells (n - length cells) j

  pub value_at-empty : (j : ℕ) → value_at {A = A} empty j ≡ none
  unfolding value_at empty
  value_at-empty j = refl

  -- `has` tells whether there is a component.
  pub has-value_at : (a : SparseArray A) (j : ℕ) → has a j ≡ has_value (value_at a j)
  unfolding has value_at
  has-value_at a j = elim (Bool-cases (ltb j (size a))) [
    | inl e ↦ rw e
    | inr e ↦ rw (e, get_elem?-none a.cells j (ltb→ge j (size a) e))
  ]

  grown :
      (cells : List (Option A)) (pos : ℕ)
      → length cells ≤ pos
      → pos < length (resize cells (pos + 1))
  unfolding resize
  grown cells pos h = omega (
    arith,
    length-append cells (replicate (pos + 1 - length cells) none),
    length-replicate {0} {A = Option A} (pos + 1 - length cells) none,
  )

  -- After emplace_at the cell at that index holds the component, and every other cell reads as it
  -- did, also where the vector grows.
  pub value_at-emplace_at :
      (a : SparseArray A) (pos j : ℕ) (c : A)
      → value_at (emplace_at a pos c) j ≡ (if pos == j then some c else value_at a j)
  unfolding value_at emplace_at
  value_at-emplace_at a pos j c = elim (Bool-cases (leb (size a) pos)) [
    | inl e ↦ rw e (
        flat-set (resize a.cells (pos + 1)) pos j (some c)
          (grown a.cells pos (leb→le (size a) pos e))
        ∙ ap (λ v. if pos == j then some c else v) (resized_at a.cells (pos + 1) j))
    | inr e ↦ rw e (flat-set a.cells pos j (some c) (leb→gt (size a) pos e))
  ]

  -- After erase the cell at that index is empty, and every other cell is as it was.
  pub value_at-erase :
      (a : SparseArray A) (pos j : ℕ)
      → value_at (erase a pos) j ≡ (if pos == j then none else value_at a j)
  unfolding value_at erase
  value_at-erase a pos j = elim (Bool-cases (leb (size a) pos)) [
    | inl e ↦ rw e (outside (leb→le (size a) pos e))
    | inr e ↦ rw e (flat-set a.cells pos j none (leb→gt (size a) pos e))
  ]
    where
      outside :
          size a ≤ pos
          → flat (get_elem? a.cells j) ≡ (if pos == j then none else flat (get_elem? a.cells j))
      outside k = elim (Bool-cases (pos == j)) [
        | inl same ↦ rw (same, ← ==→eq pos j same, get_elem?-none a.cells pos k)
        | inr other ↦ rw other
      ]

  -- A write makes the vector as long as it has to be, and an erasure leaves its length.
  pub size-emplace_at :
      (a : SparseArray A) (pos : ℕ) (c : A) → size (emplace_at a pos c) ≡ max (size a) (pos + 1)
  unfolding emplace_at resize
  size-emplace_at a pos c = elim (Bool-cases (leb (size a) pos)) [
    | inl e ↦ rw e (
        omega (
          arith,
          leb→le (size a) pos e,
          length-set (a.cells ++ replicate (pos + 1 - size a) none) pos (some c),
          length-append a.cells (replicate (pos + 1 - size a) none),
          length-replicate {0} {A = Option A} (pos + 1 - size a) none,
        ))
    | inr e ↦ rw e (omega (arith, leb→gt (size a) pos e, length-set a.cells pos (some c)))
  ]

  pub size-erase : (a : SparseArray A) (pos : ℕ) → size (erase a pos) ≡ size a
  unfolding erase
  size-erase a pos = elim (Bool-cases (leb (size a) pos)) [
    | inl e ↦ rw e
    | inr e ↦ rw e (length-set a.cells pos none)
  ]
