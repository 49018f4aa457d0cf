-- ===== src/Engine/Zipper.antt =====
-- engine/include/zipper.hpp, zipper.tpp, indexed_zipper.hpp and indexed_zipper.tpp. The zipped
-- arrays are a list, of one value type; an iterator is its index, and the loop `for (auto … :
-- indexed_zipper)` gives the indices that it visits. A loop takes fuel; the size of the zipper is
-- always enough.
use r_type_j_a_m_e_s.Base.{
  ℕ, zero, suc, ◌+◌, ◌≤◌, ◌<◌, max, ◌≡◌, ◌≢◌, refl, ap, ◌∙◌, inl, inr, ◌↔◌, Bool, true, false, not,
  ◌&&◌, List, [], ◌∷◌, arith, ltb, ◌==◌, if◌then◌else◌, Bool-cases, lt→ltb, ge→ltb, ne→==, eq→==,
  In, Distinct, ==→eq, ==→ne,
}
use r_type_j_a_m_e_s.Engine.SparseArray
use r_type_j_a_m_e_s.Engine.SparseArray.{SparseArray, size}

module _ {A : Type 0} where
  -- all_set: the index is in every array and its cell has a value.
  unfoldable pub all_set : List (SparseArray A) → ℕ → Bool
  all_set [] idx = true
  all_set (a ∷ rest) idx = SparseArray.has a idx && all_set rest idx

  -- The constructor's std::max_element over the sizes.
  unfoldable pub zipper_size : List (SparseArray A) → ℕ
  zipper_size [] = 0
  zipper_size (a ∷ rest) = max (size a) (zipper_size rest)

  -- while (_idx < _max && !all_set(_seq)) ++_idx;
  unfoldable pub skip_to_valid : ℕ → List (SparseArray A) → ℕ → ℕ → ℕ
  skip_to_valid zero cs limit idx = idx
  skip_to_valid (suc fuel) cs limit idx =
      let rest = skip_to_valid fuel cs limit (idx + 1) in
      if ltb idx limit && not (all_set cs idx) then rest else idx

  -- The iterators begin(), end() and ++it.
  unfoldable pub begin : List (SparseArray A) → ℕ
  begin cs = skip_to_valid (zipper_size cs) cs (zipper_size cs) 0

  unfoldable pub end : List (SparseArray A) → ℕ
  end cs = skip_to_valid (zipper_size cs) cs (zipper_size cs) (zipper_size cs)

  unfoldable pub next_index : List (SparseArray A) → ℕ → ℕ
  next_index cs idx = skip_to_valid (zipper_size cs) cs (zipper_size cs) (idx + 1)

  -- The range-for loop from an iterator to end().
  unfoldable pub visit : ℕ → List (SparseArray A) → ℕ → List ℕ
  visit zero cs idx = []
  visit (suc fuel) cs idx =
      let rest = idx ∷ visit fuel cs (next_index cs idx) in if idx == end cs then [] else rest

  unfoldable pub visited : List (SparseArray A) → List ℕ
  unfolding visit
  visited cs = visit (zipper_size cs + 1) cs (begin cs)

  -- The indices from `idx` on, `n` of them, at which all arrays have a value.
  abbrev valid_from : List (SparseArray A) → ℕ → ℕ → List ℕ
  valid_from cs zero idx = []
  valid_from cs (suc n) idx =
      if all_set cs idx then idx ∷ valid_from cs n (idx + 1) else valid_from cs n (idx + 1)

  skip_to_valid_stop :
      (fuel : ℕ) (cs : List (SparseArray A)) (limit idx : ℕ)
      → (ltb idx limit && not (all_set cs idx)) ≡ false
      → skip_to_valid fuel cs limit idx ≡ idx
  unfolding skip_to_valid
  skip_to_valid_stop zero cs limit idx h = refl
  skip_to_valid_stop (suc fuel) cs limit idx h = rw h

  skip_to_valid_step :
      (fuel : ℕ) (cs : List (SparseArray A)) (limit idx : ℕ)
      → idx < limit
      → all_set cs idx ≡ false
      → skip_to_valid (suc fuel) cs limit idx ≡ skip_to_valid fuel cs limit (idx + 1)
  unfolding skip_to_valid
  skip_to_valid_step fuel cs limit idx h k = rw (lt→ltb idx limit h, k)

  end-zipper_size : (cs : List (SparseArray A)) → end cs ≡ zipper_size cs
  unfolding end
  end-zipper_size cs =
      skip_to_valid_stop (zipper_size cs) cs (zipper_size cs) (zipper_size cs)
        (rw (ge→ltb (zipper_size cs) (zipper_size cs) (omega arith)))

  visit_lem :
      (n idx f g : ℕ) (cs : List (SparseArray A))
      → idx + n ≡ zipper_size cs
      → n ≤ f
      → n < g
      → visit g cs (skip_to_valid f cs (zipper_size cs) idx) ≡ valid_from cs n idx
  unfolding visit next_index
  visit_lem n idx f zero cs e hf hg = absurd (omega arith)
  visit_lem zero idx f (suc g) cs e hf hg = rw (
    skip_to_valid_stop f cs (zipper_size cs) idx (rw (ge→ltb idx (zipper_size cs) (omega arith))),
    end-zipper_size cs,
    eq→== idx (zipper_size cs) (omega arith),
  )
  visit_lem (suc n) idx zero (suc g) cs e hf hg = absurd (omega arith)
  visit_lem (suc n) idx (suc f) (suc g) cs e hf hg = elim (Bool-cases (all_set cs idx)) [
    | inl here ↦
        rw
          (
            skip_to_valid_stop (suc f) cs (zipper_size cs) idx
                (rw (lt→ltb idx (zipper_size cs) (omega arith), here)),
            end-zipper_size cs,
            ne→== idx (zipper_size cs) (omega arith),
            here,
          )
          (ap (◌∷◌ idx)
            (visit_lem n (idx + 1) (zipper_size cs) g cs (omega arith) (omega arith) (omega arith)))
    | inr gap ↦
        rw (skip_to_valid_step f cs (zipper_size cs) idx (omega arith) gap, gap)
          (visit_lem n (idx + 1) f (suc g) cs (omega arith) (omega arith) (omega arith))
  ]

  visited-valid_from : (cs : List (SparseArray A)) → visited cs ≡ valid_from cs (zipper_size cs) 0
  unfolding visited begin
  visited-valid_from cs =
      visit_lem (zipper_size cs) 0 (zipper_size cs) (zipper_size cs + 1) cs (omega arith)
        (omega arith) (omega arith)

  valid_from-mem :
      (cs : List (SparseArray A)) (n idx i : ℕ)
      → In i (valid_from cs n idx) ↔ ((idx ≤ i) × (i < idx + n) × (all_set cs i ≡ true))
  valid_from-mem cs zero idx i = (λ h. absurd h, λ h. omega (arith, h.0, h.1))
  valid_from-mem cs (suc n) idx i =
      let later = valid_from-mem cs n (idx + 1) i in
      elim (Bool-cases (all_set cs idx)) [
        | inl here ↦ rw here (
          λ h. elim h [
            | inl same ↦ (omega (arith, same), omega (arith, same), ap (all_set cs) same ∙ here)
            | inr m ↦ let (lo, hi, set) = later.0 m in (omega (arith, lo), omega (arith, hi), set)
          ],
          λ h. elim (Bool-cases (i == idx)) [
            | inl same ↦ inl (==→eq i idx same)
            | inr other ↦
                inr (later.1 (omega (arith, h.0, ==→ne i idx other), omega (arith, h.1), h.2))
          ],
        )
        | inr gap ↦ rw gap (
          λ m. let (lo, hi, set) = later.0 m in (omega (arith, lo), omega (arith, hi), set),
          λ h.
              let other : i ≢ idx = λ same. cc (h.2, ap (all_set cs) same) in
              later.1 (omega (arith, h.0, other), omega (arith, h.1), h.2),
        )
      ]

  valid_from-Distinct : (cs : List (SparseArray A)) (n idx : ℕ) → Distinct (valid_from cs n idx)
  valid_from-Distinct cs zero idx = tt
  valid_from-Distinct cs (suc n) idx = elim (Bool-cases (all_set cs idx)) [
    | inl here ↦ rw here (
      λ m. omega (arith, ((valid_from-mem cs n (idx + 1) idx).0 m).0),
      valid_from-Distinct cs n (idx + 1),
    )
    | inr gap ↦ rw gap (valid_from-Distinct cs n (idx + 1))
  ]

  all_set-size :
      (cs : List (SparseArray A)) (i : ℕ) → cs ≢ [] → all_set cs i ≡ true → i < zipper_size cs
  unfolding all_set zipper_size SparseArray.has
  all_set-size [] i k h = absurd (k refl)
  all_set-size (a ∷ rest) i k h = ground arith

  -- The loop over zipped arrays, at least one, visits an index exactly when all of them have a
  -- component there, and visits none twice.
  pub visited-all_set :
      (cs : List (SparseArray A))
      → cs ≢ []
      → Distinct (visited cs) × ((i : ℕ) → In i (visited cs) ↔ (all_set cs i ≡ true))
  visited-all_set cs k = rw (visited-valid_from cs) (
    valid_from-Distinct cs (zipper_size cs) 0,
    λ i.
        let mem = valid_from-mem cs (zipper_size cs) 0 i in
        (λ m. (mem.0 m).2, λ h. mem.1 (omega arith, omega (arith, all_set-size cs i k h), h)),
  )
