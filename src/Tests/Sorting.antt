-- ===== src/Tests/Sorting.antt =====
-- A sort that keeps to the contract of std::sort.
use r_type_j_a_m_e_s.Base.{
  ◌≡◌, inl, inr, Bool, true, false, List, [], ◌∷◌, Bool-cases, All, if◌then◌else◌,
}
use mathlib.Core.List.{Perm}
use mathlib.Core.List.Perm
use r_type_j_a_m_e_s.Wire.Packets.Score.{PlayerScoreData}
use r_type_j_a_m_e_s.Match.Ranking.{IsStrictWeakOrder, Sorted, IsSort}

module _ (before : PlayerScoreData → PlayerScoreData → Bool) where
  insert : PlayerScoreData → List PlayerScoreData → List PlayerScoreData
  insert x [] = x ∷ []
  insert x (y ∷ ys) = if before x y then x ∷ y ∷ ys else y ∷ insert x ys

  unfoldable pub insertion_sort : List PlayerScoreData → List PlayerScoreData
  unfolding insert
  insertion_sort [] = []
  insertion_sort (x ∷ xs) = insert x (insertion_sort xs)

  insert-perm : (x : PlayerScoreData) (ys : List PlayerScoreData) → Perm (insert x ys) (x ∷ ys)
  unfolding insert
  insert-perm x [] = Perm.rfl
  insert-perm x (y ∷ ys) = elim (Bool-cases (before x y)) [
    | inl first ↦ rw first Perm.rfl
    | inr later ↦ rw later (Perm.trans (Perm.cons y (insert-perm x ys)) (Perm.swap x y ys))
  ]

  insertion_sort-perm : (xs : List PlayerScoreData) → Perm (insertion_sort xs) xs
  unfolding insertion_sort
  insertion_sort-perm [] = Perm.rfl
  insertion_sort-perm (x ∷ xs) =
      Perm.trans (insert-perm x (insertion_sort xs)) (Perm.cons x (insertion_sort-perm xs))

  module _ (o : IsStrictWeakOrder before) where
    -- An item behind those that no item of the list comes before.
    All-insert :
        (P : PlayerScoreData → Type 0) (x : PlayerScoreData) (ys : List PlayerScoreData)
        → P x
        → All P ys
        → All P (insert x ys)
    unfolding insert
    All-insert P x [] h k = (h, tt)
    All-insert P x (y ∷ ys) h k = elim (Bool-cases (before x y)) [
      | inl first ↦ rw first (h, k)
      | inr later ↦ rw later (k.0, All-insert P x ys h k.1)
    ]

    All-behind :
        (x y : PlayerScoreData) (ys : List PlayerScoreData)
        → before y x ≡ false
        → All (λ z. before z y ≡ false) ys
        → All (λ z. before z x ≡ false) ys
    All-behind x y [] h k = tt
    All-behind x y (z ∷ ys) h k = (o.incomparable z y x k.0 h, All-behind x y ys h k.1)

    not_back : (x y : PlayerScoreData) → before x y ≡ true → before y x ≡ false
    not_back x y h = elim (Bool-cases (before y x)) [
      | inr no_more ↦ no_more
      | inl both ↦
          let loop : before x x ≡ true = o.transitive x y x h both in
          let never : before x x ≡ false = o.irreflexive x in absurd (let no_way : ⊥ = cc in no_way)
    ]

    Sorted-insert :
        (x : PlayerScoreData) (ys : List PlayerScoreData)
        → Sorted before ys
        → Sorted before (insert x ys)
    unfolding insert
    Sorted-insert x [] h = (tt, tt)
    Sorted-insert x (y ∷ ys) h = elim (Bool-cases (before x y)) [
      | inl first ↦ rw first ((not_back x y first, All-behind x y ys (not_back x y first) h.0), h)
      | inr later ↦
          rw later (All-insert (λ z. before z y ≡ false) x ys later h.0, Sorted-insert x ys h.1)
    ]

    insertion_sort-Sorted : (xs : List PlayerScoreData) → Sorted before (insertion_sort xs)
    unfolding insertion_sort
    insertion_sort-Sorted [] = tt
    insertion_sort-Sorted (x ∷ xs) = Sorted-insert x (insertion_sort xs) (insertion_sort-Sorted xs)

pub insertion_sort-IsSort : IsSort insertion_sort
insertion_sort-IsSort = record {
  permutes = λ before o xs. insertion_sort-perm before xs;
  sorts = λ before o xs. insertion_sort-Sorted before o xs;
}
