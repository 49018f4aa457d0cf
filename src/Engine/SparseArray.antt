-- ===== src/Engine/SparseArray.antt =====
-- engine/include/sparse_array.hpp and sparse_array.tpp: a vector of optional components. The two
-- overloads of insert_at and emplace_at store a value; whether it is copied or moved does not show.
pub mod Laws
use r_type_j_a_m_e_s.Base.{
  ℕ, zero, suc, ◌+◌, ◌-◌, ◌≤◌, ◌<◌, max, ◌≡◌, refl, sym, ap, ◌∙◌, Bool, true, false, ◌&&◌, Option,
  none, some, List, [], ◌∷◌, ◌++◌, arith, leb, ltb, ◌==◌, if◌then◌else◌, length, get_elem?, set,
  replicate,
}

pub record SparseArray (A : Type 0) : Type 0 where
  pub cells : List (Option A)

module _ {A : Type 0} where
  unfoldable pub empty : SparseArray A
  empty = record { cells = [] }

  abbrev pub size : SparseArray A → ℕ
  size a = length a.cells

  abbrev pub has_value : Option A → Bool
  has_value none = false
  has_value (some c) = true

  -- The cell at an index; `none` also where `operator[]` would leave the vector.
  abbrev pub flat : Option (Option A) → Option A
  flat none = none
  flat (some cell) = cell

  unfoldable pub value_at : SparseArray A → ℕ → Option A
  value_at a idx = flat (get_elem? a.cells idx)

  unfoldable pub has : SparseArray A → ℕ → Bool
  unfolding value_at
  has a idx = ltb idx (size a) && has_value (value_at a idx)

  -- std::vector::resize to a larger size.
  unfoldable pub resize : List (Option A) → ℕ → List (Option A)
  resize cells n = cells ++ replicate (n - length cells) none

  unfoldable pub emplace_at : SparseArray A → ℕ → A → SparseArray A
  unfolding resize
  emplace_at a pos c =
      let cells : List (Option A) =
        if leb (size a) pos then resize a.cells (pos + 1) else a.cells in
      record { cells = set cells pos (some c) }

  unfoldable pub insert_at : SparseArray A → ℕ → A → SparseArray A
  unfolding emplace_at
  insert_at a pos c = emplace_at a pos c

  unfoldable pub erase : SparseArray A → ℕ → SparseArray A
  erase a pos = if leb (size a) pos then a else record { cells = set a.cells pos none }
