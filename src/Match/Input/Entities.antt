-- ===== src/Match/Input/Entities.antt =====
-- The entity that HandleUdpPlayerInput finds for a player.
use r_type_j_a_m_e_s.Base.{
  if-cases, some_inj, none-some, ℕ, suc, ◌+◌, ◌≡◌, ◌≢◌, refl, sym, ap, inl, inr, Option, none, some,
  List, [], ◌∷◌, arith, ==→eq, ==→ne, All, In, get_elem?,
}
use r_type_j_a_m_e_s.Match.Input.{entity_of}

pub entity_of-some :
    (pid idx i : ℕ) (cells : List (Option ℕ))
    → entity_of pid idx cells ≡ some (some i)
    → (j : ℕ) × (i ≡ idx + j) × (get_elem? cells j ≡ some (some pid))
unfolding entity_of
entity_of-some pid idx i [] h = absurd (let no : ⊥ = cc in no)
entity_of-some pid idx i (none ∷ rest) h = absurd (let no : ⊥ = cc in no)
entity_of-some pid idx i (some id ∷ rest) h =
    elim (if-cases _ (some (some idx)) (entity_of pid (idx + 1) rest) _ h) [
      | inl (e, same) ↦
          let here : idx ≡ i = some_inj idx i (some_inj (some idx) (some i) same) in
          (0, omega (arith, here), ap (λ p. some (some p)) (==→eq id pid e))
      | inr (e, later) ↦
          let (j, at, there) = entity_of-some pid (idx + 1) i rest later in
          (suc j, omega (arith, at), there)
    ]

pub entity_of-nowhere :
    (pid idx : ℕ) (cells : List (Option ℕ))
    → entity_of pid idx cells ≡ some none
    → All (λ cell. cell ≢ some pid) cells
unfolding entity_of
entity_of-nowhere pid idx [] h = tt
entity_of-nowhere pid idx (none ∷ rest) h = absurd (let no : ⊥ = cc in no)
entity_of-nowhere pid idx (some id ∷ rest) h =
    elim (if-cases _ (some (some idx)) (entity_of pid (idx + 1) rest) _ h) [
      | inl (e, found) ↦ absurd (none-some idx (sym (some_inj (some idx) none found)))
      | inr (e, later) ↦ (
        λ same. ==→ne id pid e (some_inj id pid same),
        entity_of-nowhere pid (idx + 1) rest later,
      )
    ]

pub entity_of-gap :
    (pid idx : ℕ) (cells : List (Option ℕ)) → entity_of pid idx cells ≡ none → In none cells
unfolding entity_of
entity_of-gap pid idx [] h = absurd (let no : ⊥ = cc in no)
entity_of-gap pid idx (none ∷ rest) h = inl refl
entity_of-gap pid idx (some id ∷ rest) h =
    elim (if-cases _ (some (some idx)) (entity_of pid (idx + 1) rest) _ h) [
      | inl (e, found) ↦ absurd (none-some (some idx) (sym found))
      | inr (e, later) ↦ inr (entity_of-gap pid (idx + 1) rest later)
    ]
