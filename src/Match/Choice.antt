-- ===== src/Match/Choice.antt =====
-- The search of DetermineWinner for the candidate with the greatest key, whatever the keys are.
use r_type_j_a_m_e_s.Base.{
  ℕ, ◌≡◌, refl, sym, subst, ◌∙◌, ◌⊎◌, inl, inr, Bool, true, false, ◌&&◌, [], ◌∷◌, arith, Bool-cases,
  In,
}
use r_type_j_a_m_e_s.Match.Records.{PlayerDeathRecord, Records, consider, choose}

-- What the loop needs of its comparison.
pub record IsGreater {K : Type 0} (greater : K → K → Bool) : Type 0 where
  pub asymm : (a b : K) → greater a b ≡ true → greater b a ≡ false
  pub trans : (a b c : K) → greater a b ≡ false → greater b c ≡ false → greater a c ≡ false

module _ {K : Type 0} (eligible : PlayerDeathRecord → Bool) (key : PlayerDeathRecord → K)
    (greater : K → K → Bool) (o : IsGreater greater) where
  -- No candidate of the list that may win has a greater key.
  abbrev pub Tops : K → Records → Type 0
  Tops best [] = Unit
  Tops best ((pid, rec) ∷ rest) =
      (eligible rec ≡ true → greater (key rec) best ≡ false) × Tops best rest

  -- Where the result comes from.
  abbrev pub Source : K × ℕ → Records → K × ℕ → Type 0
  Source start l result =
      (result ≡ start)
      ⊎ ((e : ℕ × PlayerDeathRecord) × In e l × (eligible e.1 ≡ true) × (result ≡ (key e.1, e.0)))

  irreflexive : (a : K) → greater a a ≡ false
  irreflexive a = elim (Bool-cases (greater a a)) [ inl e ↦ o.asymm a a e | inr e ↦ e ]

  from_here :
      (pid : ℕ) (rec : PlayerDeathRecord) (best : K) (winner : ℕ) (rest : Records) (result : K × ℕ)
      → eligible rec ≡ true
      → Source (key rec, pid) rest result
      → Source (best, winner) ((pid, rec) ∷ rest) result
  from_here pid rec best winner rest result may (inl same) = inr ((pid, rec), inl refl, may, same)
  from_here pid rec best winner rest result may (inr (e, there, can, same)) =
      inr (e, inr there, can, same)

  from_later :
      (pid : ℕ) (rec : PlayerDeathRecord) (best : K) (winner : ℕ) (rest : Records) (result : K × ℕ)
      → Source (best, winner) rest result
      → Source (best, winner) ((pid, rec) ∷ rest) result
  from_later pid rec best winner rest result (inl same) = inl same
  from_later pid rec best winner rest result (inr (e, there, can, same)) =
      inr (e, inr there, can, same)

  -- What the loop promises of its result.
  abbrev pub Promised : K × ℕ → Records → K × ℕ → Type 0
  Promised start l result =
      (greater start.0 result.0 ≡ false) × Tops result.0 l × Source start l result

  next :
      (pid : ℕ) (rec : PlayerDeathRecord) (best : K) (winner : ℕ) (rest : Records)
      (st result : K × ℕ)
      → consider eligible key greater (best, winner) (pid, rec) ≡ st
      → Promised st rest result
      → Promised (best, winner) ((pid, rec) ∷ rest) result
  unfolding consider
  next pid rec best winner rest st result c ih =
      elim (Bool-cases (eligible rec && greater (key rec) best)) [
        | inl wins ↦
            let turn : st ≡ (key rec, pid) = sym c ∙ rw wins refl in
            let here = subst (λ x. Promised x rest result) turn ih in
            (
              o.trans best (key rec) result.0 (o.asymm (key rec) best (ground arith)) here.0,
              (λ e. here.0, here.1),
              from_here pid rec best winner rest result (ground arith) here.2,
            )
        | inr loses ↦
            let turn : st ≡ (best, winner) = sym c ∙ rw loses refl in
            let here = subst (λ x. Promised x rest result) turn ih in
            (
              here.0,
              (λ e. o.trans (key rec) best result.0 (ground arith) here.0, here.1),
              from_later pid rec best winner rest result here.2,
            )
      ]

  pub choose-Promised :
      (start : K × ℕ) (l : Records) → Promised start l (choose eligible key greater start l)
  unfolding choose
  choose-Promised start [] = (irreflexive start.0, tt, inl refl)
  choose-Promised (best, winner) ((pid, rec) ∷ rest) =
      next pid rec best winner rest _ _ refl
        (choose-Promised (consider eligible key greater (best, winner) (pid, rec)) rest)
