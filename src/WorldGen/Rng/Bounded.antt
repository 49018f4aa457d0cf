-- ===== src/WorldGen/Rng/Bounded.antt =====
-- NextBounded returns a value below the bound as soon as a draw is accepted.
use r_type_j_a_m_e_s.Base.{
  ℕ, zero, suc, ◌-◌, ◌*◌, ◌/◌, ◌%◌, ◌≤◌, ◌<◌, ◌≡◌, ap, ◌∙◌, ◌⊎◌, inl, inr, some, arith, ltb,
  Bool-cases, ltb→lt, ne→==,
}
use native.Mathlib.Nat.{mul-mod_right}
use r_type_j_a_m_e_s.WorldGen.Rng.{Rng, u32_mod, next, output, threshold, reject, next_bounded}

next_bound : (r : Rng) → (next r).0 < u32_mod
unfolding next output
next_bound r = omega arith

product_bound : (d bound : ℕ) → d < u32_mod → 0 < bound → d * bound / u32_mod < bound
product_bound d bound h k = grind arith

-- One of the next `n` products, this one first, is not rejected.
abbrev pub SoonAccepted : ℕ → ℕ → ℕ → Rng → Type 0
SoonAccepted zero bound multiresult r = ⊥
SoonAccepted (suc n) bound multiresult r =
    (threshold bound ≤ multiresult % u32_mod) ⊎ SoonAccepted n bound ((next r).0 * bound) (next r).1

reject_returns :
    (fuel bound d : ℕ) (r : Rng)
    → 0 < bound
    → d < u32_mod
    → SoonAccepted fuel bound (d * bound) r
    → (v : ℕ) × (r' : Rng) × (reject fuel bound (d * bound) r ≡ some (v, r')) × (v < bound)
unfolding reject
reject_returns zero bound d r pos h soon = absurd soon
reject_returns (suc fuel) bound d r pos h soon =
    elim (Bool-cases (ltb (d * bound % u32_mod) (threshold bound))) [
      | inr accepted ↦ (
        (d * bound / u32_mod) % u32_mod,
        r,
        rw accepted,
        omega (arith, product_bound d bound h pos),
      )
      | inl rejected ↦
          let later : SoonAccepted fuel bound ((next r).0 * bound) (next r).1 = elim soon [
            | inl ok ↦ absurd (omega (arith, ok, ltb→lt _ _ rejected))
            | inr rest ↦ rest
          ] in
          let (v, r', e, below) =
            reject_returns fuel bound (next r).0 (next r).1 pos (next_bound r) later in
          (v, r', rw rejected e, below)
    ]

-- With fuel for the draws up to the first that is accepted, NextBounded returns a value below a
-- bound that is not 0.
pub next_bounded-lt :
    (fuel bound : ℕ) (r : Rng)
    → 0 < bound
    → SoonAccepted fuel bound ((next r).0 * bound) (next r).1
    → (v : ℕ) × (r' : Rng) × (next_bounded fuel bound r ≡ some (v, r')) × (v < bound)
unfolding next_bounded
next_bounded-lt fuel bound r pos soon =
    let nonzero = ne→== bound 0 (λ e. omega (arith, e)) in
    elim (Bool-cases (ltb ((next r).0 * bound % u32_mod) bound)) [
      | inl maybe ↦
          let (v, r', e, below) =
            reject_returns fuel bound (next r).0 (next r).1 pos (next_bound r) soon in
          (v, r', rw (nonzero, maybe) e, below)
      | inr sure ↦ (
        ((next r).0 * bound / u32_mod) % u32_mod,
        (next r).1,
        rw (nonzero, sure),
        omega (arith, product_bound (next r).0 bound (next_bound r) pos),
      )
    ]

threshold_divisor : (bound k : ℕ) → 0 < bound → bound * k ≡ u32_mod → threshold bound ≡ 0
unfolding threshold
threshold_divisor bound zero pos e = absurd (omega (arith, e))
threshold_divisor bound (suc k) pos e =
    let left : (u32_mod - bound) % u32_mod ≡ bound * k = omega (arith, e) in
    ap (λ m. m % bound) left ∙ mul-mod_right bound k

-- With a bound that divides 2 ^ 32 NextBounded rejects nothing: one unit of fuel is enough from
-- every state, and the value is below the bound.
pub next_bounded-lt_divisor :
    (bound k : ℕ) (r : Rng)
    → 0 < bound
    → bound * k ≡ u32_mod
    → (v : ℕ) × (r' : Rng) × (next_bounded 1 bound r ≡ some (v, r')) × (v < bound)
next_bounded-lt_divisor bound k r pos e =
    next_bounded-lt 1 bound r pos (inl (omega (arith, threshold_divisor bound k pos e)))
