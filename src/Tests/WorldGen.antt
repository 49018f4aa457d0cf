-- ===== src/Tests/WorldGen.antt =====
-- DeterministicRNG at concrete seeds.
use r_type_j_a_m_e_s.Base.{ℕ, ◌<◌, ◌≡◌, refl, some, arith, inl}
use r_type_j_a_m_e_s.WorldGen.Rng.{Rng, next, threshold, next_bounded}
use r_type_j_a_m_e_s.WorldGen.Rng.Bounded.{next_bounded-lt, next_bounded-lt_divisor}

abbrev started : Rng
started = record { state = 11111111111111111; increment = 3 }

next_bounded-lt_example :
    (v : ℕ) × (r' : Rng) × (next_bounded 1 10 started ≡ some (v, r')) × (v < 10)
unfolding next threshold
next_bounded-lt_example = next_bounded-lt 1 10 started (omega arith) (inl (omega arith))

next_bounded-lt_divisor_example :
    (v : ℕ) × (r' : Rng) × (next_bounded 1 8 started ≡ some (v, r')) × (v < 8)
next_bounded-lt_divisor_example = next_bounded-lt_divisor 8 536870912 started (omega arith) refl
