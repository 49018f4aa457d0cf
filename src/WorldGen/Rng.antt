-- ===== src/WorldGen/Rng.antt =====
-- DeterministicRNG of server/include/server/worldgen/DeterministicRNG.hpp: a PCG generator over
-- 64-bit words, which wrap around. A method takes the generator last and returns the new one.
pub mod Stream
pub mod Bounded
use Prim.Native.Nat.{bit_and, bit_or, bit_xor}
use r_type_j_a_m_e_s.Base.{
  ℕ, zero, suc, ◌+◌, ◌-◌, ◌*◌, ◌/◌, ◌%◌, ◌^◌, Option, none, some, ◌==◌, ltb, if◌then◌else◌,
}

abbrev pub u64_mod : ℕ
u64_mod = 18446744073709551616

abbrev pub u32_mod : ℕ
u32_mod = 4294967296

-- kMultiplier.
abbrev pub multiplier : ℕ
multiplier = 6364136223846793005

pub record Rng : Type 0 where
  pub state : ℕ
  pub increment : ℕ

-- The step of the 64-bit state.
unfoldable pub advance : Rng → Rng
advance r = record r { state = (r.state * multiplier + r.increment) % u64_mod }

-- The output function (XSH-RR) of the state before the step; a 32-bit result.
unfoldable pub output : ℕ → ℕ
output old_state =
    let xorshifted : ℕ = (bit_xor (old_state / 2 ^ 18) old_state / 2 ^ 27) % u32_mod in
    let rot : ℕ = (old_state / 2 ^ 59) % u32_mod in
    bit_or (xorshifted / 2 ^ rot) (xorshifted * 2 ^ bit_and ((u32_mod - rot) % u32_mod) 31)
    % u32_mod

unfoldable pub next : Rng → ℕ × Rng
unfolding advance output
next r = (output r.state, advance r)

-- SetSeed: two steps with the seed added between.
unfoldable pub set_seed : ℕ → Rng → Rng
unfolding advance
set_seed seed r =
    let first = advance (record r { state = 0 }) in
    advance (record first { state = (first.state + seed) % u64_mod })

-- (stream << 1u) | 1u.
unfoldable pub increment_of : ℕ → ℕ
increment_of stream = bit_or ((stream * 2) % u64_mod) 1

unfoldable pub set_seed_with_stream : ℕ → ℕ → Rng → Rng
unfolding increment_of set_seed
set_seed_with_stream seed stream r = set_seed seed (record r { increment = increment_of stream })

-- The three constructors.
unfoldable pub new_rng : Rng
unfolding set_seed
new_rng = set_seed 0 (record { state = 0; increment = 1 })

unfoldable pub of_seed : ℕ → Rng
unfolding set_seed
of_seed seed = set_seed seed (record { state = 0; increment = 1 })

unfoldable pub of_stream : ℕ → ℕ → Rng
unfolding increment_of set_seed
of_stream seed stream = set_seed seed (record { state = 0; increment = increment_of stream })

unfoldable pub restore_state : ℕ → ℕ → Rng → Rng
restore_state state increment r = record { state = state; increment = increment }

-- (-bound) % bound in 32 bits.
unfoldable pub threshold : ℕ → ℕ
threshold bound = ((u32_mod - bound) % u32_mod) % bound

-- The while loop of NextBounded, over the product of the last draw, with fuel.
unfoldable pub reject : ℕ → ℕ → ℕ → Rng → Option (ℕ × Rng)
unfolding next threshold
reject zero bound multiresult r = none
reject (suc fuel) bound multiresult r =
    let again = reject fuel bound ((next r).0 * bound) (next r).1 in
    if ltb (multiresult % u32_mod) (threshold bound)
    then again
    else some ((multiresult / u32_mod) % u32_mod, r)

-- NextBounded. The test `leftover < bound` only saves the threshold's division: the threshold is
-- below the bound.
unfoldable pub next_bounded : ℕ → ℕ → Rng → Option (ℕ × Rng)
unfolding reject
next_bounded fuel bound r =
    let multiresult = (next r).0 * bound in
    let loop = reject fuel bound multiresult (next r).1 in
    if bound == 0
    then some (0, r)
    else if ltb (multiresult % u32_mod) bound
    then loop
    else some ((multiresult / u32_mod) % u32_mod, (next r).1)
