-- ===== src/WorldGen/Rng/Stream.antt =====
-- The state of the generator never merges: a step can be undone, so different states, and
-- different seeds, keep giving different states.
use r_type_j_a_m_e_s.Base.{
  ℕ, zero, suc, ◌+◌, ◌-◌, ◌*◌, ◌%◌, ◌<◌, ◌≡◌, ◌≢◌, refl, sym, ap, ◌∙◌, arith,
}
use r_type_j_a_m_e_s.WorldGen.Rng.{Rng, u64_mod, multiplier, advance, next, set_seed}

-- The inverse of the multiplier modulo 2 ^ 64.
abbrev inverse : ℕ
inverse = 13877824140714322085

undo : ℕ → ℕ → ℕ
undo increment s = ((s + (u64_mod - increment % u64_mod)) * inverse) % u64_mod

undo_step : (s c : ℕ) → s < u64_mod → undo c ((s * multiplier + c) % u64_mod) ≡ s
unfolding undo
undo_step s c h = omega arith

advance-injective :
    (r q : Rng)
    → r.state < u64_mod
    → q.state < u64_mod
    → r.increment ≡ q.increment
    → (advance r).state ≡ (advance q).state
    → r.state ≡ q.state
unfolding advance
advance-injective r q hr hq c e =
    sym (undo_step r.state r.increment hr)
    ∙ ap (undo r.increment) e
    ∙ ap (λ k. undo k ((q.state * multiplier + q.increment) % u64_mod)) c
    ∙ undo_step q.state q.increment hq

advance_bound : (r : Rng) → (advance r).state < u64_mod
unfolding advance
advance_bound r = omega arith

cancel : (x a b : ℕ) → a < u64_mod → b < u64_mod → (x + a) % u64_mod ≡ (x + b) % u64_mod → a ≡ b
cancel x a b ha hb e = omega arith

-- `n` draws, one after the other.
abbrev pub steps : ℕ → Rng → Rng
steps zero r = r
steps (suc n) r = steps n (next r).1

steps-injective :
    (n : ℕ) (r q : Rng)
    → r.state < u64_mod
    → q.state < u64_mod
    → r.increment ≡ q.increment
    → (steps n r).state ≡ (steps n q).state
    → r.state ≡ q.state
unfolding next advance
steps-injective zero r q hr hq c e = e
steps-injective (suc n) r q hr hq c e =
    advance-injective r q hr hq c
      (steps-injective n (advance r) (advance q) (advance_bound r) (advance_bound q) c e)

set_seed-injective :
    (n a b : ℕ) (r : Rng)
    → a < u64_mod
    → b < u64_mod
    → (steps n (set_seed a r)).state ≡ (steps n (set_seed b r)).state
    → a ≡ b
unfolding set_seed advance
set_seed-injective n a b r ha hb e =
    let first = advance (record r { state = 0 }) in
    let p = advance (record first { state = (first.state + a) % u64_mod }) in
    let q = advance (record first { state = (first.state + b) % u64_mod }) in
    let same = steps-injective n p q (advance_bound _) (advance_bound _) refl e in
    let sums =
      advance-injective (record first { state = (first.state + a) % u64_mod })
        (record first { state = (first.state + b) % u64_mod }) (omega arith) (omega arith) refl
        same in
    cancel first.state a b ha hb sums

-- Two generators of one stream that are given different 64-bit seeds are in different states
-- after the same number of draws, whatever the number.
pub set_seed-ne :
    (n a b : ℕ) (r : Rng)
    → a < u64_mod
    → b < u64_mod
    → a ≢ b
    → (steps n (set_seed a r)).state ≢ (steps n (set_seed b r)).state
set_seed-ne n a b r ha hb ne e = ne (set_seed-injective n a b r ha hb e)
