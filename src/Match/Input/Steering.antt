-- ===== src/Match/Input/Steering.antt =====
-- What an input of a player changes.
use r_type_j_a_m_e_s.Base.{
  ℕ, ◌≡◌, ◌≢◌, refl, sym, ap, ◌∙◌, inl, inr, true, Option, none, some, if◌then◌else◌, Bool, false,
  not, ◌==◌, ne→==, eq→==, Option-cases,
}
use Prim.Native.Nat.{bit_and}
use r_type_j_a_m_e_s.Base.Int.{ℤ, pos, negsuc, next, pred}
use r_type_j_a_m_e_s.Engine.SparseArray
use r_type_j_a_m_e_s.Engine.SparseArray.{SparseArray}
use r_type_j_a_m_e_s.Engine.SparseArray.Laws.{value_at-emplace_at, has-value_at}
use r_type_j_a_m_e_s.Lobby.Connections.{ClientConnection}
use r_type_j_a_m_e_s.Match.Input.{
  Inputs, no_inputs, Controls, axis, steer, entity_of, ensure_inputs, write_inputs, set_inputs,
  input_of,
}

-- The inputs of an entity, or those it gets.
abbrev pub or_none : Option Inputs → Inputs
or_none none = no_inputs
or_none (some inp) = inp

-- A bit of the flags: 1 is up, 2 down, 4 left, 8 right, and 16 shoots.
abbrev pub held : ℕ → ℕ → Bool
held input_flags bit = not (bit_and input_flags bit == 0)

-- The axis where one direction counts up and the other down: both together cancel out.
abbrev pub heading : Bool → Bool → ℤ
heading true false = pos 1
heading false true = negsuc 0
heading true true = pos 0
heading false false = pos 0

-- The inputs that the flags ask for: to the right and down the axes grow.
abbrev pub asked : ℕ → Inputs → Inputs
asked input_flags inp = record inp {
  horizontal = heading (held input_flags 8) (held input_flags 4);
  vertical = heading (held input_flags 2) (held input_flags 1);
  shoot = held input_flags 16;
}

axis-heading : (up down : Bool) → axis up down ≡ heading up down
unfolding axis next pred
axis-heading true true = refl
axis-heading true false = refl
axis-heading false true = refl
axis-heading false false = refl

steer-asked : (input_flags : ℕ) (inp : Inputs) → steer input_flags inp ≡ asked input_flags inp
unfolding steer
steer-asked input_flags inp =
    rw
      (
        axis-heading (held input_flags 8) (held input_flags 4),
        axis-heading (held input_flags 2) (held input_flags 1),
      )
      refl

-- The state after an input with these flags for the entity `i`: it has the axes of the flags, and
-- nothing else has changed.
pub record Steered (input_flags i : ℕ) (s t : Controls) : Type 0 where
  pub manager : t.manager ≡ s.manager
  pub network_ids : t.network_ids ≡ s.network_ids
  pub here :
      SparseArray.value_at t.inputs i
      ≡ some (asked input_flags (or_none (SparseArray.value_at s.inputs i)))
  pub elsewhere :
      (j : ℕ) → j ≢ i → SparseArray.value_at t.inputs j ≡ SparseArray.value_at s.inputs j

ensure-none :
    (i : ℕ) (a : SparseArray Inputs)
    → SparseArray.value_at a i ≡ none
    → ensure_inputs i a ≡ SparseArray.emplace_at a i no_inputs
unfolding ensure_inputs SparseArray.insert_at
ensure-none i a e = rw (has-value_at a i, e) refl

ensure-some :
    (i : ℕ) (a : SparseArray Inputs) (x : Inputs)
    → SparseArray.value_at a i ≡ some x
    → ensure_inputs i a ≡ a
unfolding ensure_inputs
ensure-some i a x e = rw (has-value_at a i, e) refl

here_ensured :
    (i : ℕ) (a : SparseArray Inputs)
    → SparseArray.value_at (ensure_inputs i a) i ≡ some (or_none (SparseArray.value_at a i))
here_ensured i a = elim (Option-cases (SparseArray.value_at a i)) [
  | inl e ↦
      ap (λ b. SparseArray.value_at b i) (ensure-none i a e)
      ∙ value_at-emplace_at a i i no_inputs
      ∙ ap (λ b. if b then some no_inputs else SparseArray.value_at a i) (eq→== i i refl)
      ∙ ap (λ v. some (or_none v)) (sym e)
  | inr (x, e) ↦
      ap (λ b. SparseArray.value_at b i) (ensure-some i a x e)
      ∙ e
      ∙ ap (λ v. some (or_none v)) (sym e)
]

emplaced_elsewhere :
    (a : SparseArray Inputs) (i j : ℕ) (x : Inputs)
    → j ≢ i
    → SparseArray.value_at (SparseArray.emplace_at a i x) j ≡ SparseArray.value_at a j
emplaced_elsewhere a i j x h =
    value_at-emplace_at a i j x
    ∙ ap (λ b. if b then some x else SparseArray.value_at a j) (ne→== i j (λ e. h (sym e)))

elsewhere_ensured :
    (i : ℕ) (a : SparseArray Inputs) (j : ℕ)
    → j ≢ i
    → SparseArray.value_at (ensure_inputs i a) j ≡ SparseArray.value_at a j
elsewhere_ensured i a j h = elim (Option-cases (SparseArray.value_at a i)) [
  | inl e ↦
      ap (λ b. SparseArray.value_at b j) (ensure-none i a e) ∙ emplaced_elsewhere a i j no_inputs h
  | inr (x, e) ↦ ap (λ b. SparseArray.value_at b j) (ensure-some i a x e)
]

-- The state that the write leaves.
abbrev pub written : ℕ → ℕ → Controls → Controls
written input_flags i s = record s {
  inputs =
      SparseArray.emplace_at (ensure_inputs i s.inputs) i
        (steer input_flags (or_none (SparseArray.value_at s.inputs i)));
}

pub written-Steered :
    (input_flags i : ℕ) (s : Controls) → Steered input_flags i s (written input_flags i s)
written-Steered input_flags i s =
    let inp = steer input_flags (or_none (SparseArray.value_at s.inputs i)) in
    let a = ensure_inputs i s.inputs in
    record {
      manager = refl;
      network_ids = refl;
      here =
          value_at-emplace_at a i i inp
          ∙ ap (λ b. if b then some inp else SparseArray.value_at a i) (eq→== i i refl)
          ∙ ap some (steer-asked input_flags (or_none (SparseArray.value_at s.inputs i)));
      elsewhere = λ j h. emplaced_elsewhere a i j inp h ∙ elsewhere_ensured i s.inputs j h;
    }

set_inputs-written :
    (input_flags i : ℕ) (s : Controls)
    → set_inputs input_flags s (some i) ≡ (true, written input_flags i s)
unfolding set_inputs write_inputs
set_inputs-written input_flags i s =
    ap (write_inputs input_flags i (record s { inputs = ensure_inputs i s.inputs }))
      (here_ensured i s.inputs)

pub input_of-written :
    (input_flags : ℕ) (s : Controls) (c : ClientConnection) (i : ℕ)
    → c.player_id ≢ 0
    → entity_of c.player_id 0 s.network_ids.cells ≡ some (some i)
    → input_of input_flags s (some c) ≡ some (true, written input_flags i s)
unfolding input_of
input_of-written input_flags s c i authenticated found =
    rw (ne→== c.player_id 0 authenticated, found) (ap some (set_inputs-written input_flags i s))
