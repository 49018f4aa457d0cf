-- ===== src/Lobby/Connections/Ids.antt =====
-- AssignPlayerId always finds a free id while fewer than 255 players are authenticated.
use r_type_j_a_m_e_s.Base.{
  ℕ, zero, suc, ◌+◌, ◌-◌, ◌%◌, ◌≤◌, ◌<◌, ◌≡◌, ◌≢◌, refl, sym, ap, subst, ◌∙◌, inl, inr, true, false,
  none, some, List, [], ◌∷◌, arith, length, ◌==◌, if◌then◌else◌, In, Bool-cases, Option-cases,
}
use r_type_j_a_m_e_s.Lobby.Connections.{
  ClientConnection, Clients, Manager, is_authenticated, authenticated_count, bump, id_taken,
  try_ids, assign_player_id,
}

-- What the authenticated players hold, in the order of the map.
abbrev pub collect : {A : Type 0} → (ClientConnection → A) → Clients → List A
collect g [] = []
collect g ((k, c) ∷ rest) = if is_authenticated c then g c ∷ collect g rest else collect g rest

-- The ids of the authenticated players.
abbrev pub player_ids : Clients → List ℕ
player_ids = collect (λ c. c.player_id)

pub length-player_ids : (l : Clients) → length (player_ids l) ≡ authenticated_count l
unfolding authenticated_count
length-player_ids [] = refl
length-player_ids ((k, c) ∷ rest) = ground (arith, length-player_ids rest)

id_taken-In : (id : ℕ) (l : Clients) → id_taken id l ≡ true → In id (player_ids l)
unfolding id_taken
id_taken-In id [] h = absurd (cc)
id_taken-In id ((k, c) ∷ rest) h = ground (arith, id_taken-In id rest)

pub id_taken-not_In :
    (id : ℕ) (l : Clients) → 0 < id → id_taken id l ≡ false → ¬ (In id (player_ids l))
unfolding id_taken
id_taken-not_In id [] pos h m = m
id_taken-not_In id ((k, c) ∷ rest) pos h m = ground (arith, id_taken-not_In id rest pos)

-- The list without the first `x`.
drop_one : ℕ → List ℕ → List ℕ
drop_one x [] = []
drop_one x (y ∷ ys) = if x == y then ys else y ∷ drop_one x ys

length-drop_one : (x : ℕ) (ys : List ℕ) → In x ys → length ys ≡ suc (length (drop_one x ys))
unfolding drop_one
length-drop_one x [] h = absurd h
length-drop_one x (y ∷ ys) h = ground (arith, length-drop_one x ys)

In-drop_one : (x z : ℕ) (ys : List ℕ) → z ≢ x → In z ys → In z (drop_one x ys)
unfolding drop_one
In-drop_one x z [] ne h = h
In-drop_one x z (y ∷ ys) ne h = ground (arith, In-drop_one x z ys ne)

-- A list that holds 1, …, n has n items at least.
pigeonhole : (n : ℕ) (xs : List ℕ) → ((j : ℕ) → 1 ≤ j → j ≤ n → In j xs) → n ≤ length xs
pigeonhole zero xs h = omega arith
pigeonhole (suc n) xs h = omega (
  arith,
  length-drop_one (suc n) xs (h (suc n) (omega arith) (omega arith)),
  pigeonhole n (drop_one (suc n) xs)
      (λ j a b. In-drop_one (suc n) j xs (λ e. omega (arith, e)) (h j a (omega arith))),
)

-- The `k`-th id that is tried from `id` on.
abbrev nth_id : ℕ → ℕ → ℕ
nth_id id k = (id + 254 + k) % 255 + 1

bump_lem : (id : ℕ) → 1 ≤ id → id ≤ 255 → bump id ≡ nth_id id 1
unfolding bump
bump_lem id lo hi = ground arith

nth_id-bump : (id k : ℕ) → 1 ≤ id → id ≤ 255 → nth_id (bump id) k ≡ nth_id id (suc k)
nth_id-bump id k lo hi = omega (arith, bump_lem id lo hi)

try_ids-none :
    (n : ℕ) (l : Clients) (id k : ℕ)
    → 1 ≤ id
    → id ≤ 255
    → try_ids n l id (bump id) ≡ none
    → k < n
    → id_taken (nth_id id k) l ≡ true
unfolding try_ids
try_ids-none zero l id k lo hi h lt = absurd (omega arith)
try_ids-none (suc n) l id zero lo hi h lt =
    let same : nth_id id 0 ≡ id = omega arith in
    elim (Bool-cases (id_taken id l)) [
      | inl taken ↦ ap (λ j. id_taken j l) same ∙ taken
      | inr free ↦ absurd (cc (rw free at h))
    ]
try_ids-none (suc n) l id (suc k) lo hi h lt = elim (Bool-cases (id_taken id l)) [
  | inl taken ↦
      ap (λ j. id_taken j l) (sym (nth_id-bump id k lo hi))
      ∙ try_ids-none n l (bump id) k (omega (arith, bump_lem id lo hi))
          (omega (arith, bump_lem id lo hi)) (rw taken at h) (omega arith)
  | inr free ↦ absurd (cc (rw free at h))
]

try_ids-some :
    (n : ℕ) (l : Clients) (id : ℕ) {p q : ℕ}
    → 1 ≤ id
    → id ≤ 255
    → try_ids n l id (bump id) ≡ some (p, q)
    → (1 ≤ p) × (p ≤ 255) × (id_taken p l ≡ false) × (q ≡ bump p)
unfolding try_ids
try_ids-some zero l id lo hi h = absurd (cc)
try_ids-some (suc n) l id {p = p} {q = q} lo hi h = elim (Bool-cases (id_taken id l)) [
  | inl taken ↦
      try_ids-some n l (bump id) (omega (arith, bump_lem id lo hi))
        (omega (arith, bump_lem id lo hi)) (rw taken at h)
  | inr free ↦
      let e : id ≡ p = ground arith in
      let e' : bump id ≡ q = ground arith in
      (
        omega (arith, e),
        omega (arith, e),
        ap (λ j. id_taken j l) (sym e) ∙ free,
        sym e' ∙ ap bump e,
      )
]

-- With a next id from 1 to 255 and fewer than 255 players, AssignPlayerId does not throw: it gives
-- an id from 1 to 255 that no player has, and the next id is again from 1 to 255.
pub assign_player_id-free :
    (m : Manager)
    → 1 ≤ m.next_player_id
    → m.next_player_id ≤ 255
    → authenticated_count m.clients < 255
    → (p : ℕ) × (q : ℕ) × (assign_player_id m ≡ some (p, q))
      × (1 ≤ p)
      × (p ≤ 255)
      × ¬ (In p (player_ids m.clients))
      × (1 ≤ q)
      × (q ≤ 255)
unfolding assign_player_id
assign_player_id-free m lo hi few = elim (Option-cases (assign_player_id m)) [
  | inl e ↦ absurd (
      omega (
        arith,
        length-player_ids m.clients,
        pigeonhole 255 (player_ids m.clients) (λ j a b.
            let k : ℕ = (j + 255 - m.next_player_id) % 255 in
            let same : nth_id m.next_player_id k ≡ j = omega arith in
            subst (λ i. In i (player_ids m.clients)) same
              (id_taken-In (nth_id m.next_player_id k) m.clients
                (try_ids-none 255 m.clients m.next_player_id k lo hi e (omega arith)))),
      ))
  | inr ((p, q), e) ↦
      let (a, b, free, next) = try_ids-some 255 m.clients m.next_player_id lo hi e in
      (
        p,
        q,
        e,
        a,
        b,
        id_taken-not_In p m.clients (omega arith) free,
        omega (arith, next, bump_lem p a b),
        omega (arith, next, bump_lem p a b),
      )
]
