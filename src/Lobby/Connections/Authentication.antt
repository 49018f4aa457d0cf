-- ===== src/Lobby/Connections/Authentication.antt =====
-- AuthenticateClient: who becomes a player, and what that changes.
use r_type_j_a_m_e_s.Base.{
  ℕ, ◌≤◌, ◌<◌, ◌≡◌, refl, inl, inr, true, false, some, List, arith, leb→gt, In, Bool-cases,
}
use r_type_j_a_m_e_s.Lobby.Connections.{
  Manager, authenticated_count, update, has_client, is_username_taken, is_full, authenticate,
  finish_authentication, authenticate_client,
}
use r_type_j_a_m_e_s.Lobby.Connections.Ids.{player_ids, assign_player_id-free}
use r_type_j_a_m_e_s.Lobby.Connections.Entries.{is_username_taken-names}
use r_type_j_a_m_e_s.Lobby.Connections.Invariant.{Inv, authenticate-Roster}

-- The client is there, the name is free, and there is room.
abbrev pub Admissible : ℕ → List ℕ → Manager → Type 0
Admissible id name m =
    (has_client id m ≡ true)
    × (is_username_taken name m.clients ≡ false)
    × (authenticated_count m.clients < m.max_clients)

pub data Outcome (id : ℕ) (name : List ℕ) (m : Manager) (player : ℕ) (m' : Manager) : Type 0 where
  -- The answer is 0 and nothing changes.
  refused : ¬ (Admissible id name m) → player ≡ 0 → m' ≡ m → Outcome id name m player m'
  -- The client has a new id from 1 to 255, and the name.
  accepted :
      Admissible id name m
      → 1 ≤ player
      → player ≤ 255
      → ¬ (In player (player_ids m.clients))
      → m'.clients ≡ update id (authenticate player name) m.clients
      → Outcome id name m player m'

pub room : (m : Manager) → is_full m ≡ false → authenticated_count m.clients < m.max_clients
unfolding is_full
room m h = leb→gt m.max_clients (authenticated_count m.clients) h

pub full : (m : Manager) → is_full m ≡ true → ¬ (authenticated_count m.clients < m.max_clients)
unfolding is_full
full m h lt = ground arith

-- In a manager that satisfies the invariant AuthenticateClient never throws: it refuses a client
-- exactly if the client is unknown, the name is taken or the server is full, and keeps the
-- invariant.
pub authenticate_client-Outcome :
    (id : ℕ) (name : List ℕ) (m : Manager)
    → Inv m
    → (player : ℕ) × (m' : Manager) × (authenticate_client id name m ≡ some (player, m'))
      × Outcome id name m player m'
      × Inv m'
unfolding authenticate_client
authenticate_client-Outcome id name m v = elim (Bool-cases (has_client id m)) [
  | inr unknown ↦ (0, m, rw unknown, refused (λ a. cc (a.0, unknown)) refl refl, v)
  | inl known ↦ elim (Bool-cases (is_username_taken name m.clients)) [
    | inl taken ↦ (0, m, rw (known, taken), refused (λ a. cc (a.1, taken)) refl refl, v)
    | inr new ↦ elim (Bool-cases (is_full m)) [
      | inl crowded ↦
          (0, m, rw (known, new, crowded), refused (λ a. full m crowded a.2) refl refl, v)
      | inr space ↦
          let fits = room m space in
          let (p, q, e, lo, hi, free, qlo, qhi) =
            assign_player_id-free m v.next_lo v.next_hi (omega (arith, fits, v.limit)) in
          (
            p,
            record m { clients = update id (authenticate p name) m.clients; next_player_id = q },
            rw (known, new, space, e, finish_authentication),
            accepted (known, new, fits) lo hi free refl,
            record {
              roster =
                  authenticate-Roster id p name m.clients m.max_clients lo hi free
                    (is_username_taken-names name m.clients new) fits v.roster;
              limit = v.limit;
              next_lo = qlo;
              next_hi = qhi;
            },
          )
    ]
  ]
]
