-- ===== src/Lobby/Connections/Entries.antt =====
-- What the writes to the map of clients do to the players and to the keys.
use mathlib.Core.Option
use r_type_j_a_m_e_s.Base.{
  ℕ, ◌+◌, ◌≤◌, ◌≡◌, ◌≢◌, refl, ap, ◌⊎◌, true, false, none, List, [], ◌∷◌, arith, ◌==◌,
  if◌then◌else◌, In, Distinct,
}
use r_type_j_a_m_e_s.Lobby.Connections.{
  ClientConnection, Clients, is_authenticated, authenticated_count, find, update, erase,
  reset_ready, eq_bytes, is_username_taken,
}
use r_type_j_a_m_e_s.Lobby.Connections.Ids.{collect}

abbrev pub keys : Clients → List ℕ
keys [] = []
keys ((k, c) ∷ rest) = k ∷ keys rest

abbrev pub names : Clients → List (List ℕ)
names = collect (λ c. c.username)

-- Each entry stands under its own id.
abbrev pub Keyed : Clients → Type 0
Keyed [] = Unit
Keyed ((k, c) ∷ rest) = (c.client_id ≡ k) × Keyed rest

pub find-none-keys : (id : ℕ) (l : Clients) → find id l ≡ none → ¬ (In id (keys l))
unfolding find
find-none-keys id [] h m = m
find-none-keys id ((k, c) ∷ rest) h m = ground (arith, find-none-keys id rest)

eq_bytes_refl : (xs : List ℕ) → eq_bytes xs xs ≡ true
unfolding eq_bytes
eq_bytes_refl [] = refl
eq_bytes_refl (x ∷ xs) = ground (arith, eq_bytes_refl xs)

pub eq_bytes_sound : (xs ys : List ℕ) → eq_bytes xs ys ≡ true → xs ≡ ys
unfolding eq_bytes
eq_bytes_sound [] [] h = refl
eq_bytes_sound [] (y ∷ ys) h = cc
eq_bytes_sound (x ∷ xs) [] h = cc
eq_bytes_sound (x ∷ xs) (y ∷ ys) h = ground (arith, eq_bytes_sound xs ys)

-- A name that is not taken is no player's.
pub is_username_taken-names :
    (name : List ℕ) (l : Clients) → is_username_taken name l ≡ false → ¬ (In name (names l))
unfolding is_username_taken
is_username_taken-names name [] h m = m
is_username_taken-names name ((k, c) ∷ rest) h m =
    ground (arith, eq_bytes_refl name, is_username_taken-names name rest)

module _ {A : Type 0} (g : ClientConnection → A) (id : ℕ) where
  pub collect-update_quiet :
      (f : ClientConnection → ClientConnection) (l : Clients)
      → ((c : ClientConnection) → (f c).player_id ≡ c.player_id)
      → ((c : ClientConnection) → g (f c) ≡ g c)
      → collect g (update id f l) ≡ collect g l
  unfolding update
  collect-update_quiet f [] p q = refl
  collect-update_quiet f ((k, c) ∷ rest) p q =
      ground (arith, p c, q c, collect-update_quiet f rest p q)

  pub In-collect-erase : (x : A) (l : Clients) → In x (collect g (erase id l)) → In x (collect g l)
  unfolding erase
  In-collect-erase x [] m = m
  In-collect-erase x ((k, c) ∷ rest) m = ground (arith, In-collect-erase x rest)

  pub Distinct-collect-erase :
      (l : Clients) → Distinct (collect g l) → Distinct (collect g (erase id l))
  unfolding erase
  Distinct-collect-erase [] d = d
  Distinct-collect-erase ((k, c) ∷ rest) d =
      ground (arith, Distinct-collect-erase rest, In-collect-erase (g c) rest)

  module _ (f : ClientConnection → ClientConnection) (y : A)
      (known : (c : ClientConnection) → is_authenticated (f c) ≡ true)
      (gives : (c : ClientConnection) → g (f c) ≡ y) where
    pub In-collect-update :
        (x : A) (l : Clients) → In x (collect g (update id f l)) → (x ≡ y) ⊎ In x (collect g l)
    unfolding update
    In-collect-update x [] m = absurd m
    In-collect-update x ((k, c) ∷ rest) m =
        ground (arith, known c, gives c, In-collect-update x rest)

    pub Distinct-collect-update :
        (l : Clients)
        → ¬ (In y (collect g l))
        → Distinct (collect g l)
        → Distinct (collect g (update id f l))
    unfolding update
    Distinct-collect-update [] n d = d
    Distinct-collect-update ((k, c) ∷ rest) n d =
        ground (arith, known c, gives c, Distinct-collect-update rest, In-collect-update (g c) rest)

module _ (id : ℕ) where
  pub keys-update :
      (f : ClientConnection → ClientConnection) (l : Clients) → keys (update id f l) ≡ keys l
  unfolding update
  keys-update f [] = refl
  keys-update f ((k, c) ∷ rest) = ground (arith, keys-update f rest)

  pub Keyed-update :
      (f : ClientConnection → ClientConnection) (l : Clients)
      → ((c : ClientConnection) → (f c).client_id ≡ c.client_id)
      → Keyed l
      → Keyed (update id f l)
  unfolding update
  Keyed-update f [] p d = tt
  Keyed-update f ((k, c) ∷ rest) p d = ground (arith, p c, Keyed-update f rest p)

  pub Keyed-erase : (l : Clients) → Keyed l → Keyed (erase id l)
  unfolding erase
  Keyed-erase [] d = tt
  Keyed-erase ((k, c) ∷ rest) d = ground (arith, Keyed-erase rest)

  In-keys-erase : (x : ℕ) (l : Clients) → In x (keys (erase id l)) → In x (keys l)
  unfolding erase
  In-keys-erase x [] m = m
  In-keys-erase x ((k, c) ∷ rest) m = ground (arith, In-keys-erase x rest)

  pub Distinct-keys-erase : (l : Clients) → Distinct (keys l) → Distinct (keys (erase id l))
  unfolding erase
  Distinct-keys-erase [] d = d
  Distinct-keys-erase ((k, c) ∷ rest) d =
      ground (arith, Distinct-keys-erase rest, In-keys-erase k rest)

  -- With distinct keys nothing is left under an erased one.
  pub find-erase : (l : Clients) → Distinct (keys l) → find id (erase id l) ≡ none
  unfolding find erase
  find-erase [] d = refl
  find-erase ((k, c) ∷ rest) d = ground (arith, find-erase rest, not_In-find rest)
    where
      not_In-find : (l : Clients) → ¬ (In id (keys l)) → find id l ≡ none
      not_In-find [] n = refl
      not_In-find ((k, c) ∷ rest) n = ground (arith, not_In-find rest)

  pub find-erase_ne : (j : ℕ) (l : Clients) → id ≢ j → find j (erase id l) ≡ find j l
  unfolding find erase
  find-erase_ne j [] n = refl
  find-erase_ne j ((k, c) ∷ rest) n = ground (arith, find-erase_ne j rest)

  pub find-update :
      (j : ℕ) (f : ClientConnection → ClientConnection) (l : Clients)
      → find j (update id f l) ≡ (if id == j then Option.map f (find j l) else find j l)
  unfolding find update
  find-update j f [] = ground arith
  find-update j f ((k, c) ∷ rest) = ground (arith, find-update j f rest)

  pub authenticated_count-erase :
      (l : Clients) → authenticated_count (erase id l) ≤ authenticated_count l
  unfolding authenticated_count erase
  authenticated_count-erase [] = omega arith
  authenticated_count-erase ((k, c) ∷ rest) = ground (arith, authenticated_count-erase rest)

  pub authenticated_count-update :
      (f : ClientConnection → ClientConnection) (l : Clients)
      → authenticated_count (update id f l) ≤ authenticated_count l + 1
  unfolding authenticated_count update
  authenticated_count-update f [] = omega arith
  authenticated_count-update f ((k, c) ∷ rest) = ground (arith, authenticated_count-update f rest)

  pub authenticated_count-update_quiet :
      (f : ClientConnection → ClientConnection) (l : Clients)
      → ((c : ClientConnection) → (f c).player_id ≡ c.player_id)
      → authenticated_count (update id f l) ≡ authenticated_count l
  unfolding authenticated_count update
  authenticated_count-update_quiet f [] p = refl
  authenticated_count-update_quiet f ((k, c) ∷ rest) p =
      ground (arith, p c, authenticated_count-update_quiet f rest p)

pub collect-reset_ready :
    {A : Type 0} (g : ClientConnection → A) (l : Clients)
    → ((c : ClientConnection) → g (record c { ready = false }) ≡ g c)
    → collect g (reset_ready l) ≡ collect g l
unfolding reset_ready
collect-reset_ready g [] p = refl
collect-reset_ready g ((k, c) ∷ rest) p = ground (arith, p c, collect-reset_ready g rest p)

pub authenticated_count-reset_ready :
    (l : Clients) → authenticated_count (reset_ready l) ≡ authenticated_count l
unfolding authenticated_count reset_ready
authenticated_count-reset_ready [] = refl
authenticated_count-reset_ready ((k, c) ∷ rest) =
    ground (arith, authenticated_count-reset_ready rest)

pub keys-reset_ready : (l : Clients) → keys (reset_ready l) ≡ keys l
unfolding reset_ready
keys-reset_ready [] = refl
keys-reset_ready ((k, c) ∷ rest) = ap (◌∷◌ k) (keys-reset_ready rest)

pub Keyed-reset_ready : (l : Clients) → Keyed l → Keyed (reset_ready l)
unfolding reset_ready
Keyed-reset_ready [] d = tt
Keyed-reset_ready ((k, c) ∷ rest) d = (d.0, Keyed-reset_ready rest d.1)
