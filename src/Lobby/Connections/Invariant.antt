-- ===== src/Lobby/Connections/Invariant.antt =====
-- What holds of the connections after any sequence of calls: players have distinct ids and names,
-- and there are not more of them than the server takes.
use r_type_j_a_m_e_s.Base.{
  ℕ, ◌≤◌, ◌<◌, ◌≡◌, refl, sym, subst, inl, inr, true, Option, List, arith, In, Distinct,
  Option-cases, ne→==,
}
use r_type_j_a_m_e_s.Lobby.Connections.{
  Endpoint, ClientConnection, Clients, Manager, is_authenticated, authenticated_count, find, update,
  erase, emplace, reset_ready, new_manager, new_connection, authenticate,
}
use r_type_j_a_m_e_s.Lobby.Connections.Ids.{player_ids}
use r_type_j_a_m_e_s.Lobby.Connections.Entries.{
  keys, names, Keyed, find-none-keys, collect-update_quiet, In-collect-erase,
  Distinct-collect-erase, In-collect-update, Distinct-collect-update, keys-update, Keyed-update,
  Keyed-erase, Distinct-keys-erase, authenticated_count-erase, authenticated_count-update,
  authenticated_count-update_quiet, collect-reset_ready, authenticated_count-reset_ready,
  keys-reset_ready, Keyed-reset_ready,
}

-- The part that speaks of the map of clients.
pub record Roster (l : Clients) (max_clients : ℕ) : Type 0 where
  pub keyed : Keyed l
  pub keys_distinct : Distinct (keys l)
  pub ids_distinct : Distinct (player_ids l)
  pub ids_range : (p : ℕ) → In p (player_ids l) → p ≤ 255
  pub names_distinct : Distinct (names l)
  pub capacity : authenticated_count l ≤ max_clients

pub record Inv (m : Manager) : Type 0 where
  pub roster : Roster m.clients m.max_clients
  pub limit : m.max_clients ≤ 255
  pub next_lo : 1 ≤ m.next_player_id
  pub next_hi : m.next_player_id ≤ 255

pub new_manager-Inv :
    (max_clients port : ℕ) → max_clients ≤ 255 → Inv (new_manager max_clients port)
unfolding new_manager authenticated_count
new_manager-Inv max_clients port h = record {
  roster = record {
    keyed = tt;
    keys_distinct = tt;
    ids_distinct = tt;
    ids_range = λ p m. absurd m;
    names_distinct = tt;
    capacity = omega arith;
  };
  limit = h;
  next_lo = omega arith;
  next_hi = omega arith;
}

-- A write that leaves the ids and the name of every client as they are.
pub update-Roster :
    (id : ℕ) (f : ClientConnection → ClientConnection) (l : Clients) (n : ℕ)
    → ((c : ClientConnection) → (f c).client_id ≡ c.client_id)
    → ((c : ClientConnection) → (f c).player_id ≡ c.player_id)
    → ((c : ClientConnection) → (f c).username ≡ c.username)
    → Roster l n
    → Roster (update id f l) n
update-Roster id f l n p q s v =
    let ids = collect-update_quiet (λ c. c.player_id) id f l q q in
    record {
      keyed = Keyed-update id f l p v.keyed;
      keys_distinct = subst Distinct (sym (keys-update id f l)) v.keys_distinct;
      ids_distinct = subst Distinct (sym ids) v.ids_distinct;
      ids_range = λ x m. v.ids_range x (subst (In x) ids m);
      names_distinct =
          subst Distinct (sym (collect-update_quiet (λ c. c.username) id f l q s)) v.names_distinct;
      capacity = omega (arith, v.capacity, authenticated_count-update_quiet id f l q);
    }

pub erase-Roster : (id : ℕ) (l : Clients) (n : ℕ) → Roster l n → Roster (erase id l) n
erase-Roster id l n v = record {
  keyed = Keyed-erase id l v.keyed;
  keys_distinct = Distinct-keys-erase id l v.keys_distinct;
  ids_distinct = Distinct-collect-erase (λ c. c.player_id) id l v.ids_distinct;
  ids_range = λ x m. v.ids_range x (In-collect-erase (λ c. c.player_id) id x l m);
  names_distinct = Distinct-collect-erase (λ c. c.username) id l v.names_distinct;
  capacity = omega (arith, v.capacity, authenticated_count-erase id l);
}

pub reset_ready-Roster : (l : Clients) (n : ℕ) → Roster l n → Roster (reset_ready l) n
reset_ready-Roster l n v =
    let ids = collect-reset_ready (λ c. c.player_id) l (λ c. refl) in
    record {
      keyed = Keyed-reset_ready l v.keyed;
      keys_distinct = subst Distinct (sym (keys-reset_ready l)) v.keys_distinct;
      ids_distinct = subst Distinct (sym ids) v.ids_distinct;
      ids_range = λ x m. v.ids_range x (subst (In x) ids m);
      names_distinct =
          subst Distinct (sym (collect-reset_ready (λ c. c.username) l (λ c. refl)))
            v.names_distinct;
      capacity = omega (arith, v.capacity, authenticated_count-reset_ready l);
    }

pub emplace-Roster :
    (remote : ℕ → Option Endpoint) (now id socket port : ℕ) (l : Clients) (n : ℕ)
    → Roster l n
    → Roster (emplace id (new_connection remote now id 0 socket port) l) n
unfolding emplace new_connection authenticated_count
emplace-Roster remote now id socket port l n v = elim (Option-cases (find id l)) [
  | inr (c, e) ↦ rw (e, emplace) v
  | inl e ↦
      rw (e, emplace)
        (record {
          keyed = (refl, v.keyed);
          keys_distinct = (find-none-keys id l e, v.keys_distinct);
          ids_distinct = v.ids_distinct;
          ids_range = v.ids_range;
          names_distinct = v.names_distinct;
          capacity = v.capacity;
        })
]

-- A client that becomes a player with a free id and a free name, while there is room.
pub authenticate-Roster :
    (id player : ℕ) (name : List ℕ) (l : Clients) (n : ℕ)
    → 1 ≤ player
    → player ≤ 255
    → ¬ (In player (player_ids l))
    → ¬ (In name (names l))
    → authenticated_count l < n
    → Roster l n
    → Roster (update id (authenticate player name) l) n
authenticate-Roster id player name l n lo hi free new room v =
    let f = authenticate player name in
    let known : (c : ClientConnection) → is_authenticated (f c) ≡ true =
      λ c. rw (ne→== player 0 (λ e. omega (arith, e))) in
    record {
      keyed = Keyed-update id f l (λ c. refl) v.keyed;
      keys_distinct = subst Distinct (sym (keys-update id f l)) v.keys_distinct;
      ids_distinct =
          Distinct-collect-update (λ c. c.player_id) id f player known (λ c. refl) l free
            v.ids_distinct;
      ids_range = λ x m.
          elim (In-collect-update (λ c. c.player_id) id f player known (λ c. refl) x l m) [
            | inl e ↦ omega (arith, e)
            | inr old ↦ v.ids_range x old
          ];
      names_distinct =
          Distinct-collect-update (λ c. c.username) id f name known (λ c. refl) l new
            v.names_distinct;
      capacity = omega (arith, authenticated_count-update id f l);
    }
