-- ===== src/Lobby/Connections/Histories.antt =====
-- Sequences of calls of the connection manager.
use r_type_j_a_m_e_s.Base.{ℕ, ◌≤◌, ◌≡◌, refl, Bool, Option, none, some, List, [], ◌∷◌}
use r_type_j_a_m_e_s.Lobby.Connections.{
  Endpoint, Clients, Manager, new_manager, add_client, authenticate_client, remove_client,
  update_client_udp_endpoint, reset_all_ready_states, set_ready, touch,
}
use r_type_j_a_m_e_s.Lobby.Connections.Invariant.{
  Inv, Roster, new_manager-Inv, update-Roster, erase-Roster, reset_ready-Roster, emplace-Roster,
}
use r_type_j_a_m_e_s.Lobby.Connections.Authentication.{authenticate_client-Outcome}

pub data Call : Type 0 where
  adds : ℕ → ℕ → Call
  authenticates : ℕ → List ℕ → Call
  removes : ℕ → Call
  updates_udp_endpoint : ℕ → Endpoint → Call
  resets_ready : Call
  sets_ready : ℕ → Bool → Call
  touches : ℕ → ℕ → Call

abbrev second : Option (ℕ × Manager) → Option Manager
second none = none
second (some (p, m)) = some m

-- One call; `none` is an exception.
unfoldable pub call : (ℕ → Option Endpoint) → Manager → Call → Option Manager
call remote m (adds now socket) = some (add_client remote now socket m).1
call remote m (authenticates id name) = second (authenticate_client id name m)
call remote m (removes id) = some (remove_client id m)
call remote m (updates_udp_endpoint id e) = some (update_client_udp_endpoint id e m)
call remote m resets_ready = some (reset_all_ready_states m)
call remote m (sets_ready id ready) = some (set_ready id ready m)
call remote m (touches id now) = some (touch id now m)

with_clients :
    (m : Manager) (l : Clients) → Inv m → Roster l m.max_clients → Inv (record m { clients = l })
with_clients m l v r = record {
  roster = r;
  limit = v.limit;
  next_lo = v.next_lo;
  next_hi = v.next_hi;
}

call-Inv :
    (remote : ℕ → Option Endpoint) (m : Manager) (c : Call)
    → Inv m
    → (m' : Manager) × (call remote m c ≡ some m') × Inv m'
unfolding call add_client remove_client update_client_udp_endpoint reset_all_ready_states set_ready
    touch
call-Inv remote m (adds now socket) v = (
  _,
  refl,
  record {
    roster =
        emplace-Roster remote now m.next_client_id socket m.server_udp_port m.clients m.max_clients
          v.roster;
    limit = v.limit;
    next_lo = v.next_lo;
    next_hi = v.next_hi;
  },
)
call-Inv remote m (authenticates id name) v =
    let (player, m', e, o, v') = authenticate_client-Outcome id name m v in (m', rw e, v')
call-Inv remote m (removes id) v =
    (_, refl, with_clients m _ v (erase-Roster id m.clients m.max_clients v.roster))
call-Inv remote m (updates_udp_endpoint id endpoint) v = (
  _,
  refl,
  with_clients m _ v
      (update-Roster id _ m.clients m.max_clients (λ c. refl) (λ c. refl) (λ c. refl) v.roster),
)
call-Inv remote m resets_ready v =
    (_, refl, with_clients m _ v (reset_ready-Roster m.clients m.max_clients v.roster))
call-Inv remote m (sets_ready id ready) v = (
  _,
  refl,
  with_clients m _ v
      (update-Roster id _ m.clients m.max_clients (λ c. refl) (λ c. refl) (λ c. refl) v.roster),
)
call-Inv remote m (touches id now) v = (
  _,
  refl,
  with_clients m _ v
      (update-Roster id _ m.clients m.max_clients (λ c. refl) (λ c. refl) (λ c. refl) v.roster),
)

unfoldable pub calls : (ℕ → Option Endpoint) → Manager → List Call → Option Manager
unfolding call
calls remote m [] = some m
calls remote m (c ∷ cs) = elim (call remote m c) [ none ↦ none | some m' ↦ calls remote m' cs ]

calls-Inv :
    (remote : ℕ → Option Endpoint) (m : Manager) (cs : List Call)
    → Inv m
    → (m' : Manager) × (calls remote m cs ≡ some m') × Inv m'
unfolding calls
calls-Inv remote m [] v = (m, refl, v)
calls-Inv remote m (c ∷ cs) v =
    let (m', e, v') = call-Inv remote m c v in
    let (m'', e', v'') = calls-Inv remote m' cs v' in (m'', rw (e, calls) e', v'')

-- From a new manager that takes 255 players at most, no sequence of calls throws, and after it the
-- players have distinct ids and distinct names, none has the id 0 or one above 255, and there are
-- not more of them than the manager takes; every client stands under its own id, once.
pub calls-new_manager-Inv :
    (remote : ℕ → Option Endpoint) (max_clients port : ℕ) (cs : List Call)
    → max_clients ≤ 255
    → (m : Manager) × (calls remote (new_manager max_clients port) cs ≡ some m) × Inv m
calls-new_manager-Inv remote max_clients port cs h =
    calls-Inv remote (new_manager max_clients port) cs (new_manager-Inv max_clients port h)
