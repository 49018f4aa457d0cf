-- ===== src/Lobby/Handler/Connecting.antt =====
-- HandleConnectReq: which answer a client gets, and when it becomes a player.
use r_type_j_a_m_e_s.Base.{
  ℕ, ◌≤◌, ◌<◌, ◌≡◌, ◌≢◌, refl, ◌∙◌, ◌⊎◌, inl, inr, true, false, some, List, ◌∷◌, arith, ne→==, In,
  Bool-cases,
}
use r_type_j_a_m_e_s.Wire.Names.{get_name}
use r_type_j_a_m_e_s.Wire.Packets.Session.{ConnectReqPacket}
use r_type_j_a_m_e_s.Lobby.Connections.{
  ClientConnection, authenticated_count, update, has_client, is_username_taken, is_full,
  authenticate, authenticate_client,
}
use r_type_j_a_m_e_s.Lobby.Connections.Ids.{player_ids}
use r_type_j_a_m_e_s.Lobby.Connections.Invariant.{Inv}
use r_type_j_a_m_e_s.Lobby.Connections.Authentication.{
  Admissible, refused, accepted, room, full, authenticate_client-Outcome,
}
use r_type_j_a_m_e_s.Lobby.Handler.{
  Room, connect_ack, notify_connect, ok, server_full, bad_username, in_game, reject, all_nul, trim,
  answer, connect_as, handle_connect_req,
}

pub data Answer (c : ClientConnection) (name : List ℕ) (r r' : Room) : Type 0 where
  playing : r.running ≡ true → r' ≡ reject c in_game r → Answer c name r r'
  unusable :
      r.running ≡ false
      → (all_nul name ≡ true) ⊎ (is_username_taken name r.manager.clients ≡ true)
      → r' ≡ reject c bad_username r
      → Answer c name r r'
  no_room :
      r.running ≡ false
      → all_nul name ≡ false
      → is_username_taken name r.manager.clients ≡ false
      → ¬ (authenticated_count r.manager.clients < r.manager.max_clients)
      → r' ≡ reject c server_full r
      → Answer c name r r'
  welcome :
      r.running ≡ false
      → all_nul name ≡ false
      → Admissible c.client_id name r.manager
      → (player : ℕ) → 1 ≤ player
      → player ≤ 255
      → ¬ (In player (player_ids r.manager.clients))
      → r'.manager.clients ≡ update c.client_id (authenticate player name) r.manager.clients
      → r'.running ≡ false
      → r'.sent ≡ notify_connect player name ∷ connect_ack c.client_id ok player ∷ r.sent
      → Answer c name r r'

admitted :
    (c : ClientConnection) (name : List ℕ) (r : Room)
    → Inv r.manager
    → r.running ≡ false
    → all_nul name ≡ false
    → Admissible c.client_id name r.manager
    → (r' : Room) × (answer c name r (authenticate_client c.client_id name r.manager) ≡ some r')
      × Answer c name r r'
      × Inv r'.manager
unfolding answer
admitted c name r v idle usable fits =
    let (player, m', e, o, v') = authenticate_client-Outcome c.client_id name r.manager v in
    elim o [
      | refused unfit _ _ ↦ absurd (unfit fits)
      | accepted _ lo hi free same ↦
          let positive : player ≢ 0 = λ z. omega (arith, z) in
          (
            _,
            rw (e, answer, ne→== player 0 positive) refl,
            welcome idle usable fits player lo hi free same idle refl,
            v',
          )
    ]

connect_as-answer :
    (c : ClientConnection) (name : List ℕ) (r : Room)
    → r.running ≡ false
    → all_nul name ≡ false
    → is_username_taken name r.manager.clients ≡ false
    → is_full r.manager ≡ false
    → connect_as c name r ≡ answer c name r (authenticate_client c.client_id name r.manager)
unfolding connect_as
connect_as-answer c name r idle usable new space = ground arith

connect_as-Answer :
    (c : ClientConnection) (name : List ℕ) (r : Room)
    → Inv r.manager
    → has_client c.client_id r.manager ≡ true
    → (r' : Room) × (connect_as c name r ≡ some r') × Answer c name r r' × Inv r'.manager
unfolding connect_as
connect_as-Answer c name r v known = elim (Bool-cases r.running) [
  | inl busy ↦ (_, rw busy refl, playing busy refl, v)
  | inr idle ↦ elim (Bool-cases (all_nul name)) [
    | inl empty ↦ (_, rw (idle, empty) refl, unusable idle (inl empty) refl, v)
    | inr usable ↦ elim (Bool-cases (is_username_taken name r.manager.clients)) [
      | inl taken ↦ (_, rw (idle, usable, taken) refl, unusable idle (inr taken) refl, v)
      | inr new ↦ elim (Bool-cases (is_full r.manager)) [
        | inl crowded ↦ (
          _,
          rw (idle, usable, new, crowded) refl,
          no_room idle usable new (full r.manager crowded) refl,
          v,
        )
        | inr space ↦
            let (r', e, a, v') =
              admitted c name r v idle usable (known, new, room r.manager space) in
            (r', connect_as-answer c name r idle usable new space ∙ e, a, v')
      ]
    ]
  ]
]

-- For a client that the manager knows, where the manager satisfies the invariant, HandleConnectReq
-- never throws and keeps the invariant. It refuses with InGame while a game runs, then with
-- BadUsername a trimmed name that is empty or taken, then with ServerFull where there is no room,
-- and a refusal changes nothing but the log; otherwise the client gets the name and a free id from
-- 1 to 255, the id is acknowledged with OK, and the call that notifies the players of it is made.
pub handle_connect_req-Answer :
    (c : ClientConnection) (packet : ConnectReqPacket) (r : Room)
    → Inv r.manager
    → has_client c.client_id r.manager ≡ true
    → (r' : Room) × (handle_connect_req c packet r ≡ some r')
      × Answer c (trim (get_name packet.username)) r r'
      × Inv r'.manager
unfolding handle_connect_req
handle_connect_req-Answer c packet r v known =
    connect_as-Answer c (trim (get_name packet.username)) r v known
