-- ===== src/Match/Input/Announcement.antt =====
-- The client whose port a datagram announces to HandleUdpPlayerInput.
use r_type_j_a_m_e_s.Base.{
  if-cases, some_inj, none-some, ℕ, ◌≡◌, ◌≢◌, refl, sym, ◌∙◌, inl, inr, true, false, not, ◌&&◌,
  Option, none, some, ◌==◌, if◌then◌else◌, arith, Bool-cases, Option-cases, ==→ne, eq→==, ne→==,
}
use r_type_j_a_m_e_s.Lobby.Connections.{
  Endpoint, ClientConnection, Manager, find_client_by_player_id,
}
use r_type_j_a_m_e_s.Match.Input.{discovered}

module _ (remote : ℕ → Option Endpoint) (server_port : ℕ) where
  -- A payload that is the id of a player whose port is still the server's own, from another port.
  pub record Announces (payload : ℕ) (endpoint : Endpoint) (m : Manager) (c : ClientConnection)
      : Type 0 where
    pub nonzero : payload ≢ 0
    pub player : find_client_by_player_id payload m.clients ≡ some c
    pub unknown : c.udp_endpoint.port ≡ server_port
    pub other : endpoint.port ≢ server_port

  announced_port :
      (a b : ℕ)
      → ((a == server_port) && not (b == server_port)) ≡ true
      → (a ≡ server_port) × (b ≢ server_port)
  announced_port a b h = (ground arith, λ e. ground arith)

  at_zero :
      (payload : ℕ) (endpoint : Endpoint) (m : Manager)
      → (payload == 0) ≡ true
      → discovered remote server_port payload endpoint m ≡ none
  unfolding discovered
  at_zero payload endpoint m z = rw z refl

  unowned :
      (payload : ℕ) (endpoint : Endpoint) (m : Manager)
      → find_client_by_player_id payload m.clients ≡ none
      → discovered remote server_port payload endpoint m ≡ none
  unfolding discovered
  unowned payload endpoint m f = elim (Bool-cases (payload == 0)) [
    | inl z ↦ rw z refl
    | inr z ↦ rw (z, f) refl
  ]

  owned :
      (payload : ℕ) (endpoint : Endpoint) (m : Manager) (c : ClientConnection)
      → (payload == 0) ≡ false
      → find_client_by_player_id payload m.clients ≡ some c
      → discovered remote server_port payload endpoint m ≡ (
          if (c.udp_endpoint.port == server_port) && not (endpoint.port == server_port)
          then some c.client_id
          else none)
  unfolding discovered
  owned payload endpoint m c z f = rw (z, f) refl

  announced :
      (payload : ℕ) (endpoint : Endpoint) (m : Manager) (id : ℕ) (c : ClientConnection)
      → (payload == 0) ≡ false
      → find_client_by_player_id payload m.clients ≡ some c
      → discovered remote server_port payload endpoint m ≡ some id
      → Announces payload endpoint m c × (id ≡ c.client_id)
  announced payload endpoint m id c z f h =
      elim (if-cases _ (some c.client_id) none _ (sym (owned payload endpoint m c z f) ∙ h)) [
        | inr (e, k) ↦ absurd (none-some id k)
        | inl (e, k) ↦
            let ports = announced_port c.udp_endpoint.port endpoint.port e in
            (
              record {
                nonzero = ==→ne payload 0 z;
                player = f;
                unknown = ports.0;
                other = ports.1;
              },
              sym (some_inj c.client_id id k),
            )
      ]

  pub discovered-some :
      (payload : ℕ) (endpoint : Endpoint) (m : Manager) (id : ℕ)
      → discovered remote server_port payload endpoint m ≡ some id
      → (c : ClientConnection) × Announces payload endpoint m c × (id ≡ c.client_id)
  discovered-some payload endpoint m id h = elim (Bool-cases (payload == 0)) [
    | inl z ↦ absurd (none-some id (sym (at_zero payload endpoint m z) ∙ h))
    | inr z ↦ elim (Option-cases (find_client_by_player_id payload m.clients)) [
      | inl f ↦ absurd (none-some id (sym (unowned payload endpoint m f) ∙ h))
      | inr (c, f) ↦ let (a, same) = announced payload endpoint m id c z f h in (c, a, same)
    ]
  ]

  pub discovered-none :
      (payload : ℕ) (endpoint : Endpoint) (m : Manager)
      → discovered remote server_port payload endpoint m ≡ none
      → ¬ ((c : ClientConnection) × Announces payload endpoint m c)
  discovered-none payload endpoint m h (c, a) =
      let found =
        owned payload endpoint m c (ne→== payload 0 a.nonzero) a.player
        ∙ rw
            (
              eq→== c.udp_endpoint.port server_port a.unknown,
              ne→== endpoint.port server_port a.other,
            )
            refl in
      none-some c.client_id (sym h ∙ found)
