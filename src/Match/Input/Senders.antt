-- ===== src/Match/Input/Senders.antt =====
-- The client that HandleUdpPlayerInput takes for the sender of a datagram.
use r_type_j_a_m_e_s.Base.{
  if-cases, some_inj, none-some, ℕ, ◌≡◌, refl, sym, ap, subst, ◌∙◌, ◌⊎◌, inl, inr, true, false,
  Option, none, some, [], ◌∷◌, arith, Option-cases, All, In,
}
use r_type_j_a_m_e_s.Lobby.Connections.{
  Endpoint, ClientConnection, Clients, has_address, find_client_by_ip,
}
use r_type_j_a_m_e_s.Match.Input.{client_at, sender}

module _ (remote : ℕ → Option Endpoint) (server_port : ℕ) where
  -- The client's stored endpoint is this one.
  abbrev pub IsAt : Endpoint → ClientConnection → Type 0
  IsAt endpoint c =
      (c.udp_endpoint.address ≡ endpoint.address) × (c.udp_endpoint.port ≡ endpoint.port)

  -- Who sent a datagram: a client that is at its endpoint, or, where none is, one whose socket has
  -- its address at the other end.
  pub record Sends (endpoint : Endpoint) (clients : Clients) (c : ClientConnection) : Type 0 where
    pub id : ℕ
    pub connected : In (id, c) clients
    pub reached :
        IsAt endpoint c
        ⊎ (All (λ x. ¬ (IsAt endpoint x.1)) clients
            × (has_address endpoint.address (remote c.tcp_socket) ≡ true))

  -- No client is at the endpoint or has the address.
  abbrev pub Nobody : Endpoint → Clients → Type 0
  Nobody endpoint clients =
      All (λ x. ¬ (IsAt endpoint x.1)) clients
      × All (λ x. has_address endpoint.address (remote x.1.tcp_socket) ≡ false) clients

  client_at-some :
      (endpoint : Endpoint) (l : Clients) (c : ClientConnection)
      → client_at endpoint l ≡ some c
      → (k : ℕ) × In (k, c) l × IsAt endpoint c
  unfolding client_at
  client_at-some endpoint [] c h = absurd (none-some c h)
  client_at-some endpoint ((k, x) ∷ rest) c h =
      elim (if-cases _ (some x) (client_at endpoint rest) _ h) [
        | inl (e, same) ↦
            let at : IsAt endpoint x = (ground arith, ground arith) in
            (
              k,
              inl (ap (λ y. (k, y)) (sym (some_inj x c same))),
              subst (λ y. IsAt endpoint y) (some_inj x c same) at,
            )
        | inr (e, later) ↦
            let (id, there, at) = client_at-some endpoint rest c later in (id, inr there, at)
      ]

  client_at-none :
      (endpoint : Endpoint) (l : Clients)
      → client_at endpoint l ≡ none
      → All (λ x. ¬ (IsAt endpoint x.1)) l
  unfolding client_at
  client_at-none endpoint [] h = tt
  client_at-none endpoint ((k, x) ∷ rest) h =
      elim (if-cases _ (some x) (client_at endpoint rest) _ h) [
        | inl (e, found) ↦ absurd (none-some x (sym found))
        | inr (e, later) ↦
            (λ at. let a = at.0 in let b = at.1 in ground arith, client_at-none endpoint rest later)
      ]

  by_ip-some :
      (ip : ℕ) (l : Clients) (c : ClientConnection)
      → find_client_by_ip remote ip l ≡ some c
      → (k : ℕ) × In (k, c) l × (has_address ip (remote c.tcp_socket) ≡ true)
  unfolding find_client_by_ip
  by_ip-some ip [] c h = absurd (none-some c h)
  by_ip-some ip ((k, x) ∷ rest) c h =
      elim (if-cases _ (some x) (find_client_by_ip remote ip rest) _ h) [
        | inl (e, same) ↦ (
          k,
          inl (ap (λ y. (k, y)) (sym (some_inj x c same))),
          subst (λ y. has_address ip (remote y.tcp_socket) ≡ true) (some_inj x c same) e,
        )
        | inr (e, later) ↦ let (id, there, at) = by_ip-some ip rest c later in (id, inr there, at)
      ]

  by_ip-none :
      (ip : ℕ) (l : Clients)
      → find_client_by_ip remote ip l ≡ none
      → All (λ x. has_address ip (remote x.1.tcp_socket) ≡ false) l
  unfolding find_client_by_ip
  by_ip-none ip [] h = tt
  by_ip-none ip ((k, x) ∷ rest) h =
      elim (if-cases _ (some x) (find_client_by_ip remote ip rest) _ h) [
        | inl (e, found) ↦ absurd (none-some x (sym found))
        | inr (e, later) ↦ (e, by_ip-none ip rest later)
      ]

  far_off :
      (endpoint : Endpoint) (l : Clients)
      → client_at endpoint l ≡ none
      → sender remote server_port endpoint l ≡ find_client_by_ip remote endpoint.address l
  unfolding sender
  far_off endpoint l e = rw (sender, e) refl

  near :
      (endpoint : Endpoint) (l : Clients) (c : ClientConnection)
      → client_at endpoint l ≡ some c
      → sender remote server_port endpoint l ≡ some c
  unfolding sender
  near endpoint l c e = rw (sender, e) refl

  pub sender-Sends :
      (endpoint : Endpoint) (l : Clients) (c : ClientConnection)
      → sender remote server_port endpoint l ≡ some c
      → Sends endpoint l c
  sender-Sends endpoint l c h = elim (Option-cases (client_at endpoint l)) [
    | inr (x, e) ↦
        let same : x ≡ c = some_inj x c (sym (near endpoint l x e) ∙ h) in
        let (id, there, at) = client_at-some endpoint l c (e ∙ ap some same) in
        record { id = id; connected = there; reached = inl at }
    | inl e ↦
        let (id, there, at) = by_ip-some endpoint.address l c (sym (far_off endpoint l e) ∙ h) in
        record { id = id; connected = there; reached = inr (client_at-none endpoint l e, at) }
  ]

  pub sender-Nobody :
      (endpoint : Endpoint) (l : Clients)
      → sender remote server_port endpoint l ≡ none
      → Nobody endpoint l
  sender-Nobody endpoint l h = elim (Option-cases (client_at endpoint l)) [
    | inr (x, e) ↦ absurd (none-some x (sym h ∙ near endpoint l x e))
    | inl e ↦ (
      client_at-none endpoint l e,
      by_ip-none endpoint.address l (sym (far_off endpoint l e) ∙ h),
    )
  ]
