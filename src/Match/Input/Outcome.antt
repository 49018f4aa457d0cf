-- ===== src/Match/Input/Outcome.antt =====
-- All that HandleUdpPlayerInput can do.
use r_type_j_a_m_e_s.Base.{
  ℕ, ◌≡◌, ◌≢◌, refl, sym, ap, subst, ◌∙◌, inl, inr, Bool, true, false, Option, none, some, List,
  ◌==◌, arith, Bool-cases, Option-cases, ==→eq, ==→ne, All, In, get_elem?,
}
use r_type_j_a_m_e_s.Lobby.Connections.{Endpoint, ClientConnection, update_client_udp_endpoint}
use r_type_j_a_m_e_s.Match.Input.{
  Controls, entity_of, set_inputs, input_of, discovered, sender, handle_payload,
  handle_udp_player_input,
}
use r_type_j_a_m_e_s.Match.Input.Steering.{Steered, written, written-Steered, input_of-written}
use r_type_j_a_m_e_s.Match.Input.Announcement.{Announces, discovered-some, discovered-none}
use r_type_j_a_m_e_s.Match.Input.Senders.{Sends, sender-Sends, Nobody, sender-Nobody}
use r_type_j_a_m_e_s.Match.Input.Entities.{entity_of-some, entity_of-nowhere, entity_of-gap}

module _ (remote : ℕ → Option Endpoint) (server_port : ℕ) (endpoint : Endpoint) (payload : ℕ)
    (s : Controls) where
  -- Whether the payload is taken for an announcement of a port.
  abbrev pub IsAnnouncement : Type 0
  IsAnnouncement =
      (c : ClientConnection) × Announces remote server_port payload endpoint s.manager c

  -- What can come out, and when: the port of the player is learnt; or the inputs of the entity of
  -- the sender are steered; or nothing happens, since the sender is no player or has no entity; or
  -- the loop over the network ids meets an empty cell.
  pub data Outcome : Option (Bool × Controls) → Type 0 where
    learnt :
        (c : ClientConnection)
        → Announces remote server_port payload endpoint s.manager c
        → Outcome (
            some (
              true,
              record s { manager = update_client_udp_endpoint c.client_id endpoint s.manager },
            ))
    steered :
        (c : ClientConnection) (i : ℕ) (t : Controls)
        → ¬ IsAnnouncement
        → Sends remote server_port endpoint s.manager.clients c
        → c.player_id ≢ 0
        → get_elem? s.network_ids.cells i ≡ some (some c.player_id)
        → Steered payload i s t
        → Outcome (some (true, t))
    stranger :
        ¬ IsAnnouncement
        → Nobody remote server_port endpoint s.manager.clients
        → Outcome (some (false, s))
    no_player :
        (c : ClientConnection)
        → ¬ IsAnnouncement
        → Sends remote server_port endpoint s.manager.clients c
        → c.player_id ≡ 0
        → Outcome (some (false, s))
    no_entity :
        (c : ClientConnection)
        → ¬ IsAnnouncement
        → Sends remote server_port endpoint s.manager.clients c
        → All (λ cell. cell ≢ some c.player_id) s.network_ids.cells
        → Outcome (some (false, s))
    gap :
        (c : ClientConnection)
        → ¬ IsAnnouncement
        → Sends remote server_port endpoint s.manager.clients c
        → In none s.network_ids.cells
        → Outcome none

  idle :
      (c : ClientConnection)
      → (c.player_id == 0) ≡ true
      → input_of payload s (some c) ≡ some (false, s)
  unfolding input_of
  idle c e = rw (input_of, e) refl

  absent :
      (c : ClientConnection)
      → (c.player_id == 0) ≡ false
      → entity_of c.player_id 0 s.network_ids.cells ≡ some none
      → input_of payload s (some c) ≡ some (false, s)
  unfolding input_of set_inputs
  absent c e f = rw (input_of, e, f) refl

  gapped :
      (c : ClientConnection)
      → (c.player_id == 0) ≡ false
      → entity_of c.player_id 0 s.network_ids.cells ≡ none
      → input_of payload s (some c) ≡ none
  unfolding input_of
  gapped c e f = rw (input_of, e, f) refl

  input_of-Outcome :
      (c : ClientConnection)
      → ¬ IsAnnouncement
      → Sends remote server_port endpoint s.manager.clients c
      → Outcome (input_of payload s (some c))
  input_of-Outcome c plain sent = elim (Bool-cases (c.player_id == 0)) [
    | inl e ↦ subst Outcome (sym (idle c e)) (no_player c plain sent (==→eq c.player_id 0 e))
    | inr e ↦ elim (Option-cases (entity_of c.player_id 0 s.network_ids.cells)) [
      | inl f ↦
          subst Outcome (sym (gapped c e f))
            (gap c plain sent (entity_of-gap c.player_id 0 s.network_ids.cells f))
      | inr (found, f) ↦ elim (Option-cases found) [
        | inl g ↦
            let nowhere = f ∙ ap some g in
            subst Outcome (sym (absent c e nowhere))
              (no_entity c plain sent (entity_of-nowhere c.player_id 0 s.network_ids.cells nowhere))
        | inr (i, g) ↦
            let there = f ∙ ap some g in
            let player = ==→ne c.player_id 0 e in
            let (j, at, cell) = entity_of-some c.player_id 0 i s.network_ids.cells there in
            let same : i ≡ j = omega (arith, at) in
            subst Outcome (sym (input_of-written payload s c i player there)) (
              steered c i (written payload i s) plain sent player
                (ap (get_elem? s.network_ids.cells) same ∙ cell) (written-Steered payload i s))
      ]
    ]
  ]

  taken :
      (id : ℕ)
      → discovered remote server_port payload endpoint s.manager ≡ some id
      → handle_payload remote server_port payload endpoint s
        ≡ some (true, record s { manager = update_client_udp_endpoint id endpoint s.manager })
  unfolding handle_payload
  taken id e = rw (handle_payload, e) refl

  passed :
      (from : Option ClientConnection)
      → discovered remote server_port payload endpoint s.manager ≡ none
      → sender remote server_port endpoint s.manager.clients ≡ from
      → handle_payload remote server_port payload endpoint s ≡ input_of payload s from
  unfolding handle_payload
  passed from e f = rw (handle_payload, e, f) refl

  strange : input_of payload s none ≡ some (false, s)
  unfolding input_of
  strange = refl

  handle_payload-Outcome : Outcome (handle_payload remote server_port payload endpoint s)
  handle_payload-Outcome =
      elim (Option-cases (discovered remote server_port payload endpoint s.manager)) [
        | inr (id, e) ↦
            let (c, a, same) = discovered-some remote server_port payload endpoint s.manager id e in
            subst Outcome
              (ap
                  (λ n.
                    some (
                      true,
                      record s { manager = update_client_udp_endpoint n endpoint s.manager },
                    ))
                  (sym same)
                ∙ sym (taken id e))
              (learnt c a)
        | inl e ↦
            let plain = discovered-none remote server_port payload endpoint s.manager e in
            elim (Option-cases (sender remote server_port endpoint s.manager.clients)) [
              | inl f ↦
                  subst Outcome (sym (passed none e f ∙ strange))
                    (stranger plain (sender-Nobody remote server_port endpoint s.manager.clients f))
              | inr (c, f) ↦ subst Outcome (sym (passed (some c) e f)) (
                  input_of-Outcome c plain
                    (sender-Sends remote server_port endpoint s.manager.clients c f))
            ]
      ]

  -- A datagram with a first payload byte, from any endpoint. If the byte is the id of a player
  -- whose port is still the server's, and it comes from another port, then the connection of that
  -- player gets the sender's endpoint, and nothing else changes. Else the sender is the client with
  -- that endpoint, or where none has it one with that address. If it is a player with an entity,
  -- the byte says what the inputs of that entity are to be, bit by bit, and nothing else changes;
  -- without a sender, a player id or an entity nothing changes, and the datagram is not handled.
  -- Only where a network id is missing does the loop over them fail.
  pub handle_udp_player_input-Outcome :
      (datagram : List ℕ)
      → get_elem? datagram 12 ≡ some payload
      → Outcome (handle_udp_player_input remote server_port endpoint datagram s)
  unfolding handle_udp_player_input
  handle_udp_player_input-Outcome datagram e =
      let read : handle_udp_player_input remote server_port endpoint datagram s
          ≡ handle_payload remote server_port payload endpoint s =
        rw (handle_udp_player_input, e) refl in
      subst Outcome (sym read) handle_payload-Outcome
