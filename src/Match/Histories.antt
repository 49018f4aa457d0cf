-- ===== src/Match/Histories.antt =====
-- The server through a whole history: matches that begin, ticks, and players that leave.
use r_type_j_a_m_e_s.Base.{
  ◌≡◌, refl, sym, ap, subst, ◌∙◌, inl, inr, Bool, true, false, ◌&&◌, List, [], ◌∷◌, Bool-cases,
  arith, ltb, ◌==◌,
}
use r_type_j_a_m_e_s.Lobby.Connections.{
  ClientConnection, Manager, authenticated_count, all_players_ready, remove_client,
}
use r_type_j_a_m_e_s.Match.Records.{Sort}
use r_type_j_a_m_e_s.Match.State.{
  PlayerTag, World, Sent, notify_disconnect, game_start, Clock, Server, send,
}
use r_type_j_a_m_e_s.Match.Play.{start_match, tick, try_start_game, say_left, handle_disconnect_req}
use r_type_j_a_m_e_s.Match.Turns.{InLobby, IsSystems}
use r_type_j_a_m_e_s.Match.Phases.{
  Step, loses_player, announces, Follows, IsServer, Follows-trans, Follows-same, Follows-Step, Fine,
  tick-Fine, setup-runs,
}
use r_type_j_a_m_e_s.Match.Departures.{
  entities, start-idle, entities-keeps, start-Fine, start_match-Fine, disconnect-Fine,
}

module _ (clock : Clock) (sort : Sort) (initialize : World → World) (new_tag : PlayerTag) where
  open clock use {Time, start, add, reached}

  -- The state with one more message, or other clients.
  told-IsServer :
      (s t : Server Time)
      → t.running ≡ s.running
      → t.timer_armed ≡ s.timer_armed
      → (InLobby s → InLobby t)
      → IsServer s
      → IsServer t
  told-IsServer s t r a lobby v = record {
    idle = λ e. lobby (v.idle (sym r ∙ e));
    armed = a ∙ v.armed ∙ sym r;
  }

  same_lobby :
      (s : Server Time) (m : Manager) (log : List Sent)
      → InLobby s
      → InLobby (record s { manager = m; sent = log })
  same_lobby s m log l = record {
    stopped = l.stopped;
    no_timer = l.no_timer;
    no_records = l.no_records;
    no_deaths = l.no_deaths;
    no_system = l.no_system;
    no_players = l.no_players;
  }

  then_Fine :
      (s t u : Server Time)
      → Follows s t
      → Fine clock sort initialize new_tag t u
      → Fine clock sort initialize new_tag s u
  then_Fine s t u f g = (Follows-trans f g.0, g.1)

  say_left-Fine :
      (c : ClientConnection) (s : Server Time)
      → IsServer s
      → Fine clock sort initialize new_tag s (say_left clock sort initialize new_tag c s)
  unfolding say_left
  say_left-Fine c s v =
      let told : Server Time = send (notify_disconnect c.player_id) s in
      elim (Bool-cases (c.player_id == 0)) [
        | inl unknown ↦ rw unknown (Follows-same s s refl refl, v)
        | inr player ↦ rw player (
            then_Fine s told _
              (Follows-Step s told (notify_disconnect c.player_id ∷ []) refl
                (loses_player s.running c.player_id))
              (disconnect-Fine clock sort initialize new_tag c.player_id told
                (told-IsServer s told refl refl (same_lobby s s.manager told.sent) v)))
      ]

  start-runs :
      (s : Server Time)
      → s.running ≡ false
      → (start_match clock sort initialize new_tag s).running ≡ true
  start-runs s r =
      ap (λ t. t.running) (start-idle clock sort initialize new_tag s r)
      ∙ ap (λ t. t.running)
          (setup-runs clock sort initialize new_tag (entities clock sort initialize new_tag s)
            (entities-keeps clock sort initialize new_tag s).0)
      ∙ (entities-keeps clock sort initialize new_tag s).0

  -- SendGameStart behind a start.
  announced :
      (s t : Server Time)
      → Fine clock sort initialize new_tag s t
      → t.running ≡ true
      → Fine clock sort initialize new_tag s (send game_start t)
  announced s t f r = (
    Follows-trans f.0 (
        Follows-Step t (send game_start t) (game_start ∷ []) refl (
          subst (λ b. Step b (game_start ∷ []) t.running) (sym r)
            (subst (λ b. Step true (game_start ∷ []) b) (sym r) announces))),
    told-IsServer t (send game_start t) refl refl (same_lobby t t.manager _) f.1,
  )

  abbrev ready_to_start : Server Time → Bool
  ready_to_start s =
      ltb 0 (authenticated_count s.manager.clients) && all_players_ready s.manager.clients

  try_start-Fine :
      (s : Server Time)
      → IsServer s
      → Fine clock sort initialize new_tag s (try_start_game clock sort initialize new_tag s)
  unfolding try_start_game
  try_start-Fine s v = elim (Bool-cases s.running) [
    | inl r ↦
        subst (Fine clock sort initialize new_tag s)
          (let e : s ≡ try_start_game clock sort initialize new_tag s = ground arith in e)
          (Follows-same s s refl refl, v)
    | inr r ↦ elim (Bool-cases (ready_to_start s)) [
      | inr waits ↦
          subst (Fine clock sort initialize new_tag s)
            (let e : s ≡ try_start_game clock sort initialize new_tag s = ground arith in e)
            (Follows-same s s refl refl, v)
      | inl ready ↦
          subst (Fine clock sort initialize new_tag s)
            (let e : send game_start (start_match clock sort initialize new_tag s)
                  ≡ try_start_game clock sort initialize new_tag s =
                ground arith in
              e)
            (announced s (start_match clock sort initialize new_tag s)
              (start-Fine clock sort initialize new_tag s r) (start-runs s r))
    ]
  ]

  -- HandleDisconnectReq.
  disconnect_req-Fine :
      (c : ClientConnection) (s : Server Time)
      → IsServer s
      → Fine clock sort initialize new_tag s
          (handle_disconnect_req clock sort initialize new_tag c s)
  unfolding handle_disconnect_req
  disconnect_req-Fine c s v =
      let told = say_left clock sort initialize new_tag c s in
      let first = say_left-Fine c s v in
      let removed : Server Time = record told {
        manager = remove_client c.client_id told.manager;
      } in
      then_Fine s removed _ (Follows-trans first.0 (Follows-same told removed refl refl)) (
        try_start-Fine removed (
          told-IsServer told removed refl refl (same_lobby told removed.manager told.sent) first.1))

  -- What happens to the server: a tick of the timer, with what the systems do in it, a client that
  -- leaves, or players who are all ready.
  pub data Event : Type 0 where
    ticked :
        (systems : Server Time → Server Time)
        → IsSystems clock sort initialize new_tag systems
        → Time
        → Event
    departed : ClientConnection → Event
    all_ready : Event

  abbrev pub react : Event → Server Time → Server Time
  react (ticked systems quiet delta) s = tick clock sort initialize new_tag systems delta s
  react (departed c) s = handle_disconnect_req clock sort initialize new_tag c s
  react all_ready s = start_match clock sort initialize new_tag s

  abbrev pub react_all : List Event → Server Time → Server Time
  react_all [] s = s
  react_all (e ∷ rest) s = react_all rest (react e s)

  react-Fine :
      (e : Event) (s : Server Time) → IsServer s → Fine clock sort initialize new_tag s (react e s)
  react-Fine (ticked systems quiet delta) s v =
      tick-Fine clock sort initialize new_tag systems delta s quiet v
  react-Fine (departed c) s v = disconnect_req-Fine c s v
  react-Fine all_ready s v = start_match-Fine clock sort initialize new_tag s v

  -- From a server as it should be, whatever ticks, departures and starts follow, with systems that
  -- leave the flag of the match and the log of the messages alone: the messages that are sent are
  -- those of a run of the abstract machine between the lobby and the match, which draws only in a
  -- match, ends a match with exactly one GAME_END, and never ends one that did not begin.
  pub react_all-Follows :
      (events : List Event) (s : Server Time) → IsServer s → Follows s (react_all events s)
  react_all-Follows [] s v = Follows-same s s refl refl
  react_all-Follows (e ∷ rest) s v =
      let one = react-Fine e s v in Follows-trans one.0 (react_all-Follows rest (react e s) one.1)

  -- Under the same conditions the server stays as it should be: in the lobby there are no records,
  -- deaths, players' entities or world generation left of any match, and the tick timer is armed
  -- exactly while a match runs.
  pub react_all-IsServer :
      (events : List Event) (s : Server Time) → IsServer s → IsServer (react_all events s)
  react_all-IsServer [] s v = v
  react_all-IsServer (e ∷ rest) s v = react_all-IsServer rest (react e s) (react-Fine e s v).1
