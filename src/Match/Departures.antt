-- ===== src/Match/Departures.antt =====
-- A match that begins, and players that leave it: what the messages are and what then holds.
use r_type_j_a_m_e_s.Base.{
  ℕ, ◌≡◌, refl, sym, ap, subst, ◌∙◌, inl, inr, true, false, not, ◌||◌, [], ◌∷◌, ◌++◌, Bool-cases,
  arith, append-nil, ◌==◌,
}
use r_type_j_a_m_e_s.Lobby.Connections.{authenticated_count}
use r_type_j_a_m_e_s.Match.Records.{Sort, build_leaderboard}
use r_type_j_a_m_e_s.Match.State.{
  PlayerTag, clear_tags, World, Sent, game_end, Clock, Server, send, find_player, game_mode,
}
use r_type_j_a_m_e_s.Match.Play.{
  setup_entities_game, setup_game_tick, start_match, leave, after_leaving, reset_to_lobby,
  handle_player_disconnect, positive,
}
use r_type_j_a_m_e_s.Match.Turns.{leave-keeps, in_lobby, lobby-sent}
use r_type_j_a_m_e_s.Match.Phases.{
  Step, begins, ends, Follows, IsServer, Follows-same, Follows-Step, Fine, setup-Fine, spawn-keeps,
  level-keeps,
}

module _ (clock : Clock) (sort : Sort) (initialize : World → World) (new_tag : PlayerTag) where
  open clock use {Time, start, add, reached}

  -- The server that Start sets up behind its test.
  abbrev pub entities : Server Time → Server Time
  entities s =
      setup_entities_game clock sort initialize new_tag
        (record s { running = true; player_tags = clear_tags s.player_tags })

  pub start-idle :
      (s : Server Time)
      → s.running ≡ false
      → start_match clock sort initialize new_tag s
        ≡ setup_game_tick clock sort initialize new_tag (entities s)
  unfolding start_match
  start-idle s r = ground arith

  pub entities-keeps :
      (s : Server Time) → ((entities s).running ≡ true) × ((entities s).sent ≡ s.sent)
  unfolding setup_entities_game
  entities-keeps s =
      let spawned = spawn-keeps clock sort initialize new_tag s.manager.clients _ in
      let begun = level-keeps clock sort initialize new_tag _ _ in
      (begun.0 ∙ spawned.0, begun.1 ∙ spawned.1)

  begins_with :
      (s t : Server Time) → s.running ≡ false → t.running ≡ true → t.sent ≡ s.sent → Follows s t
  begins_with s t r q l =
      Follows-Step s t [] (l ∙ sym (append-nil s.sent))
        (subst (λ b. Step b [] t.running) (sym r) (subst (λ b. Step false [] b) (sym q) begins))

  pub start-Fine :
      (s : Server Time)
      → s.running ≡ false
      → Fine clock sort initialize new_tag s (start_match clock sort initialize new_tag s)
  start-Fine s r =
      let kept = entities-keeps s in
      subst (Fine clock sort initialize new_tag s) (sym (start-idle s r)) (
        setup-Fine clock sort initialize new_tag s (entities s)
          (begins_with s (entities s) r kept.0 kept.1) (λ e. absurd (let no : ⊥ = cc in no)))

  start-running :
      (s : Server Time) → s.running ≡ true → start_match clock sort initialize new_tag s ≡ s
  unfolding start_match
  start-running s r = ground arith

  pub start_match-Fine :
      (s : Server Time)
      → IsServer s
      → Fine clock sort initialize new_tag s (start_match clock sort initialize new_tag s)
  start_match-Fine s v = elim (Bool-cases s.running) [
    | inl r ↦
        subst (Fine clock sort initialize new_tag s) (sym (start-running s r))
          (Follows-same s s refl refl, v)
    | inr r ↦ start-Fine s r
  ]

  abbrev last_words : Server Time → Server Time
  last_words s =
      send (game_end 0 (game_mode s.worldgen_manager) (build_leaderboard sort 0 s.player_records)) s

  -- A match that ends, with the message of its end.
  ended-Fine :
      (s t : Server Time)
      → t.running ≡ true
      → s.sent ≡ t.sent
      → Fine clock sort initialize new_tag t
          (reset_to_lobby clock sort initialize new_tag (last_words s))
  ended-Fine s t r l =
      let lobby = in_lobby clock sort initialize new_tag (last_words s) in
      let message : Sent =
        game_end 0 (game_mode s.worldgen_manager) (build_leaderboard sort 0 s.player_records) in
      (
        Follows-Step t (reset_to_lobby clock sort initialize new_tag (last_words s)) (message ∷ [])
            (lobby-sent clock sort initialize new_tag (last_words s)
              ∙ ap (λ xs. xs ++ message ∷ []) l)
            (subst
              (λ b.
                Step b (message ∷ [])
                  (reset_to_lobby clock sort initialize new_tag (last_words s)).running)
              (sym r) (subst (λ b. Step true (message ∷ []) b) (sym lobby.stopped) (ends _ _ _))),
        record { idle = λ e. lobby; armed = lobby.no_timer ∙ sym lobby.stopped },
      )

  -- HandlePlayerDisconnect ends the match, or lets it go on.
  after_leaving-Fine :
      (s t : Server Time)
      → t.running ≡ true
      → s.sent ≡ t.sent
      → s.running ≡ t.running
      → s.timer_armed ≡ t.timer_armed
      → IsServer t
      → Fine clock sort initialize new_tag t (after_leaving clock sort initialize new_tag s)
  unfolding after_leaving
  after_leaving-Fine s t r l q a v =
      elim (Bool-cases
        (authenticated_count s.manager.clients == 0 || not (positive s.alive_players))) [
          | inl nobody ↦ rw nobody (ended-Fine s t r l)
          | inr somebody ↦ rw somebody (
            Follows-same t s l q,
            record { idle = λ e. absurd (let no : ⊥ = cc in no); armed = a ∙ v.armed ∙ sym q },
          )
        ]

  disconnect-idle :
      (player : ℕ) (s : Server Time)
      → s.running ≡ false
      → handle_player_disconnect clock sort initialize new_tag player s ≡ s
  unfolding handle_player_disconnect
  disconnect-idle player s r = ground arith

  disconnect-runs :
      (player : ℕ) (s : Server Time)
      → s.running ≡ true
      → handle_player_disconnect clock sort initialize new_tag player s
        ≡ after_leaving clock sort initialize new_tag (leave clock sort initialize new_tag player s)
  unfolding handle_player_disconnect
  disconnect-runs player s r = ground arith

  pub disconnect-Fine :
      (player : ℕ) (s : Server Time)
      → IsServer s
      → Fine clock sort initialize new_tag s
          (handle_player_disconnect clock sort initialize new_tag player s)
  unfolding leave
  disconnect-Fine player s v = elim (Bool-cases s.running) [
    | inr r ↦
        subst (Fine clock sort initialize new_tag s) (sym (disconnect-idle player s r))
          (Follows-same s s refl refl, v)
    | inl r ↦
        let found = find_player player 0 s.player_tags.cells in
        let kept = leave-keeps clock sort initialize new_tag player found s in
        subst (Fine clock sort initialize new_tag s) (sym (disconnect-runs player s r)) (
          after_leaving-Fine (leave clock sort initialize new_tag player s) s r kept.1 kept.0 kept.2
            v)
  ]
