-- ===== src/Match/Delays.antt =====
-- The delays of the victory and of the defeat, where players leave in one of them.
use r_type_j_a_m_e_s.Base.{
  ℕ, ◌≡◌, refl, subst, ◌∙◌, inl, inr, true, not, ◌||◌, Option, none, some, [], ◌∷◌, Bool-cases,
  arith, ◌==◌,
}
use r_type_j_a_m_e_s.Lobby.Connections.{ClientConnection, Clients, authenticated_count}
use r_type_j_a_m_e_s.Match.Records.{Sort}
use r_type_j_a_m_e_s.Match.State.{PlayerTag, clear_tags, World, Clock, Server, find_player}
use r_type_j_a_m_e_s.Match.Play.{
  stop, notify_player_death, kill, leave_found, leave, reset_to_lobby, after_leaving,
  handle_player_disconnect, spawn_player, spawn_players, begin_level, setup_entities_game,
  setup_game_tick, start_match, positive,
}

-- The delays stand in `t` as they did in `s`.
pub record SameDelays {T : Type 0} (s t : Server T) : Type 0 where
  pub victory_pending : t.victory_pending ≡ s.victory_pending
  pub victory_timer : t.victory_timer ≡ s.victory_timer
  pub game_over_pending : t.game_over_pending ≡ s.game_over_pending
  pub game_over_timer : t.game_over_timer ≡ s.game_over_timer

abbrev same : {T : Type 0} (s : Server T) → SameDelays s s
same s = record {
  victory_pending = refl;
  victory_timer = refl;
  game_over_pending = refl;
  game_over_timer = refl;
}

pub SameDelays-trans :
    {T : Type 0} {s t u : Server T} → SameDelays s t → SameDelays t u → SameDelays s u
SameDelays-trans p q = record {
  victory_pending = q.victory_pending ∙ p.victory_pending;
  victory_timer = q.victory_timer ∙ p.victory_timer;
  game_over_pending = q.game_over_pending ∙ p.game_over_pending;
  game_over_timer = q.game_over_timer ∙ p.game_over_timer;
}

module _ (clock : Clock) (sort : Sort) (initialize : World → World) (new_tag : PlayerTag) where
  open clock use {Time, start, add, reached}

  leave-SameDelays :
      (player : ℕ) (found : Option (ℕ × PlayerTag)) (s : Server Time)
      → SameDelays s (leave_found clock sort initialize new_tag player found s)
  unfolding leave_found notify_player_death kill
  leave-SameDelays player none s = same s
  leave-SameDelays player (some (index, tag)) s = elim (Bool-cases (positive s.alive_players)) [
    | inl some_left ↦ rw some_left (record {
      victory_pending = refl;
      victory_timer = refl;
      game_over_pending = refl;
      game_over_timer = refl;
    })
    | inr none_left ↦ rw none_left (record {
      victory_pending = refl;
      victory_timer = refl;
      game_over_pending = refl;
      game_over_timer = refl;
    })
  ]

  after_leaving-SameDelays :
      (s : Server Time) → SameDelays s (after_leaving clock sort initialize new_tag s)
  unfolding after_leaving reset_to_lobby stop
  after_leaving-SameDelays s =
      elim (Bool-cases
        (authenticated_count s.manager.clients == 0 || not (positive s.alive_players))) [
          | inl nobody ↦ rw nobody (record {
            victory_pending = refl;
            victory_timer = refl;
            game_over_pending = refl;
            game_over_timer = refl;
          })
          | inr somebody ↦ rw somebody (same s)
        ]

  pub disconnect-SameDelays :
      (player : ℕ) (s : Server Time)
      → SameDelays s (handle_player_disconnect clock sort initialize new_tag player s)
  unfolding handle_player_disconnect leave
  disconnect-SameDelays player s = elim (Bool-cases s.running) [
    | inr idle ↦
        subst (SameDelays s)
          (let e : s ≡ handle_player_disconnect clock sort initialize new_tag player s =
              ground arith in
            e)
          (same s)
    | inl runs ↦
        subst (SameDelays s)
          (let e : after_leaving clock sort initialize new_tag
                  (leave clock sort initialize new_tag player s)
                ≡ handle_player_disconnect clock sort initialize new_tag player s =
              ground arith in
            e)
          (SameDelays-trans (leave-SameDelays player (find_player player 0 s.player_tags.cells) s)
            (after_leaving-SameDelays (leave clock sort initialize new_tag player s)))
  ]

  spawn_player-SameDelays :
      (c : ClientConnection) (state : ℕ × Server Time)
      → SameDelays state.1 (spawn_player clock sort initialize new_tag c state).1
  unfolding spawn_player
  spawn_player-SameDelays c (index, s) = elim (Bool-cases (c.player_id == 0)) [
    | inl unknown ↦ rw unknown (same s)
    | inr player ↦ rw player (record {
      victory_pending = refl;
      victory_timer = refl;
      game_over_pending = refl;
      game_over_timer = refl;
    })
  ]

  spawn-SameDelays :
      (l : Clients) (state : ℕ × Server Time)
      → SameDelays state.1 (spawn_players clock sort initialize new_tag l state).1
  unfolding spawn_players
  spawn-SameDelays [] state = same state.1
  spawn-SameDelays ((k, c) ∷ rest) state =
      SameDelays-trans (spawn_player-SameDelays c state)
        (spawn-SameDelays rest (spawn_player clock sort initialize new_tag c state))

  level-SameDelays :
      (s : Server Time) (world : Option World)
      → SameDelays s (begin_level clock sort initialize new_tag s world)
  unfolding begin_level
  level-SameDelays s none = same s
  level-SameDelays s (some w) = elim (Bool-cases s.worldgen_system) [
    | inl there ↦ rw there (record {
      victory_pending = refl;
      victory_timer = refl;
      game_over_pending = refl;
      game_over_timer = refl;
    })
    | inr new ↦ rw new (record {
      victory_pending = refl;
      victory_timer = refl;
      game_over_pending = refl;
      game_over_timer = refl;
    })
  ]

  setup-SameDelays :
      (s : Server Time) → SameDelays s (setup_game_tick clock sort initialize new_tag s)
  unfolding setup_game_tick
  setup-SameDelays s = elim (Bool-cases s.running) [
    | inl runs ↦ record {
      victory_pending = ground arith;
      victory_timer = ground arith;
      game_over_pending = ground arith;
      game_over_timer = ground arith;
    }
    | inr idle ↦ record {
      victory_pending = ground arith;
      victory_timer = ground arith;
      game_over_pending = ground arith;
      game_over_timer = ground arith;
    }
  ]

  entities-SameDelays :
      (s : Server Time) → SameDelays s (setup_entities_game clock sort initialize new_tag s)
  unfolding setup_entities_game
  entities-SameDelays s =
      let spawned = spawn-SameDelays s.manager.clients _ in
      let begun = level-SameDelays _ _ in
      record {
        victory_pending = begun.victory_pending ∙ spawned.victory_pending;
        victory_timer = begun.victory_timer ∙ spawned.victory_timer;
        game_over_pending = begun.game_over_pending ∙ spawned.game_over_pending;
        game_over_timer = begun.game_over_timer ∙ spawned.game_over_timer;
      }

  pub start-SameDelays :
      (s : Server Time) → SameDelays s (start_match clock sort initialize new_tag s)
  unfolding start_match
  start-SameDelays s = elim (Bool-cases s.running) [
    | inl runs ↦
        subst (SameDelays s)
          (let e : s ≡ start_match clock sort initialize new_tag s = ground arith in e) (same s)
    | inr idle ↦
        let begun : Server Time = record s {
          running = true;
          player_tags = clear_tags s.player_tags;
        } in
        let set_up = entities-SameDelays begun in
        let all =
          SameDelays-trans set_up
            (setup-SameDelays (setup_entities_game clock sort initialize new_tag begun)) in
        subst (SameDelays s)
          (let e : setup_game_tick clock sort initialize new_tag
                  (setup_entities_game clock sort initialize new_tag begun)
                ≡ start_match clock sort initialize new_tag s =
              ground arith in
            e)
          (record {
            victory_pending = all.victory_pending;
            victory_timer = all.victory_timer;
            game_over_pending = all.game_over_pending;
            game_over_timer = all.game_over_timer;
          })
  ]
