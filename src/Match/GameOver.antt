-- ===== src/Match/GameOver.antt =====
-- When all players are dead, the match ends.
use r_type_j_a_m_e_s.Base.{
  ℕ, zero, suc, ◌≤◌, ◌<◌, ◌≡◌, refl, sym, ap, subst, ◌∙◌, Bool, true, false, arith,
}
use r_type_j_a_m_e_s.Match.Records.{Sort}
use r_type_j_a_m_e_s.Match.State.{
  PlayerTag, World, snapshots, Clock, Server, send, level_won, update_scores,
}
use r_type_j_a_m_e_s.Match.Play.{
  are_all_players_dead, finish, reset_to_lobby, check_game_over, check_victory, update, tick,
  setup_game_tick,
}
use r_type_j_a_m_e_s.Match.Turns.{InLobby, All-cleared}
use r_type_j_a_m_e_s.Match.Phases.{tick-runs, setup-runs, setup-stopped}

module _ (clock : Clock) (sort : Sort) (initialize : World → World) (new_tag : PlayerTag) where
  open clock use {Time, start, add, reached}

  module _ (systems : Server Time → Server Time) (delta : Time) where
    -- A match that is lost: whether the delay has begun, and how long it lasts.
    pub record Lost (s : Server Time) (pending : Bool) (timer : Time) : Type 0 where
      pub runs : s.running ≡ true
      pub dead : are_all_players_dead clock sort initialize new_tag s ≡ true
      pub unwon : level_won s.worldgen_manager ≡ false
      pub delay : s.game_over_pending ≡ pending
      pub since : s.game_over_timer ≡ timer

    abbrev pub ticks : ℕ → Server Time → Server Time
    ticks zero s = s
    ticks (suc n) s = ticks n (tick clock sort initialize new_tag systems delta s)

    -- The delay after `n` more ticks.
    abbrev pub elapsed : ℕ → Time → Time
    elapsed zero t = t
    elapsed (suc n) t = elapsed n (add t delta)

    -- The state that Update's tests see.
    abbrev seen : Server Time → Server Time
    seen s = record s {
      timer_armed = false;
      player_records = update_scores s.player_tags.cells s.player_records;
    }

    module _ (still : (s : Server Time) → systems s ≡ s) (s : Server Time) where
      update-seen :
          level_won s.worldgen_manager ≡ false
          → update clock sort initialize new_tag systems delta (record s { timer_armed = false })
            ≡ check_game_over clock sort initialize new_tag delta (seen s)
      unfolding update check_victory
      update-seen unwon =
          ap
            (λ moved. check_victory clock sort initialize new_tag delta (record moved {
              player_records = update_scores moved.player_tags.cells moved.player_records;
            }))
            (still (record s { timer_armed = false }))
          ∙ rw unwon refl

      first :
          (t : Time)
          → Lost s false t
          → check_game_over clock sort initialize new_tag delta (seen s)
            ≡ send snapshots (record (seen s) { game_over_pending = true; game_over_timer = start })
      unfolding check_game_over are_all_players_dead
      first t l = let d = l.dead in let p = l.delay in ground arith

      waits :
          (t : Time)
          → Lost s true t
          → reached (add s.game_over_timer delta) ≡ false
          → check_game_over clock sort initialize new_tag delta (seen s)
            ≡ send snapshots (record (seen s) { game_over_timer = add s.game_over_timer delta })
      unfolding check_game_over are_all_players_dead
      waits t l r = let d = l.dead in let p = l.delay in ground arith

      over :
          (t : Time)
          → Lost s true t
          → reached (add s.game_over_timer delta) ≡ true
          → check_game_over clock sort initialize new_tag delta (seen s)
            ≡ record (finish clock sort initialize new_tag false
                (record (seen s) { game_over_timer = add s.game_over_timer delta })) {
                  game_over_pending = false;
                  game_over_timer = start;
                }
      unfolding check_game_over are_all_players_dead
      over t l r = let d = l.dead in let p = l.delay in ground arith

      tick-seen :
          (x : Server Time)
          → s.running ≡ true
          → level_won s.worldgen_manager ≡ false
          → check_game_over clock sort initialize new_tag delta (seen s) ≡ x
          → tick clock sort initialize new_tag systems delta s
            ≡ setup_game_tick clock sort initialize new_tag x
      tick-seen x r unwon e =
          tick-runs clock sort initialize new_tag systems delta s r
          ∙ ap (setup_game_tick clock sort initialize new_tag) (update-seen unwon ∙ e)

      tick-first :
          (t : Time)
          → Lost s false t
          → Lost (tick clock sort initialize new_tag systems delta s) true start
      unfolding are_all_players_dead
      tick-first t l =
          subst (λ x. Lost x true start)
            (sym (
              tick-seen _ l.runs l.unwon (first t l)
              ∙ setup-runs clock sort initialize new_tag _ l.runs))
            (record { runs = l.runs; dead = l.dead; unwon = l.unwon; delay = refl; since = refl })

      tick-waits :
          (t : Time)
          → Lost s true t
          → reached (add s.game_over_timer delta) ≡ false
          → Lost
              (tick clock sort initialize new_tag systems delta s)
              true
              (add s.game_over_timer delta)
      unfolding are_all_players_dead
      tick-waits t l r =
          subst (λ x. Lost x true (add s.game_over_timer delta))
            (sym (
              tick-seen _ l.runs l.unwon (waits t l r)
              ∙ setup-runs clock sort initialize new_tag _ l.runs))
            (record {
              runs = l.runs;
              dead = l.dead;
              unwon = l.unwon;
              delay = l.delay;
              since = refl;
            })

      tick-over :
          (t : Time)
          → Lost s true t
          → reached (add s.game_over_timer delta) ≡ true
          → InLobby (tick clock sort initialize new_tag systems delta s)
      unfolding finish reset_to_lobby
      tick-over t l r =
          subst InLobby
            (sym (
              tick-seen _ l.runs l.unwon (over t l r)
              ∙ setup-stopped clock sort initialize new_tag _ refl))
            (record {
              stopped = refl;
              no_timer = refl;
              no_records = refl;
              no_deaths = refl;
              no_system = refl;
              no_players = All-cleared s.player_tags;
            })

    tick-pending :
        (still : (s : Server Time) → systems s ≡ s) (s : Server Time) (t : Time)
        → Lost s true t
        → reached (add t delta) ≡ false
        → Lost (tick clock sort initialize new_tag systems delta s) true (add t delta)
    tick-pending still s t l later =
        subst (λ x. Lost (tick clock sort initialize new_tag systems delta s) true (add x delta))
          l.since (tick-waits still s t l (ap (λ x. reached (add x delta)) l.since ∙ later))

    waits_end :
        (still : (s : Server Time) → systems s ≡ s) (n : ℕ) (s : Server Time) (t : Time)
        → Lost s true t
        → ((j : ℕ) → j < n → reached (elapsed (suc j) t) ≡ false)
        → reached (elapsed (suc n) t) ≡ true
        → (k : ℕ) → k ≤ n
        → ((ticks k s).running ≡ true) × InLobby (ticks (suc n) s)
    waits_end still zero s t l f r zero h =
        (l.runs, tick-over still s t l (ap (λ x. reached (add x delta)) l.since ∙ r))
    waits_end still zero s t l f r (suc k) h = absurd (omega arith)
    waits_end still (suc n) s t l f r zero h =
        let rest =
          waits_end still n (tick clock sort initialize new_tag systems delta s) (add t delta)
            (tick-pending still s t l (f 0 (omega arith))) (λ j m. f (suc j) (omega (arith, m))) r 0
            (omega arith) in
        (l.runs, rest.1)
    waits_end still (suc n) s t l f r (suc k) h =
        waits_end still n (tick clock sort initialize new_tag systems delta s) (add t delta)
          (tick-pending still s t l (f 0 (omega arith))) (λ j m. f (suc j) (omega (arith, m))) r k
          (omega (arith, h))

    -- Once all players of a match are dead, and it is not won, and the systems change nothing more:
    -- if the delay of the game over, which begins with the first tick, is reached `n + 1` ticks
    -- later and not before, the match runs up to that tick, and with it, the tick `n + 2`, the
    -- server is back in the lobby.
    pub ticks-InLobby :
        (n k : ℕ) (s : Server Time) (t : Time)
        → ((s : Server Time) → systems s ≡ s)
        → Lost s false t
        → ((j : ℕ) → j < n → reached (elapsed (suc j) start) ≡ false)
        → reached (elapsed (suc n) start) ≡ true
        → k ≤ suc n
        → ((ticks k s).running ≡ true) × InLobby (ticks (suc (suc n)) s)
    ticks-InLobby n zero s t still l f r h =
        let rest =
          waits_end still n (tick clock sort initialize new_tag systems delta s) start
            (tick-first still s t l) f r 0 (omega arith) in
        (l.runs, rest.1)
    ticks-InLobby n (suc k) s t still l f r h =
        waits_end still n (tick clock sort initialize new_tag systems delta s) start
          (tick-first still s t l) f r k (omega (arith, h))
