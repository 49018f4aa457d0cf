-- ===== src/Match/VictoryDelay.antt =====
-- The delay of the victory (server/src/server/Server.cpp), where players leave while it runs.
use r_type_j_a_m_e_s.Base.{ℕ, zero, suc, false, ◌≡◌, refl, ◌∙◌, inl, inr, not, Bool-cases}
use r_type_j_a_m_e_s.Match.Records.{Sort}
use r_type_j_a_m_e_s.Match.State.{PlayerTag, World, Clock, Server, level_won, update_scores}
use r_type_j_a_m_e_s.Match.Play.{
  stop, reset_to_lobby, handle_player_disconnect, start_match, are_all_players_dead, finish,
  check_game_over, check_victory, update,
}
use r_type_j_a_m_e_s.Match.Delays.{
  SameDelays, SameDelays-trans, disconnect-SameDelays, start-SameDelays,
}

module _ (clock : Clock) (sort : Sort) (initialize : World → World) (new_tag : PlayerTag) where
  open clock use {Time, start, add, reached}

  -- The delay of the victory stands in `t` as it did in `s`.
  pub record SameVictory (s t : Server Time) : Type 0 where
    pub pending : t.victory_pending ≡ s.victory_pending
    pub timer : t.victory_timer ≡ s.victory_timer

  abbrev same_victory : (s : Server Time) → SameVictory s s
  same_victory s = record { pending = refl; timer = refl }

  game_over-SameVictory :
      (delta : Time) (s : Server Time)
      → SameVictory s (check_game_over clock sort initialize new_tag delta s)
  unfolding check_game_over finish reset_to_lobby stop
  game_over-SameVictory delta s =
      elim (Bool-cases (not (are_all_players_dead clock sort initialize new_tag s))) [
        | inl alive ↦ rw alive (record { pending = refl; timer = refl })
        | inr dead ↦ elim (Bool-cases s.game_over_pending) [
          | inr first ↦ rw (dead, first) (record { pending = refl; timer = refl })
          | inl waits ↦ elim (Bool-cases (reached (add s.game_over_timer delta))) [
            | inl over ↦ rw (dead, waits, over) (record { pending = refl; timer = refl })
            | inr later ↦ rw (dead, waits, later) (record { pending = refl; timer = refl })
          ]
        ]
      ]

  module _ (systems : Server Time → Server Time) (delta : Time) where
    abbrev pub updates : ℕ → Server Time → Server Time
    updates zero s = s
    updates (suc n) s = updates n (update clock sort initialize new_tag systems delta s)

    update-SameVictory :
        (s : Server Time)
        → SameVictory s (systems s)
        → level_won (systems s).worldgen_manager ≡ false
        → SameVictory s (update clock sort initialize new_tag systems delta s)
    unfolding update check_victory
    update-SameVictory s v unwon =
        let moved = systems s in
        let kept = game_over-SameVictory delta (record moved {
          player_records = update_scores moved.player_tags.cells moved.player_records;
        }) in
        rw unwon (record { pending = kept.pending ∙ v.pending; timer = kept.timer ∙ v.timer })

    updates-SameVictory :
        (n : ℕ) (s : Server Time)
        → ((x : Server Time) → SameVictory x (systems x))
        → ((x : Server Time) → level_won (systems x).worldgen_manager ≡ false)
        → SameVictory s (updates n s)
    updates-SameVictory zero s v unwon = same_victory s
    updates-SameVictory (suc n) s v unwon =
        let here = update-SameVictory s (v s) (unwon s) in
        let later =
          updates-SameVictory n (update clock sort initialize new_tag systems delta s) v unwon in
        record { pending = later.pending ∙ here.pending; timer = later.timer ∙ here.timer }

    -- Where a player leaves, whether that ends the match or not, and a match is started then, the
    -- delays of the victory and of the defeat are what they were before: whether they have begun,
    -- and for how long. That of the victory is so still after any number of updates, with systems
    -- that leave it alone and do not win the level.
    pub start_match-SameDelays :
        (player n : ℕ) (s : Server Time)
        → ((x : Server Time) → SameVictory x (systems x))
        → ((x : Server Time) → level_won (systems x).worldgen_manager ≡ false)
        → SameDelays s (
            start_match clock sort initialize new_tag
              (handle_player_disconnect clock sort initialize new_tag player s))
          × SameVictory s (
              updates n (
                start_match clock sort initialize new_tag
                  (handle_player_disconnect clock sort initialize new_tag player s)))
    start_match-SameDelays player n s v unwon =
        let left = handle_player_disconnect clock sort initialize new_tag player s in
        let begun =
          SameDelays-trans (disconnect-SameDelays clock sort initialize new_tag player s)
            (start-SameDelays clock sort initialize new_tag left) in
        let later =
          updates-SameVictory n (start_match clock sort initialize new_tag left) v unwon in
        (
          begun,
          record {
            pending = later.pending ∙ begun.victory_pending;
            timer = later.timer ∙ begun.victory_timer;
          },
        )
