-- ===== src/Match/Turns.antt =====
-- What one turn of the game loop can do, and what a leaving player can: the match goes on, or it
-- ends and the server stands in the lobby.
use r_type_j_a_m_e_s.Base.{
  ℕ, ◌≡◌, refl, sym, ap, subst, ◌∙◌, inl, inr, true, false, Option, none, some, List, [], ◌∷◌, ◌++◌,
  Bool-cases, arith, All,
}
use r_type_j_a_m_e_s.Wire.Packets.Score.{PlayerScoreData}
use r_type_j_a_m_e_s.Engine.SparseArray.{SparseArray}
use r_type_j_a_m_e_s.Match.Records.{Sort}
use r_type_j_a_m_e_s.Match.State.{
  PlayerTag, clear_tags, World, Sent, game_end, snapshots, Clock, Server, level_won, update_scores,
}
use r_type_j_a_m_e_s.Match.Play.{
  stop, are_all_players_dead, notify_player_death, kill, leave_found, reset_to_lobby, finish,
  check_game_over, check_victory, update, positive,
}

-- A server without a match: nothing of the last one is left.
pub record InLobby {T : Type 0} (s : Server T) : Type 0 where
  pub stopped : s.running ≡ false
  pub no_timer : s.timer_armed ≡ false
  pub no_records : s.player_records ≡ []
  pub no_deaths : s.death_order_counter ≡ 0
  pub no_system : s.worldgen_system ≡ false
  pub no_players : All (λ cell. cell ≡ none) s.player_tags.cells

none_left :
    (cells : List (Option PlayerTag))
    → All (λ cell. cell ≡ none) (clear_tags (record { cells = cells })).cells
none_left [] = tt
none_left (cell ∷ cells) = (refl, none_left cells)

pub All-cleared : (tags : SparseArray PlayerTag) → All (λ cell. cell ≡ none) (clear_tags tags).cells
All-cleared tags = none_left tags.cells

-- The match goes on with one more message, or ends with the message of its end.
pub data Turn {T : Type 0} (s : Server T) (goes_on : Sent) (t : Server T) : Type 0 where
  went_on : t.running ≡ s.running → t.sent ≡ s.sent ++ goes_on ∷ [] → Turn s goes_on t
  ended :
      (winner mode : ℕ) (leaderboard : List PlayerScoreData)
      → t.sent ≡ s.sent ++ game_end winner mode leaderboard ∷ []
      → InLobby t
      → Turn s goes_on t

-- A turn that starts from another state with the same flag and log.
pub Turn-from :
    {T : Type 0} (s s' : Server T) (m : Sent) (t : Server T)
    → s'.running ≡ s.running
    → s'.sent ≡ s.sent
    → Turn s' m t
    → Turn s m t
Turn-from s s' m t r l (went_on running sent) =
    went_on (running ∙ r) (sent ∙ ap (λ xs. xs ++ m ∷ []) l)
Turn-from s s' m t r l (ended winner mode leaderboard sent lobby) =
    ended winner mode leaderboard (sent ∙ ap (λ xs. xs ++ game_end winner mode leaderboard ∷ []) l)
      lobby

module _ (clock : Clock) (sort : Sort) (initialize : World → World) (new_tag : PlayerTag) where
  open clock use {Time, start, add, reached}

  pub lobby-sent :
      (s : Server Time) → (reset_to_lobby clock sort initialize new_tag s).sent ≡ s.sent
  unfolding reset_to_lobby stop
  lobby-sent s = refl

  pub in_lobby : (s : Server Time) → InLobby (reset_to_lobby clock sort initialize new_tag s)
  unfolding reset_to_lobby stop
  in_lobby s = record {
    stopped = refl;
    no_timer = refl;
    no_records = refl;
    no_deaths = refl;
    no_system = refl;
    no_players = All-cleared s.player_tags;
  }

  pub check_game_over-Turn :
      (delta : Time) (s : Server Time)
      → Turn s snapshots (check_game_over clock sort initialize new_tag delta s)
  unfolding check_game_over finish reset_to_lobby stop
  check_game_over-Turn delta s =
      elim (Bool-cases (are_all_players_dead clock sort initialize new_tag s)) [
        | inr alive ↦ rw alive (went_on refl refl)
        | inl dead ↦ elim (Bool-cases s.game_over_pending) [
          | inr first ↦ rw (dead, first) (went_on refl refl)
          | inl pending ↦ elim (Bool-cases (reached (add s.game_over_timer delta))) [
            | inr waits ↦ rw (dead, pending, waits) (went_on refl refl)
            | inl over ↦
                rw (dead, pending, over)
                  (ended _ _ _ refl (record {
                    stopped = refl;
                    no_timer = refl;
                    no_records = refl;
                    no_deaths = refl;
                    no_system = refl;
                    no_players = All-cleared s.player_tags;
                  }))
          ]
        ]
      ]

  module _ (delta : Time) (s : Server Time) (won : level_won s.worldgen_manager ≡ true) where
    victory-first :
        s.victory_pending ≡ false
        → check_victory clock sort initialize new_tag delta s
          ≡ check_game_over clock sort initialize new_tag delta
              (record s { victory_pending = true; victory_timer = start })
    unfolding check_victory
    victory-first first = ground arith

    victory-waits :
        s.victory_pending ≡ true
        → reached (add s.victory_timer delta) ≡ false
        → check_victory clock sort initialize new_tag delta s
          ≡ check_game_over clock sort initialize new_tag delta
              (record s { victory_timer = add s.victory_timer delta })
    unfolding check_victory
    victory-waits pending waits = ground arith

    victory-over :
        s.victory_pending ≡ true
        → reached (add s.victory_timer delta) ≡ true
        → check_victory clock sort initialize new_tag delta s
          ≡ record (finish clock sort initialize new_tag true
              (record s { victory_timer = add s.victory_timer delta })) {
                victory_pending = false;
                victory_timer = start;
              }
    unfolding check_victory
    victory-over pending over = ground arith

  pub check_victory-Turn :
      (delta : Time) (s : Server Time)
      → Turn s snapshots (check_victory clock sort initialize new_tag delta s)
  unfolding check_victory finish reset_to_lobby stop
  check_victory-Turn delta s = elim (Bool-cases (level_won s.worldgen_manager)) [
    | inr none_yet ↦ rw none_yet (check_game_over-Turn delta s)
    | inl won ↦ elim (Bool-cases s.victory_pending) [
      | inr first ↦ subst (Turn s snapshots) (sym (victory-first delta s won first)) (
          Turn-from s (record s { victory_pending = true; victory_timer = start }) snapshots _ refl
            refl (check_game_over-Turn delta _))
      | inl pending ↦ elim (Bool-cases (reached (add s.victory_timer delta))) [
        | inr waits ↦ subst (Turn s snapshots) (sym (victory-waits delta s won pending waits)) (
            Turn-from s (record s { victory_timer = add s.victory_timer delta }) snapshots _ refl
              refl (check_game_over-Turn delta _))
        | inl over ↦ subst (Turn s snapshots) (sym (victory-over delta s won pending over)) (
            ended _ _ _ refl (record {
              stopped = refl;
              no_timer = refl;
              no_records = refl;
              no_deaths = refl;
              no_system = refl;
              no_players = All-cleared s.player_tags;
            }))
      ]
    ]
  ]

  -- What is asked of the systems: they leave the flag, the timer and the log of the messages alone.
  pub record IsSystems (systems : Server Time → Server Time) : Type 0 where
    pub keeps_running : (s : Server Time) → (systems s).running ≡ s.running
    pub keeps_sent : (s : Server Time) → (systems s).sent ≡ s.sent

  pub update-Turn :
      (systems : Server Time → Server Time) (delta : Time) (s : Server Time)
      → IsSystems systems
      → Turn s snapshots (update clock sort initialize new_tag systems delta s)
  unfolding update
  update-Turn systems delta s quiet =
      Turn-from s
        (record (systems s) {
          player_records = update_scores (systems s).player_tags.cells (systems s).player_records;
        })
        snapshots _ (quiet.keeps_running s) (quiet.keeps_sent s) (check_victory-Turn delta _)

  pub leave-keeps :
      (player : ℕ) (found : Option (ℕ × PlayerTag)) (s : Server Time)
      → ((leave_found clock sort initialize new_tag player found s).running ≡ s.running)
        × ((leave_found clock sort initialize new_tag player found s).sent ≡ s.sent)
        × ((leave_found clock sort initialize new_tag player found s).timer_armed ≡ s.timer_armed)
        × ((leave_found clock sort initialize new_tag player found s).manager ≡ s.manager)
  unfolding leave_found notify_player_death kill
  leave-keeps player none s = (refl, refl, refl, refl)
  leave-keeps player (some (index, tag)) s = elim (Bool-cases (positive s.alive_players)) [
    | inl some_left ↦ rw some_left (refl, refl, refl, refl)
    | inr none_left ↦ rw none_left (refl, refl, refl, refl)
  ]
