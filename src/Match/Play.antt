-- ===== src/Match/Play.antt =====
-- The operations of server::Server that begin, run and end a match: server/src/server/Server.cpp
-- and ServerSetupGame.cpp, and the handler of DISCONNECT_REQ of PacketHandler.cpp.
use r_type_j_a_m_e_s.Base.{
  ℕ, ◌+◌, Bool, true, false, not, ◌&&◌, ◌||◌, Option, none, some, [], ◌∷◌, ltb, ◌==◌, if◌then◌else◌,
}
use r_type_j_a_m_e_s.Base.Int.{ℤ, pos, less_than, pred, next}
use r_type_j_a_m_e_s.Engine.SparseArray
use r_type_j_a_m_e_s.Lobby.Connections.{
  ClientConnection, Clients, authenticated_count, all_players_ready, reset_all_ready_states,
  remove_client,
}
use r_type_j_a_m_e_s.Match.Records.{
  PlayerDeathRecord, Records, Sort, determine_winner, build_leaderboard,
}
use r_type_j_a_m_e_s.Match.Records
use r_type_j_a_m_e_s.Match.State.{
  PlayerTag, clear_tags, World, game_end, notify_disconnect, game_start, snapshots, Clock,
  put_record, find_player, died, new_record, update_scores, level_won, game_mode, stop_world,
  Server, send,
}

-- x > 0 for an int.
abbrev pub positive : ℤ → Bool
positive x = less_than (pos 0) x

-- The parameters: the floats, std::sort, the calls of WorldGenManager that begin a level, and the
-- tag that the factory gives a player.
module _ (clock : Clock) (sort : Sort) (initialize : World → World) (new_tag : PlayerTag) where
  open clock use {Time, start, add, reached}

  unfoldable pub stop : Server Time → Server Time
  stop s = record s { running = false; timer_armed = false }

  unfoldable pub are_all_players_dead : Server Time → Bool
  are_all_players_dead s = ltb 0 s.total_players && not (positive s.alive_players)

  unfoldable pub notify_player_death : ℕ → ℤ → Server Time → Server Time
  unfolding pred Records.update
  notify_player_death player final s = record s {
    alive_players = pred s.alive_players;
    death_order_counter = s.death_order_counter + 1;
    player_records =
        Records.update player (died (s.death_order_counter + 1) final) s.player_records;
  }

  -- KillEntity of the entity at an index takes its tag away.
  unfoldable pub kill : ℕ → Server Time → Server Time
  kill index s = record s { player_tags = SparseArray.erase s.player_tags index }

  -- HandlePlayerDisconnect's look at the score, DestroyPlayerEntity, and the death that is noted
  -- where there was an entity.
  unfoldable pub leave_found : ℕ → Option (ℕ × PlayerTag) → Server Time → Server Time
  unfolding notify_player_death kill
  leave_found player none s = s
  leave_found player (some (index, tag)) s =
      if positive s.alive_players
      then notify_player_death player tag.score (kill index s)
      else kill index s

  unfoldable pub leave : ℕ → Server Time → Server Time
  unfolding leave_found find_player
  leave player s = leave_found player (find_player player 0 s.player_tags.cells) s

  unfoldable pub reset_to_lobby : Server Time → Server Time
  unfolding stop stop_world
  reset_to_lobby s = record (stop s) {
    player_tags = clear_tags s.player_tags;
    worldgen_manager = stop_world s.worldgen_manager;
    worldgen_system = false;
    player_records = [];
    death_order_counter = 0;
    manager = reset_all_ready_states s.manager;
  }

  -- HandlePlayerDisconnect's end: all players have left or died.
  unfoldable pub after_leaving : Server Time → Server Time
  unfolding build_leaderboard game_mode reset_to_lobby
  after_leaving s =
      if authenticated_count s.manager.clients == 0 || not (positive s.alive_players)
      then reset_to_lobby (
          send
            (game_end 0 (game_mode s.worldgen_manager) (build_leaderboard sort 0 s.player_records))
            s)
      else s

  unfoldable pub handle_player_disconnect : ℕ → Server Time → Server Time
  unfolding leave after_leaving
  handle_player_disconnect player s = if not s.running then s else after_leaving (leave player s)

  -- One turn of the loop over the clients in SetupEntitiesGame; `index` is that of the next entity.
  unfoldable pub spawn_player : ClientConnection → ℕ × Server Time → ℕ × Server Time
  unfolding put_record next
  spawn_player c (index, s) = if c.player_id == 0 then (index, s) else (
    index + 1,
    record s {
      player_tags =
          SparseArray.insert_at s.player_tags index
            (record new_tag { player_number = c.player_id });
      player_records = put_record c.player_id (new_record c) s.player_records;
      total_players = s.total_players + 1;
      alive_players = next s.alive_players;
    },
  )

  unfoldable pub spawn_players : Clients → ℕ × Server Time → ℕ × Server Time
  unfolding spawn_player
  spawn_players [] state = state
  spawn_players ((k, c) ∷ rest) state = spawn_players rest (spawn_player c state)

  -- The end of SetupEntitiesGame: the level is begun, but where the system is there already, or the
  -- manager is active.
  unfoldable pub begin_level : Server Time → Option World → Server Time
  begin_level s none = s
  begin_level s (some w) = if s.worldgen_system then s else record s {
    worldgen_manager = some (record (if w.active then w else initialize w) { callback = true });
    worldgen_system = true;
  }

  unfoldable pub setup_entities_game : Server Time → Server Time
  unfolding spawn_players begin_level
  setup_entities_game s =
      let spawned =
        (spawn_players s.manager.clients (
          0,
          record s {
            total_players = 0;
            alive_players = pos 0;
            player_records = [];
            death_order_counter = 0;
          },
        )).1 in
      begin_level spawned spawned.worldgen_manager

  unfoldable pub setup_game_tick : Server Time → Server Time
  setup_game_tick s = if s.running then record s { timer_armed = true } else s

  -- Start.
  unfoldable pub start_match : Server Time → Server Time
  unfolding setup_entities_game setup_game_tick
  start_match s =
      if s.running
      then s
      else setup_game_tick (
          setup_entities_game (record s { running = true; player_tags = clear_tags s.player_tags }))

  -- The end of a match in Update.
  unfoldable pub finish : Bool → Server Time → Server Time
  unfolding determine_winner build_leaderboard game_mode reset_to_lobby
  finish is_victory s =
      let winner = determine_winner is_victory s.player_records in
      reset_to_lobby (
        send
          (game_end winner (game_mode s.worldgen_manager)
            (build_leaderboard sort winner s.player_records))
          s)

  -- Update behind the test of the victory.
  unfoldable pub check_game_over : Time → Server Time → Server Time
  unfolding are_all_players_dead finish
  check_game_over delta s =
      let timer = add s.game_over_timer delta in
      if not (are_all_players_dead s)
      then send snapshots (record s { game_over_pending = false; game_over_timer = start })
      else if not s.game_over_pending
      then send snapshots (record s { game_over_pending = true; game_over_timer = start })
      else if reached timer
      then record (finish false (record s { game_over_timer = timer })) {
        game_over_pending = false;
        game_over_timer = start;
      }
      else send snapshots (record s { game_over_timer = timer })

  -- Update behind the copy of the scores.
  unfoldable pub check_victory : Time → Server Time → Server Time
  unfolding level_won check_game_over finish
  check_victory delta s =
      let timer = add s.victory_timer delta in
      if not (level_won s.worldgen_manager)
      then check_game_over delta s
      else if not s.victory_pending
      then check_game_over delta (record s { victory_pending = true; victory_timer = start })
      else if reached timer
      then record (finish true (record s { victory_timer = timer })) {
        victory_pending = false;
        victory_timer = start;
      }
      else check_game_over delta (record s { victory_timer = timer })

  -- Update. `systems` is what the systems of the registry and the world generation do; `delta` is
  -- g_frame_delta_ms / 1000.0f.
  unfoldable pub update : (Server Time → Server Time) → Time → Server Time → Server Time
  unfolding update_scores check_victory
  update systems delta s =
      let moved = systems s in
      check_victory delta (record moved {
        player_records = update_scores moved.player_tags.cells moved.player_records;
      })

  -- The handler of the tick timer, called without an error.
  unfoldable pub tick : (Server Time → Server Time) → Time → Server Time → Server Time
  unfolding update setup_game_tick
  tick systems delta s =
      let fired = record s { timer_armed = false } in
      if s.running then setup_game_tick (update systems delta fired) else fired

  -- PacketHandler::TryStartGameAfterDisconnect.
  unfoldable pub try_start_game : Server Time → Server Time
  unfolding start_match
  try_start_game s =
      if s.running
      then s
      else if ltb 0 (authenticated_count s.manager.clients) && all_players_ready s.manager.clients
      then send game_start (start_match s)
      else s

  -- HandleDisconnectReq, and the same steps where the receive loop finds a socket closed. The test
  -- of IsGameRunning is that of HandlePlayerDisconnect.
  unfoldable pub say_left : ClientConnection → Server Time → Server Time
  unfolding handle_player_disconnect
  say_left c s =
      if c.player_id == 0
      then s
      else handle_player_disconnect c.player_id (send (notify_disconnect c.player_id) s)

  unfoldable pub handle_disconnect_req : ClientConnection → Server Time → Server Time
  unfolding say_left try_start_game
  handle_disconnect_req c s =
      let told = say_left c s in
      try_start_game (record told { manager = remove_client c.client_id told.manager })
