-- ===== src/Tests/Match.antt =====
-- A match of two players.
use r_type_j_a_m_e_s.Base.{
  ℕ, zero, suc, ◌+◌, ◌<◌, ◌≡◌, refl, inl, inr, true, false, leb, List, [], ◌∷◌, none, map, arith,
  In,
}
use r_type_j_a_m_e_s.Base.Int.{pos, negsuc}
use mathlib.Core.List.{Perm}
use r_type_j_a_m_e_s.Lobby.Connections.{ClientConnection, Manager}
use r_type_j_a_m_e_s.Match.Records.{
  PlayerDeathRecord, Records, entry_of, ranks_before, determine_winner, build_leaderboard,
}
use r_type_j_a_m_e_s.Match.Winner.{Wins, determine_winner-Wins}
use r_type_j_a_m_e_s.Match.Ranking.{build_leaderboard-first}
use r_type_j_a_m_e_s.Match.Leaderboard.{standing, Ranked, build_leaderboard-Ranked}
use r_type_j_a_m_e_s.Match.State.{PlayerTag, World, Clock, Server, level_won}
use r_type_j_a_m_e_s.Match.Play.{start_match, handle_player_disconnect, are_all_players_dead}
use r_type_j_a_m_e_s.Match.Turns.{IsSystems, InLobby}
use r_type_j_a_m_e_s.Match.Phases.{IsServer, Follows}
use r_type_j_a_m_e_s.Match.Histories.{
  Event, ticked, departed, all_ready, react_all, react_all-Follows, react_all-IsServer,
}
use r_type_j_a_m_e_s.Match.GameOver.{Lost, elapsed, ticks, ticks-InLobby}
use r_type_j_a_m_e_s.Match.Delays.{SameDelays}
use r_type_j_a_m_e_s.Match.VictoryDelay.{SameVictory, updates, start_match-SameDelays}
use r_type_j_a_m_e_s.Tests.Sorting.{insertion_sort, insertion_sort-IsSort}

abbrev first_player : ℕ × PlayerDeathRecord
first_player = (
  3,
  record { player_id = 3; username = 65 ∷ []; score = pos 50; death_order = 1; is_alive = false },
)

abbrev second_player : ℕ × PlayerDeathRecord
second_player = (
  8,
  record { player_id = 8; username = 66 ∷ []; score = negsuc 9; death_order = 0; is_alive = true },
)

abbrev two : Records
two = first_player ∷ second_player ∷ []

determine_winner-Wins_example :
    (e : ℕ × PlayerDeathRecord) × In e two × (determine_winner true two ≡ e.0) × Wins true two e
determine_winner-Wins_example =
    determine_winner-Wins true first_player (second_player ∷ []) (omega arith, (omega arith, tt))

build_leaderboard-Ranked_example :
    Perm (build_leaderboard insertion_sort 8 two) (map (standing 8) two)
    × Ranked (build_leaderboard insertion_sort 8 two)
build_leaderboard-Ranked_example =
    build_leaderboard-Ranked insertion_sort 8 two insertion_sort-IsSort

leaderboard_of_two :
    build_leaderboard insertion_sort 8 two ≡ entry_of 8 second_player ∷ entry_of 8 first_player ∷ []
unfolding build_leaderboard insertion_sort ranks_before entry_of
leaderboard_of_two = refl

build_leaderboard-first_example : (entry_of 8 second_player).player_id ≡ 8
build_leaderboard-first_example =
    build_leaderboard-first insertion_sort 8 two second_player.1 (entry_of 8 second_player)
      (entry_of 8 first_player ∷ []) insertion_sort-IsSort (inr (inl refl)) leaderboard_of_two

-- Time in milliseconds.
abbrev milliseconds : Clock
milliseconds = record { Time = ℕ; start = 0; add = λ t d. t + d; reached = λ t. leb 3000 t }

abbrev same_world : World → World
same_world w = w

abbrev tag : PlayerTag
tag = record { player_number = 0; score = pos 0 }

abbrev connection : ℕ → ClientConnection
connection n = record {
  client_id = n;
  player_id = n;
  tcp_socket = n;
  udp_endpoint = record { address = n; port = 50000 };
  last_activity = 0;
  username = 65 ∷ n ∷ [];
  ready = true;
}

abbrev lobby : Manager
lobby = record {
  clients = (3, connection 3) ∷ (8, connection 8) ∷ [];
  next_client_id = 9;
  next_player_id = 9;
  max_clients = 4;
  server_udp_port = 50000;
}

abbrev idle_server : Server ℕ
idle_server = record {
  running = false;
  manager = lobby;
  player_tags = record { cells = [] };
  total_players = 0;
  alive_players = pos 0;
  player_records = [];
  death_order_counter = 0;
  victory_pending = false;
  victory_timer = 0;
  game_over_pending = false;
  game_over_timer = 0;
  worldgen_manager = none;
  worldgen_system = false;
  timer_armed = false;
  sent = [];
}

idle_server-IsServer : IsServer idle_server
idle_server-IsServer = record {
  idle = λ e. record {
    stopped = refl;
    no_timer = refl;
    no_records = refl;
    no_deaths = refl;
    no_system = refl;
    no_players = tt;
  };
  armed = refl;
}

abbrev still : Server ℕ → Server ℕ
still s = s

abbrev still-IsSystems : IsSystems milliseconds insertion_sort same_world tag still
still-IsSystems = record { keeps_running = λ s. refl; keeps_sent = λ s. refl }

abbrev history : List (Event milliseconds insertion_sort same_world tag)
history =
    all_ready
    ∷ ticked still still-IsSystems 16
    ∷ departed (connection 3)
    ∷ departed (connection 8)
    ∷ []

react_all-Follows_example :
    Follows idle_server (react_all milliseconds insertion_sort same_world tag history idle_server)
react_all-Follows_example =
    react_all-Follows milliseconds insertion_sort same_world tag history idle_server
      idle_server-IsServer

react_all-IsServer_example :
    IsServer (react_all milliseconds insertion_sort same_world tag history idle_server)
react_all-IsServer_example =
    react_all-IsServer milliseconds insertion_sort same_world tag history idle_server
      idle_server-IsServer

-- Both players are dead.
abbrev lost_server : Server ℕ
lost_server = record idle_server {
  running = true;
  total_players = 2;
  player_records = two;
  timer_armed = true;
}

lost_server-Lost : Lost milliseconds insertion_sort same_world tag still 1000 lost_server false 0
unfolding are_all_players_dead level_won
lost_server-Lost = record { runs = refl; dead = refl; unwon = refl; delay = refl; since = refl }

-- With a second for each tick the delay is over three ticks after the first.
not_yet :
    (j : ℕ)
    → j < 2
    → leb 3000 (elapsed milliseconds insertion_sort same_world tag still 1000 (suc j) 0) ≡ false
not_yet zero h = refl
not_yet (suc zero) h = refl
not_yet (suc (suc j)) h = absurd (omega arith)

ticks-InLobby_example :
    ((ticks milliseconds insertion_sort same_world tag still 1000 3 lost_server).running ≡ true)
    × InLobby (ticks milliseconds insertion_sort same_world tag still 1000 4 lost_server)
ticks-InLobby_example =
    ticks-InLobby milliseconds insertion_sort same_world tag still 1000 2 3 lost_server 0
      (λ s. refl) lost_server-Lost not_yet refl (omega arith)

-- The victory is two seconds off.
abbrev winning_server : Server ℕ
winning_server = record lost_server { victory_pending = true; victory_timer = 2000 }

-- Systems that have no level to win.
abbrev endless : Server ℕ → Server ℕ
endless s = record s { worldgen_manager = none }

endless_keeps :
    (s : Server ℕ) → SameVictory milliseconds insertion_sort same_world tag s (endless s)
endless_keeps s = record { pending = refl; timer = refl }

endless_unwon : (s : Server ℕ) → level_won (endless s).worldgen_manager ≡ false
unfolding level_won
endless_unwon s = refl

abbrev next_match : Server ℕ
next_match =
    start_match milliseconds insertion_sort same_world tag
      (handle_player_disconnect milliseconds insertion_sort same_world tag 3 winning_server)

start_match-SameDelays_example :
    SameDelays winning_server next_match
    × SameVictory milliseconds insertion_sort same_world tag winning_server
        (updates milliseconds insertion_sort same_world tag endless 16 5 next_match)
start_match-SameDelays_example =
    start_match-SameDelays milliseconds insertion_sort same_world tag endless 16 3 5 winning_server
      endless_keeps endless_unwon
