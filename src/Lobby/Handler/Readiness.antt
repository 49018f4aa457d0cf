-- ===== src/Lobby/Handler/Readiness.antt =====
-- HandleReadyStatus: when the game starts.
use r_type_j_a_m_e_s.Base.{
  ◌≡◌, ◌≢◌, refl, inl, inr, Bool, true, false, not, ◌∷◌, arith, ◌==◌, ne→==, Bool-cases,
}
use r_type_j_a_m_e_s.Wire.Packets.Lobby.{ReadyStatusPacket}
use r_type_j_a_m_e_s.Lobby.Connections.{ClientConnection, all_players_ready, set_ready}
use r_type_j_a_m_e_s.Lobby.Connections.Ready.{PlayersReady, all_players_ready-PlayersReady}
use r_type_j_a_m_e_s.Lobby.Handler.{
  Room, notify_ready, game_start, match_set_up, start, mark_ready, handle_ready_status,
}

pub data Progress (c : ClientConnection) (ready : Bool) (r r' : Room) : Type 0 where
  waits :
      ¬ (PlayersReady r'.manager.clients)
      → r'.running ≡ r.running
      → r'.sent ≡ notify_ready c.player_id ready ∷ r.sent
      → Progress c ready r r'
  starts :
      PlayersReady r'.manager.clients
      → r.running ≡ false
      → r'.running ≡ true
      → r'.sent ≡ game_start ∷ match_set_up ∷ notify_ready c.player_id ready ∷ r.sent
      → Progress c ready r r'
  -- The game runs already, and GAME_START is sent once more.
  repeats :
      PlayersReady r'.manager.clients
      → r.running ≡ true
      → r'.running ≡ true
      → r'.sent ≡ game_start ∷ notify_ready c.player_id ready ∷ r.sent
      → Progress c ready r r'

start_idle :
    (r : Room)
    → r.running ≡ false
    → start r ≡ record r { running = true; sent = match_set_up ∷ r.sent }
unfolding start
start_idle r h = ground arith

start_busy : (r : Room) → r.running ≡ true → start r ≡ r
unfolding start
start_busy r h = ground arith

-- For a player, HandleReadyStatus writes the flag of that player and nothing else of the
-- connections, and notifies of it. Exactly if all players are then ready GAME_START is sent: the
-- game starts where it does not run, and where it runs GAME_START is sent all the same.
pub handle_ready_status-Progress :
    (c : ClientConnection) (packet : ReadyStatusPacket) (r : Room)
    → c.player_id ≢ 0
    → let ready = not (packet.is_ready == 0) in
      let r' = handle_ready_status c packet r in
      (r'.manager ≡ set_ready c.client_id ready r.manager) × Progress c ready r r'
unfolding handle_ready_status mark_ready
handle_ready_status-Progress c packet r player =
    let ready = not (packet.is_ready == 0) in
    let marked = mark_ready c ready r in
    let reads = all_players_ready-PlayersReady marked.manager.clients in
    elim (Bool-cases (all_players_ready marked.manager.clients)) [
      | inr e ↦ rw (ne→== c.player_id 0 player, e) (refl, waits (λ p. cc (reads.1 p, e)) refl refl)
      | inl e ↦ elim (Bool-cases r.running) [
        | inl busy ↦
            rw (ne→== c.player_id 0 player, e, start_busy marked busy)
              (refl, repeats (reads.0 e) busy busy refl)
        | inr idle ↦
            rw (ne→== c.player_id 0 player, e, start_idle marked idle)
              (refl, starts (reads.0 e) idle refl refl)
      ]
    ]
