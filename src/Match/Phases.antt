-- ===== src/Match/Phases.antt =====
-- The server as a machine of two states, the lobby and the match, whatever players and the timer
-- do; and what holds in each.
use r_type_j_a_m_e_s.Base.{
  ℕ, ◌≡◌, refl, sym, ap, subst, ◌∙◌, inl, inr, Bool, true, false, Option, none, some, List, [], ◌∷◌,
  ◌++◌, Bool-cases, arith, append-nil, append_assoc, ◌==◌,
}
use r_type_j_a_m_e_s.Wire.Packets.Score.{PlayerScoreData}
use r_type_j_a_m_e_s.Lobby.Connections.{ClientConnection, Clients}
use r_type_j_a_m_e_s.Match.Records.{Sort}
use r_type_j_a_m_e_s.Match.State.{
  PlayerTag, World, Sent, game_end, notify_disconnect, game_start, snapshots, Clock, Server,
}
use r_type_j_a_m_e_s.Match.Play.{
  spawn_player, spawn_players, begin_level, setup_game_tick, update, tick,
}
use r_type_j_a_m_e_s.Match.Turns.{InLobby, Turn, went_on, ended, IsSystems, update-Turn}

-- The abstract machine: whether a match runs, and the messages of a step.
pub data Step : Bool → List Sent → Bool → Type 0 where
  stays : (running : Bool) → Step running [] running
  draws : Step true (snapshots ∷ []) true
  loses_player :
      (running : Bool) (player : ℕ) → Step running (notify_disconnect player ∷ []) running
  begins : Step false [] true
  announces : Step true (game_start ∷ []) true
  ends :
      (winner mode : ℕ) (leaderboard : List PlayerScoreData)
      → Step true (game_end winner mode leaderboard ∷ []) false

pub data Runs (first : Bool) : List Sent → Bool → Type 0 where
  here : Runs first [] first
  after :
      {before now : Bool} {sent more : List Sent}
      → Runs first sent before
      → Step before more now
      → Runs first (sent ++ more) now

-- A state of the server that the abstract machine reaches from another, with the messages between.
pub record Follows {T : Type 0} (s t : Server T) : Type 0 where
  pub messages : List Sent
  pub logged : t.sent ≡ s.sent ++ messages
  pub runs : Runs s.running messages t.running

-- In the lobby nothing of a match is left, and the timer is armed exactly while a match runs.
pub record IsServer {T : Type 0} (s : Server T) : Type 0 where
  pub idle : s.running ≡ false → InLobby s
  pub armed : s.timer_armed ≡ s.running

Runs-append :
    {first now last : Bool} {sent more : List Sent}
    → Runs first sent now
    → Runs now more last
    → Runs first (sent ++ more) last
Runs-append {first = first} {last = last} {sent = sent} r here =
    subst (λ xs. Runs first xs last) (sym (append-nil sent)) r
Runs-append {first = first} {last = last} {sent = sent} r
      (after {sent = sent'} {more = more'} q st) =
    subst (λ xs. Runs first xs last) (append_assoc sent sent' more') (after (Runs-append r q) st)

pub Follows-trans : {T : Type 0} {s t u : Server T} → Follows s t → Follows t u → Follows s u
Follows-trans {s = s} {t = t} {u = u} p q = record {
  messages = p.messages ++ q.messages;
  logged =
      q.logged ∙ ap (λ xs. xs ++ q.messages) p.logged ∙ append_assoc s.sent p.messages q.messages;
  runs = Runs-append p.runs q.runs;
}

pub Follows-same :
    {T : Type 0} (s t : Server T) → t.sent ≡ s.sent → t.running ≡ s.running → Follows s t
Follows-same s t l r = record {
  messages = [];
  logged = l ∙ sym (append-nil s.sent);
  runs = subst (λ b. Runs s.running [] b) (sym r) here;
}

pub Follows-Step :
    {T : Type 0} (s t : Server T) (more : List Sent)
    → t.sent ≡ s.sent ++ more
    → Step s.running more t.running
    → Follows s t
Follows-Step s t more l st = record { messages = more; logged = l; runs = after here st }

-- A turn of the loop is a step of the abstract machine.
Turn-Follows : {T : Type 0} (s t : Server T) → s.running ≡ true → Turn s snapshots t → Follows s t
Turn-Follows s t r (went_on running sent) = Follows-Step s t (snapshots ∷ []) sent (
    subst (λ b. Step b (snapshots ∷ []) t.running) (sym r)
      (subst (λ b. Step true (snapshots ∷ []) b) (sym (running ∙ r)) draws))
Turn-Follows s t r (ended winner mode leaderboard sent lobby) =
    Follows-Step s t (game_end winner mode leaderboard ∷ []) sent (
      subst (λ b. Step b (game_end winner mode leaderboard ∷ []) t.running) (sym r)
        (subst (λ b. Step true (game_end winner mode leaderboard ∷ []) b) (sym lobby.stopped)
          (ends winner mode leaderboard)))

module _ (clock : Clock) (sort : Sort) (initialize : World → World) (new_tag : PlayerTag) where
  open clock use {Time, start, add, reached}

  -- What an operation owes.
  abbrev pub Fine : Server Time → Server Time → Type 0
  Fine s t = Follows s t × IsServer t

  pub setup-runs :
      (t : Server Time)
      → t.running ≡ true
      → setup_game_tick clock sort initialize new_tag t ≡ record t { timer_armed = true }
  unfolding setup_game_tick
  setup-runs t r = ground arith

  pub setup-stopped :
      (t : Server Time) → t.running ≡ false → setup_game_tick clock sort initialize new_tag t ≡ t
  unfolding setup_game_tick
  setup-stopped t r = ground arith

  -- SetupGameTick arms the timer of a match that runs.
  pub setup-Fine :
      (s t : Server Time)
      → Follows s t
      → (t.running ≡ false → InLobby t)
      → Fine s (setup_game_tick clock sort initialize new_tag t)
  setup-Fine s t f lobby = elim (Bool-cases t.running) [
    | inl r ↦ subst (Fine s) (sym (setup-runs t r)) (
      record { messages = f.messages; logged = f.logged; runs = f.runs },
      record { idle = λ stopped. absurd (let no : ⊥ = cc in no); armed = sym r },
    )
    | inr r ↦
        subst (Fine s) (sym (setup-stopped t r))
          (f, record { idle = lobby; armed = (lobby r).no_timer ∙ sym r })
  ]

  Turn-lobby :
      (s t : Server Time) → s.running ≡ true → Turn s snapshots t → t.running ≡ false → InLobby t
  Turn-lobby s t r (went_on running sent) stopped = absurd (let no : ⊥ = cc in no)
  Turn-lobby s t r (ended winner mode leaderboard sent lobby) stopped = lobby

  pub tick-runs :
      (systems : Server Time → Server Time) (delta : Time) (s : Server Time)
      → s.running ≡ true
      → tick clock sort initialize new_tag systems delta s
        ≡ setup_game_tick clock sort initialize new_tag
            (update clock sort initialize new_tag systems delta (record s { timer_armed = false }))
  unfolding tick
  tick-runs systems delta s r = ground arith

  tick-stopped :
      (systems : Server Time → Server Time) (delta : Time) (s : Server Time)
      → s.running ≡ false
      → tick clock sort initialize new_tag systems delta s ≡ record s { timer_armed = false }
  unfolding tick
  tick-stopped systems delta s r = ground arith

  fired-lobby : (s : Server Time) → InLobby s → InLobby (record s { timer_armed = false })
  fired-lobby s l = record {
    stopped = l.stopped;
    no_timer = refl;
    no_records = l.no_records;
    no_deaths = l.no_deaths;
    no_system = l.no_system;
    no_players = l.no_players;
  }

  pub tick-Fine :
      (systems : Server Time → Server Time) (delta : Time) (s : Server Time)
      → IsSystems clock sort initialize new_tag systems
      → IsServer s
      → Fine s (tick clock sort initialize new_tag systems delta s)
  tick-Fine systems delta s quiet v =
      let fired : Server Time = record s { timer_armed = false } in
      elim (Bool-cases s.running) [
        | inr r ↦ subst (Fine s) (sym (tick-stopped systems delta s r)) (
          Follows-same s fired refl refl,
          record { idle = λ e. fired-lobby s (v.idle r); armed = sym r },
        )
        | inl r ↦
            let turn = update-Turn clock sort initialize new_tag systems delta fired quiet in
            let f = Turn-Follows fired _ r turn in
            subst (Fine s) (sym (tick-runs systems delta s r)) (
              setup-Fine s (update clock sort initialize new_tag systems delta fired)
                (record { messages = f.messages; logged = f.logged; runs = f.runs })
                (Turn-lobby fired _ r turn))
      ]

  -- The setting up of the entities keeps the flag and the log.
  spawn_player-keeps :
      (c : ClientConnection) (state : ℕ × Server Time)
      → ((spawn_player clock sort initialize new_tag c state).1.running ≡ state.1.running)
        × ((spawn_player clock sort initialize new_tag c state).1.sent ≡ state.1.sent)
  unfolding spawn_player
  spawn_player-keeps c (index, s) = elim (Bool-cases (c.player_id == 0)) [
    | inl unknown ↦ rw unknown (refl, refl)
    | inr player ↦ rw player (refl, refl)
  ]

  pub spawn-keeps :
      (l : Clients) (state : ℕ × Server Time)
      → ((spawn_players clock sort initialize new_tag l state).1.running ≡ state.1.running)
        × ((spawn_players clock sort initialize new_tag l state).1.sent ≡ state.1.sent)
  unfolding spawn_players
  spawn-keeps [] state = (refl, refl)
  spawn-keeps ((k, c) ∷ rest) state =
      let one = spawn_player-keeps c state in
      let others = spawn-keeps rest (spawn_player clock sort initialize new_tag c state) in
      (others.0 ∙ one.0, others.1 ∙ one.1)

  pub level-keeps :
      (s : Server Time) (world : Option World)
      → ((begin_level clock sort initialize new_tag s world).running ≡ s.running)
        × ((begin_level clock sort initialize new_tag s world).sent ≡ s.sent)
  unfolding begin_level
  level-keeps s none = (refl, refl)
  level-keeps s (some w) = elim (Bool-cases s.worldgen_system) [
    | inl there ↦ rw there (refl, refl)
    | inr new ↦ rw new (refl, refl)
  ]
