-- ===== src/Lobby/Connections/Ready.antt =====
-- AllPlayersReady and ResetAllReadyStates.
use r_type_j_a_m_e_s.Base.{
  ℕ, ◌<◌, ◌≡◌, refl, sym, ap, ◌∙◌, inl, inr, ◌↔◌, true, false, [], ◌∷◌, arith, In,
}
use r_type_j_a_m_e_s.Lobby.Connections.{
  ClientConnection, Clients, Manager, is_authenticated, authenticated_count, all_players_ready,
  reset_ready, reset_all_ready_states,
}

-- Every client that is a player is ready.
abbrev pub PlayersReady : Clients → Type 0
PlayersReady l =
    (e : ℕ × ClientConnection) → In e l → is_authenticated e.1 ≡ true → e.1.ready ≡ true

head_ready :
    (k : ℕ) (c : ClientConnection) (rest : Clients)
    → (is_authenticated c ≡ true → c.ready ≡ true)
    → PlayersReady rest
    → PlayersReady ((k, c) ∷ rest)
head_ready k c rest h t e (inl same) a =
    ap (λ (x : ℕ × ClientConnection). x.1.ready) same
    ∙ h (sym (ap (λ (x : ℕ × ClientConnection). is_authenticated x.1) same) ∙ a)
head_ready k c rest h t e (inr m) a = t e m a

-- The loop says that all players are ready exactly if each of them is; with no player it does.
pub all_players_ready-PlayersReady : (l : Clients) → (all_players_ready l ≡ true) ↔ PlayersReady l
unfolding all_players_ready
all_players_ready-PlayersReady [] = (λ h e m. absurd m, λ h. refl)
all_players_ready-PlayersReady ((k, c) ∷ rest) =
    let ih = all_players_ready-PlayersReady rest in
    (
      λ h. head_ready k c rest (λ a. ground arith) (ih.0 (ground arith)),
      λ h.
          let here : is_authenticated c ≡ true → c.ready ≡ true = λ a. h (k, c) (inl refl) a in
          let later = ih.1 (λ e m a. h e (inr m) a) in ground arith,
    )

reset_ready-not_ready :
    (l : Clients) → 0 < authenticated_count l → all_players_ready (reset_ready l) ≡ false
unfolding reset_ready authenticated_count all_players_ready
reset_ready-not_ready [] h = absurd (omega arith)
reset_ready-not_ready ((k, c) ∷ rest) h = ground (arith, reset_ready-not_ready rest)

-- After ResetAllReadyStates not all players are ready, if there is a player.
pub reset_all_ready_states-not_ready :
    (m : Manager)
    → 0 < authenticated_count m.clients
    → all_players_ready (reset_all_ready_states m).clients ≡ false
unfolding reset_all_ready_states
reset_all_ready_states-not_ready m h = reset_ready-not_ready m.clients h
