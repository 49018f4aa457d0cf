-- ===== src/Client/Stream/Reads.antt =====
-- Which payloads make a handler read past their end.
use r_type_j_a_m_e_s.Base.{
  ℕ, zero, suc, ◌≤◌, ◌<◌, ◌≡◌, ◌≢◌, ◌↔◌, inl, inr, refl, sym, ◌∙◌, Bool, true, false, Option, none,
  some, List, [], ◌∷◌, arith, ltb, leb, ◌==◌, lt→ltb, ltb→ge, ltb→lt, leb→le, ==→eq, eq→==,
  Bool-cases, length, length-drop, get_elem?, drop, if◌then◌else◌,
}
use r_type_j_a_m_e_s.Client.Header.{◌>>=◌, read_le16, read_le32, op_connect_ack}
use r_type_j_a_m_e_s.Client.State.{ServerConnection}
use r_type_j_a_m_e_s.Client.Payloads.{read_name, read_entry, read_leaderboard}
use r_type_j_a_m_e_s.Client.Handlers.{
  handle_connect_ack, handle_game_start, handle_game_end, handle_notify_disconnect,
  handle_notify_connect, handle_notify_ready, handle_notify_game_speed, handle_notify_difficulty,
  handle_notify_killable_projectiles, dispatch,
}

abbrev IsDefined : {A : Type 0} → Option A → Type 0
IsDefined {A} o = (a : A) × (o ≡ some a)

>>=-IsDefined :
    {A B : Type 0} (o : Option A) (f : A → Option B)
    → IsDefined o
    → ((a : A) → IsDefined (f a))
    → IsDefined (o >>= f)
>>=-IsDefined none f h k = absurd (let no : ⊥ = cc in no)
>>=-IsDefined (some a) f h k = k a

some-IsDefined : {A : Type 0} (a : A) → IsDefined (some a)
some-IsDefined a = (a, refl)

-- The branch that a failed size check skips.
check-IsDefined :
    {A : Type 0} (n m : ℕ) (a : A) (o : Option A)
    → (m ≤ n → IsDefined o)
    → IsDefined (if ltb n m then some a else o)
check-IsDefined n m a o h = elim (Bool-cases (ltb n m)) [
  | inl e ↦ rw e (a, refl)
  | inr e ↦ rw e (h (ltb→ge n m e))
]

if-IsDefined :
    {A : Type 0} (b : Bool) (o p : Option A)
    → IsDefined o
    → IsDefined p
    → IsDefined (if b then o else p)
if-IsDefined true o p h k = h
if-IsDefined false o p h k = k

get_elem?-IsDefined : (xs : List ℕ) (i : ℕ) → i < length xs → IsDefined (get_elem? xs i)
get_elem?-IsDefined [] i h = elim h [ ]
get_elem?-IsDefined (x ∷ xs) zero h = (x, refl)
get_elem?-IsDefined (x ∷ xs) (suc i) h = get_elem?-IsDefined xs i (omega arith)

read_le16-IsDefined : (xs : List ℕ) → 2 ≤ length xs → IsDefined (read_le16 xs)
unfolding read_le16
read_le16-IsDefined xs h =
    >>=-IsDefined _ _ (get_elem?-IsDefined xs 0 (omega arith))
      (λ b0. >>=-IsDefined _ _ (get_elem?-IsDefined xs 1 (omega arith)) (λ b1. some-IsDefined _))

read_le32-IsDefined : (xs : List ℕ) → 4 ≤ length xs → IsDefined (read_le32 xs)
unfolding read_le32
read_le32-IsDefined xs h = >>=-IsDefined _ _ (get_elem?-IsDefined xs 0 (omega arith)) (λ b0.
    >>=-IsDefined _ _ (get_elem?-IsDefined xs 1 (omega arith)) (λ b1.
      >>=-IsDefined _ _ (get_elem?-IsDefined xs 2 (omega arith)) (λ b2.
        >>=-IsDefined _ _ (get_elem?-IsDefined xs 3 (omega arith)) (λ b3. some-IsDefined _))))

read_name-IsDefined : (n : ℕ) (xs : List ℕ) → n ≤ length xs → IsDefined (read_name n xs)
unfolding read_name
read_name-IsDefined zero xs h = ([], refl)
read_name-IsDefined (suc n) [] h = absurd (omega arith)
read_name-IsDefined (suc n) (c ∷ xs) h =
    if-IsDefined (c == 0) _ _ (some-IsDefined [])
      (>>=-IsDefined _ _ (read_name-IsDefined n xs (omega arith)) (λ name. some-IsDefined _))

read_entry-IsDefined : (xs : List ℕ) → 39 ≤ length xs → IsDefined (read_entry xs)
unfolding read_entry
read_entry-IsDefined xs h = >>=-IsDefined _ _ (get_elem?-IsDefined xs 0 (omega arith)) (λ id.
    >>=-IsDefined _ _ (read_name-IsDefined 32 (drop 1 xs) (omega (arith, length-drop 1 xs)))
      (λ text.
        >>=-IsDefined _ _ (read_le32-IsDefined (drop 33 xs) (omega (arith, length-drop 33 xs)))
          (λ points. >>=-IsDefined _ _ (get_elem?-IsDefined xs 37 (omega arith)) (λ order.
            >>=-IsDefined _ _ (get_elem?-IsDefined xs 38 (omega arith))
              (λ winner. some-IsDefined _)))))

read_leaderboard-IsDefined : (n : ℕ) (xs : List ℕ) → IsDefined (read_leaderboard n xs)
unfolding read_leaderboard
read_leaderboard-IsDefined zero xs = ([], refl)
read_leaderboard-IsDefined (suc n) xs = elim (Bool-cases (leb 39 (length xs))) [
  | inr e ↦ rw e ([], refl)
  | inl e ↦ rw e (
      >>=-IsDefined _ _ (read_entry-IsDefined xs (leb→le 39 (length xs) e)) (λ entry.
        >>=-IsDefined _ _ (read_leaderboard-IsDefined n (drop 39 xs)) (λ rest. some-IsDefined _)))
]

module _ (xs : List ℕ) (s : ServerConnection) where
  connect_ack-IsDefined : 8 ≤ length xs → IsDefined (handle_connect_ack xs s)
  unfolding handle_connect_ack
  connect_ack-IsDefined h = check-IsDefined (length xs) 4 s _ (λ k.
      >>=-IsDefined _ _ (get_elem?-IsDefined xs 0 (omega arith)) (λ pid.
        >>=-IsDefined _ _ (get_elem?-IsDefined xs 1 (omega arith)) (λ status.
          >>=-IsDefined _ _ (get_elem?-IsDefined xs 2 (omega arith)) (λ connected.
            >>=-IsDefined _ _ (get_elem?-IsDefined xs 3 (omega arith)) (λ ready.
              >>=-IsDefined _ _ (get_elem?-IsDefined xs 4 (omega arith)) (λ max.
                >>=-IsDefined _ _ (get_elem?-IsDefined xs 5 (omega arith)) (λ min.
                  >>=-IsDefined _ _
                    (read_le16-IsDefined (drop 6 xs) (omega (arith, length-drop 6 xs)))
                    (λ reserved. some-IsDefined _))))))))

  game_start-IsDefined : IsDefined (handle_game_start xs s)
  unfolding handle_game_start
  game_start-IsDefined =
      check-IsDefined (length xs) 4 s _
        (λ k. >>=-IsDefined _ _ (read_le32-IsDefined xs k) (λ entity. some-IsDefined _))

  game_end-IsDefined : IsDefined (handle_game_end xs s)
  unfolding handle_game_end
  game_end-IsDefined = check-IsDefined (length xs) 8 s _ (λ k.
      >>=-IsDefined _ _ (get_elem?-IsDefined xs 0 (omega arith)) (λ winner.
        >>=-IsDefined _ _ (get_elem?-IsDefined xs 1 (omega arith)) (λ mode.
          >>=-IsDefined _ _ (get_elem?-IsDefined xs 2 (omega arith)) (λ count.
            >>=-IsDefined _ _ (read_leaderboard-IsDefined count (drop 8 xs))
              (λ entries. some-IsDefined _)))))

  notify_disconnect-IsDefined : IsDefined (handle_notify_disconnect xs s)
  unfolding handle_notify_disconnect
  notify_disconnect-IsDefined = check-IsDefined (length xs) 4 s _ (λ k.
      >>=-IsDefined _ _ (get_elem?-IsDefined xs 0 (omega arith))
        (λ player. if-IsDefined (player == s.player_id) _ _ (some-IsDefined _) (some-IsDefined _)))

  notify_connect-IsDefined : IsDefined (handle_notify_connect xs s)
  unfolding handle_notify_connect
  notify_connect-IsDefined = check-IsDefined (length xs) 36 s _ (λ k.
      >>=-IsDefined _ _ (get_elem?-IsDefined xs 0 (omega arith)) (λ player.
        if-IsDefined (player == s.player_id) _ _ (some-IsDefined _) (
          >>=-IsDefined _ _ (read_name-IsDefined 32 (drop 4 xs) (omega (arith, length-drop 4 xs)))
            (λ name. some-IsDefined _))))

  notify_ready-IsDefined : IsDefined (handle_notify_ready xs s)
  unfolding handle_notify_ready
  notify_ready-IsDefined = check-IsDefined (length xs) 4 s _ (λ k.
      >>=-IsDefined _ _ (get_elem?-IsDefined xs 0 (omega arith)) (λ player.
        >>=-IsDefined _ _ (get_elem?-IsDefined xs 1 (omega arith)) (λ ready. some-IsDefined _)))

  notify_game_speed-IsDefined : IsDefined (handle_notify_game_speed xs s)
  unfolding handle_notify_game_speed
  notify_game_speed-IsDefined =
      check-IsDefined (length xs) 4 s _
        (λ k. >>=-IsDefined _ _ (read_le32-IsDefined xs k) (λ speed. some-IsDefined _))

  notify_difficulty-IsDefined : IsDefined (handle_notify_difficulty xs s)
  unfolding handle_notify_difficulty
  notify_difficulty-IsDefined =
      check-IsDefined (length xs) 1 s _ (λ k.
        >>=-IsDefined _ _ (get_elem?-IsDefined xs 0 (omega arith)) (λ level. some-IsDefined _))

  notify_killable_projectiles-IsDefined : IsDefined (handle_notify_killable_projectiles xs s)
  unfolding handle_notify_killable_projectiles
  notify_killable_projectiles-IsDefined = check-IsDefined (length xs) 1 s _ (λ k.
      >>=-IsDefined _ _ (get_elem?-IsDefined xs 0 (omega arith)) (λ enabled. some-IsDefined _))

  others-IsDefined : (op : ℕ) → (op == op_connect_ack) ≡ false → IsDefined (dispatch op xs s)
  unfolding dispatch
  others-IsDefined op e = rw e (
      if-IsDefined (op == 5) _ _ game_start-IsDefined (
        if-IsDefined (op == 6) _ _ game_end-IsDefined (
          if-IsDefined (op == 4) _ _ notify_disconnect-IsDefined (
            if-IsDefined (op == 8) _ _ notify_connect-IsDefined (
              if-IsDefined (op == 9) _ _ notify_ready-IsDefined (
                if-IsDefined (op == 11) _ _ notify_game_speed-IsDefined (
                  if-IsDefined (op == 14) _ _ notify_difficulty-IsDefined (
                    if-IsDefined (op == 15) _ _ notify_killable_projectiles-IsDefined
                      (some-IsDefined s)))))))))

-- A CONNECT_ACK of four to seven bytes passes the check of its size, and is read past its end.
connect_ack-fault :
    (xs : List ℕ) (s : ServerConnection)
    → 4 ≤ length xs
    → length xs < 8
    → handle_connect_ack xs s ≡ none
unfolding handle_connect_ack read_le16
connect_ack-fault [] s h k = absurd (omega arith)
connect_ack-fault (a ∷ []) s h k = absurd (omega arith)
connect_ack-fault (a ∷ b ∷ []) s h k = absurd (omega arith)
connect_ack-fault (a ∷ b ∷ c ∷ []) s h k = absurd (omega arith)
connect_ack-fault (a ∷ b ∷ c ∷ d ∷ []) s h k = refl
connect_ack-fault (a ∷ b ∷ c ∷ d ∷ e ∷ []) s h k = refl
connect_ack-fault (a ∷ b ∷ c ∷ d ∷ e ∷ f ∷ []) s h k = refl
connect_ack-fault (a ∷ b ∷ c ∷ d ∷ e ∷ f ∷ g ∷ []) s h k = refl
connect_ack-fault (a ∷ b ∷ c ∷ d ∷ e ∷ f ∷ g ∷ i ∷ xs) s h k = absurd (omega arith)

dispatch-connect_ack :
    (op : ℕ) (xs : List ℕ) (s : ServerConnection)
    → op ≡ op_connect_ack
    → dispatch op xs s ≡ handle_connect_ack xs s
unfolding dispatch
dispatch-connect_ack op xs s e = rw (eq→== op 2 e) refl

defined-none : {A : Type 0} (o : Option A) → IsDefined o → o ≢ none
defined-none o h e = let d = h.1 in let no : ⊥ = cc in no

connect_ack-short :
    (xs : List ℕ) (s : ServerConnection) → length xs < 4 → IsDefined (handle_connect_ack xs s)
unfolding handle_connect_ack
connect_ack-short xs s h = rw (lt→ltb (length xs) 4 h) (s, refl)

-- The one message with which the server makes a handler of the client read past the end of its
-- payload is a CONNECT_ACK whose payload has from four to seven bytes; every other payload of any
-- length is taken without such a read, whatever its opcode and whatever the client's state.
pub dispatch-none :
    (op : ℕ) (xs : List ℕ) (s : ServerConnection)
    → (dispatch op xs s ≡ none) ↔ ((op ≡ op_connect_ack) × (4 ≤ length xs) × (length xs < 8))
dispatch-none op xs s = (
  λ e. elim (Bool-cases (op == op_connect_ack)) [
    | inr other ↦ absurd (defined-none _ (others-IsDefined xs s op other) e)
    | inl same ↦
        let ack : handle_connect_ack xs s ≡ none =
          sym (dispatch-connect_ack op xs s (==→eq op 2 same)) ∙ e in
        elim (Bool-cases (ltb (length xs) 4)) [
          | inl less ↦
              absurd (defined-none _ (connect_ack-short xs s (ltb→lt (length xs) 4 less)) ack)
          | inr more ↦ elim (Bool-cases (ltb (length xs) 8)) [
            | inl below ↦ (==→eq op 2 same, ltb→ge (length xs) 4 more, ltb→lt (length xs) 8 below)
            | inr above ↦
                absurd
                  (defined-none _ (connect_ack-IsDefined xs s (ltb→ge (length xs) 8 above)) ack)
          ]
        ]
  ],
  λ h. dispatch-connect_ack op xs s h.0 ∙ connect_ack-fault xs s h.1 h.2,
)
