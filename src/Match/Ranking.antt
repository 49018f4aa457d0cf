-- ===== src/Match/Ranking.antt =====
-- BuildLeaderboard: its comparison is an order that std::sort may be given, and what it then gives.
use r_type_j_a_m_e_s.Base.{
  ℕ, ◌≤◌, ◌≡◌, sym, ap, subst, ◌∙◌, inl, inr, Bool, true, false, List, [], ◌∷◌, map, arith, All, In,
}
use mathlib.Core.List.{Mem, Perm, mem-cons, mem-cons_self, mem-cons_of_mem, not-mem-nil}
use mathlib.Core.List.Perm
use mathlib.Core.Logic.Or
use native.Mathlib.Bridge.{le_prop}
use r_type_j_a_m_e_s.Wire.Packets.Score.{PlayerScoreData}
use r_type_j_a_m_e_s.Match.Records.{
  PlayerDeathRecord, Records, entry_of, ranks_before, Sort, build_leaderboard,
}

-- A strict weak ordering, which std::sort requires of its comparison.
pub record IsStrictWeakOrder {A : Type 0} (before : A → A → Bool) : Type 0 where
  pub irreflexive : (a : A) → before a a ≡ false
  pub transitive : (a b c : A) → before a b ≡ true → before b c ≡ true → before a c ≡ true
  pub incomparable : (a b c : A) → before a b ≡ false → before b c ≡ false → before a c ≡ false

-- The comparison by which BuildLeaderboard sorts is a strict weak ordering, as std::sort requires:
-- no entry stands before itself, and both standing before and not standing before are transitive.
pub ranks_before-IsStrictWeakOrder : IsStrictWeakOrder ranks_before
unfolding ranks_before
ranks_before-IsStrictWeakOrder = record {
  irreflexive = λ a. ground arith;
  transitive = λ a b c h k. ground arith;
  incomparable = λ a b c h k. ground arith;
}

-- No entry is to stand before one in front of it.
abbrev pub Sorted : {A : Type 0} → (A → A → Bool) → List A → Type 0
Sorted before [] = Unit
Sorted before (x ∷ xs) = All (λ y. before y x ≡ false) xs × Sorted before xs

-- What std::sort promises for a comparison that it may be given.
pub record IsSort (sort : Sort) : Type 0 where
  pub permutes :
      (before : PlayerScoreData → PlayerScoreData → Bool)
      → IsStrictWeakOrder before
      → (xs : List PlayerScoreData) → Perm (sort before xs) xs
  pub sorts :
      (before : PlayerScoreData → PlayerScoreData → Bool)
      → IsStrictWeakOrder before
      → (xs : List PlayerScoreData) → Sorted before (sort before xs)

pub build_leaderboard-Sorted :
    (sort : Sort) (winner : ℕ) (l : Records)
    → IsSort sort
    → Perm (build_leaderboard sort winner l) (map (entry_of winner) l)
      × Sorted ranks_before (build_leaderboard sort winner l)
unfolding build_leaderboard
build_leaderboard-Sorted sort winner l law = (
  law.permutes ranks_before ranks_before-IsStrictWeakOrder (map (entry_of winner) l),
  law.sorts ranks_before ranks_before-IsStrictWeakOrder (map (entry_of winner) l),
)

winner_behind :
    (a b : PlayerScoreData) → a.is_winner ≡ 1 → ranks_before a b ≡ false → 1 ≤ b.is_winner
unfolding ranks_before
winner_behind a b h k = ground arith

mem_entry :
    (winner : ℕ) (l : Records) (x : ℕ × PlayerDeathRecord)
    → In x l
    → Mem (entry_of winner x) (map (entry_of winner) l)
mem_entry winner [] x i = absurd i
mem_entry winner (y ∷ l) x (inl same) =
    subst (λ z. Mem (entry_of winner z) (map (entry_of winner) (y ∷ l))) (sym same) (mem-cons_self)
mem_entry winner (y ∷ l) x (inr later) = mem-cons_of_mem _ (mem_entry winner l x later)

first_wins :
    (e h : PlayerScoreData) (t : List PlayerScoreData)
    → e.is_winner ≡ 1
    → All (λ y. ranks_before y h ≡ false) t
    → Mem e t
    → 1 ≤ h.is_winner
first_wins e h [] w a m = absurd (not-mem-nil m)
first_wins e h (y ∷ t) w a m =
    Or.elim le_prop (mem-cons.0 m)
      (λ same. winner_behind e h w (ap (λ z. ranks_before z h) same ∙ a.0)) (first_wins e h t w a.1)

entry_wins :
    (winner : ℕ) (x : ℕ × PlayerDeathRecord)
    → 1 ≤ (entry_of winner x).is_winner
    → (entry_of winner x).player_id ≡ winner
unfolding entry_of
entry_wins winner (pid, rec) h = ground arith

pid_bound :
    (winner : ℕ) (l : Records) (h : PlayerScoreData)
    → 1 ≤ h.is_winner
    → Mem h (map (entry_of winner) l)
    → (h.player_id ≤ winner) × (winner ≤ h.player_id)
pid_bound winner [] h w m = absurd (not-mem-nil m)
pid_bound winner (x ∷ l) h w m =
    let one : h ≡ entry_of winner x → h.player_id ≡ winner =
      λ e. ap (λ z. z.player_id) e ∙ entry_wins winner x (subst (λ z. 1 ≤ z.is_winner) e w) in
    (
      Or.elim le_prop (mem-cons.0 m) (λ e. omega (arith, one e))
          (λ k. (pid_bound winner l h w k).0),
      Or.elim le_prop (mem-cons.0 m) (λ e. omega (arith, one e))
          (λ k. (pid_bound winner l h w k).1),
    )

winner_entry :
    (winner : ℕ) (rec : PlayerDeathRecord) → (entry_of winner (winner, rec)).is_winner ≡ 1
unfolding entry_of
winner_entry winner rec = ground arith

head_bounds :
    (winner : ℕ) (l : Records) (rec : PlayerDeathRecord) (h : PlayerScoreData)
    (t : List PlayerScoreData)
    → Perm (h ∷ t) (map (entry_of winner) l)
    → Sorted ranks_before (h ∷ t)
    → In (winner, rec) l
    → h.player_id ≡ winner
head_bounds winner l rec h t p s i =
    let entry : PlayerScoreData = entry_of winner (winner, rec) in
    let there : Mem entry (h ∷ t) = (Perm.mem_iff p).1 (mem_entry winner l (winner, rec) i) in
    let wins : 1 ≤ h.is_winner =
      Or.elim le_prop (mem-cons.0 there)
        (λ e. omega (arith, ap (λ z. z.is_winner) e, winner_entry winner rec))
        (first_wins entry h t (winner_entry winner rec) s.0) in
    let bounds = pid_bound winner l h wins ((Perm.mem_iff p).0 mem-cons_self) in
    omega (arith, bounds.0, bounds.1)

-- If the winner is one of the players, the winner's entry heads the leaderboard.
pub build_leaderboard-first :
    (sort : Sort) (winner : ℕ) (l : Records) (rec : PlayerDeathRecord) (h : PlayerScoreData)
    (t : List PlayerScoreData)
    → IsSort sort
    → In (winner, rec) l
    → build_leaderboard sort winner l ≡ h ∷ t
    → h.player_id ≡ winner
build_leaderboard-first sort winner l rec h t law i e =
    let ranked = build_leaderboard-Sorted sort winner l law in
    head_bounds winner l rec h t (subst (λ xs. Perm xs (map (entry_of winner) l)) e ranked.0)
      (subst (λ xs. Sorted ranks_before xs) e ranked.1) i
