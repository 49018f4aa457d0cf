-- ===== src/Match/Winner.antt =====
-- DetermineWinner: nobody is better placed than the winner.
use r_type_j_a_m_e_s.Base.{
  ℕ, ◌<◌, ◌≡◌, ◌≢◌, refl, sym, ap, subst, ◌∙◌, ◌⊎◌, inl, inr, Bool, true, false, ◌&&◌, [], ◌∷◌,
  arith, ltb, Bool-cases, All, In, if◌then◌else◌,
}
use r_type_j_a_m_e_s.Base.Int.{ℤ, pos, negsuc, ◌≤ℤ◌, ◌<ℤ◌}
use r_type_j_a_m_e_s.Match.Records.{
  PlayerDeathRecord, Records, anyone_alive, lowest_score, alive_rank, greater_score, best_survivor,
  order_key, greater_order, last_alive, determine_winner,
}
use r_type_j_a_m_e_s.Match.Choice.{IsGreater, Tops, Source, choose-Promised}

greater_score-IsGreater : IsGreater greater_score
greater_score-IsGreater = record {
  asymm = λ a b h. ground arith;
  trans = λ a b c h k. ground arith;
}

greater_order-IsGreater : IsGreater greater_order
greater_order-IsGreater = record {
  asymm = λ a b h. ground arith;
  trans = λ a b c h k. ground arith;
}

-- The scores are above the value that the search starts with.
abbrev pub HasScores : Records → Type 0
HasScores l = All (λ e. lowest_score <ℤ e.1.score) l

-- No survivor has more points than the winner, who is one.
abbrev pub BestSurvivor : Records → ℕ × PlayerDeathRecord → Type 0
BestSurvivor l e = (e.1.is_alive ≡ true) × All (λ x. x.1.is_alive ≡ true → x.1.score ≤ℤ e.1.score) l

abbrev pub rank : PlayerDeathRecord → ℕ
rank rec = if rec.is_alive then alive_rank else rec.death_order

-- Nobody died later than the winner, or as late with more points.
abbrev pub LastAlive : Records → ℕ × PlayerDeathRecord → Type 0
LastAlive l e =
    All (λ x. (rank x.1 < rank e.1) ⊎ ((rank x.1 ≡ rank e.1) × (x.1.score ≤ℤ e.1.score))) l

All-map :
    (P Q : ℕ × PlayerDeathRecord → Type 0) (l : Records)
    → ((x : ℕ × PlayerDeathRecord) → P x → Q x)
    → All P l
    → All Q l
All-map P Q [] f h = tt
All-map P Q (x ∷ l) f h = (f x h.0, All-map P Q l f h.1)

In-All :
    (P : ℕ × PlayerDeathRecord → Type 0) (l : Records) (x : ℕ × PlayerDeathRecord)
    → In x l
    → All P l
    → P x
In-All P [] x i h = absurd i
In-All P (y ∷ l) x (inl same) h = subst P (sym same) h.0
In-All P (y ∷ l) x (inr later) h = In-All P l x later h.1

All-In :
    (P : ℕ × PlayerDeathRecord → Type 0) (l : Records)
    → ((x : ℕ × PlayerDeathRecord) → In x l → P x)
    → All P l
All-In P [] f = tt
All-In P (y ∷ l) f = (f y (inl refl), All-In P l (λ x i. f x (inr i)))

Tops-In :
    {K : Type 0} (eligible : PlayerDeathRecord → Bool) (key : PlayerDeathRecord → K)
    (greater : K → K → Bool) (o : IsGreater greater) (best : K) (l : Records)
    (x : ℕ × PlayerDeathRecord)
    → Tops eligible key greater o best l
    → In x l
    → eligible x.1 ≡ true
    → greater (key x.1) best ≡ false
Tops-In eligible key greater o best [] x t i h = absurd i
Tops-In eligible key greater o best (y ∷ l) x t (inl same) h =
    subst (λ z. eligible z.1 ≡ true → greater (key z.1) best ≡ false) (sym same) t.0 h
Tops-In eligible key greater o best (y ∷ l) x t (inr later) h =
    Tops-In eligible key greater o best l x t.1 later h

anyone_alive-In :
    (l : Records)
    → anyone_alive l ≡ true
    → (x : ℕ × PlayerDeathRecord) × In x l × (x.1.is_alive ≡ true)
unfolding anyone_alive
anyone_alive-In [] h = absurd (let no : ⊥ = cc in no)
anyone_alive-In ((pid, rec) ∷ l) h = elim (Bool-cases rec.is_alive) [
  | inl alive ↦ ((pid, rec), inl refl, alive)
  | inr dead ↦ let rest = anyone_alive-In l (ground arith) in (rest.0, inr rest.1, rest.2)
]

not_lowest :
    (score best : ℤ)
    → lowest_score <ℤ score
    → greater_score score best ≡ false
    → best ≢ lowest_score
not_lowest score best h k e =
    let same : greater_score score lowest_score ≡ false = ap (greater_score score) (sym e) ∙ k in
    ground arith

abbrev Survivors : ℤ × ℕ → Records → ℤ × ℕ → Type 0
Survivors = Source (λ rec. rec.is_alive) (λ rec. rec.score) greater_score greater_score-IsGreater

score_le : (s t : ℤ) → greater_score s t ≡ false → s ≤ℤ t
score_le s t h = ground arith

order_le :
    (a b : ℕ) (s t : ℤ)
    → greater_order (pos a, s) (pos b, t) ≡ false
    → (a < b) ⊎ ((a ≡ b) × (s ≤ℤ t))
order_le a b s t h = elim (Bool-cases (ltb a b)) [
  | inl less ↦ inl (ground arith)
  | inr more ↦ inr (ground arith, ground arith)
]

never_lowest : (a : ℕ) (s : ℤ) → greater_order (pos a, s) (negsuc 0, lowest_score) ≢ false
never_lowest a s h = ground arith

survivor_found :
    (l : Records) (result : ℤ × ℕ) (x : ℕ × PlayerDeathRecord)
    → HasScores l
    → Tops (λ rec. rec.is_alive) (λ rec. rec.score) greater_score greater_score-IsGreater result.0 l
    → In x l
    → x.1.is_alive ≡ true
    → Survivors (lowest_score, 0) l result
    → (e : ℕ × PlayerDeathRecord) × In e l × (result.1 ≡ e.0) × BestSurvivor l e
survivor_found l result x scores tops there alive (inl start) = absurd (
    not_lowest x.1.score result.0 (In-All (λ y. lowest_score <ℤ y.1.score) l x there scores)
      (Tops-In _ _ greater_score greater_score-IsGreater result.0 l x tops there alive)
      (ap (λ r. r.0) start))
survivor_found l result x scores tops there alive (inr (e, found, lives, same)) =
    let top : (y : ℕ × PlayerDeathRecord) → In y l → y.1.is_alive ≡ true → y.1.score ≤ℤ e.1.score =
      λ y i h. score_le y.1.score e.1.score (
        ap (λ r. greater_score y.1.score r.0) (sym same)
        ∙ Tops-In (λ rec. rec.is_alive) (λ rec. rec.score) greater_score greater_score-IsGreater
            result.0 l y tops i h) in
    (
      e,
      found,
      ap (λ r. r.1) same,
      (lives, All-In (λ y. y.1.is_alive ≡ true → y.1.score ≤ℤ e.1.score) l top),
    )

best_survivor-BestSurvivor :
    (l : Records)
    → HasScores l
    → anyone_alive l ≡ true
    → (e : ℕ × PlayerDeathRecord) × In e l × (best_survivor l ≡ e.0) × BestSurvivor l e
unfolding best_survivor
best_survivor-BestSurvivor l scores some_alive =
    let promised =
      choose-Promised (λ rec. rec.is_alive) (λ rec. rec.score) greater_score greater_score-IsGreater
        (lowest_score, 0) l in
    let witness = anyone_alive-In l some_alive in
    survivor_found l _ witness.0 scores promised.1 witness.1 witness.2 promised.2

last_found :
    (l : Records) (result : (ℤ × ℤ) × ℕ) (x : ℕ × PlayerDeathRecord)
    → Tops (λ rec. true) order_key greater_order greater_order-IsGreater result.0 l
    → In x l
    → Source
        (λ rec. true)
        order_key
        greater_order
        greater_order-IsGreater
        ((negsuc 0, lowest_score), 0)
        l
        result
    → (e : ℕ × PlayerDeathRecord) × In e l × (result.1 ≡ e.0) × LastAlive l e
last_found l result x tops there (inl start) = absurd (
    never_lowest (rank x.1) x.1.score (
      ap (λ r. greater_order (order_key x.1) r.0) (sym start)
      ∙ Tops-In (λ rec. true) order_key greater_order greater_order-IsGreater result.0 l x tops
          there refl))
last_found l result x tops there (inr (e, found, may, same)) = (
  e,
  found,
  ap (λ r. r.1) same,
  All-In (λ y. (rank y.1 < rank e.1) ⊎ ((rank y.1 ≡ rank e.1) × (y.1.score ≤ℤ e.1.score))) l
      (λ y i. order_le (rank y.1) (rank e.1) y.1.score e.1.score (
        ap (λ r. greater_order (order_key y.1) r.0) (sym same)
        ∙ Tops-In (λ rec. true) order_key greater_order greater_order-IsGreater result.0 l y tops i
            refl)),
)

last_alive-LastAlive :
    (x : ℕ × PlayerDeathRecord) (l : Records)
    → (e : ℕ × PlayerDeathRecord) × In e (x ∷ l) × (last_alive (x ∷ l) ≡ e.0) × LastAlive (x ∷ l) e
unfolding last_alive
last_alive-LastAlive x l =
    let promised =
      choose-Promised (λ rec. true) order_key greater_order greater_order-IsGreater
        ((negsuc 0, lowest_score), 0) (x ∷ l) in
    last_found (x ∷ l) _ x promised.1 (inl refl) promised.2

-- How the winner `e` stands among the players.
abbrev pub Wins : Bool → Records → ℕ × PlayerDeathRecord → Type 0
Wins is_victory l e = if is_victory && anyone_alive l then BestSurvivor l e else LastAlive l e

-- DetermineWinner, where there are players and all have scores above the -999999 that the search
-- starts with: the winner is one of them. After a victory with survivors it is a survivor, and no
-- survivor has more points; otherwise nobody died later than the winner, to have survived counting
-- as the order 99999, and nobody who died as late has more points.
pub determine_winner-Wins :
    (is_victory : Bool) (x : ℕ × PlayerDeathRecord) (l : Records)
    → HasScores (x ∷ l)
    → (e : ℕ × PlayerDeathRecord) × In e (x ∷ l)
      × (determine_winner is_victory (x ∷ l) ≡ e.0)
      × Wins is_victory (x ∷ l) e
unfolding determine_winner
determine_winner-Wins is_victory x l scores =
    elim (Bool-cases (is_victory && anyone_alive (x ∷ l))) [
      | inl survivors ↦
          let found = best_survivor-BestSurvivor (x ∷ l) scores (ground arith) in
          (found.0, found.1, rw (survivors, determine_winner) found.2, rw survivors found.3)
      | inr none_left ↦
          let found = last_alive-LastAlive x l in
          (found.0, found.1, rw (none_left, determine_winner) found.2, rw none_left found.3)
    ]
