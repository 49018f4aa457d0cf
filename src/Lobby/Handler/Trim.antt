-- ===== src/Lobby/Handler/Trim.antt =====
-- Trim: what it cuts off and what it leaves.
use r_type_j_a_m_e_s.Base.{
  ℕ, suc, ◌+◌, ◌-◌, ◌≡◌, refl, sym, ap, subst, ◌∙◌, inl, inr, true, false, none, some, List, [],
  ◌∷◌, ◌++◌, arith, take, drop, All, Bool-cases, Option-cases,
}
use r_type_j_a_m_e_s.Lobby.Handler.{is_blank, find_first_not_of, find_last_not_of, trim}

abbrev pub AllBlank : List ℕ → Type 0
AllBlank = All (λ c. is_blank c ≡ true)

-- The first, and the last, character is not blank, if there is one.
abbrev pub SolidFirst : List ℕ → Type 0
SolidFirst [] = Unit
SolidFirst (c ∷ cs) = is_blank c ≡ false

abbrev pub SolidLast : List ℕ → Type 0
SolidLast [] = Unit
SolidLast (c ∷ []) = is_blank c ≡ false
SolidLast (c ∷ d ∷ cs) = SolidLast (d ∷ cs)

pub record Trimmed (str result : List ℕ) : Type 0 where
  pub before : List ℕ
  pub after : List ℕ
  pub whole : str ≡ before ++ result ++ after
  pub blank_before : AllBlank before
  pub blank_after : AllBlank after
  pub solid_first : SolidFirst result
  pub solid_last : SolidLast result

-- How `find_last_not_of` goes on from the rest of a string.
last_later :
    (c : ℕ) (cs : List ℕ) (i : ℕ)
    → find_last_not_of cs ≡ some i
    → find_last_not_of (c ∷ cs) ≡ some (suc i)
unfolding find_last_not_of
last_later c cs i h = rw h refl

last_here :
    (c : ℕ) (cs : List ℕ)
    → find_last_not_of cs ≡ none
    → is_blank c ≡ false
    → find_last_not_of (c ∷ cs) ≡ some 0
unfolding find_last_not_of
last_here c cs h b = rw (h, b) refl

last_nowhere :
    (c : ℕ) (cs : List ℕ)
    → find_last_not_of cs ≡ none
    → is_blank c ≡ true
    → find_last_not_of (c ∷ cs) ≡ none
unfolding find_last_not_of
last_nowhere c cs h b = rw (h, b) refl

last_none : (cs : List ℕ) → find_last_not_of cs ≡ none → AllBlank cs
last_none [] h = tt
last_none (c ∷ cs) h = elim (Option-cases (find_last_not_of cs)) [
  | inr (j, e) ↦ absurd (cc (last_later c cs j e, h))
  | inl e ↦ elim (Bool-cases (is_blank c)) [
    | inl b ↦ (b, last_none cs e)
    | inr b ↦ absurd (cc (last_here c cs e b, h))
  ]
]

-- The string up to the last character that is not blank.
record Cut (cs : List ℕ) (n : ℕ) : Type 0 where
  rest : List ℕ
  whole : cs ≡ take n cs ++ rest
  blank : AllBlank rest
  solid : SolidLast (take n cs)

some_eq : {i j : ℕ} → some i ≡ some j → i ≡ j
some_eq h = cc

solid-cons :
    (c : ℕ) (cs : List ℕ) (i : ℕ)
    → find_last_not_of cs ≡ some i
    → SolidLast (take (suc i) cs)
    → SolidLast (c ∷ take (suc i) cs)
unfolding find_last_not_of
solid-cons c [] i h s = absurd (cc)
solid-cons c (d ∷ ds) i h s = s

cons-Cut :
    (c : ℕ) (cs : List ℕ) (i : ℕ)
    → find_last_not_of cs ≡ some i
    → Cut cs (suc i)
    → Cut (c ∷ cs) (suc (suc i))
cons-Cut c cs i h k = record {
  rest = k.rest;
  whole = ap (◌∷◌ c) k.whole;
  blank = k.blank;
  solid = solid-cons c cs i h k.solid;
}

last_of_empty : (i : ℕ) → ¬ (find_last_not_of [] ≡ some i)
unfolding find_last_not_of
last_of_empty i h = cc

last-Cut : (cs : List ℕ) (i : ℕ) → find_last_not_of cs ≡ some i → Cut cs (suc i)
last-Cut [] i h = absurd (last_of_empty i h)
last-Cut (c ∷ cs) i h = elim (Option-cases (find_last_not_of cs)) [
  | inr (j, e) ↦
      subst (λ n. Cut (c ∷ cs) (suc n)) (some_eq (sym (last_later c cs j e) ∙ h))
        (cons-Cut c cs j e (last-Cut cs j e))
  | inl e ↦ elim (Bool-cases (is_blank c)) [
    | inl b ↦ absurd (cc (last_nowhere c cs e b, h))
    | inr b ↦
        subst (λ n. Cut (c ∷ cs) (suc n)) (some_eq (sym (last_here c cs e b) ∙ h))
          (record { rest = cs; whole = refl; blank = last_none cs e; solid = b })
  ]
]

first_here : (c : ℕ) (cs : List ℕ) → is_blank c ≡ false → find_first_not_of (c ∷ cs) ≡ some 0
unfolding find_first_not_of
first_here c cs b = rw b refl

first_later :
    (c : ℕ) (cs : List ℕ) (i : ℕ)
    → is_blank c ≡ true
    → find_first_not_of cs ≡ some i
    → find_first_not_of (c ∷ cs) ≡ some (suc i)
unfolding find_first_not_of
first_later c cs i b h = rw (b, h) refl

first_nowhere :
    (c : ℕ) (cs : List ℕ)
    → is_blank c ≡ true
    → find_first_not_of cs ≡ none
    → find_first_not_of (c ∷ cs) ≡ none
unfolding find_first_not_of
first_nowhere c cs b h = rw (b, h) refl

trim_between :
    (str : List ℕ) (i j : ℕ)
    → find_first_not_of str ≡ some i
    → find_last_not_of str ≡ some j
    → trim str ≡ take (j - i + 1) (drop i str)
unfolding trim
trim_between str i j f l = rw (f, l, trim) refl

trim_no_first : (str : List ℕ) → find_first_not_of str ≡ none → trim str ≡ []
unfolding trim
trim_no_first str f = rw (f, trim) refl

trim_no_last :
    (str : List ℕ) (i : ℕ)
    → find_first_not_of str ≡ some i
    → find_last_not_of str ≡ none
    → trim str ≡ []
unfolding trim
trim_no_last str i f l = rw (f, l, trim) refl

-- A blank in front changes nothing.
trim_blank : (c : ℕ) (cs : List ℕ) → is_blank c ≡ true → trim (c ∷ cs) ≡ trim cs
trim_blank c cs b = elim (Option-cases (find_first_not_of cs)) [
  | inl f ↦ trim_no_first (c ∷ cs) (first_nowhere c cs b f) ∙ sym (trim_no_first cs f)
  | inr (i, f) ↦ elim (Option-cases (find_last_not_of cs)) [
    | inl l ↦
        trim_no_last (c ∷ cs) (suc i) (first_later c cs i b f) (last_nowhere c cs l b)
        ∙ sym (trim_no_last cs i f l)
    | inr (j, l) ↦
        let same : suc j - suc i + 1 ≡ j - i + 1 = omega arith in
        trim_between (c ∷ cs) (suc i) (suc j) (first_later c cs i b f) (last_later c cs j l)
        ∙ ap (λ n. take n (drop i cs)) same
        ∙ sym (trim_between cs i j f l)
  ]
]

-- With another character in front the string is cut behind the last one that is not blank.
trim_solid :
    (c : ℕ) (cs : List ℕ) (i : ℕ)
    → is_blank c ≡ false
    → find_last_not_of (c ∷ cs) ≡ some i
    → trim (c ∷ cs) ≡ take (suc i) (c ∷ cs)
trim_solid c cs i b h =
    let same : i - 0 + 1 ≡ suc i = omega arith in
    trim_between (c ∷ cs) 0 i (first_here c cs b) h ∙ ap (λ n. take n (c ∷ cs)) same

solid-Trimmed :
    (c : ℕ) (cs : List ℕ) (i : ℕ)
    → is_blank c ≡ false
    → find_last_not_of (c ∷ cs) ≡ some i
    → Trimmed (c ∷ cs) (trim (c ∷ cs))
solid-Trimmed c cs i b h =
    let k = last-Cut (c ∷ cs) i h in
    subst (Trimmed (c ∷ cs)) (sym (trim_solid c cs i b h)) (record {
      before = [];
      after = k.rest;
      whole = k.whole;
      blank_before = tt;
      blank_after = k.blank;
      solid_first = b;
      solid_last = k.solid;
    })

empty-Trimmed : Trimmed [] (trim [])
unfolding trim find_first_not_of
empty-Trimmed = record {
  before = [];
  after = [];
  whole = refl;
  blank_before = tt;
  blank_after = tt;
  solid_first = tt;
  solid_last = tt;
}

-- Trim cuts blanks off both ends and nothing else, and what it leaves is empty or begins and ends
-- with a character that is neither a space nor a tab.
pub trim-Trimmed : (str : List ℕ) → Trimmed str (trim str)
trim-Trimmed [] = empty-Trimmed
trim-Trimmed (c ∷ cs) = elim (Bool-cases (is_blank c)) [
  | inl b ↦
      let t = trim-Trimmed cs in
      subst (Trimmed (c ∷ cs)) (sym (trim_blank c cs b)) (record {
        before = c ∷ t.before;
        after = t.after;
        whole = ap (◌∷◌ c) t.whole;
        blank_before = (b, t.blank_before);
        blank_after = t.blank_after;
        solid_first = t.solid_first;
        solid_last = t.solid_last;
      })
  | inr b ↦ elim (Option-cases (find_last_not_of cs)) [
    | inl e ↦ solid-Trimmed c cs 0 b (last_here c cs e b)
    | inr (j, e) ↦ solid-Trimmed c cs (suc j) b (last_later c cs j e)
  ]
]
