-- ===== src/Config/Accepts.antt =====
-- What command lines Config accepts, and what it makes of them.
use r_type_j_a_m_e_s.Base.{
  ℕ, ◌+◌, ◌≤◌, ◌≡◌, refl, subst, ◌||◌, inl, inr, ◌⊎◌, ltb, Bool-cases, ◌<◌, ◌%◌, List, [], ◌∷◌,
  arith, ◌==◌,
}
use native.Mathlib.Nat.{mod-eq_of_lt}
use r_type_j_a_m_e_s.Base.Int.{ℤ, pos, negsuc}
use r_type_j_a_m_e_s.Lobby.Connections.{eq_bytes}
use r_type_j_a_m_e_s.Config.{
  Exception, out_of_range, Outcome, value, thrown, Config, default_config, Parsed, parsed, helped,
  failed, cast, ranged, players_flag, help_flag, long_help_flag, set_max_players, set_tcp_port,
  set_udp_port, go_on, select, finish, string_to_port, parse_max_players, parse_positional_args,
  parse_args, parse,
}

-- The ports are from 1 to 65535, the number of players from 1 to 255.
pub record IsConfig (config : Config) : Type 0 where
  pub tcp_port : (1 ≤ config.tcp_port) × (config.tcp_port ≤ 65535)
  pub udp_port : (1 ≤ config.udp_port) × (config.udp_port ≤ 65535)
  pub max_players : (1 ≤ config.max_players) × (config.max_players ≤ 255)

-- What holds of a value, and of the Config that was parsed.
abbrev Holds : {A : Type 0} → (A → Type 0) → Outcome A → Type 0
Holds P (value a) = P a
Holds P (thrown e) = Unit

abbrev pub Good : Parsed → Type 0
Good (parsed config) = IsConfig config
Good helped = Unit
Good (failed e) = Unit

pub ranged_pos : (high n : ℕ) → 1 ≤ n → n ≤ high → ranged high (value (pos n)) ≡ value n
unfolding ranged cast
ranged_pos high n low h =
    let m : n % (high + 1) ≡ n = mod-eq_of_lt (omega arith) in ground (arith, m)

ranged-thrown :
    (high n : ℕ) → (n < 1) ⊎ (high < n) → ranged high (value (pos n)) ≡ thrown out_of_range
unfolding ranged
ranged-thrown high n (inl h) = ground arith
ranged-thrown high n (inr h) = ground arith

ranged_negsuc : (high n : ℕ) → ranged high (value (negsuc n)) ≡ thrown out_of_range
unfolding ranged
ranged_negsuc high n = ground arith

ranged_error : (high : ℕ) (e : Exception) → ranged high (thrown e) ≡ thrown e
unfolding ranged
ranged_error high e = refl

ranged-Holds : (high : ℕ) (r : Outcome ℤ) → Holds (λ n. (1 ≤ n) × (n ≤ high)) (ranged high r)
ranged-Holds high (value (pos n)) = elim (Bool-cases (ltb n 1 || ltb high n)) [
  | inl out ↦ rw (ranged-thrown high n (ground arith)) tt
  | inr fits ↦ rw (ranged_pos high n (ground arith) (ground arith)) (ground arith, ground arith)
]
ranged-Holds high (value (negsuc n)) = rw (ranged_negsuc high n) tt
ranged-Holds high (thrown e) = rw (ranged_error high e) tt

select-Good : (arg : List ℕ) (a b : Parsed) → Good a → Good b → Good (select arg a b)
unfolding select
select-Good arg a b p q =
    elim (Bool-cases (eq_bytes arg help_flag || eq_bytes arg long_help_flag)) [
      | inl h ↦ rw h tt
      | inr h ↦
          rw h (elim (Bool-cases (eq_bytes arg players_flag)) [ inl k ↦ rw k p | inr k ↦ rw k q ])
    ]

go_on-Good :
    {A : Type 0} (P : A → Type 0) (f : A → Parsed) (o : Outcome A)
    → ((a : A) → P a → Good (f a))
    → Holds P o
    → Good (go_on f o)
unfolding go_on
go_on-Good P f (value a) h p = h a p
go_on-Good P f (thrown e) h p = tt

finish-Good : (s : ℕ × Config) → IsConfig s.1 → Good (finish s)
unfolding finish
finish-Good (i, c) h = elim (Bool-cases (i == 1)) [
  | inl e ↦
      rw e (record { tcp_port = h.tcp_port; udp_port = h.tcp_port; max_players = h.max_players })
  | inr e ↦ rw e h
]

max_players-Holds :
    (c : Config) (r : Outcome ℕ)
    → IsConfig c
    → Holds (λ n. (1 ≤ n) × (n ≤ 255)) r
    → Holds IsConfig (set_max_players c r)
unfolding set_max_players
max_players-Holds c (value n) h p = record {
  tcp_port = h.tcp_port;
  udp_port = h.udp_port;
  max_players = p;
}
max_players-Holds c (thrown e) h p = tt

tcp_port-Holds :
    (c : Config) (r : Outcome ℕ)
    → IsConfig c
    → Holds (λ n. (1 ≤ n) × (n ≤ 65535)) r
    → Holds (λ t. IsConfig t.1) (set_tcp_port c r)
unfolding set_tcp_port
tcp_port-Holds c (value n) h p = record {
  tcp_port = p;
  udp_port = h.udp_port;
  max_players = h.max_players;
}
tcp_port-Holds c (thrown e) h p = tt

udp_port-Holds :
    (c : Config) (r : Outcome ℕ)
    → IsConfig c
    → Holds (λ n. (1 ≤ n) × (n ≤ 65535)) r
    → Holds (λ t. IsConfig t.1) (set_udp_port c r)
unfolding set_udp_port
udp_port-Holds c (value n) h p = record {
  tcp_port = h.tcp_port;
  udp_port = p;
  max_players = h.max_players;
}
udp_port-Holds c (thrown e) h p = tt

module _ (stoi : List ℕ → Outcome ℤ) where
  positional-Holds :
      (arg : List ℕ) (i : ℕ) (c : Config)
      → IsConfig c
      → Holds (λ t. IsConfig t.1) (parse_positional_args stoi arg i c)
  unfolding parse_positional_args
  positional-Holds arg i c h =
      let r = string_to_port stoi arg in
      elim (Bool-cases (i == 0)) [
        | inl e ↦ rw e (tcp_port-Holds c _ h (ranged-Holds 65535 r))
        | inr e ↦ rw e (elim (Bool-cases (i == 1)) [
          | inl k ↦ rw k (udp_port-Holds c _ h (ranged-Holds 65535 r))
          | inr k ↦ rw k tt
        ])
      ]

  parse_args-Good :
      (args : List (List ℕ)) (s : ℕ × Config) → IsConfig s.1 → Good (parse_args stoi args s)
  unfolding parse_args parse_max_players
  parse_args-Good [] s h = finish-Good s h
  parse_args-Good (arg ∷ []) s h =
      select-Good arg _ _ tt
        (go_on-Good (λ t. IsConfig t.1) finish _ finish-Good (positional-Holds arg s.0 s.1 h))
  parse_args-Good (arg ∷ next ∷ rest) s h =
      select-Good arg _ _
        (go_on-Good IsConfig (λ c. parse_args stoi rest (s.0, c)) _
          (λ c k. parse_args-Good rest (s.0, c) k)
          (max_players-Holds s.1 _ h (ranged-Holds 255 (stoi next))))
        (go_on-Good (λ t. IsConfig t.1) (λ t. parse_args stoi (next ∷ rest) t) _
          (λ t k. parse_args-Good (next ∷ rest) t k) (positional-Holds arg s.0 s.1 h))

  -- Whatever the command line is and whatever std::stoi makes of it, a Config that Parse returns
  -- has both ports from 1 to 65535 and the number of players from 1 to 255.
  pub parse-IsConfig : (args : List (List ℕ)) (c : Config) → parse stoi args ≡ parsed c → IsConfig c
  unfolding parse
  parse-IsConfig args c e = subst Good e (
      parse_args-Good args (0, default_config)
        (record {
          tcp_port = (omega arith, omega arith);
          udp_port = (omega arith, omega arith);
          max_players = (omega arith, omega arith);
        }))
