-- ===== src/Config/Lines.antt =====
-- The command lines of the server, and what Config makes of each.
use r_type_j_a_m_e_s.Base.{
  ℕ, zero, suc, ◌≤◌, ◌≡◌, ◌≢◌, refl, ap, ◌∙◌, inl, inr, false, Bool-cases, List, [], ◌∷◌, arith,
}
use r_type_j_a_m_e_s.Base.Int.{ℤ, pos}
use r_type_j_a_m_e_s.Lobby.Connections.{eq_bytes}
use r_type_j_a_m_e_s.Lobby.Connections.Entries.{eq_bytes_sound}
use r_type_j_a_m_e_s.Config.{
  invalid_argument, Outcome, value, thrown, Config, default_config, Parsed, parsed, failed, ranged,
  players_flag, help_flag, long_help_flag, set_max_players, set_tcp_port, set_udp_port, go_on,
  select, finish, string_to_port, parse_max_players, parse_positional_args, parse_args, parse,
}
use r_type_j_a_m_e_s.Config.Accepts.{ranged_pos}

-- An argument that is no flag.
abbrev pub IsPositional : List ℕ → Type 0
IsPositional arg = (arg ≢ help_flag) × (arg ≢ long_help_flag) × (arg ≢ players_flag)

-- What a command line with these ports and this number of players is to give: without a second
-- port, UDP has the one of TCP.
abbrev pub config_of : List ℕ → ℕ → Parsed
config_of [] players = parsed (record default_config { max_players = players })
config_of (port ∷ []) players =
    parsed (record default_config { tcp_port = port; udp_port = port; max_players = players })
config_of (tcp ∷ udp ∷ []) players =
    parsed (record default_config { tcp_port = tcp; udp_port = udp; max_players = players })
config_of (tcp ∷ udp ∷ port ∷ more) players = failed invalid_argument

module _ (stoi : List ℕ → Outcome ℤ) where
  -- A text is a number from 1 to `high`.
  abbrev pub Reads : List ℕ → ℕ → ℕ → Type 0
  Reads text high n = (stoi text ≡ value (pos n)) × (1 ≤ n) × (n ≤ high)

  -- A line of ports and flags `-p`, with the number of players before it and behind it.
  pub data Line : List (List ℕ) → ℕ → List ℕ → ℕ → Type 0 where
    ends : {p : ℕ} → Line [] p [] p
    flag :
        {text : List ℕ} {rest : List (List ℕ)} {ports : List ℕ} {n p q : ℕ}
        → Reads text 255 n
        → Line rest n ports q
        → Line (players_flag ∷ text ∷ rest) p ports q
    argument :
        {arg : List ℕ} {rest : List (List ℕ)} {ports : List ℕ} {n p q : ℕ}
        → IsPositional arg
        → Reads arg 65535 n
        → Line rest p ports q
        → Line (arg ∷ rest) p (n ∷ ports) q

  -- What is left to do at a positional index.
  abbrev done : ℕ → Config → List ℕ → ℕ → Parsed
  done i c [] q = finish (i, record c { max_players = q })
  done zero c (n ∷ ns) q = done 1 (record c { tcp_port = n }) ns q
  done (suc zero) c (n ∷ ns) q = done 2 (record c { udp_port = n }) ns q
  done (suc (suc i)) c (n ∷ ns) q = failed invalid_argument

  other_text : (xs ys : List ℕ) → xs ≢ ys → eq_bytes xs ys ≡ false
  other_text xs ys h = elim (Bool-cases (eq_bytes xs ys)) [
    | inl e ↦ absurd (h (eq_bytes_sound xs ys e))
    | inr e ↦ e
  ]

  select-positional : (arg : List ℕ) (a b : Parsed) → IsPositional arg → select arg a b ≡ b
  unfolding select
  select-positional arg a b (h, l, p) =
      rw
        (other_text arg help_flag h, other_text arg long_help_flag l, other_text arg players_flag p)
        refl

  select-players : (a b : Parsed) → select players_flag a b ≡ a
  unfolding select eq_bytes
  select-players a b = refl

  parse_args-positional :
      (arg : List ℕ) (rest : List (List ℕ)) (s : ℕ × Config)
      → IsPositional arg
      → parse_args stoi (arg ∷ rest) s
        ≡ go_on (λ t. parse_args stoi rest t) (parse_positional_args stoi arg s.0 s.1)
  unfolding parse_args
  parse_args-positional arg [] s h = select-positional arg _ _ h
  parse_args-positional arg (next ∷ rest) s h = select-positional arg _ _ h

  parse_args-players :
      (text : List ℕ) (rest : List (List ℕ)) (s : ℕ × Config) (n : ℕ)
      → Reads text 255 n
      → parse_args stoi (players_flag ∷ text ∷ rest) s
        ≡ parse_args stoi rest (s.0, record s.1 { max_players = n })
  unfolding parse_args parse_max_players go_on set_max_players
  parse_args-players text rest s n (e, low, high) =
      select-players
        (go_on (λ config. parse_args stoi rest (s.0, config)) (parse_max_players stoi text s.1))
        (go_on (λ t. parse_args stoi (text ∷ rest) t)
          (parse_positional_args stoi players_flag s.0 s.1))
      ∙ ap
          (λ r.
            go_on (λ config. parse_args stoi rest (s.0, config))
              (set_max_players s.1 (ranged 255 r)))
          e
      ∙ ap (λ r. go_on (λ config. parse_args stoi rest (s.0, config)) (set_max_players s.1 r))
          (ranged_pos 255 n low high)

  port_read :
      (arg : List ℕ) (n : ℕ) → Reads arg 65535 n → ranged 65535 (string_to_port stoi arg) ≡ value n
  unfolding string_to_port
  port_read arg n (e, low, high) = rw (string_to_port, e) (ranged_pos 65535 n low high)

  tcp_port_read :
      (arg : List ℕ) (c : Config) (n : ℕ)
      → Reads arg 65535 n
      → parse_positional_args stoi arg 0 c ≡ value (1, record c { tcp_port = n })
  unfolding parse_positional_args string_to_port set_tcp_port
  tcp_port_read arg c n h = ap (set_tcp_port c) (port_read arg n h)

  udp_port_read :
      (arg : List ℕ) (c : Config) (n : ℕ)
      → Reads arg 65535 n
      → parse_positional_args stoi arg 1 c ≡ value (2, record c { udp_port = n })
  unfolding parse_positional_args string_to_port set_udp_port
  udp_port_read arg c n h = ap (set_udp_port c) (port_read arg n h)

  third_port :
      (arg : List ℕ) (i : ℕ) (c : Config)
      → parse_positional_args stoi arg (suc (suc i)) c ≡ thrown invalid_argument
  unfolding parse_positional_args
  third_port arg i c = ground arith

  parse_args-done :
      {args : List (List ℕ)} {ports : List ℕ} {p q : ℕ} (i : ℕ) (c : Config)
      → Line args p ports q
      → parse_args stoi args (i, record c { max_players = p }) ≡ done i c ports q
  unfolding parse_args
  parse_args-done i c ends = refl
  parse_args-done i c (flag {text} {rest} {ports} {n} {p} h l) =
      parse_args-players text rest (i, record c { max_players = p }) n h ∙ parse_args-done i c l
  parse_args-done zero c (argument {arg} {rest} {ports} {n} {p} k h l) =
      parse_args-positional arg rest (0, record c { max_players = p }) k
      ∙ ap (go_on (λ t. parse_args stoi rest t))
          (tcp_port_read arg (record c { max_players = p }) n h)
      ∙ parse_args-done 1 (record c { tcp_port = n }) l
  parse_args-done (suc zero) c (argument {arg} {rest} {ports} {n} {p} k h l) =
      parse_args-positional arg rest (1, record c { max_players = p }) k
      ∙ ap (go_on (λ t. parse_args stoi rest t))
          (udp_port_read arg (record c { max_players = p }) n h)
      ∙ parse_args-done 2 (record c { udp_port = n }) l
  parse_args-done (suc (suc i)) c (argument {arg} {rest} {ports} {n} {p} k h l) =
      parse_args-positional arg rest (suc (suc i), record c { max_players = p }) k
      ∙ ap (go_on (λ t. parse_args stoi rest t)) (third_port arg i (record c { max_players = p }))

  -- A command line of ports and of flags `-p`, each with a number in its range as std::stoi reads
  -- it, in any order: Parse gives the ports in their order, the number of players of the last flag,
  -- and what the line does not set by default, where the one port of a line is that of TCP and UDP;
  -- a third port throws std::invalid_argument.
  pub parse-config_of :
      (args : List (List ℕ)) (ports : List ℕ) (q : ℕ)
      → Line args 4 ports q
      → parse stoi args ≡ config_of ports q
  unfolding parse finish
  parse-config_of args [] q l = parse_args-done 0 default_config l
  parse-config_of args (t ∷ []) q l = parse_args-done 0 default_config l
  parse-config_of args (t ∷ u ∷ []) q l = parse_args-done 0 default_config l
  parse-config_of args (t ∷ u ∷ v ∷ more) q l = parse_args-done 0 default_config l
