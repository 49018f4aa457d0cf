-- ===== src/Tests/Config.antt =====
-- Config on short command lines.
use r_type_j_a_m_e_s.Base.{
  ℕ, ◌+◌, ◌-◌, ◌*◌, ◌≡◌, refl, ◌&&◌, List, [], ◌∷◌, arith, leb, if◌then◌else◌,
}
use r_type_j_a_m_e_s.Base.Int.{ℤ, pos}
use r_type_j_a_m_e_s.Config.{
  Outcome, value, thrown, invalid_argument, Config, default_config, parsed, parse, players_flag,
}
use r_type_j_a_m_e_s.Config.Accepts.{IsConfig, parse-IsConfig}
use r_type_j_a_m_e_s.Config.Lines.{Line, ends, flag, argument, parse-config_of}

-- The digits at the head of a text, as std::stoi reads them.
abbrev number : ℕ → List ℕ → ℕ
number acc [] = acc
number acc (d ∷ ds) =
    let rest = number (acc * 10 + (d - 48)) ds in if leb 48 d && leb d 57 then rest else acc

abbrev stoi : List ℕ → Outcome ℤ
stoi [] = thrown invalid_argument
stoi (d ∷ ds) =
    if leb 48 d && leb d 57 then value (pos (number 0 (d ∷ ds))) else thrown invalid_argument

-- "7000", "8" and "7001".
abbrev tcp_text : List ℕ
tcp_text = 55 ∷ 48 ∷ 48 ∷ 48 ∷ []

abbrev players_text : List ℕ
players_text = 56 ∷ []

abbrev udp_text : List ℕ
udp_text = 55 ∷ 48 ∷ 48 ∷ 49 ∷ []

abbrev line : List (List ℕ)
line = tcp_text ∷ players_flag ∷ players_text ∷ udp_text ∷ []

line-Line : Line stoi line 4 (7000 ∷ 7001 ∷ []) 8
line-Line =
    argument (λ e. cc, λ e. cc, λ e. cc) (refl, omega arith, omega arith)
      (flag (refl, omega arith, omega arith)
        (argument (λ e. cc, λ e. cc, λ e. cc) (refl, omega arith, omega arith) ends))

abbrev line_config : Config
line_config = record default_config { tcp_port = 7000; udp_port = 7001; max_players = 8 }

parse-config_of_example : parse stoi line ≡ parsed line_config
parse-config_of_example = parse-config_of stoi line (7000 ∷ 7001 ∷ []) 8 line-Line

parse-IsConfig_example : IsConfig line_config
parse-IsConfig_example = parse-IsConfig stoi line line_config parse-config_of_example
