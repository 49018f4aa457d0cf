-- ===== src/Config.antt =====
-- Config of server/src/server/Config.cpp and server/include/server/Config.hpp: the ports and the
-- number of players that the command line gives. An argument is the list of its bytes, argv[0] is
-- left out, and std::stoi is a parameter. What is printed is left out; an exception is a value.
pub mod Accepts
pub mod Lines
use r_type_j_a_m_e_s.Base.{ℕ, ◌+◌, ◌-◌, ◌%◌, Bool, ◌||◌, List, [], ◌∷◌, ◌==◌, if◌then◌else◌}
use r_type_j_a_m_e_s.Base.Int.{ℤ, pos, negsuc, less_than}
use r_type_j_a_m_e_s.Lobby.Connections.{eq_bytes}

pub data Exception : Type 0 where
  invalid_argument : Exception
  out_of_range : Exception

pub data Outcome (A : Type 0) : Type 0 where
  value : A → Outcome A
  thrown : Exception → Outcome A

-- The text "0.0.0.0".
abbrev pub default_address : List ℕ
default_address = 48 ∷ 46 ∷ 48 ∷ 46 ∷ 48 ∷ 46 ∷ 48 ∷ []

pub record Config : Type 0 where
  pub tcp_address : List ℕ
  pub tcp_port : ℕ
  pub udp_address : List ℕ
  pub udp_port : ℕ
  pub max_players : ℕ

abbrev pub default_config : Config
default_config = record {
  tcp_address = default_address;
  tcp_port = 50000;
  udp_address = default_address;
  udp_port = 50000;
  max_players = 4;
}

-- What Parse does: a Config, the help text and the end of the process, or an exception.
pub data Parsed : Type 0 where
  parsed : Config → Parsed
  helped : Parsed
  failed : Exception → Parsed

-- static_cast of an int to an unsigned type with `modulus` values.
unfoldable pub cast : ℕ → ℤ → ℕ
cast modulus (pos n) = n % modulus
cast modulus (negsuc n) = modulus - 1 - n % modulus

-- The range check behind std::stoi, and the cast: from 1 to `high`, which is the highest value of
-- the type.
unfoldable pub ranged : ℕ → Outcome ℤ → Outcome ℕ
unfolding cast
ranged high (value n) =
    if less_than n (pos 1) || less_than (pos high) n
    then thrown out_of_range
    else value (cast (high + 1) n)
ranged high (thrown e) = thrown e

-- The texts "-p", "-h" and "--help".
abbrev pub players_flag : List ℕ
players_flag = 45 ∷ 112 ∷ []

abbrev pub help_flag : List ℕ
help_flag = 45 ∷ 104 ∷ []

abbrev pub long_help_flag : List ℕ
long_help_flag = 45 ∷ 45 ∷ 104 ∷ 101 ∷ 108 ∷ 112 ∷ []

unfoldable pub set_max_players : Config → Outcome ℕ → Outcome Config
set_max_players config (value n) = value (record config { max_players = n })
set_max_players config (thrown e) = thrown e

unfoldable pub set_tcp_port : Config → Outcome ℕ → Outcome (ℕ × Config)
set_tcp_port config (value n) = value (1, record config { tcp_port = n })
set_tcp_port config (thrown e) = thrown e

unfoldable pub set_udp_port : Config → Outcome ℕ → Outcome (ℕ × Config)
set_udp_port config (value n) = value (2, record config { udp_port = n })
set_udp_port config (thrown e) = thrown e

-- The rest of the loop, where nothing was thrown.
unfoldable pub go_on : {A : Type 0} → (A → Parsed) → Outcome A → Parsed
go_on rest (value a) = rest a
go_on rest (thrown e) = failed e

-- The three branches of the loop's body.
unfoldable pub select : List ℕ → Parsed → Parsed → Parsed
unfolding eq_bytes
select arg players positional =
    if eq_bytes arg help_flag || eq_bytes arg long_help_flag
    then helped
    else if eq_bytes arg players_flag
    then players
    else positional

-- The end of Parse.
unfoldable pub finish : ℕ × Config → Parsed
finish (positional_index, config) =
    parsed (if positional_index == 1 then record config { udp_port = config.tcp_port } else config)

module _ (stoi : List ℕ → Outcome ℤ) where
  unfoldable pub string_to_port : List ℕ → Outcome ℤ
  string_to_port str = elim (stoi str) [ value n ↦ value n | thrown e ↦ thrown invalid_argument ]

  unfoldable pub parse_max_players : List ℕ → Config → Outcome Config
  unfolding ranged set_max_players
  parse_max_players arg config = set_max_players config (ranged 255 (stoi arg))

  unfoldable pub parse_positional_args : List ℕ → ℕ → Config → Outcome (ℕ × Config)
  unfolding string_to_port ranged set_tcp_port set_udp_port
  parse_positional_args arg positional_index config =
      if positional_index == 0
      then set_tcp_port config (ranged 65535 (string_to_port arg))
      else if positional_index == 1
      then set_udp_port config (ranged 65535 (string_to_port arg))
      else thrown invalid_argument

  -- The loop of Parse over the arguments that are left.
  unfoldable pub parse_args : List (List ℕ) → ℕ × Config → Parsed
  unfolding parse_max_players parse_positional_args go_on select finish
  parse_args [] s = finish s
  parse_args (arg ∷ []) s =
      select arg (failed invalid_argument) (go_on finish (parse_positional_args arg s.0 s.1))
  parse_args (arg ∷ next ∷ rest) s =
      select arg (go_on (λ config. parse_args rest (s.0, config)) (parse_max_players next s.1))
        (go_on (λ t. parse_args (next ∷ rest) t) (parse_positional_args arg s.0 s.1))

  unfoldable pub parse : List (List ℕ) → Parsed
  unfolding parse_args
  parse args = parse_args args (0, default_config)
