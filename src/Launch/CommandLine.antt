-- ===== src/Launch/CommandLine.antt =====
-- src/client.cpp: `build_cli_command_args`.
pub mod Reading
use mathlib.Core.WellFounded.{Acc}
use mathlib.Core.Logic.{dite}
use native.Mathlib.Decide.{dec_lt}
use Prim.Native.String.{◌++◌ as str_append, slice}
use copilot_cpp.Prelude.{
  ℕ, ◌+◌, ◌/◌, ◌<◌, ◌%◌, Bool, true, false, Option, none, some, String, List, [], ◌∷◌, ◌++◌, ltb,
  if◌then◌else◌, arith,
}
use copilot_cpp.Prelude.Order.{lt_wf}
use copilot_cpp.Prelude.Int.{ℤ, pos, negsuc}
use copilot_cpp.Launch.{
  ConnectionKind, stdio, tcp, uri, in_process, parent_process, LogLevel, quiet, error, warning,
  info, debug, everything, Connection, Options, or_else,
}
use copilot_cpp.Launch.Environment.{first_of, of_connection, variables_of}

-- `json(log_level)`
abbrev pub level_name : LogLevel → String
level_name quiet = "none"
level_name error = "error"
level_name warning = "warning"
level_name info = "info"
level_name debug = "debug"
level_name everything = "all"

-- `std::to_string` of a number that is not negative
abbrev digit_text : ℕ → String
digit_text d = slice "0123456789" d (d + 1)

to_digits : (n : ℕ) → Acc ◌<◌ n → String
to_digits n (Acc.intro _ smaller) =
    dite (dec_lt 0 (n / 10))
      (λ h. str_append (to_digits (n / 10) (smaller (n / 10) (omega arith))) (digit_text (n % 10)))
      (λ _. digit_text n)

unfoldable pub to_string : ℕ → String
unfolding to_digits lt_wf dec_lt
to_string n = to_digits n (lt_wf.apply n)

-- `if (n > 0) { push_back(flag); push_back(std::to_string(n)); }`
unfoldable pub positive_flag : String → ℤ → List String
positive_flag flag (negsuc n) = []
positive_flag flag (pos n) = if ltb 0 n then flag ∷ to_string n ∷ [] else []

abbrev pub arguments_of : Option (List String) → List String
arguments_of none = []
arguments_of (some args) = args

abbrev pub effective_kind : Options → ConnectionKind
effective_kind o = elim o.connection [
  | some c ↦ c.kind
  | none ↦ (if o.use_stdio then stdio else tcp)
]

unfoldable pub transport_flags : ConnectionKind → Options → List String
unfolding positive_flag
transport_flags stdio o = "--stdio" ∷ []
transport_flags tcp o =
    positive_flag "--port" (or_else (of_connection (λ c. c.port) o.connection) o.port)
transport_flags uri o = []
transport_flags in_process o = []
transport_flags parent_process o = []

-- what follows the user's arguments
abbrev pub own_arguments : String → List String → List String → Bool → List String
own_arguments level transport idle remote =
    "--server"
    ∷ "--log-level"
    ∷ level
    ∷ (transport ++ (idle ++ (if remote then "--remote" ∷ [] else [])))

-- build_cli_command_args
unfoldable pub build_cli_command_args : Options → List String
unfolding transport_flags positive_flag
build_cli_command_args o =
    arguments_of (first_of (of_connection (λ c. c.args) o.connection) o.cli_args)
    ++ own_arguments (level_name o.log_level) (transport_flags (effective_kind o) o)
        (elim o.session_idle_timeout_seconds [
          | none ↦ []
          | some n ↦ positive_flag "--session-idle-timeout" n
        ])
        o.remote
