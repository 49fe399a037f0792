-- ===== src/Launch/CommandLine/Reading.antt =====
-- src/client.cpp: the command line of the runtime, read back.
use copilot_cpp.Prelude.{
  suc, zero, Bool, true, false, Option, none, some, String, List, [], ◌∷◌, ◌++◌, ◌≡◌, refl, ap, ltb,
  if◌then◌else◌, arith,
}
use copilot_cpp.Prelude.Text.{str_eq}
use copilot_cpp.Prelude.Int.{ℤ, pos, negsuc}
use copilot_cpp.Launch.{
  ConnectionKind, stdio, tcp, uri, in_process, parent_process, Options, or_else,
}
use copilot_cpp.Launch.Environment.{first_of, of_connection}
use copilot_cpp.Launch.CommandLine.{
  level_name, to_string, positive_flag, arguments_of, effective_kind, transport_flags,
  own_arguments, build_cli_command_args,
}

-- What the runtime is told by the flags that it knows.
pub record Flags : Type 0 where
  pub server : Bool
  pub log_level : Option String
  pub on_stdio : Bool
  pub port : Option String
  pub idle_timeout : Option String
  pub remote : Bool

abbrev pub no_flags : Flags
no_flags = record {
  server = false;
  log_level = none;
  on_stdio = false;
  port = none;
  idle_timeout = none;
  remote = false;
}

-- A reader of a command line: flags alone, flags with a value, and nothing else.
abbrev pub switch : String → Flags → Option Flags
switch x f =
    if str_eq x "--server"
    then some (record f { server = true })
    else if str_eq x "--stdio"
    then some (record f { on_stdio = true })
    else if str_eq x "--remote"
    then some (record f { remote = true })
    else none

abbrev pub setting : String → String → Flags → Option Flags
setting x v f =
    if str_eq x "--log-level"
    then some (record f { log_level = some v })
    else if str_eq x "--port"
    then some (record f { port = some v })
    else if str_eq x "--session-idle-timeout"
    then some (record f { idle_timeout = some v })
    else none

abbrev pub read_flags : List String → Flags → Option Flags
read_flags [] f = some f
read_flags (x ∷ []) f = switch x f
read_flags (x ∷ y ∷ rest) f = elim (switch x f) [
  | some f' ↦ read_flags (y ∷ rest) f'
  | none ↦ (elim (setting x y f) [ some f' ↦ read_flags rest f' | none ↦ none ])
]

-- The text of a positive number; other numbers are not passed on.
abbrev pub positive : ℤ → Option String
positive (negsuc n) = none
positive (pos zero) = none
positive (pos (suc n)) = some (to_string (suc n))

abbrev pub idle_of : Option ℤ → Option String
idle_of none = none
idle_of (some n) = positive n

abbrev pub port_of : ConnectionKind → ℤ → Option String
port_of tcp n = positive n
port_of _ n = none

abbrev pub is_stdio : ConnectionKind → Bool
is_stdio stdio = true
is_stdio _ = false

-- What the options mean.
abbrev pub meant : Options → Flags
meant o = record {
  server = true;
  log_level = some (level_name o.log_level);
  on_stdio = is_stdio (effective_kind o);
  port = port_of (effective_kind o) (or_else (of_connection (λ c. c.port) o.connection) o.port);
  idle_timeout = idle_of o.session_idle_timeout_seconds;
  remote = o.remote;
}

-- A flag with its value, if there is one.
abbrev flag_of : String → Option String → List String
flag_of flag none = []
flag_of flag (some v) = flag ∷ v ∷ []

positive_flag_lem : (flag : String) (n : ℤ) → positive_flag flag n ≡ flag_of flag (positive n)
unfolding positive_flag
positive_flag_lem flag (negsuc n) = refl
positive_flag_lem flag (pos zero) = refl
positive_flag_lem flag (pos (suc n)) =
    let e : ltb 0 (suc n) ≡ true = ground arith in rw (e, positive_flag) refl

idle_flag_lem :
    (o : Option ℤ)
    → (elim o [ none ↦ [] | some n ↦ positive_flag "--session-idle-timeout" n ])
      ≡ flag_of "--session-idle-timeout" (idle_of o)
idle_flag_lem none = refl
idle_flag_lem (some n) = positive_flag_lem "--session-idle-timeout" n

transport_flags_lem :
    (k : ConnectionKind) (o : Options)
    → transport_flags k o
      ≡ (if is_stdio k then "--stdio" ∷ [] else [])
        ++ flag_of "--port" (port_of k (or_else (of_connection (λ c. c.port) o.connection) o.port))
unfolding transport_flags
transport_flags_lem stdio o = refl
transport_flags_lem tcp o = positive_flag_lem "--port" _
transport_flags_lem uri o = refl
transport_flags_lem in_process o = refl
transport_flags_lem parent_process o = refl

abbrev own_flags : String → Bool → Option String → Option String → Bool → List String
own_flags level on_stdio port idle remote =
    own_arguments level ((if on_stdio then "--stdio" ∷ [] else []) ++ flag_of "--port" port)
      (flag_of "--session-idle-timeout" idle) remote

read_own :
    (level : String) (on_stdio : Bool) (port idle : Option String) (remote : Bool)
    → read_flags (own_flags level on_stdio port idle remote) no_flags
      ≡ some (record {
        server = true;
        log_level = some level;
        on_stdio = on_stdio;
        port = port;
        idle_timeout = idle;
        remote = remote;
      })
read_own level true none none true = refl
read_own level true none none false = refl
read_own level true none (some i) true = refl
read_own level true none (some i) false = refl
read_own level true (some p) none true = refl
read_own level true (some p) none false = refl
read_own level true (some p) (some i) true = refl
read_own level true (some p) (some i) false = refl
read_own level false none none true = refl
read_own level false none none false = refl
read_own level false none (some i) true = refl
read_own level false none (some i) false = refl
read_own level false (some p) none true = refl
read_own level false (some p) none false = refl
read_own level false (some p) (some i) true = refl
read_own level false (some p) (some i) false = refl

-- The command line is the user's arguments followed by flags from which a reader of flags gets back
-- what the options mean: server mode, the log level, stdio or a positive port, a positive idle
-- timeout, and remote sessions.
pub build_cli_command_args-read :
    (o : Options)
    → (own : List String) × (build_cli_command_args o
        ≡ arguments_of (first_of (of_connection (λ c. c.args) o.connection) o.cli_args) ++ own)
      × (read_flags own no_flags ≡ some (meant o))
unfolding build_cli_command_args
build_cli_command_args-read o =
    let f = meant o in
    (
      own_flags (level_name o.log_level) f.on_stdio f.port f.idle_timeout f.remote,
      ap (◌++◌ (arguments_of (first_of (of_connection (λ c. c.args) o.connection) o.cli_args)))
          (λ i.
            own_arguments (level_name o.log_level) (transport_flags_lem (effective_kind o) o i)
              (idle_flag_lem o.session_idle_timeout_seconds i) o.remote),
      read_own (level_name o.log_level) f.on_stdio f.port f.idle_timeout f.remote,
    )
