-- ===== src/Launch.antt =====
-- include/copilot/types.hpp and src/client.cpp: the options of a client, and what its constructor
-- makes of them.
pub mod CommandLine
pub mod Environment
pub mod Validation
use copilot_cpp.Prelude.{
  Bool, true, false, not, ◌&&◌, ◌||◌, Option, none, some, String, List, [], ◌∷◌, if◌then◌else◌,
  is_some,
}
use copilot_cpp.Prelude.Text.{str_eq}
use copilot_cpp.Prelude.Int.{ℤ, pos}
use copilot_cpp.Prelude.Exec.{Result, ok, err}
use copilot_cpp.Prelude.Try.{◌>>=◌, ◌>>◌}

-- `RuntimeConnectionKind`
pub data ConnectionKind : Type 0 where
  stdio tcp uri in_process parent_process : ConnectionKind

-- `ClientMode`
pub data ClientMode : Type 0 where
  copilot_cli empty : ClientMode

-- `LogLevel`
pub data LogLevel : Type 0 where
  quiet error warning info debug everything : LogLevel

-- `std::map<std::string, std::string>`, as an association list in which the first entry counts
abbrev pub Variables : Type 0
Variables = List (String × String)

-- `RuntimeConnection`
pub record Connection : Type 0 where
  pub kind : ConnectionKind
  pub path : Option String
  pub args : Option (List String)
  pub environment : Option Variables
  pub port : Option ℤ
  pub connection_token : Option String
  pub url : Option String

-- `TelemetryConfig`
pub record Telemetry : Type 0 where
  pub otlp_endpoint : Option String
  pub otlp_protocol : Option String
  pub file_path : Option String
  pub exporter_type : Option String
  pub source_name : Option String
  pub capture_content : Option Bool

-- `ClientOptions`, with the fields that the constructor and the launch of the runtime read.
-- `session_fs` has the conventions only.
pub record Options : Type 0 where
  pub connection : Option Connection
  pub mode : ClientMode
  pub working_directory : Option String
  pub base_directory : Option String
  pub builtin_plugin_directories : Option (List String)
  pub telemetry : Option Telemetry
  pub session_fs : Option String
  pub cli_path : Option String
  pub cli_args : Option (List String)
  pub cwd : Option String
  pub port : ℤ
  pub use_stdio : Bool
  pub cli_url : Option String
  pub log_level : LogLevel
  pub environment : Option Variables
  pub github_token : Option String
  pub use_logged_in_user : Option Bool
  pub tcp_connection_token : Option String
  pub copilot_home : Option String
  pub session_idle_timeout_seconds : Option ℤ
  pub remote : Bool
  pub enable_remote_sessions : Option Bool

-- `if (first && !second) second = first`
abbrev pub unless_set {ℓ} : {A : Type ℓ} → Option A → Option A → Option A
unless_set second none = second
unless_set none (some a) = some a
unless_set (some b) (some a) = some b

-- `if (first) second = first`
abbrev pub assigned {ℓ} : {A : Type ℓ} → Option A → Option A → Option A
assigned second none = second
assigned second (some a) = some a

-- `optional.value_or(default)`
abbrev pub or_else {ℓ} : {A : Type ℓ} → Option A → A → A
or_else none d = d
or_else (some a) d = a

-- the aliases at the head of the constructor
unfoldable pub apply_aliases : Options → Options
apply_aliases o = record o {
  cwd = unless_set o.cwd o.working_directory;
  copilot_home = unless_set o.copilot_home o.base_directory;
  remote = or_else o.enable_remote_sessions o.remote;
}

-- `if (bad) throw std::invalid_argument(message)`
unfoldable pub refuse_if : Bool → String → Result String (Unit {0})
refuse_if bad message = if bad then err message else ok tt

abbrev pub is_some_and {ℓ} : {A : Type ℓ} → (A → Bool) → Option A → Bool
is_some_and p none = false
is_some_and p (some a) = p a

abbrev pub any : (String → Bool) → List String → Bool
any p [] = false
any p (x ∷ xs) = p x || any p xs

abbrev pub is_empty_mode : ClientMode → Bool
is_empty_mode empty = true
is_empty_mode copilot_cli = false

abbrev pub bad_conventions : String → Bool
bad_conventions c = not (str_eq c "windows") && not (str_eq c "posix")

-- the `switch` on the kind of the connection
unfoldable pub apply_kind : Connection → ConnectionKind → Options → Result String Options
apply_kind c stdio o = ok (record o {
  use_stdio = true;
  cli_path = c.path;
  cli_args = c.args;
  environment = assigned o.environment c.environment;
})
apply_kind c tcp o = ok (record o {
  use_stdio = false;
  port = or_else c.port (pos 0);
  tcp_connection_token = c.connection_token;
  cli_path = c.path;
  cli_args = c.args;
  environment = assigned o.environment c.environment;
})
apply_kind c uri o =
    ok (record o { use_stdio = false; cli_url = c.url; tcp_connection_token = c.connection_token })
apply_kind c in_process o =
    if is_some o.working_directory || is_some o.environment || is_some o.telemetry
    then err
        "in-process runtime does not support working_directory, environment, or telemetry options"
    else ok (record o { use_stdio = false; cli_path = c.path })
apply_kind c parent_process o = ok (record o { use_stdio = true })

unfoldable pub apply_connection : Options → Result String Options
unfolding refuse_if apply_kind
apply_connection o = elim o.connection [
  | none ↦ ok o
  | some c ↦ do
    refuse_if (is_some c.environment && is_some o.environment)
        "connection.environment cannot be combined with ClientOptions::environment"
    apply_kind c c.kind o
]

abbrev pub is_in_process : Option Connection → Bool
is_in_process none = false
is_in_process (some c) = elim c.kind [ in_process ↦ true | _ ↦ false ]

-- `use_logged_in_user`, unless an external server manages its own
unfoldable pub default_user : Options → Options
default_user o = record o {
  use_logged_in_user =
      if not (is_some o.cli_url) && not (is_some o.use_logged_in_user)
      then some (not (is_some o.github_token))
      else o.use_logged_in_user;
}

-- a token for the loopback listener, when the client spawns its own runtime in TCP mode
unfoldable pub mint_token : String → Options → Options
mint_token uuid o = record o {
  tcp_connection_token =
      if not (is_some o.cli_url)
        && not o.use_stdio
        && not (is_in_process o.connection)
        && not (is_some o.tcp_connection_token)
      then some uuid
      else o.tcp_connection_token;
}

-- `Client(options)`: the checks between the connection and the defaults
unfoldable pub check_exclusive : Options → Result String (Unit {0})
unfolding refuse_if
check_exclusive o = do
  refuse_if (is_some o.cli_url && (o.use_stdio || is_some o.cli_path))
      "cli_url is mutually exclusive with use_stdio and cli_path"
  refuse_if (is_some o.cli_url && is_some o.github_token)
      "github_token cannot be used with cli_url (external server manages its own auth)"
  refuse_if (is_some o.cli_url && is_some o.use_logged_in_user)
      "use_logged_in_user cannot be used with cli_url (external server manages its own auth)"
  refuse_if (is_some_and (λ t. str_eq t "") o.tcp_connection_token)
      "tcp_connection_token must be a non-empty string"
  refuse_if (is_some o.tcp_connection_token && o.use_stdio)
      "tcp_connection_token cannot be used with use_stdio = true"

-- The paths that the file system calls absolute, and the text of a fresh UUID, are parameters.
module _ (is_absolute : String → Bool) (uuid : String) where
  -- the checks before the connection is looked at
  unfoldable pub check_plain : Options → Result String (Unit {0})
  unfolding refuse_if
  check_plain o = do
    refuse_if (is_some_and (any (λ p. not (is_absolute p))) o.builtin_plugin_directories)
        "builtin_plugin_directories must contain only absolute paths"
    refuse_if
        (is_empty_mode o.mode
          && not (is_some o.base_directory)
          && not (is_some o.copilot_home)
          && not (is_some o.session_fs))
        "ClientMode::Empty requires base_directory or session_fs"
    refuse_if (is_some_and bad_conventions o.session_fs)
        "session_fs.conventions must be 'windows' or 'posix'"

  -- `Client(options)`, up to the parse of the URL
  unfoldable pub configure : Options → Result String Options
  unfolding apply_aliases check_plain apply_connection check_exclusive default_user mint_token
  configure options = do
    check_plain (apply_aliases options)
    o ← apply_connection (apply_aliases options)
    check_exclusive o
    ok (mint_token uuid (default_user o))
