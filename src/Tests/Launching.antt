-- ===== src/Tests/Launching.antt =====
-- src/client.cpp: the options of a client that spawns a runtime listening on a port.
use copilot_cpp.Prelude.{true, false, none, some, String, List, [], ◌∷◌, ◌++◌, ◌≡◌, refl}
use copilot_cpp.Prelude.Int.{pos}
use copilot_cpp.Launch.{
  tcp, copilot_cli, info, Connection, Options, apply_aliases, check_plain, apply_connection,
  check_exclusive, refuse_if, apply_kind, default_user, mint_token, configure,
}
use copilot_cpp.Launch.Validation.{IsValid, configure-IsValid}
use copilot_cpp.Launch.CommandLine.{build_cli_command_args}
use copilot_cpp.Launch.CommandLine.Reading.{
  no_flags, read_flags, meant, build_cli_command_args-read,
}

abbrev listening : Connection
listening = record {
  kind = tcp;
  path = none;
  args = some ("--debug" ∷ []);
  environment = some (("PATH", "/bin") ∷ ("NODE_DEBUG", "1") ∷ []);
  port = some (pos 8080);
  connection_token = none;
  url = none;
}

abbrev pub options : Options
options = record {
  connection = some listening;
  mode = copilot_cli;
  working_directory = none;
  base_directory = some "/home/copilot";
  builtin_plugin_directories = none;
  telemetry = none;
  session_fs = none;
  cli_path = none;
  cli_args = none;
  cwd = none;
  port = pos 0;
  use_stdio = true;
  cli_url = none;
  log_level = info;
  environment = none;
  github_token = none;
  use_logged_in_user = none;
  tcp_connection_token = none;
  copilot_home = none;
  session_idle_timeout_seconds = some (pos 60);
  remote = false;
  enable_remote_sessions = some true;
}

abbrev pub configured : Options
configured = record (apply_aliases options) {
  use_stdio = false;
  port = pos 8080;
  cli_args = some ("--debug" ∷ []);
  environment = some (("PATH", "/bin") ∷ ("NODE_DEBUG", "1") ∷ []);
  use_logged_in_user = some true;
  tcp_connection_token = some "uuid";
}

configure-IsValid_example : IsValid configured
unfolding configure check_plain apply_connection apply_kind check_exclusive refuse_if default_user
    mint_token apply_aliases
configure-IsValid_example = configure-IsValid (λ p. true) "uuid" refl options configured refl

build_cli_command_args-read_example :
    (own : List String) × (build_cli_command_args configured ≡ ("--debug" ∷ []) ++ own)
    × (read_flags own no_flags ≡ some (meant configured))
unfolding apply_aliases
build_cli_command_args-read_example = build_cli_command_args-read configured

-- a client without an environment of its own lets the runtime inherit
abbrev inheriting : Options
inheriting = record configured { environment = none }
