-- ===== src/Launch/Environment.antt =====
-- src/client.cpp: `build_cli_environment`; src/process_posix.cpp: the environment of a child process.
pub mod Lookup
use copilot_cpp.Prelude.{
  Bool, true, false, not, Option, none, some, String, List, [], ◌∷◌, ◌≡◌, ◌≢◌, refl, if◌then◌else◌,
  Bool-cases, is_some, inl, inr, arith,
}
use copilot_cpp.Prelude.Text.{str_eq, lookup, eq_refl, eq_iff}
use copilot_cpp.Launch.{Variables, Telemetry, Connection, Options}

-- `env.erase(key)`
unfoldable pub erase : String → Variables → Variables
erase k [] = []
erase k ((j, v) ∷ env) = let rest = erase k env in if str_eq j k then rest else (j, v) ∷ rest

-- `if (value) env[key] = *value`
unfoldable pub put : String → Option String → Variables → Variables
put k none env = env
put k (some v) env = (k, v) ∷ env

abbrev pub flag_text : Bool → String
flag_text true = "true"
flag_text false = "false"

-- the variables of `options.telemetry`
unfoldable pub put_telemetry : Telemetry → Variables → Variables
unfolding put
put_telemetry t env =
    put "OTEL_INSTRUMENTATION_GENAI_CAPTURE_MESSAGE_CONTENT"
      (elim t.capture_content [ none ↦ none | some b ↦ some (flag_text b) ])
      (put "COPILOT_OTEL_SOURCE_NAME" t.source_name (
        put "COPILOT_OTEL_EXPORTER_TYPE" t.exporter_type (
          put "COPILOT_OTEL_FILE_EXPORTER_PATH" t.file_path (
            put "OTEL_EXPORTER_OTLP_PROTOCOL" t.otlp_protocol
              (put "OTEL_EXPORTER_OTLP_ENDPOINT" t.otlp_endpoint env)))))

-- the first of two optional values that is there
abbrev pub first_of {ℓ} : {A : Type ℓ} → Option A → Option A → Option A
first_of none second = second
first_of (some a) second = some a

abbrev pub of_connection {ℓ} : {A : Type ℓ} → (Connection → Option A) → Option Connection → Option A
of_connection field none = none
of_connection field (some c) = field c

abbrev pub variables_of : Option Variables → Variables
variables_of none = []
variables_of (some env) = env

-- the token that the runtime is told
abbrev pub effective_token : Options → Option String
effective_token o =
    first_of (of_connection (λ c. c.connection_token) o.connection) o.tcp_connection_token

abbrev pub effective_home : Options → Option String
effective_home o = first_of o.base_directory o.copilot_home

unfoldable pub base_environment : Options → Variables
base_environment o =
    variables_of (first_of (of_connection (λ c. c.environment) o.connection) o.environment)

-- build_cli_environment
unfoldable pub build_cli_environment : Options → Variables
unfolding erase put put_telemetry base_environment
build_cli_environment o =
    let env = put "COPILOT_HOME" (effective_home o) (
      put "COPILOT_CONNECTION_TOKEN" (effective_token o)
        (put "COPILOT_SDK_AUTH_TOKEN" o.github_token (erase "NODE_DEBUG" (base_environment o)))) in
    elim o.telemetry [ none ↦ env | some t ↦ put_telemetry t env ]

-- Process::spawn on POSIX, in the child: `clearenv`, and `setenv` for each variable of the options
abbrev pub set_each : Variables → Variables → Variables
set_each [] env = env
set_each ((k, v) ∷ own) env = (k, v) ∷ set_each own env

abbrev pub child_environment : Bool → Variables → Variables → Variables
child_environment inherit_environment own parent =
    set_each own (if inherit_environment then parent else [])

-- start_cli_server: the environment of the process that it spawns, where `parent` is its own
unfoldable pub runtime_environment : Options → Variables → Variables
unfolding build_cli_environment
runtime_environment o parent =
    child_environment (not (is_some o.environment)) (build_cli_environment o) parent
