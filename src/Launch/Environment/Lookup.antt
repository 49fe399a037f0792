-- ===== src/Launch/Environment/Lookup.antt =====
-- src/client.cpp: the environment of the runtime, variable by variable.
use copilot_cpp.Prelude.{Option, none, some, String, List, [], ◌∷◌, ◌++◌, if◌then◌else◌}
use copilot_cpp.Prelude.Text.{str_eq}
use copilot_cpp.Launch.{Variables, Telemetry, Options}
use copilot_cpp.Launch.Environment.{put, first_of, flag_text, effective_token, effective_home}

-- What the SDK sets: the variables with the options that they come from.
abbrev pub telemetry_table : Option Telemetry → List (String × Option String)
telemetry_table none = []
telemetry_table (some t) =
    (
      "OTEL_INSTRUMENTATION_GENAI_CAPTURE_MESSAGE_CONTENT",
      (elim t.capture_content [ none ↦ none | some b ↦ some (flag_text b) ]),
    )
    ∷ ("COPILOT_OTEL_SOURCE_NAME", t.source_name)
    ∷ ("COPILOT_OTEL_EXPORTER_TYPE", t.exporter_type)
    ∷ ("COPILOT_OTEL_FILE_EXPORTER_PATH", t.file_path)
    ∷ ("OTEL_EXPORTER_OTLP_PROTOCOL", t.otlp_protocol)
    ∷ ("OTEL_EXPORTER_OTLP_ENDPOINT", t.otlp_endpoint)
    ∷ []

abbrev pub table : Options → List (String × Option String)
table o =
    telemetry_table o.telemetry
    ++ ("COPILOT_HOME", effective_home o)
      ∷ ("COPILOT_CONNECTION_TOKEN", effective_token o)
      ∷ ("COPILOT_SDK_AUTH_TOKEN", o.github_token)
      ∷ []

-- The value that a table sets a variable to.
abbrev pub told : String → List (String × Option String) → Option String
told k [] = none
told k ((j, v) ∷ t) = first_of (if str_eq j k then v else none) (told k t)

put_all : List (String × Option String) → Variables → Variables
put_all [] env = env
put_all ((k, v) ∷ t) env = put k v (put_all t env)
