-- ===== src/Tests/Directories.antt =====
-- src/client.cpp: a session that is created under an id that is taken, and two threads at the models.
use copilot_cpp.Prelude.{Option, ℕ, ◌≡◌, refl, true, false, none, some, [], ◌∷◌}
use copilot_cpp.Prelude.Text.{lookup}
use copilot_cpp.Prelude.Exec.{ok, err}
use copilot_cpp.Directory.{Book, Server, create_connected}
use copilot_cpp.Launch.{empty}
use copilot_cpp.Directory.Config.{ConfigField, enable_skills, enable_file_hooks, SessionConfig}
use copilot_cpp.Directory.Building.{
  members, append_session_config, check_available, check_excluded, validate_tool_filters,
}
use copilot_cpp.Directory.Building.Defaults.{empty_mode_defaults}
use copilot_cpp.Directory.Registration.{create_connected-registered}
use copilot_cpp.Directory.Models.{
  Models, fetch, keep, list_models, set_on_list_models, set_on_list_models_race,
}
use copilot_cpp.Tests.Values.{nodes, Node, flag}

-- the runtime refuses the session
abbrev refusing : Server nodes
refusing = record { reply = err "taken"; interest = none; capabilities = λ v. none }

abbrev book : Book
book = ("s1", 1) ∷ ("s2", 2) ∷ []

create_connected-registered_example :
    lookup "s1" (create_connected nodes refusing true "s1" 3 book).1 ≡ none
create_connected-registered_example =
    create_connected-registered nodes refusing true "s1" 3 book "s1"

abbrev models : Models ℕ
models = record { cache = none; handler = some (ok 1) }

set_on_list_models_race_example :
    let set = set_on_list_models (some (ok 2)) models in
    let late = (keep (fetch (err "closed") models) set).1 in
    ((list_models (err "closed") set).0 ≡ ok 2) × ((list_models (err "closed") late).0 ≡ ok 1)
set_on_list_models_race_example = set_on_list_models_race 1 2 (err "closed") models refl

abbrev given_skills : ConfigField → Option Node
given_skills enable_skills = some (flag true)
given_skills _ = none

-- skills are asked for, and the rest is left to the mode
abbrev config : SessionConfig nodes
config = record {
  settings = given_skills;
  model = none;
  auto_byok_from_env = false;
  model_from_env = none;
  provider = none;
  provider_from_env = none;
  canvases = none;
  canvas_objects = [];
  tools = [];
  available_tools = some ("builtin:view" ∷ []);
  excluded_tools = none;
  available_tool_set = none;
  excluded_tool_set = none;
  streaming = true;
  include_sub_agent_streaming_events = none;
  enable_mcp_apps = none;
  has_permission_handler = true;
  has_permission_handler_with_context = false;
  has_user_input_handler = false;
  has_elicitation_handler = false;
  has_exit_plan_mode_handler = false;
  has_auto_mode_switch_handler = false;
  has_hooks = false;
  enable_experimental_mode = none;
  session_id = some "s1";
  cloud = none;
}

empty_mode_defaults_example :
    lookup "enableFileHooks" (members nodes config empty) ≡ some (flag false)
unfolding append_session_config check_available check_excluded validate_tool_filters
empty_mode_defaults_example =
    empty_mode_defaults nodes config (members nodes config empty) "enableFileHooks"
      enable_file_hooks (flag false) refl refl
