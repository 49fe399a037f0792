-- ===== src/Directory/Building.antt =====
-- src/client.cpp: append_session_config and the requests that are built with it.
pub mod Defaults
use Prim.Native.String.{◌++◌ as str_append}
use copilot_cpp.Prelude.{
  first_some, Bool, true, false, not, ◌&&◌, ◌||◌, Option, none, some, String, List, [], ◌∷◌, ◌++◌,
  map, if◌then◌else◌,
}
use copilot_cpp.Prelude.Text.{str_eq, lookup}
use copilot_cpp.Prelude.Exec.{Result, ok, err}
use copilot_cpp.Prelude.Try.{◌>>=◌, ◌>>◌}
use copilot_cpp.Json.{Json}
use copilot_cpp.Directory.Config.{
  ToolConfig, SessionConfig, Entries, set_if, boolean_of, strings_of, collect, serialize_tool,
  copied, ConfigField, enable_session_telemetry, mcp_oauth_token_storage, skip_embedding_retrieval,
  embedding_cache_storage, enable_on_demand_instruction_discovery, enable_file_hooks,
  enable_host_git_operations, enable_session_store, enable_skills, memory, custom_agents_local_only,
  skip_custom_instructions, coauthor_enabled, manage_schedule_enabled,
}
use copilot_cpp.Launch.{ClientMode, copilot_cli, empty, is_empty_mode}

-- validate_tool_filters
unfoldable pub validate_tool_filters : String → List String → Result String (Unit {0})
validate_tool_filters name [] = ok tt
validate_tool_filters name (filter ∷ filters) =
    let rest = validate_tool_filters name filters in
    if str_eq filter "*"
    then err (str_append name " does not accept bare '*'; use builtin:*, mcp:*, or custom:*")
    else rest

module _ (J : Json) where
  open J use {Value, text, boolean, array, object}

  -- a choice of the configuration, or of the environment if this is asked for
  abbrev pub or_env : Option Value → Bool → Option Value → Option Value
  or_env chosen ask from_env = first_some chosen (if ask then from_env else none)

  abbrev pub tools_of : List (ToolConfig J) → Option Value
  tools_of [] = none
  tools_of (t ∷ ts) = some (array (map (serialize_tool J) (t ∷ ts)))

  abbrev pub canvases_of : Option (List Value) → List Value → Option Value
  canvases_of none [] = none
  canvases_of none (c ∷ cs) = some (array (c ∷ cs))
  canvases_of (some vs) cs = some (array (vs ++ cs))

  abbrev pub available : SessionConfig J → Option (List String)
  available c = first_some c.available_tool_set c.available_tools

  abbrev pub excluded : SessionConfig J → Option (List String)
  excluded c = first_some c.excluded_tool_set c.excluded_tools

  -- append_session_config: the members that are not copied as they are
  abbrev pub own_members : SessionConfig J → ClientMode → Entries J
  own_members c mode =
      ("model", or_env c.model c.auto_byok_from_env c.model_from_env)
      ∷ ("canvases", canvases_of c.canvases c.canvas_objects)
      ∷ ("tools", tools_of c.tools)
      ∷ ("availableTools", strings_of J (available c))
      ∷ ("excludedTools", strings_of J (excluded c))
      ∷ ("toolFilterPrecedence", some (text "excluded"))
      ∷ ("streaming", set_if J c.streaming)
      ∷ (
        "includeSubAgentStreamingEvents",
        boolean_of J (first_some c.include_sub_agent_streaming_events (some true)),
      )
      ∷ ("provider", or_env c.provider c.auto_byok_from_env c.provider_from_env)
      ∷ ("requestMcpApps", elim c.enable_mcp_apps [ none ↦ none | some b ↦ set_if J b ])
      ∷ (
        "requestPermission",
        some (boolean (c.has_permission_handler || c.has_permission_handler_with_context)),
      )
      ∷ ("requestUserInput", some (boolean c.has_user_input_handler))
      ∷ ("requestElicitation", some (boolean c.has_elicitation_handler))
      ∷ ("requestExitPlanMode", some (boolean c.has_exit_plan_mode_handler))
      ∷ ("requestAutoModeSwitch", some (boolean c.has_auto_mode_switch_handler))
      ∷ ("hooks", some (boolean c.has_hooks))
      ∷ ("envValueMode", some (text "direct"))
      ∷ (
        "isExperimentalMode",
        boolean_of J (
            first_some c.enable_experimental_mode
              (if is_empty_mode mode then some false else none)),
      )
      ∷ []

  -- append_session_config: what the empty mode sends for a field that is not set
  abbrev pub empty_defaults : List (String × (ConfigField × Value))
  empty_defaults =
      ("enableSessionTelemetry", (enable_session_telemetry, boolean false))
      ∷ ("mcpOAuthTokenStorage", (mcp_oauth_token_storage, text "in-memory"))
      ∷ ("skipEmbeddingRetrieval", (skip_embedding_retrieval, boolean true))
      ∷ ("embeddingCacheStorage", (embedding_cache_storage, text "in-memory"))
      ∷ (
        "enableOnDemandInstructionDiscovery",
        (enable_on_demand_instruction_discovery, boolean false),
      )
      ∷ ("enableFileHooks", (enable_file_hooks, boolean false))
      ∷ ("enableHostGitOperations", (enable_host_git_operations, boolean false))
      ∷ ("enableSessionStore", (enable_session_store, boolean false))
      ∷ ("enableSkills", (enable_skills, boolean false))
      ∷ ("memory", (memory, object (("enabled", boolean false) ∷ [])))
      ∷ ("customAgentsLocalOnly", (custom_agents_local_only, boolean true))
      ∷ ("skipCustomInstructions", (skip_custom_instructions, boolean true))
      ∷ ("coauthorEnabled", (coauthor_enabled, boolean false))
      ∷ ("manageScheduleEnabled", (manage_schedule_enabled, boolean false))
      ∷ []

  -- the defaults of the fields that are not set
  abbrev pub unless_given :
      Option Value → String × Value → List (String × Value) → List (String × Value)
  unless_given none e rest = e ∷ rest
  unless_given (some v) e rest = rest

  unfoldable pub unset :
      (ConfigField → Option Value) → List (String × (ConfigField × Value)) → List (String × Value)
  unset settings [] = []
  unset settings ((key, (field, d)) ∷ ds) =
      unless_given (settings field) (key, d) (unset settings ds)

  -- the checks of the tool filters
  unfoldable pub check_available : ClientMode → Option (List String) → Result String (Unit {0})
  unfolding validate_tool_filters
  check_available mode (some filters) = validate_tool_filters "available_tools" filters
  check_available copilot_cli none = ok tt
  check_available empty none =
      err "ClientMode::Empty requires an explicit available_tools or available_tool_set"

  unfoldable pub check_excluded : Option (List String) → Result String (Unit {0})
  unfolding validate_tool_filters
  check_excluded none = ok tt
  check_excluded (some filters) = validate_tool_filters "excluded_tools" filters

  -- the members of append_session_config, the last one that is assigned first
  unfoldable pub members : SessionConfig J → ClientMode → List (String × Value)
  unfolding collect unset
  members c mode =
      (if is_empty_mode mode then unset c.settings empty_defaults else [])
      ++ collect J (own_members c mode ++ map (λ e. (e.0, c.settings e.1)) copied)

  unfoldable pub append_session_config :
      SessionConfig J → ClientMode → Result String (List (String × Value))
  unfolding check_available check_excluded members
  append_session_config c mode = do
    check_available mode (available c)
    check_excluded (excluded c)
    ok (members c mode)

  -- build_session_create_request
  unfoldable pub build_session_create_request : SessionConfig J → ClientMode → Result String Value
  unfolding append_session_config
  build_session_create_request c mode = do
    appended ← append_session_config c mode
    let named = collect J (
        ("cloud", c.cloud)
        ∷ ("sessionId", elim c.session_id [ none ↦ none | some s ↦ some (text s) ])
        ∷ [])
    ok (object (named ++ appended))

  -- `ResumeSessionConfig`: `base` has the fields that it shares with the configuration of a new session
  pub record ResumeSessionConfig : Type 0 where
    pub base : SessionConfig J
    pub disable_resume : Bool
    pub continue_pending_work : Bool
    pub open_canvases : Option Value
    pub factory_objects : List Value
    pub factories : Option Value
    pub requested_environment_variables : Option (List String)

  abbrev pub factories_of : List Value → Option Value → Option Value
  factories_of [] given = given
  factories_of (f ∷ fs) given = some (array (f ∷ fs))

  -- build_session_resume_request
  unfoldable pub build_session_resume_request :
      String → ResumeSessionConfig → ClientMode → Result String Value
  unfolding append_session_config
  build_session_resume_request id c mode = do
    appended ← append_session_config c.base mode
    let own = collect J (
        ("disableResume", set_if J c.disable_resume)
        ∷ ("continuePendingWork", set_if J c.continue_pending_work)
        ∷ ("openCanvases", c.open_canvases)
        ∷ ("factories", factories_of c.factory_objects c.factories)
        ∷ ("requestedEnvironmentVariables", strings_of J c.requested_environment_variables)
        ∷ [])
    ok (object (own ++ (appended ++ ("sessionId", text id) ∷ [])))
