-- ===== src/Directory/Config.antt =====
-- include/copilot/types.hpp and src/client.cpp: the configuration of a session, and its tools.
use copilot_cpp.Prelude.{Bool, true, Option, none, some, String, List, [], ◌∷◌, map, if◌then◌else◌}
use copilot_cpp.Json.{Json}

-- the optional fields that `copy` is called with
pub data ConfigField : Type 0 where
  client_name reasoning_effort reasoning_summary context_tier model_capabilities : ConfigField
  large_output system_message tool_search request_canvas_renderer : ConfigField
  request_extensions extension_sdk_path extension_info canvas_provider commands : ConfigField
  capi providers models feature_flags auth_client_id_metadata_url : ConfigField
  enable_session_telemetry enable_citations enable_file_change_tracking : ConfigField
  session_limits excluded_builtin_agents working_directory additional_directories : ConfigField
  mcp_servers mcp_oauth_token_storage custom_agents custom_agents_local_only : ConfigField
  default_agent agent config_dir enable_config_discovery skip_embedding_retrieval : ConfigField
  embedding_cache_storage organization_custom_instructions : ConfigField
  enable_on_demand_instruction_discovery enable_file_hooks : ConfigField
  enable_host_git_operations enable_session_store enable_skills skill_directories : ConfigField
  plugin_directories instruction_directories disabled_skills disabled_mcp_servers : ConfigField
  infinite_sessions memory github_token remote_session exp_assignments : ConfigField
  enable_managed_settings managed_settings skip_custom_instructions : ConfigField
  coauthor_enabled manage_schedule_enabled github_mcp_tool_config : ConfigField

-- `copy`: the key of each field, in the order of the source
abbrev pub copied : List (String × ConfigField)
copied =
    ("clientName", client_name)
    ∷ ("reasoningEffort", reasoning_effort)
    ∷ ("reasoningSummary", reasoning_summary)
    ∷ ("contextTier", context_tier)
    ∷ ("modelCapabilities", model_capabilities)
    ∷ ("largeOutput", large_output)
    ∷ ("systemMessage", system_message)
    ∷ ("toolSearch", tool_search)
    ∷ ("requestCanvasRenderer", request_canvas_renderer)
    ∷ ("requestExtensions", request_extensions)
    ∷ ("extensionSdkPath", extension_sdk_path)
    ∷ ("extensionInfo", extension_info)
    ∷ ("canvasProvider", canvas_provider)
    ∷ ("commands", commands)
    ∷ ("capi", capi)
    ∷ ("providers", providers)
    ∷ ("models", models)
    ∷ ("featureFlags", feature_flags)
    ∷ ("authClientIdMetadataUrl", auth_client_id_metadata_url)
    ∷ ("enableSessionTelemetry", enable_session_telemetry)
    ∷ ("enableCitations", enable_citations)
    ∷ ("enableFileChangeTracking", enable_file_change_tracking)
    ∷ ("sessionLimits", session_limits)
    ∷ ("excludedBuiltinAgents", excluded_builtin_agents)
    ∷ ("workingDirectory", working_directory)
    ∷ ("additionalDirectories", additional_directories)
    ∷ ("mcpServers", mcp_servers)
    ∷ ("mcpOAuthTokenStorage", mcp_oauth_token_storage)
    ∷ ("customAgents", custom_agents)
    ∷ ("customAgentsLocalOnly", custom_agents_local_only)
    ∷ ("defaultAgent", default_agent)
    ∷ ("agent", agent)
    ∷ ("configDir", config_dir)
    ∷ ("enableConfigDiscovery", enable_config_discovery)
    ∷ ("skipEmbeddingRetrieval", skip_embedding_retrieval)
    ∷ ("embeddingCacheStorage", embedding_cache_storage)
    ∷ ("organizationCustomInstructions", organization_custom_instructions)
    ∷ ("enableOnDemandInstructionDiscovery", enable_on_demand_instruction_discovery)
    ∷ ("enableFileHooks", enable_file_hooks)
    ∷ ("enableHostGitOperations", enable_host_git_operations)
    ∷ ("enableSessionStore", enable_session_store)
    ∷ ("enableSkills", enable_skills)
    ∷ ("skillDirectories", skill_directories)
    ∷ ("pluginDirectories", plugin_directories)
    ∷ ("instructionDirectories", instruction_directories)
    ∷ ("disabledSkills", disabled_skills)
    ∷ ("disabledMcpServers", disabled_mcp_servers)
    ∷ ("infiniteSessions", infinite_sessions)
    ∷ ("memory", memory)
    ∷ ("gitHubToken", github_token)
    ∷ ("remoteSession", remote_session)
    ∷ ("expAssignments", exp_assignments)
    ∷ ("enableManagedSettings", enable_managed_settings)
    ∷ ("managedSettings", managed_settings)
    ∷ ("skipCustomInstructions", skip_custom_instructions)
    ∷ ("coauthorEnabled", coauthor_enabled)
    ∷ ("manageScheduleEnabled", manage_schedule_enabled)
    ∷ ("githubMcpToolConfig", github_mcp_tool_config)
    ∷ []

module _ (J : Json) where
  open J use {Value, null, text, boolean, array, object, is_null}

  -- `Tool`, as far as it is sent
  pub record ToolConfig : Type 0 where
    pub name : String
    pub description : String
    pub parameters_schema : Value
    pub overrides_built_in_tool : Bool
    pub skip_permission : Bool
    pub defer : Option Value
    pub metadata : Option Value
    pub is_terminal : Bool

  -- `SessionConfig`, with the values that the environment gives for the model and the provider. The
  -- canvas objects are their declarations; no pointer to one is null.
  pub record SessionConfig : Type 0 where
    pub settings : ConfigField → Option Value
    pub model : Option Value
    pub auto_byok_from_env : Bool
    pub model_from_env : Option Value
    pub provider : Option Value
    pub provider_from_env : Option Value
    pub canvases : Option (List Value)
    pub canvas_objects : List Value
    pub tools : List ToolConfig
    pub available_tools : Option (List String)
    pub excluded_tools : Option (List String)
    pub available_tool_set : Option (List String)
    pub excluded_tool_set : Option (List String)
    pub streaming : Bool
    pub include_sub_agent_streaming_events : Option Bool
    pub enable_mcp_apps : Option Bool
    pub has_permission_handler : Bool
    pub has_permission_handler_with_context : Bool
    pub has_user_input_handler : Bool
    pub has_elicitation_handler : Bool
    pub has_exit_plan_mode_handler : Bool
    pub has_auto_mode_switch_handler : Bool
    pub has_hooks : Bool
    pub enable_experimental_mode : Option Bool
    pub session_id : Option String
    pub cloud : Option Value

  -- A member that is set or not.
  abbrev pub Entries : Type 0
  Entries = List (String × Option Value)

  abbrev pub set_if : Bool → Option Value
  set_if b = if b then some (boolean true) else none

  abbrev pub boolean_of : Option Bool → Option Value
  boolean_of none = none
  boolean_of (some b) = some (boolean b)

  abbrev pub strings_of : Option (List String) → Option Value
  strings_of none = none
  strings_of (some ss) = some (array (map text ss))

  -- the members that are set
  unfoldable pub collect : Entries → List (String × Value)
  collect [] = []
  collect ((key, none) ∷ es) = collect es
  collect ((key, some v) ∷ es) = (key, v) ∷ collect es

  -- serialize_tool
  unfoldable pub serialize_tool : ToolConfig → Value
  unfolding collect
  serialize_tool t = object (
      ("name", text t.name)
      ∷ ("description", text t.description)
      ∷ collect (
          ("parameters", if is_null t.parameters_schema then none else some t.parameters_schema)
          ∷ ("overridesBuiltInTool", set_if t.overrides_built_in_tool)
          ∷ ("skipPermission", set_if t.skip_permission)
          ∷ ("defer", t.defer)
          ∷ ("metadata", t.metadata)
          ∷ ("isTerminal", set_if t.is_terminal)
          ∷ []))
