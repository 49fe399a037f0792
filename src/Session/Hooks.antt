-- ===== src/Session/Hooks.antt =====
-- src/session.cpp: `handle_hooks_invoke`. The codecs of a hook's types are part of the hook, which is a
-- parameter.
use copilot_cpp.Prelude.{Option, none, some, String, List, [], ◌∷◌, ◌≡◌, refl}
use copilot_cpp.Prelude.Text.{lookup}
use copilot_cpp.Prelude.Exec.{Result, ok, err}
use copilot_cpp.Json.{Json}

-- what a hook throws: a `json::exception`, or another exception
pub data HookFailure : Type 0 where
  json_exception : HookFailure
  other_exception : String → HookFailure

module _ (J : Json) where
  open J use {Value, null}

  -- a hook with the session's id, which may have no output
  abbrev pub Hook : Type 0
  Hook = Value → String → Result HookFailure (Option Value)

  -- `SessionHooks`
  pub record SessionHooks : Type 0 where
    pub on_pre_tool_use : Option Hook
    pub on_post_tool_use : Option Hook
    pub on_user_prompt_submitted : Option Hook
    pub on_session_start : Option Hook
    pub on_session_end : Option Hook
    pub on_error_occurred : Option Hook
    pub on_pre_mcp_tool_call : Option Hook
    pub on_post_tool_use_failure : Option Hook
    pub on_user_prompt_transformed : Option Hook
    pub on_agent_stop : Option Hook
    pub on_subagent_stop : Option Hook
    pub on_permission_request : Option Hook

  -- the type of each hook, the typed ones first
  abbrev pub hook_table : SessionHooks → List (String × Option Hook)
  hook_table h =
      ("preToolUse", h.on_pre_tool_use)
      ∷ ("postToolUse", h.on_post_tool_use)
      ∷ ("userPromptSubmitted", h.on_user_prompt_submitted)
      ∷ ("sessionStart", h.on_session_start)
      ∷ ("sessionEnd", h.on_session_end)
      ∷ ("errorOccurred", h.on_error_occurred)
      ∷ ("preMcpToolCall", h.on_pre_mcp_tool_call)
      ∷ ("postToolUseFailure", h.on_post_tool_use_failure)
      ∷ ("userPromptTransformed", h.on_user_prompt_transformed)
      ∷ ("agentStop", h.on_agent_stop)
      ∷ ("subagentStop", h.on_subagent_stop)
      ∷ ("permissionRequest", h.on_permission_request)
      ∷ []

  unfoldable pub hook_of : SessionHooks → String → Option Hook
  hook_of h hook_type = elim (lookup hook_type (hook_table h)) [ none ↦ none | some o ↦ o ]

  -- what becomes of the hook's outcome
  unfoldable pub hook_output : Result HookFailure (Option Value) → Result String Value
  hook_output (ok none) = ok null
  hook_output (ok (some v)) = ok v
  hook_output (err json_exception) = ok null
  hook_output (err (other_exception what)) = err what

  unfoldable pub run_hook : Option Hook → Value → String → Result String Value
  unfolding hook_output
  run_hook none input id = ok null
  run_hook (some f) input id = hook_output (f input id)

  -- Session::handle_hooks_invoke
  unfoldable pub invoke_hooks : Option SessionHooks → String → String → Value → Result String Value
  unfolding hook_of run_hook
  invoke_hooks none id hook_type input = ok null
  invoke_hooks (some h) id hook_type input = run_hook (hook_of h hook_type) input id

  hook_output-caught :
      (r : Result HookFailure (Option Value)) (what : String)
      → hook_output r ≡ err what
      → r ≡ err (other_exception what)
  unfolding hook_output
  hook_output-caught (ok none) what e = absurd cc
  hook_output-caught (ok (some v)) what e = absurd cc
  hook_output-caught (err json_exception) what e = absurd cc
  hook_output-caught (err (other_exception w)) what e = cc

  run_hook-throws :
      (o : Option Hook) (id what : String) (input : Value)
      → run_hook o input id ≡ err what
      → (f : Hook) × (o ≡ some f) × (f input id ≡ err (other_exception what))
  unfolding run_hook
  run_hook-throws none id what input e = absurd cc
  run_hook-throws (some f) id what input e = (f, refl, hook_output-caught (f input id) what e)

  -- An exception leaves handle_hooks_invoke only if a hook that is set throws it, and then it is no
  -- `json::exception`.
  pub invoke_hooks-throws :
      (h : SessionHooks) (id hook_type what : String) (input : Value)
      → invoke_hooks (some h) id hook_type input ≡ err what
      → (f : Hook) × (hook_of h hook_type ≡ some f) × (f input id ≡ err (other_exception what))
  unfolding invoke_hooks
  invoke_hooks-throws h id hook_type what input e =
      run_hook-throws (hook_of h hook_type) id what input e
