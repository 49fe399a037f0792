-- ===== src/Requests/Answered.antt =====
-- src/client.cpp: what the runtime is answered when its session is not known.
use Prim.Native.String.{◌++◌ as str_append}
use copilot_cpp.Prelude.{◌≡◌, refl, Option-cases, inl, inr, none, String, List, [], ◌∷◌, All}
use copilot_cpp.Prelude.Text.{lookup}
use copilot_cpp.Prelude.Exec.{ok, err}
use copilot_cpp.Json.{Json}
use copilot_cpp.Rpc.Message.{code_value, invalid_params}
use copilot_cpp.Requests.{
  Outcome, json_rpc_error, string_at, tool_failure, no_result, permission_for, handle_tool_call,
  call_tool, handle_permission_request, handle_user_input_request, ask_session, session_of,
  handle_hooks_invoke,
}
use copilot_cpp.Requests.Tokens.{string_or_empty}
use copilot_cpp.Requests.Routing.{Setup, ask, ask_extension, route, route_other}

-- The requests that the runtime makes of a session, by the names of the protocol.
pub data SessionMethod : String → Type 0 where
  tool_call : SessionMethod "tool.call"
  permission : SessionMethod "permission.request"
  user_input : SessionMethod "userInput.request"
  elicitation : SessionMethod "elicitation.request"
  exit_plan_mode : SessionMethod "exitPlanMode.request"
  auto_mode_switch : SessionMethod "autoModeSwitch.request"
  hooks : SessionMethod "hooks.invoke"
  canvas_open : SessionMethod "canvas.open"
  canvas_close : SessionMethod "canvas.close"
  canvas_action : SessionMethod "canvas.action.invoke"
  factory_execute : SessionMethod "factory.execute"
  factory_abort : SessionMethod "factory.abort"

-- the members that a request must have, beside the id of its session
abbrev pub required : {method : String} → SessionMethod method → List String
required tool_call = "toolCallId" ∷ "toolName" ∷ []
required user_input = "question" ∷ []
required hooks = "hookType" ∷ []
required _ = []

module _ (J : Json) where
  open J use {Value, at}

  -- the members are strings
  abbrev pub Strings : Value → List String → Type 0
  Strings params keys = All (λ key. (s : String) × (string_at J params key ≡ ok s)) keys

  abbrev invalid : String → Outcome J Value
  invalid message = err (json_rpc_error J (code_value invalid_params) message)

  -- what the protocol answers a request for a session that is not there
  abbrev pub refusal : {method : String} → SessionMethod method → String → Outcome J Value
  refusal tool_call id = ok (tool_failure J "Session not found" (str_append "Unknown session " id))
  refusal permission id = ok (no_result J)
  refusal canvas_open id = invalid "Unknown canvas session"
  refusal canvas_close id = invalid "Unknown canvas session"
  refusal canvas_action id = invalid "Unknown canvas session"
  refusal factory_execute id = invalid "Unknown factory session"
  refusal factory_abort id = invalid "Unknown factory session"
  refusal _ id = invalid (str_append "Unknown session " id)

  or_empty :
      (v : Value) (key id : String) → string_at J v key ≡ ok id → string_or_empty J v key ≡ ok id
  unfolding string_at
  or_empty v key id h = elim (Option-cases (at v key)) [
    | inl e ↦ absurd (let q = rw (string_at, e) at h in cc)
    | inr (w, e) ↦ rw (string_or_empty, e) (rw (string_at, e) at h)
  ]

  -- A request of one of the protocol's session methods, whose session id and further required members
  -- are strings, is refused when the client has no session of that id: a tool call is answered with a
  -- failure, a permission with the kind no-result, and the others with the error invalid_params,
  -- whose message is "Unknown canvas session" for a canvas, "Unknown factory session" for a factory,
  -- and else names the session.
  pub route-refusal :
      (s : Setup J) (method : String) (m : SessionMethod method) (params : Value) (id : String)
      → string_at J params "sessionId" ≡ ok id
      → Strings params (required m)
      → lookup id s.sessions ≡ none
      → route J s method params ≡ refusal m id
  unfolding route route_other ask ask_extension handle_tool_call call_tool handle_permission_request
      permission_for handle_user_input_request ask_session session_of handle_hooks_invoke
  route-refusal s _ tool_call params id e ((call, c), ((name, n), none_left)) u =
      rw (e, c, n, u) refl
  route-refusal s _ permission params id e strings u = rw (e, u) refl
  route-refusal s _ user_input params id e ((question, q), none_left) u = rw (e, q, u) refl
  route-refusal s _ elicitation params id e strings u = rw (e, u) refl
  route-refusal s _ exit_plan_mode params id e strings u = rw (e, u) refl
  route-refusal s _ auto_mode_switch params id e strings u = rw (e, u) refl
  route-refusal s _ hooks params id e ((hook, h), none_left) u = rw (e, h, u) refl
  route-refusal s _ canvas_open params id e strings u =
      rw (or_empty params "sessionId" id e, u) refl
  route-refusal s _ canvas_close params id e strings u =
      rw (or_empty params "sessionId" id e, u) refl
  route-refusal s _ canvas_action params id e strings u =
      rw (or_empty params "sessionId" id e, u) refl
  route-refusal s _ factory_execute params id e strings u =
      rw (or_empty params "sessionId" id e, u) refl
  route-refusal s _ factory_abort params id e strings u =
      rw (or_empty params "sessionId" id e, u) refl
