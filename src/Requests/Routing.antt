-- ===== src/Requests/Routing.antt =====
-- src/client.cpp: the request handler that connect_to_server sets.
use Prim.Native.String.{◌++◌ as str_append}
use copilot_cpp.Prelude.{
  Bool, ◌&&◌, ◌||◌, Option, none, some, String, List, [], ◌∷◌, if◌then◌else◌, is_some,
}
use text.Mathlib.Text.{starts_with}
use copilot_cpp.Prelude.Text.{str_eq, lookup}
use copilot_cpp.Prelude.Exec.{Result, ok, err}
use copilot_cpp.Prelude.Try.{◌>>=◌, or_throw}
use copilot_cpp.Json.{Json}
use copilot_cpp.Rpc.Message.{code_value, invalid_params, method_not_found}
use copilot_cpp.Requests.{
  standard, Outcome, json_rpc_error, Handlers, Sessions, handle_tool_call,
  handle_permission_request, handle_user_input_request, ask_session, handle_hooks_invoke,
}
use copilot_cpp.Requests.Tokens.{Provider, handle_github_token_request, string_or_empty}

-- the requests that go to a session, by name
pub data Asked : Type 0 where
  tool_call permission user_input elicitation exit_plan_mode auto_mode_switch hooks : Asked

abbrev pub methods : List (String × Asked)
methods =
    ("tool.call", tool_call)
    ∷ ("permission.request", permission)
    ∷ ("userInput.request", user_input)
    ∷ ("elicitation.request", elicitation)
    ∷ ("exitPlanMode.request", exit_plan_mode)
    ∷ ("autoModeSwitch.request", auto_mode_switch)
    ∷ ("hooks.invoke", hooks)
    ∷ []

abbrev pub is_canvas : String → Bool
is_canvas m = str_eq m "canvas.open" || (str_eq m "canvas.close" || str_eq m "canvas.action.invoke")

abbrev pub is_factory : String → Bool
is_factory m = str_eq m "factory.execute" || str_eq m "factory.abort"

abbrev pub is_inference : String → Bool
is_inference m =
    str_eq m "llmInference.httpRequestStart" || str_eq m "llmInference.httpRequestChunk"

module _ (J : Json) where
  open J use {Value}

  -- What the handler reads of the client: its sessions, the bridge if there is one, and the options'
  -- token provider, file system and request handler.
  pub record Setup : Type 0 where
    pub sessions : Sessions J
    pub provider : Option Provider
    pub bridge : Option (String → Value → Outcome J Value)
    pub session_fs : Option (List (String × (Value → Outcome J Value)))
    pub request_handler : Option (String → Value → Outcome J Value)

  unfoldable pub ask : Asked → Sessions J → Value → Outcome J Value
  ask tool_call = handle_tool_call J
  ask permission = handle_permission_request J
  ask user_input = handle_user_input_request J
  ask elicitation = ask_session J (λ s. s.elicitation)
  ask exit_plan_mode = ask_session J (λ s. s.exit_plan_mode)
  ask auto_mode_switch = ask_session J (λ s. s.auto_mode_switch)
  ask hooks = handle_hooks_invoke J

  -- an exception of a canvas or a factory goes on as it is
  abbrev pub pass_on : Result String Value → Outcome J Value
  pass_on (ok v) = ok v
  pass_on (err what) = err (standard what)

  unfoldable pub ask_extension :
      (Handlers J → String → Value → Result String Value)
      → String
      → Sessions J
      → String
      → Value
      → Outcome J Value
  ask_extension handler unknown sessions method params = do
    id ← string_or_empty J params "sessionId"
    s ← or_throw (lookup id sessions) (json_rpc_error J (code_value invalid_params) unknown)
    pass_on (handler s method params)

  abbrev pub unknown_method : String → Outcome J Value
  unknown_method method =
      err (json_rpc_error J (code_value method_not_found) (str_append "Unknown method: " method))

  -- the rest of the chain, for a method of another kind
  unfoldable pub route_file : Setup → String → Value → Outcome J Value
  route_file s method params =
      let handlers : List (String × (Value → Outcome J Value)) = elim s.session_fs [
        | none ↦ []
        | some hs ↦ hs
      ] in
      let filed : Outcome J Value = elim (lookup method handlers) [
        | none ↦ unknown_method method
        | some f ↦ f params
      ] in
      let others : Outcome J Value = elim s.request_handler [
        | none ↦ unknown_method method
        | some f ↦ f method params
      ] in
      if is_some s.session_fs && starts_with method "sessionFs." then filed else others

  unfoldable pub route_other : Setup → String → Value → Outcome J Value
  unfolding ask_extension route_file
  route_other s method params =
      let rest = route_file s method params in
      let canvas =
        ask_extension (λ h. h.canvas) "Unknown canvas session" s.sessions method params in
      let factory =
        ask_extension (λ h. h.factory) "Unknown factory session" s.sessions method params in
      let inferred : Outcome J Value = elim s.bridge [
        | none ↦ rest
        | some f ↦ (if is_inference method then f method params else rest)
      ] in
      if is_canvas method then canvas else (if is_factory method then factory else inferred)

  unfoldable pub route : Setup → String → Value → Outcome J Value
  unfolding ask route_other
  route s method params = elim (lookup method methods) [
    | some asked ↦ ask asked s.sessions params
    | none ↦
        if str_eq method "gitHubToken.getToken"
        then handle_github_token_request J s.provider params
        else route_other s method params
  ]
