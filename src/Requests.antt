-- ===== src/Requests.antt =====
-- src/client.cpp: the client's answers to the requests of the runtime. The user's handlers, with the
-- codecs of their types, are parameters that return or throw a `std::exception` with a text.
pub mod Tokens
pub mod Routing
pub mod Answered
use Prim.Native.String.{◌++◌ as str_append}
use copilot_cpp.Prelude.{
  Bool, true, false, ◌&&◌, ◌||◌, Option, none, some, String, List, [], ◌∷◌, ◌++◌, if◌then◌else◌,
}
use copilot_cpp.Prelude.Text.{str_eq, lookup}
use copilot_cpp.Prelude.Exec.{Result, ok, err}
use copilot_cpp.Prelude.Try.{◌>>=◌, or_throw}
use copilot_cpp.Prelude.Int.{ℤ}
use copilot_cpp.Json.{Json}
use copilot_cpp.Rpc.Message.{code_value, invalid_params, internal_error, method_not_found}
use copilot_cpp.Rpc.Client.{RpcError}
use copilot_cpp.Session.Tasks.{ToolInvocation, PermissionResult}

module _ (J : Json) where
  open J use {Value, null, text, boolean, object, is_null, is_array, get_string, contains, at}

  -- How a handler of the client stops: with a `JsonRpcError`, with another exception, or by the read
  -- of a member that is not there through `operator[]` of a constant value, which is undefined for an
  -- object.
  pub data Stop : Type 0 where
    rpc : RpcError J → Stop
    standard : String → Stop
    no_member : String → Stop

  abbrev pub Outcome : Type 0 → Type 0
  Outcome A = Result Stop A

  -- `throw JsonRpcError(code, message)`
  abbrev pub json_rpc_error : ℤ → String → Stop
  json_rpc_error code message = rpc (record { code = code; message = message; details = null })

  -- `UserInputRequest`; its choices and its flag are values of JSON
  pub record UserInput : Type 0 where
    pub question : String
    pub choices : Option Value
    pub allow_freeform : Option Value

  -- `UserInputResponse`
  pub record UserAnswer : Type 0 where
    pub answer : String
    pub was_freeform : Bool

  -- `PermissionRequest`: `whole` has the other members, whose reading is a part of the handler
  pub record Permission : Type 0 where
    pub kind : String
    pub tool_call_id : Option String
    pub whole : Value

  -- The handlers of a session. A tool may be registered without one.
  pub record Handlers : Type 0 where
    pub tools : List (String × Option (ToolInvocation J → Result String Value))
    pub permission : Permission → Result String (PermissionResult J)
    pub user_input : UserInput → Result String UserAnswer
    pub elicitation : Value → Result String Value
    pub exit_plan_mode : Value → Result String Value
    pub auto_mode_switch : Value → Result String Value
    pub hooks : String → Value → Result String Value
    pub canvas : String → Value → Result String Value
    pub factory : String → Value → Result String Value

  -- `sessions_`
  abbrev pub Sessions : Type 0
  Sessions = List (String × Handlers)

  -- `params[key].get<std::string>()`
  unfoldable pub string_at : Value → String → Outcome String
  string_at v key = elim (at v key) [
    | none ↦ err (no_member key)
    | some w ↦ or_throw (get_string w) (standard "json::type_error")
  ]

  -- `params.value(key, fallback)`
  abbrev pub value_or : Value → String → Value → Value
  value_or v key fallback = elim (at v key) [ none ↦ fallback | some w ↦ w ]

  -- `v.contains(key) && v[key].is_string()`
  abbrev pub string_if : Value → String → Option String
  string_if v key = elim (at v key) [ none ↦ none | some w ↦ get_string w ]

  abbrev pub array_if : Value → String → Option Value
  array_if v key = elim (at v key) [ none ↦ none | some w ↦ (if is_array w then some w else none) ]

  -- `v.contains(key) && !v[key].is_null()`
  abbrev pub non_null : Value → String → Option Value
  non_null v key = elim (at v key) [ none ↦ none | some w ↦ (if is_null w then none else some w) ]

  -- handle_tool_call: a result of the type `failure`
  unfoldable pub tool_failure : String → String → Value
  tool_failure for_llm what = object (
      (
        "result",
        object (
            ("textResultForLlm", text for_llm)
            ∷ ("resultType", text "failure")
            ∷ ("error", text what)
            ∷ []),
      )
      ∷ [])

  unfoldable pub tool_result : Result String Value → Value
  unfolding tool_failure
  tool_result (ok v) = object (("result", v) ∷ [])
  tool_result (err what) = tool_failure "Tool execution failed" what

  abbrev pub call_of : Value → String → String → String → ToolInvocation J
  call_of params id call name = record {
    session_id = id;
    tool_call_id = call;
    tool_name = name;
    arguments = some (value_or params "arguments" (object []));
    available_tools = array_if params "availableTools";
    traceparent = string_if params "traceparent";
    tracestate = string_if params "tracestate";
  }

  unfoldable pub run_tool :
      Option (Option (ToolInvocation J → Result String Value)) → ToolInvocation J → Value
  unfolding tool_result tool_failure
  run_tool (some (some handler)) i = tool_result (handler i)
  run_tool (some none) i =
      tool_failure (str_append (str_append "Tool '" i.tool_name) "' is not supported.")
        (str_append (str_append "tool '" i.tool_name) "' not supported")
  run_tool none i =
      tool_failure (str_append (str_append "Tool '" i.tool_name) "' is not supported.")
        (str_append (str_append "tool '" i.tool_name) "' not supported")

  unfoldable pub call_tool : Option Handlers → ToolInvocation J → Value
  unfolding run_tool tool_failure
  call_tool none i = tool_failure "Session not found" (str_append "Unknown session " i.session_id)
  call_tool (some s) i = run_tool (lookup i.tool_name s.tools) i

  unfoldable pub handle_tool_call : Sessions → Value → Outcome Value
  unfolding string_at call_tool
  handle_tool_call sessions params = do
    id ← string_at params "sessionId"
    call ← string_at params "toolCallId"
    name ← string_at params "toolName"
    ok (call_tool (lookup id sessions) (call_of params id call name))

  -- handle_permission_request: the answer that leaves the request open
  abbrev pub no_result : Value
  no_result = object (("result", object (("kind", text "no-result") ∷ [])) ∷ [])

  abbrev pub optional : String → Option Value → List (String × Value)
  optional key none = []
  optional key (some v) = (key, v) ∷ []

  unfoldable pub permission_reply : Value → Result String (PermissionResult J) → Value
  permission_reply params (err what) = no_result
  permission_reply params (ok p) = object (
      ("result", object (p.extra ++ ("kind", text p.kind) ∷ []))
        ∷ optional "decisionContext" p.decision_context
      ++ optional "requestId" (at params "requestId"))

  -- the request that is read; the texts of its exceptions do not matter
  abbrev pub optional_string : Option Value → Outcome (Option String)
  optional_string none = ok none
  optional_string (some v) =
      or_throw (get_string v) (standard "json::type_error") >>= λ s. ok (some s)

  unfoldable pub read_permission : Value → Outcome Permission
  unfolding string_at
  read_permission p = do
    kind ← string_at p "kind"
    call ← optional_string (non_null p "toolCallId")
    let made : Permission = record { kind = kind; tool_call_id = call; whole = p }
    ok made

  -- its `catch (const std::exception&)`
  unfoldable pub permission_of : Handlers → Value → Outcome Permission → Outcome Value
  unfolding permission_reply
  permission_of s params (ok p) = ok (permission_reply params (s.permission p))
  permission_of s params (err (standard what)) = ok no_result
  permission_of s params (err (rpc e)) = ok no_result
  permission_of s params (err (no_member key)) = err (no_member key)

  unfoldable pub permission_for : Option Handlers → Value → Outcome Value
  unfolding read_permission permission_of
  permission_for none params = ok no_result
  permission_for (some s) params =
      permission_of s params (read_permission (value_or params "permissionRequest" params))

  unfoldable pub handle_permission_request : Sessions → Value → Outcome Value
  unfolding string_at permission_for
  handle_permission_request sessions params = do
    id ← string_at params "sessionId"
    permission_for (lookup id sessions) params

  -- what the handlers below do with an exception of the user's: it is an internal error
  unfoldable pub or_internal_error : Result String Value → Outcome Value
  or_internal_error (ok v) = ok v
  or_internal_error (err what) = err (json_rpc_error (code_value internal_error) what)

  -- the session of a request, which must be there
  unfoldable pub session_of : Sessions → String → Outcome Handlers
  session_of sessions id =
      or_throw (lookup id sessions)
        (json_rpc_error (code_value invalid_params) (str_append "Unknown session " id))

  abbrev pub user_reply : Result String UserAnswer → Result String Value
  user_reply (err what) = err what
  user_reply (ok a) =
      ok (object (("answer", text a.answer) ∷ ("wasFreeform", boolean a.was_freeform) ∷ []))

  unfoldable pub handle_user_input_request : Sessions → Value → Outcome Value
  unfolding string_at session_of or_internal_error
  handle_user_input_request sessions params = do
    id ← string_at params "sessionId"
    question ← string_at params "question"
    s ← session_of sessions id
    let asked : UserInput = record {
      question = question;
      choices = non_null params "choices";
      allow_freeform = non_null params "allowFreeform";
    }
    or_internal_error (user_reply (s.user_input asked))

  -- handle_elicitation_request, handle_exit_plan_mode_request and handle_auto_mode_switch_request
  unfoldable pub ask_session :
      (Handlers → Value → Result String Value) → Sessions → Value → Outcome Value
  unfolding string_at session_of or_internal_error
  ask_session handler sessions params = do
    id ← string_at params "sessionId"
    s ← session_of sessions id
    or_internal_error (handler s params)

  abbrev pub hook_reply : Result String Value → Result String Value
  hook_reply (err what) = err what
  hook_reply (ok v) = ok (if is_null v then object [] else object (("output", v) ∷ []))

  unfoldable pub handle_hooks_invoke : Sessions → Value → Outcome Value
  unfolding string_at session_of or_internal_error
  handle_hooks_invoke sessions params = do
    id ← string_at params "sessionId"
    hook ← string_at params "hookType"
    s ← session_of sessions id
    or_internal_error (hook_reply (s.hooks hook (value_or params "input" (object []))))
