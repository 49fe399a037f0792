-- ===== src/Session/Tasks.antt =====
-- src/session.cpp: the background tasks with which `dispatch_event` answers the runtime's requests.
pub mod Answers
pub mod Silence
pub mod Authorisation
use copilot_cpp.Prelude.{
  ℕ, ◌+◌, ◌-◌, Bool, true, false, Option, none, some, String, List, [], ◌∷◌, ◌++◌, if◌then◌else◌,
}
use copilot_cpp.Prelude.Text.{str_eq}
use copilot_cpp.Prelude.Int.{ℤ}
use copilot_cpp.Prelude.Exec.{Result, ok, err, Exec, pure, lift, modify, ◌>>=◌}
use copilot_cpp.Json.{Json}

-- What is thrown: an exception of `std::exception` with its text, or another one.
pub data Thrown : Type 0 where
  standard : String → Thrown
  foreign : Thrown

-- `catch (const std::exception&)`
unfoldable pub catch_standard :
    {S A : Type 0} → Result Thrown A × S → (String → Exec Thrown S A) → Result Thrown A × S
catch_standard (ok a, s) f = (ok a, s)
catch_standard (err (standard what), s) f = f what s
catch_standard (err foreign, s) f = (err foreign, s)

-- `catch (...)`
unfoldable pub catch_all :
    {S A : Type 0} → Result Thrown A × S → Exec Thrown S A → Result Thrown A × S
catch_all (ok a, s) f = (ok a, s)
catch_all (err e, s) f = f s

module _ (J : Json) where
  open J use {Value, text, integer, object}

  -- `ToolInvocation`; its list of tools is a value of JSON
  pub record ToolInvocation : Type 0 where
    pub session_id : String
    pub tool_call_id : String
    pub tool_name : String
    pub arguments : Option Value
    pub available_tools : Option Value
    pub traceparent : Option String
    pub tracestate : Option String

  -- `ExternalToolRequestedData`
  pub record ToolRequest : Type 0 where
    pub request_id : String
    pub tool_call_id : String
    pub tool_name : String
    pub arguments : Option Value
    pub traceparent : Option String
    pub tracestate : Option String

  -- `PermissionRequestResult`: `extra` has the rules and the extension data
  pub record PermissionResult : Type 0 where
    pub kind : String
    pub extra : List (String × Value)
    pub decision_context : Option Value

  -- The session as a task changes it: `pending_tool_invocations_`, how often the flag of a
  -- cancellation was read, the calls that were made, and how many of them the runtime has taken.
  pub record Desk : Type 0 where
    pub pending : ℕ
    pub reads : ℕ
    pub sends : ℕ
    pub sent : List (String × Value)
    pub accepted : ℕ

  -- The outside of a session: what the n-th call comes to, and what the n-th read of
  -- `tool_invocations_cancelled_` gives.
  pub record Surroundings : Type 0 where
    pub session_id : String
    pub send : ℕ → String → Value → Result Thrown Value
    pub cancelled : ℕ → Bool

  abbrev pub Io : Type 0 → Type 0
  Io = Exec Thrown Desk

  abbrev pub took : Result Thrown Value → ℕ
  took (ok v) = 1
  took (err e) = 0

  -- what the tool task answers with
  abbrev pub result_payload : ToolRequest → Value → List (String × Value)
  result_payload r v = ("requestId", text r.request_id) ∷ ("result", v) ∷ []

  abbrev pub error_payload : ToolRequest → String → List (String × Value)
  error_payload r what = ("requestId", text r.request_id) ∷ ("error", text what) ∷ []

  -- the permission task: the handler's `approved` is sent as `approve-once`
  abbrev pub approve_once : String → String
  approve_once kind = if str_eq kind "approved" then "approve-once" else kind

  -- `json(result)`: a key of the extension data replaces the one before it
  abbrev pub result_to_json : PermissionResult → Value
  result_to_json p = object (p.extra ++ ("kind", text (approve_once p.kind)) ∷ [])

  abbrev pub with_context : Option Value → List (String × Value) → List (String × Value)
  with_context none params = params
  with_context (some c) params = ("decisionContext", c) ∷ params

  abbrev pub decision : String → PermissionResult → List (String × Value)
  decision id p =
      with_context p.decision_context (("requestId", text id) ∷ ("result", result_to_json p) ∷ [])

  abbrev pub unavailable : String → List (String × Value)
  unavailable id =
      ("requestId", text id) ∷ ("result", object (("kind", text "user-not-available") ∷ [])) ∷ []

  module _ (S : Surroundings) where
    -- Session::invoke(method, params).get(), for parameters that are an object
    unfoldable pub invoke : String → List (String × Value) → Io (Unit {0})
    invoke method params d =
        let whole = object (params ++ ("sessionId", text (Surroundings.session_id S)) ∷ []) in
        let reply = Surroundings.send S d.sends method whole in
        (
          elim reply [ ok v ↦ ok tt | err e ↦ err e ],
          record d {
            sends = d.sends + 1;
            sent = d.sent ++ (method, whole) ∷ [];
            accepted = d.accepted + took reply;
          },
        )

    -- dispatch_event, the tool task: `answer`
    unfoldable pub answer : List (String × Value) → Io (Unit {0})
    unfolding invoke
    answer payload d =
        let d' : Desk = record d { reads = d.reads + 1 } in
        if Surroundings.cancelled S d.reads
        then (ok tt, d')
        else invoke "session.tools.handlePendingToolCall" payload d'

    abbrev pub invocation_of : ToolRequest → ToolInvocation
    invocation_of r = record {
      session_id = Surroundings.session_id S;
      tool_call_id = r.tool_call_id;
      tool_name = r.tool_name;
      arguments = r.arguments;
      available_tools = none;
      traceparent = r.traceparent;
      tracestate = r.tracestate;
    }

    -- the `try` of the tool task, for what the handler comes to
    unfoldable pub answer_result : ToolRequest → Result Thrown Value → Io (Unit {0})
    unfolding answer
    answer_result r (ok result) d = answer (result_payload r result) d
    answer_result r (err e) d = (err e, d)

    -- its `catch`
    unfoldable pub answer_error : ToolRequest → String → Io (Unit {0})
    unfolding answer catch_all
    answer_error r what d = catch_all (answer (error_payload r what) d) (pure tt)

    -- the end of the task, which an exception skips
    unfoldable pub uncount : Result Thrown (Unit {0}) × Desk → Result Thrown (Unit {0}) × Desk
    uncount (ok u, d) = (ok u, record d { pending = d.pending - 1 })
    uncount (err e, d) = (err e, d)

    -- the tool task
    unfoldable pub tool_task : (ToolInvocation → Result Thrown Value) → ToolRequest → Io (Unit {0})
    unfolding answer_result answer_error catch_standard uncount
    tool_task handler r d =
        uncount (catch_standard (answer_result r (handler (invocation_of r)) d) (answer_error r))

    -- dispatch_event: the task is counted and run
    unfoldable pub external_tool :
        (ToolInvocation → Result Thrown Value) → ToolRequest → Io (Unit {0})
    unfolding tool_task
    external_tool handler r d = tool_task handler r (record d { pending = d.pending + 1 })

    -- dispatch_event, the permission task: the body of its `try`, for what the handler comes to
    unfoldable pub decide : String → Result Thrown PermissionResult → Io (Unit {0})
    unfolding invoke
    decide id (err e) d = (err e, d)
    decide id (ok p) d =
        (if str_eq p.kind "no-result"
            then pure tt
            else invoke "session.permissions.handlePendingPermissionRequest" (decision id p))
          d

    -- its `catch`
    unfoldable pub not_available : String → Io (Unit {0})
    unfolding invoke catch_all
    not_available id d =
        catch_all (invoke "session.permissions.handlePendingPermissionRequest" (unavailable id) d)
          (pure tt)

    -- what is thrown by the reading of the request, or what the handler makes of it
    abbrev pub decided :
        {R : Type 0}
        → (R → Result Thrown PermissionResult)
        → Result Thrown R
        → Result Thrown PermissionResult
    decided handler (ok r) = handler r
    decided handler (err e) = err e

    -- the permission task, for a request that is read or not, with what the handler makes of it
    unfoldable pub permission_task :
        {R : Type 0}
        → (R → Result Thrown PermissionResult)
        → String
        → Result Thrown R
        → Io (Unit {0})
    unfolding decide not_available catch_all
    permission_task handler id request d =
        catch_all (decide id (decided handler request) d) (not_available id)

    -- the task of a user's input, which catches nothing
    unfoldable pub user_input_task :
        {R : Type 0} → (R → Result Thrown Value) → String → R → Io (Unit {0})
    unfolding invoke
    user_input_task handler id r d = elim (handler r) [
      | err e ↦ (err e, d)
      | ok response ↦
          invoke "session.ui.handlePendingUserInput"
            (("requestId", text id) ∷ ("response", response) ∷ []) d
    ]

  -- Session::handle_permission_request: the handler with the invocation's context comes first
  unfoldable pub handle_permission_request :
      {R : Type 0}
      → Option (R → String → Bool → Result Thrown PermissionResult)
      → Option (R → Result Thrown PermissionResult)
      → String
      → Bool
      → R
      → Result Thrown PermissionResult
  handle_permission_request (some f) g id managed r = f r id managed
  handle_permission_request none (some g) id managed r = g r
  handle_permission_request none none id managed r =
      ok (record { kind = "no-result"; extra = []; decision_context = none })
