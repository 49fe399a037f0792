-- ===== src/Rpc/Dispatch.antt =====
-- include/copilot/jsonrpc.hpp: what the read loop does with a message.
pub mod Answers
use Prim.Native.String.{◌++◌ as str_append}
use copilot_cpp.Prelude.{
  ℕ, Bool, true, false, not, ◌&&◌, ◌||◌, Option, none, some, String, List, [], ◌∷◌, ◌++◌,
  if◌then◌else◌,
}
use copilot_cpp.Prelude.Exec.{Result, ok, err}
use copilot_cpp.Prelude.Try.{◌>>=◌}
use copilot_cpp.Prelude.Int.{ℤ, pos}
use copilot_cpp.Json.{Json}
use copilot_cpp.Rpc.Message.{
  code_value, method_not_found, internal_error, Fault, int_id, request_to_json, json_exception,
  runtime_error, foreign, RequestId, Request, Response, ErrorObject, request_to_json,
  request_from_json, response_to_json, is_notification, require,
}
use copilot_cpp.Rpc.Client.{register, withdraw, Client, RpcError, handle_response}

module _ (J : Json) where
  open J use {Value, null, is_null, contains}

  -- What a request handler of the user does: it returns a result, or throws a `JsonRpcError`,
  -- another `std::exception`, or something else.
  pub data Handled : Type 0 where
    returns : Value → Handled
    throws_rpc : RpcError J → Handled
    throws : String → Handled
    throws_foreign : Handled

  -- The handlers, if set, and the transport below: `write` is the text of the exception that a
  -- write of a message throws, if it does.
  pub record Peer : Type 0 where
    pub request_handler : Option (String → Value → Handled)
    pub has_notification_handler : Bool
    pub write : Value → Option String

  module _ (P : Peer) where
    open P use {request_handler, has_notification_handler, write}

    -- send_message: the exception's text beside the client, if the write fails
    pub send_message : Value → Client J → Option String × Client J
    send_message message c = elim (write message) [
      | none ↦ (none, record c { sent = c.sent ++ message ∷ [] })
      | some what ↦ (some what, c)
    ]

    -- invoke, invoke_with_id: the id of the promise, or the text of the exception; a request that
    -- cannot be written is not pending any more
    pub invoke : ℕ → ℕ → String → Value → Client J → Result String ℕ × Client J
    unfolding send_message
    invoke now limit method params c =
        let (id, c₁) = register J now limit c in
        let r : Request J = record {
          method = method;
          params = params;
          id = some (int_id (pos id));
        } in
        let (failure, c₂) = send_message (request_to_json J r) c₁ in
        elim failure [ none ↦ (ok id, c₂) | some what ↦ (err what, withdraw J id c₂) ]

    -- notify
    pub notify : String → Value → Client J → Option String × Client J
    unfolding send_message
    notify method params =
        send_message (request_to_json J (record { method = method; params = params; id = none }))

    -- send_response, send_error_response
    pub send_response : RequestId → Value → Client J → Option String × Client J
    unfolding send_message
    send_response id result =
        send_message (response_to_json J (record { id = id; result = some result; error = none }))

    pub send_error_response : RequestId → ℤ → String → Value → Client J → Option String × Client J
    unfolding send_message
    send_error_response id code message details = send_message (
        response_to_json J (record {
          id = id;
          result = none;
          error = some (record { code = code; message = message; details = details });
        }))

    -- `catch (const std::exception& e)`
    pub internal : RequestId → String → Client J → Option String × Client J
    unfolding send_error_response
    internal id what = send_error_response id (code_value internal_error) what null

    -- a response that cannot be written is answered like an exception of the handler
    pub or_internal : RequestId → Option String × Client J → Option String × Client J
    unfolding internal
    or_internal id (none, c) = (none, c)
    or_internal id (some what, c) = internal id what c

    abbrev pub thrown : Option String × Client J → Result Fault (Unit {0}) × Client J
    thrown (none, c) = (ok tt, c)
    thrown (some what, c) = (err (runtime_error what), c)

    -- the answer for what a handler does; no `catch` takes what is no `std::exception`
    pub answer : RequestId → Handled → Client J → Result Fault (Unit {0}) × Client J
    unfolding send_response send_error_response or_internal internal
    answer id (returns result) c = thrown (or_internal id (send_response id result c))
    answer id (throws_rpc e) c = thrown (send_error_response id e.code e.message e.details c)
    answer id (throws what) c = thrown (internal id what c)
    answer id throws_foreign c = (err foreign, c)

    pub handle_request : RequestId → Request J → Client J → Result Fault (Unit {0}) × Client J
    unfolding send_error_response answer
    handle_request id r c = elim request_handler [
      | none ↦ thrown (
          send_error_response id (code_value method_not_found)
            (str_append "Method not found: " r.method) null c)
      | some handler ↦ answer id (handler r.method r.params) c
    ]

    -- handle_notification: the call of the handler, whose exceptions are dropped
    pub handle_notification : Request J → Client J → Client J
    handle_notification r c =
        if has_notification_handler
        then record c { notified = c.notified ++ (r.method, r.params) ∷ [] }
        else c

    -- `message.contains("id") && !message.at("id").is_null()`
    pub has_id : Value → Result Fault Bool
    has_id message =
        if contains message "id"
        then (require J message "id" >>= λ v. ok (not (is_null v)))
        else ok false

    -- dispatch_message: is it a response?
    pub is_response : Value → Result Fault Bool
    unfolding has_id
    is_response message = has_id message >>= λ b. ok (
        b
        && (contains message "result" || contains message "error")
        && not (contains message "method"))

    pub respond : Client J → Result Fault (Client J) → Result Fault (Unit {0}) × Client J
    respond c (ok c') = (ok tt, c')
    respond c (err e) = (err e, c)

    pub handle_call : Result Fault (Request J) → Client J → Result Fault (Unit {0}) × Client J
    unfolding handle_request handle_notification
    handle_call (err e) c = (err e, c)
    handle_call (ok r) c = elim r.id [
      | none ↦ (ok tt, handle_notification r c)
      | some id ↦ handle_request id r c
    ]

    pub dispatch_kind : Result Fault Bool → Value → Client J → Result Fault (Unit {0}) × Client J
    unfolding respond handle_call
    dispatch_kind (err e) message c = (err e, c)
    dispatch_kind (ok true) message c = respond c (handle_response J message c)
    dispatch_kind (ok false) message c =
        if contains message "method"
        then handle_call (request_from_json J message) c
        else (ok tt, c)

    -- dispatch_message; the read loop drops what it throws, except for `foreign`, which ends the process
    pub dispatch_message : Value → Client J → Result Fault (Unit {0}) × Client J
    unfolding is_response dispatch_kind
    dispatch_message message c = dispatch_kind (is_response message) message c
