-- ===== src/Rpc/Client.antt =====
-- include/copilot/jsonrpc.hpp: class `JsonRpcClient`. Each critical section is a function of the
-- client's state; what the threads do is a sequence of these (Rpc/Client/Steps.antt). A promise is
-- named by the id of its request.
pub mod Promises
pub mod Steps
pub mod Conservation
pub mod Timeouts
use Prim.Native.String.{◌++◌ as str_append}
use copilot_cpp.Prelude.{
  ℕ, ◌+◌, Bool, true, false, not, ◌&&◌, ◌||◌, Option, none, some, String, List, [], ◌∷◌, ◌++◌, ◌==◌,
  if◌then◌else◌,
}
use copilot_cpp.Prelude.Int.{ℤ, pos, negsuc}
use copilot_cpp.Prelude.Exec.{Result, ok, err}
use copilot_cpp.Prelude.Try.{◌>>=◌}
use copilot_cpp.Json.{Json}
use copilot_cpp.Rpc.Message.{
  code_value, timeout, connection_closed, method_not_found, internal_error, Fault, runtime_error,
  RequestId, string_id, int_id, Request, Response, ErrorObject, request_to_json, request_from_json,
  response_to_json, response_from_json, is_notification, is_error,
}
use copilot_cpp.Rpc.Pending.{Pending, deadline_of, find, erase, expired, live, insert}

-- `std::thread`: not started or joined, running, or at its end and not joined
pub data Thread : Type 0 where
  absent active finished : Thread

module _ (J : Json) where
  open J use {Value, null, is_null, contains, at}

  -- `JsonRpcError`
  pub record RpcError : Type 0 where
    pub code : ℤ
    pub message : String
    pub details : Value

  -- What a promise is set to.
  pub data Settled : Type 0 where
    value : Value → Settled
    failure : RpcError → Settled

  pub record Client : Type 0 where
    pub next_id : ℕ
    pub running : Bool
    pub read_thread : Thread
    pub timeout_thread : Thread
    pub pending : List Pending
    pub settled : List (ℕ × Settled)
    pub sent : List Value
    pub notified : List (String × Value)

  -- `JsonRpcClient(transport)`
  abbrev pub init : Client
  init = record {
    next_id = 1;
    running = false;
    read_thread = absent;
    timeout_thread = absent;
    pending = [];
    settled = [];
    sent = [];
    notified = [];
  }

  pub rpc_error : ℤ → String → RpcError
  rpc_error code message = record { code = code; message = message; details = null }

  pub is_settled : ℕ → List (ℕ × Settled) → Bool
  is_settled id [] = false
  is_settled id ((i, s) ∷ l) = i == id || is_settled id l

  -- `promise.set_value`, `promise.set_exception`: a promise that is set stays as it is
  pub settle : ℕ → Settled → Client → Client
  settle id s c = if is_settled id c.settled then c else record c { settled = (id, s) ∷ c.settled }

  -- `set_exception` on each promise of a list
  pub fail_each : RpcError → List Pending → Client → Client
  fail_each e [] c = c
  fail_each e (p ∷ ps) c = fail_each e ps (settle p.id (failure e) c)

  -- invoke: a new id, and its promise among the pending ones
  unfoldable pub register : ℕ → ℕ → Client → ℕ × Client
  register now limit c =
      let id = c.next_id in
      (
        id,
        record c {
          next_id = id + 1;
          pending = insert (record { id = id; deadline = deadline_of now limit }) c.pending;
        },
      )

  -- invoke: the request is written, or the pending promise is removed again
  pub withdraw : ℕ → Client → Client
  withdraw id c = record c { pending = erase id c.pending }

  -- fail_pending_request
  pub fail_pending_request : ℕ → RpcError → Client → Client
  unfolding settle
  fail_pending_request id e c = elim (find id c.pending) [
    | none ↦ c
    | some p ↦ settle p.id (failure e) (record c { pending = erase id c.pending })
  ]

  -- fail_all_pending
  pub fail_all_pending : RpcError → Client → Client
  unfolding fail_each
  fail_all_pending e c = fail_each e c.pending (record c { pending = [] })

  abbrev pub timed_out : RpcError
  timed_out = rpc_error (code_value timeout) "Request timed out"

  abbrev pub closed : RpcError
  closed = rpc_error (code_value connection_closed) "Connection closed"

  -- timeout_loop: the expired requests are taken out and failed
  pub fail_expired : ℕ → Client → Client
  unfolding fail_each
  fail_expired now c =
      fail_each timed_out (expired now c.pending) (record c { pending = live now c.pending })

  -- timeout_loop: one round at the time `now`
  pub timeout_round : ℕ → Client → Client
  timeout_round now c =
      if c.running then fail_expired now c else record c { timeout_thread = finished }

  -- the id of a response to a request of this client
  pub own_id : RequestId → Option ℕ
  own_id (string_id s) = none
  own_id (int_id (negsuc n)) = none
  own_id (int_id (pos n)) = some n

  pub outcome_of : Response J → Settled
  outcome_of r = elim r.error [
    | some e ↦ failure (record { code = e.code; message = e.message; details = e.details })
    | none ↦ value (elim r.result [ none ↦ null | some v ↦ v ])
  ]

  pub resolve : Option ℕ → Settled → Client → Client
  unfolding settle
  resolve none s c = c
  resolve (some id) s c = elim (find id c.pending) [
    | none ↦ c
    | some p ↦ settle p.id s (record c { pending = erase id c.pending })
  ]

  -- handle_response
  unfoldable pub handle_response : Value → Client → Result Fault Client
  unfolding own_id outcome_of resolve
  handle_response message c =
      response_from_json J message >>= λ r. ok (resolve (own_id r.id) (outcome_of r) c)

  -- start; none is `std::terminate`, from an assignment to a thread that is not joined
  pub start : Client → Option Client
  start c = if c.running then some c else elim c.read_thread [
    | absent ↦ (elim c.timeout_thread [
      | absent ↦ some (record c { running = true; read_thread = active; timeout_thread = active })
      | _ ↦ none
    ])
    | _ ↦ none
  ]

  -- stop: `running_` is cleared; the read loop does the same when the connection has closed
  pub halt : Client → Client
  halt c = record c { running = false }

  -- stop: both threads have come to their end and are joined
  pub join_threads : Client → Client
  join_threads c = record c { read_thread = absent; timeout_thread = absent }

  pub stop : Client → Client
  unfolding halt join_threads fail_all_pending
  stop c = fail_all_pending closed (join_threads (halt c))

  -- read_loop: `ConnectionClosedError`
  pub read_closed : Client → Client
  unfolding halt fail_all_pending
  read_closed c = record (fail_all_pending closed (halt c)) { read_thread = finished }
