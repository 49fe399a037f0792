-- ===== src/Inference/Exchanges.antt =====
-- src/request_handler.cpp: the exchanges of class `CopilotRequestHandlerBridge`. Exchanges are
-- shared by the map of pending ones and by the threads that complete them, so they stand in a store
-- and are named by their number there. The parameters of a call are read from its JSON beforehand.
pub mod Cancellation
use Prim.Native.String.{◌++◌ as str_append}
use copilot_cpp.Prelude.{
  ℕ, zero, suc, Bool, true, false, not, ◌&&◌, Option, none, some, String, List, [], ◌∷◌, ◌++◌,
  length, if◌then◌else◌, map,
}
use copilot_cpp.Prelude.Text.{str_eq, lookup}
use copilot_cpp.Prelude.Exec.{Result, ok, err, Exec, pure, raise, gets, modify, ◌>>=◌, ◌>>◌}

-- `Exchange`; its headers and agent ids are not kept.
pub record Exchange : Type 0 where
  pub request_id : String
  pub method : String
  pub url : String
  pub body : String
  pub is_websocket : Bool
  pub is_cancelled : Bool

-- The calls of the user's WebSocket handler, and the response that announces it.
pub data Call : Type 0 where
  announces : String → Call
  opens : ℕ → Call
  passes : ℕ → String → Bool → Call
  closes : ℕ → Option String → Call

pub record Bridge : Type 0 where
  pub exchanges : List Exchange
  pub pending : List (String × ℕ)
  pub completing : List ℕ
  pub calls : List Call

abbrev pub init : Bridge
init = record { exchanges = []; pending = []; completing = []; calls = [] }

-- `llmInference.httpRequestStart`
pub record Start : Type 0 where
  pub request_id : String
  pub transport : String
  pub method : String
  pub url : String

-- `llmInference.httpRequestChunk`
pub record Chunk : Type 0 where
  pub request_id : String
  pub is_cancel : Bool
  pub reason : String
  pub bytes : String
  pub is_binary : Bool
  pub is_end : Bool

-- `pending_.erase(id)`
unfoldable pub erase_pending : String → List (String × ℕ) → List (String × ℕ)
erase_pending id [] = []
erase_pending id ((j, n) ∷ ps) =
    let rest = erase_pending id ps in if str_eq j id then rest else (j, n) ∷ rest

abbrev pub update : ℕ → (Exchange → Exchange) → List Exchange → List Exchange
update n f [] = []
update zero f (e ∷ es) = f e ∷ es
update (suc n) f (e ∷ es) = e ∷ update n f es

abbrev pub exchange_at : ℕ → List Exchange → Option Exchange
exchange_at n [] = none
exchange_at zero (e ∷ es) = some e
exchange_at (suc n) (e ∷ es) = exchange_at n es

abbrev pub websocket_at : ℕ → Bridge → Bool
websocket_at n b = elim (exchange_at n b.exchanges) [ none ↦ false | some e ↦ e.is_websocket ]

unfoldable pub erase_id : String → Bridge → Bridge
unfolding erase_pending
erase_id id b = record b { pending = erase_pending id b.pending }

-- an exchange that is to be shared by the map and the threads
abbrev pub add_exchange : Start → Bool → Bridge → Bridge
add_exchange s is_websocket b = record b {
  exchanges =
      b.exchanges
      ++ record {
        request_id = s.request_id;
        method = s.method;
        url = s.url;
        body = "";
        is_websocket = is_websocket;
        is_cancelled = false;
      }
        ∷ [];
}

-- `pending_[id] = exchange`
abbrev pub enter_pending : String → ℕ → Bridge → Bridge
enter_pending id n b = record b { pending = (id, n) ∷ erase_pending id b.pending }

abbrev pub mark_cancelled : Exchange → Exchange
mark_cancelled e = record e { is_cancelled = true }

abbrev pub Io : Type 0 → Type 0
Io = Exec String Bridge

-- The text of the exception that a call throws, if it does.
module _ (throws : Call → Option String) where
  -- a call of the WebSocket handler or of `send_rpc_`
  abbrev pub call : Call → Io (Unit {0})
  call c b = (
    (elim (throws c) [ none ↦ ok tt | some what ↦ err what ]),
    record b { calls = b.calls ++ c ∷ [] },
  )

  -- handle: a start over a WebSocket; `accepts` is what the user's `open_websocket` does: it gives a
  -- handler, gives none or throws
  abbrev pub open_websocket : Result String Bool → String → ℕ → Io (Unit {0})
  open_websocket (err what) id n = raise what
  open_websocket (ok false) id n = raise "WebSocket request was not accepted"
  open_websocket (ok true) id n = do call (announces id); call (opens n)

  -- handle, for a start
  unfoldable pub handle_start : Result String Bool → Start → Io (Unit {0})
  unfolding erase_pending
  handle_start accepts s = do
    n ← gets (λ b. length b.exchanges)
    let is_websocket = str_eq s.transport "websocket"
    modify (add_exchange s is_websocket)
    if is_websocket then open_websocket accepts s.request_id n else pure tt
    modify (enter_pending s.request_id n)

  -- an exchange is cancelled, and its WebSocket closed
  unfoldable pub cancel_exchange : ℕ → String → Io (Unit {0})
  cancel_exchange n reason = do
    modify (λ b. record b { exchanges = update n mark_cancelled b.exchanges })
    is_websocket ← gets (websocket_at n)
    if is_websocket then call (closes n (some reason)) else pure tt

  -- the bytes of a chunk go to the WebSocket, or to the body of the request
  unfoldable pub feed : ℕ → Chunk → Io (Unit {0})
  feed n c = do
    is_websocket ← gets (websocket_at n)
    if is_websocket
        then call (passes n c.bytes c.is_binary)
        else modify (λ b. record b {
          exchanges = update n (λ e. record e { body = str_append e.body c.bytes }) b.exchanges;
        })

  -- the last chunk closes the WebSocket, or starts the thread of complete_http
  unfoldable pub end_request : ℕ → String → Io (Unit {0})
  unfolding erase_id
  end_request n id = do
    is_websocket ← gets (websocket_at n)
    (if is_websocket
        then (do call (closes n none); modify (erase_id id))
        else modify (λ b. record b { completing = b.completing ++ n ∷ [] }))

  -- handle, for a chunk of a pending request
  abbrev pub handle_pending : ℕ → Chunk → Io (Unit {0})
  handle_pending n c =
      if c.is_cancel
      then (do cancel_exchange n c.reason; modify (erase_id c.request_id))
      else (do feed n c; if c.is_end then end_request n c.request_id else pure tt)

  -- handle, for a chunk
  unfoldable pub handle_chunk : Chunk → Io (Unit {0})
  unfolding cancel_exchange erase_id feed end_request
  handle_chunk c b = elim (lookup c.request_id b.pending) [
    | none ↦ pure tt b
    | some n ↦ handle_pending n c b
  ]

  -- cancel_all: the pending exchanges one after the other
  unfoldable pub cancel_each : List (String × ℕ) → Io (Unit {0})
  unfolding cancel_exchange
  cancel_each [] = pure tt
  cancel_each ((id, n) ∷ ps) = do cancel_exchange n "client disposed"; cancel_each ps

  unfoldable pub cancel_all : Io (Unit {0})
  unfolding cancel_each
  cancel_all b = cancel_each b.pending (record b { pending = [] })

-- complete_http, at its end
unfoldable pub finish : ℕ → Bridge → Bridge
unfolding erase_id
finish n b = elim (exchange_at n b.exchanges) [ none ↦ b | some e ↦ erase_id e.request_id b ]

abbrev pub pending_count : Bridge → ℕ
pending_count b = length b.pending
