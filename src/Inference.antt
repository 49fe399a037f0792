-- ===== src/Inference.antt =====
-- src/request_handler.cpp: class `CopilotRequestHandlerBridge`, HTTP responses.
pub mod Replies
pub mod Exchanges
use Prim.Native.String.{◌++◌ as str_append}
use copilot_cpp.Prelude.{
  Bool, true, false, Option, none, some, String, List, [], ◌∷◌, ◌++◌, if◌then◌else◌,
}
use copilot_cpp.Prelude.Int.{ℤ}

-- `CopilotHttpResponse`, with its headers as they are; a header may have several values.
pub record HttpResponse : Type 0 where
  pub status : ℤ
  pub status_text : Option String
  pub headers : List (String × List String)
  pub chunks : List String
  pub binary : Bool

-- The calls of `send_rpc_`: `llmInference.httpResponseStart` and `llmInference.httpResponseChunk`.
-- A chunk may leave `binary` out, and may carry an error's message.
pub data Outgoing : Type 0 where
  response_start : String → ℤ → Option String → List (String × List String) → Outgoing
  response_chunk : String → String → Option Bool → Bool → Option String → Outgoing

-- complete_http: the loop over the chunks, of which the last has `end`
unfoldable pub chunk_messages : String → Bool → List String → List Outgoing
chunk_messages id binary [] = []
chunk_messages id binary (c ∷ []) = response_chunk id c (some binary) true none ∷ []
chunk_messages id binary (c ∷ d ∷ cs) =
    response_chunk id c (some binary) false none ∷ chunk_messages id binary (d ∷ cs)

-- complete_http: what is sent for a response
unfoldable pub body_messages : String → HttpResponse → List Outgoing
unfolding chunk_messages
body_messages id r = elim r.chunks [
  | [] ↦ response_chunk id "" none true none ∷ []
  | c ∷ cs ↦ chunk_messages id r.binary (c ∷ cs)
]

unfoldable pub response_messages : String → HttpResponse → List Outgoing
unfolding body_messages
response_messages id r = response_start id r.status r.status_text r.headers ∷ body_messages id r

-- What the user's `send_request` does: it responds, or throws a `std::exception` or something else.
pub data Reply : Type 0 where
  responds : HttpResponse → Reply
  throws : String → Reply
  throws_foreign : Reply

-- What `send_rpc_` does, which writes a request and waits for its answer: the message goes out and is
-- acknowledged, it cannot be written, or it goes out and the call throws all the same, for an error
-- or a closed connection is its answer. The last two throw an exception with a text.
pub data Sending : Type 0 where
  acknowledged : Sending
  unsent refused : String → Sending

-- How the thread of complete_http ends: an exception that no `catch` takes terminates the process.
pub data Exit : Type 0 where
  completes terminates : Exit

module _ (send_rpc : Outgoing → Sending) where
  -- a sequence of sends: the messages that go out, and the exception that ends it
  unfoldable pub send_all : List Outgoing → List Outgoing × Option String
  send_all [] = ([], none)
  send_all (m ∷ ms) =
      let (sent, failure) = send_all ms in
      elim (send_rpc m) [
        | acknowledged ↦ (m ∷ sent, failure)
        | unsent what ↦ ([], some what)
        | refused what ↦ (m ∷ [], some what)
      ]

  -- fail: its own exceptions are dropped
  unfoldable pub fail : String → String → List Outgoing
  fail id message =
      let m = response_chunk id "" none true (some message) in
      elim (send_rpc m) [ acknowledged ↦ m ∷ [] | unsent what ↦ [] | refused what ↦ m ∷ [] ]

  -- the `catch` of complete_http, with the cancellation as it is seen there
  unfoldable pub caught : String → Bool → Option String → List Outgoing
  unfolding fail
  caught id cancelled none = []
  caught id cancelled (some what) = if cancelled then [] else fail id what

  -- complete_http: what goes out. The request may be cancelled at any time: `before` the handler is
  -- called, when it has returned, and when an exception is caught.
  unfoldable pub complete_http : String → Reply → Bool → Bool → Bool → List Outgoing × Exit
  unfolding response_messages send_all caught
  complete_http id reply before returned at_catch = if before then ([], completes) else elim reply [
    | throws_foreign ↦ ([], terminates)
    | throws what ↦ (caught id at_catch (some what), completes)
    | responds r ↦
        (if returned
          then ([], completes)
          else (let (sent, failure) = send_all (response_messages id r) in
              (sent ++ caught id at_catch failure, completes)))
  ]
