-- ===== src/Inference/Replies.antt =====
-- src/request_handler.cpp: what the runtime receives for an HTTP request.
use copilot_cpp.Prelude.{
  ℕ, ◌+◌, ◌≤◌, ◌≡◌, refl, ap, Bool, true, false, Option, none, some, String, List, [], ◌∷◌, ◌++◌,
  is_some, if◌then◌else◌, append-nil, ◌⊎◌, inl, inr, arith,
}
use copilot_cpp.Prelude.Int.{ℤ}
use copilot_cpp.Inference.{
  HttpResponse, Outgoing, response_start, response_chunk, chunk_messages, body_messages,
  response_messages, Reply, responds, throws, throws_foreign, Sending, acknowledged, unsent,
  refused, Exit, completes, terminates, send_all, fail, caught, complete_http,
}

-- A receiver of a response: a start, then chunks up to one with `end`, and nothing behind it. It
-- keeps the status and the chunks' data in order.
abbrev pub receive_chunks : List Outgoing → Option (List String)
receive_chunks [] = none
receive_chunks (response_start id status text headers ∷ ms) = none
receive_chunks (response_chunk id bytes binary ended (some error) ∷ ms) = none
receive_chunks (response_chunk id bytes binary true none ∷ []) = some (bytes ∷ [])
receive_chunks (response_chunk id bytes binary true none ∷ m ∷ ms) = none
receive_chunks (response_chunk id bytes binary false none ∷ ms) = elim (receive_chunks ms) [
  | none ↦ none
  | some rest ↦ some (bytes ∷ rest)
]

abbrev pub receive : List Outgoing → Option (ℤ × List String)
receive (response_start id status text headers ∷ ms) = elim (receive_chunks ms) [
  | none ↦ none
  | some body ↦ some (status, body)
]
receive _ = none

-- The chunks of a response; an empty body is one empty chunk.
abbrev pub chunks_of : List String → List String
chunks_of [] = "" ∷ []
chunks_of (c ∷ cs) = c ∷ cs

abbrev pub ends : List Outgoing → ℕ
ends [] = 0
ends (response_start id status text headers ∷ ms) = ends ms
ends (response_chunk id bytes binary ended error ∷ ms) = (if ended then 1 else 0) + ends ms

chunks_received :
    (id : String) (binary : Bool) (c : String) (cs : List String)
    → receive_chunks (chunk_messages id binary (c ∷ cs)) ≡ some (c ∷ cs)
unfolding chunk_messages
chunks_received id binary c [] = refl
chunks_received id binary c (d ∷ cs) = rw (chunks_received id binary d cs)

body_received :
    (id : String) (binary : Bool) (status : ℤ) (t : Option String) (h : List (String × List String))
    (cs : List String)
    → receive_chunks (
        body_messages id
          (record { status = status; status_text = t; headers = h; chunks = cs; binary = binary }))
      ≡ some (chunks_of cs)
unfolding body_messages
body_received id binary status t h [] = refl
body_received id binary status t h (c ∷ cs) = chunks_received id binary c cs

response_received :
    (id : String) (r : HttpResponse)
    → receive (response_messages id r) ≡ some (r.status, chunks_of r.chunks)
unfolding response_messages
response_received id r =
    ap (λ o. elim o [ none ↦ none | some body ↦ some (r.status, body) ])
      (body_received id r.binary r.status r.status_text r.headers r.chunks)

ends-append : (a b : List Outgoing) → ends (a ++ b) ≡ ends a + ends b
ends-append [] b = omega arith
ends-append (response_start id status text headers ∷ a) b = ends-append a b
ends-append (response_chunk id bytes binary true error ∷ a) b = omega (arith, ends-append a b)
ends-append (response_chunk id bytes binary false error ∷ a) b = omega (arith, ends-append a b)

Sending-cases :
    (o : Sending)
    → (o ≡ acknowledged)
      ⊎ (((what : String) × (o ≡ unsent what)) ⊎ ((what : String) × (o ≡ refused what)))
Sending-cases acknowledged = inl refl
Sending-cases (unsent what) = inr (inl (what, refl))
Sending-cases (refused what) = inr (inr (what, refl))

module _ (send_rpc : Outgoing → Sending) where
  send_all_total :
      ((m : Outgoing) → send_rpc m ≡ acknowledged)
      → (ms : List Outgoing) → send_all send_rpc ms ≡ (ms, none)
  unfolding send_all
  send_all_total s [] = refl
  send_all_total s (m ∷ ms) = rw (s m, send_all, send_all_total s ms) refl

  -- Without cancellation, and while sends succeed, the runtime receives the handler's response:
  -- one start with the status, the data of the chunks in order, `end` on the last one only, and an
  -- empty chunk for a response that has none.
  pub complete_http-receive :
      (id : String) (r : HttpResponse) (at_catch : Bool)
      → ((m : Outgoing) → send_rpc m ≡ acknowledged)
      → receive (complete_http send_rpc id (responds r) false false at_catch).0
        ≡ some (r.status, chunks_of r.chunks)
  unfolding complete_http caught
  complete_http-receive id r at_catch s =
      rw (send_all_total s (response_messages id r), append-nil) (response_received id r)

  -- the messages with `end` that are acknowledged
  abbrev acknowledged_end : Outgoing → Sending → ℕ
  acknowledged_end m acknowledged = ends (m ∷ [])
  acknowledged_end m _ = 0

  abbrev pub acknowledged_ends : List Outgoing → ℕ
  acknowledged_ends [] = 0
  acknowledged_ends (m ∷ ms) = acknowledged_end m (send_rpc m) + acknowledged_ends ms

  acknowledged_ends-append :
      (a b : List Outgoing) → acknowledged_ends (a ++ b) ≡ acknowledged_ends a + acknowledged_ends b
  acknowledged_ends-append [] b = omega arith
  acknowledged_ends-append (m ∷ a) b = omega (arith, acknowledged_ends-append a b)

  send_all_ok :
      (m : Outgoing) (ms : List Outgoing)
      → send_rpc m ≡ acknowledged
      → send_all send_rpc (m ∷ ms) ≡ (m ∷ (send_all send_rpc ms).0, (send_all send_rpc ms).1)
  unfolding send_all
  send_all_ok m ms h = rw (h, send_all) refl

  send_all-unsent :
      (m : Outgoing) (ms : List Outgoing) (what : String)
      → send_rpc m ≡ unsent what
      → send_all send_rpc (m ∷ ms) ≡ ([], some what)
  unfolding send_all
  send_all-unsent m ms what h = rw (h, send_all) refl

  send_all-refused :
      (m : Outgoing) (ms : List Outgoing) (what : String)
      → send_rpc m ≡ refused what
      → send_all send_rpc (m ∷ ms) ≡ (m ∷ [], some what)
  unfolding send_all
  send_all-refused m ms what h = rw (h, send_all) refl

  -- A sequence of sends has its end acknowledged, or is cut short by an exception before it has.
  abbrev OneEnd : List Outgoing × Option String → Type 0
  OneEnd (sent, failure) =
      (acknowledged_ends sent + (if is_some failure then 1 else 0) ≡ 1) × (ends sent ≤ 1)

  OneEnd-cons :
      (m : Outgoing) (ms : List Outgoing)
      → ends (m ∷ []) ≡ 0
      → OneEnd (send_all send_rpc ms)
      → OneEnd (send_all send_rpc (m ∷ ms))
  OneEnd-cons m ms z (h, k) = elim (Sending-cases (send_rpc m)) [
    | inl e ↦ rw (send_all_ok m ms e) (
      rw e (omega (arith, z, h)),
      omega (arith, ends-append (m ∷ []) (send_all send_rpc ms).0, z, k),
    )
    | inr (inl (what, e)) ↦ rw (send_all-unsent m ms what e) (omega arith, omega arith)
    | inr (inr (what, e)) ↦ rw (send_all-refused m ms what e) (rw e (omega arith), omega (arith, z))
  ]

  OneEnd-last :
      (id data_bytes : String) (binary : Option Bool)
      → OneEnd (send_all send_rpc (response_chunk id data_bytes binary true none ∷ []))
  unfolding send_all
  OneEnd-last id data_bytes binary =
      elim (Sending-cases (send_rpc (response_chunk id data_bytes binary true none))) [
        | inl e ↦ rw (send_all_ok _ [] e) (rw e (omega arith), omega arith)
        | inr (inl (what, e)) ↦ rw (send_all-unsent _ [] what e) (omega arith, omega arith)
        | inr (inr (what, e)) ↦ rw (send_all-refused _ [] what e) (rw e (omega arith), omega arith)
      ]

  chunks_OneEnd :
      (id : String) (binary : Bool) (c : String) (cs : List String)
      → OneEnd (send_all send_rpc (chunk_messages id binary (c ∷ cs)))
  unfolding chunk_messages
  chunks_OneEnd id binary c [] = OneEnd-last id c (some binary)
  chunks_OneEnd id binary c (d ∷ cs) = OneEnd-cons _ _ refl (chunks_OneEnd id binary d cs)

  body_OneEnd :
      (id : String) (binary : Bool) (status : ℤ) (t : Option String)
      (h : List (String × List String)) (cs : List String)
      → OneEnd (
          send_all send_rpc (
            body_messages id (record {
              status = status;
              status_text = t;
              headers = h;
              chunks = cs;
              binary = binary;
            })))
  unfolding body_messages
  body_OneEnd id binary status t h [] = OneEnd-last id "" none
  body_OneEnd id binary status t h (c ∷ cs) = chunks_OneEnd id binary c cs

  response_OneEnd :
      (id : String) (r : HttpResponse) → OneEnd (send_all send_rpc (response_messages id r))
  unfolding response_messages
  response_OneEnd id r =
      OneEnd-cons _ _ refl (body_OneEnd id r.binary r.status r.status_text r.headers r.chunks)

  fail_ok :
      (id what : String)
      → send_rpc (response_chunk id "" none true (some what)) ≡ acknowledged
      → fail send_rpc id what ≡ response_chunk id "" none true (some what) ∷ []
  unfolding fail
  fail_ok id what h = rw (h, fail) refl

  -- the message about an exception, once it is acknowledged, is one end more
  caught_one :
      (id : String) (failure : Option String)
      → ((message : String)
          → send_rpc (response_chunk id "" none true (some message)) ≡ acknowledged)
      → let sent = caught send_rpc id false failure in
        (acknowledged_ends sent ≡ (if is_some failure then 1 else 0)) × (ends sent ≤ 1)
  unfolding caught
  caught_one id none h = (refl, omega arith)
  caught_one id (some what) h = rw (fail_ok id what (h what)) (rw (h what) refl, omega arith)

  -- What a request ends with: one acknowledged message with `end`, and at most two that go out; or,
  -- when its handler throws what is no `std::exception`, nothing, and the process terminates.
  abbrev pub Ended : Reply → List Outgoing × Exit → Type 0
  Ended throws_foreign o = o ≡ ([], terminates)
  Ended _ (sent, exit) = (exit ≡ completes) × (acknowledged_ends sent ≡ 1) × (ends sent ≤ 2)

  -- For a request that is not cancelled and whose handler responds or throws a `std::exception`,
  -- exactly one message with `end` is acknowledged, whichever other sends throw, before the message
  -- went out or after it, as long as the message about the error is acknowledged when it is sent; one
  -- more may have gone out and been refused. When the handler throws anything else, nothing goes out
  -- and the process terminates.
  pub complete_http-once :
      (id : String) (reply : Reply)
      → ((message : String)
          → send_rpc (response_chunk id "" none true (some message)) ≡ acknowledged)
      → Ended reply (complete_http send_rpc id reply false false false)
  unfolding complete_http
  complete_http-once id throws_foreign h = refl
  complete_http-once id (throws what) h =
      let (one, few) = caught_one id (some what) h in (refl, one, omega (arith, few))
  complete_http-once id (responds r) h =
      let (sent, failure) = send_all send_rpc (response_messages id r) in
      let (one, few) = caught_one id failure h in
      let (cut, short) = response_OneEnd id r in
      (
        refl,
        omega (arith, acknowledged_ends-append sent (caught send_rpc id false failure), one, cut),
        omega (arith, ends-append sent (caught send_rpc id false failure), few, short),
      )
