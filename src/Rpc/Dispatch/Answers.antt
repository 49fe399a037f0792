-- ===== src/Rpc/Dispatch/Answers.antt =====
-- include/copilot/jsonrpc.hpp: what the peer is sent for a request, a notification or a response.
use Prim.Native.String.{◌++◌ as str_append}
use copilot_cpp.Prelude.{
  true, false, ◌||◌, is_some, Option, none, some, String, [], ◌∷◌, ◌++◌, if◌then◌else◌, ◌≡◌, refl,
  ap, ◌∙◌, Bool-cases, Option-cases, inl, inr, arith,
}
use copilot_cpp.Prelude.Int.{ℤ}
use copilot_cpp.Prelude.Exec.{Result, ok, err}
use copilot_cpp.Json.{Json, IsLawful}
use copilot_cpp.Json.Laws.{object_laws}
use copilot_cpp.Rpc.Message.{
  code_value, method_not_found, internal_error, Fault, foreign, RequestId, Request, Response,
  ErrorObject, request_to_json, set_some, set_unless_null, require, response_to_json,
}
use copilot_cpp.Rpc.Message.RoundTrip.{
  id_null, IdFits, OptionFits, ErrorFits, request_round_trip, response_round_trip,
}
use copilot_cpp.Rpc.Client.{Client, handle_response, resolve, own_id, outcome_of}
use copilot_cpp.Rpc.Dispatch.{
  Handled, returns, throws_rpc, throws, throws_foreign, Peer, handle_request, handle_notification,
  is_response, dispatch_message, answer, or_internal, has_id, dispatch_kind, handle_call, thrown,
  respond, internal, send_response, send_error_response, send_message,
}

false_isnt_true : ¬ (false ≡ true)
false_isnt_true = ground arith

module _ {J : Json} where
  open J use {Value, null, is_null}

  -- An answer with an error object, or with a result.
  abbrev pub failed : RequestId → ℤ → String → Value → Response J
  failed id code message details = record {
    id = id;
    result = none;
    error = some (record { code = code; message = message; details = details });
  }

  -- The answer that a request has by the JSON-RPC 2.0 specification, from what its handler does; an
  -- exception that is no `std::exception` has none.
  abbrev pub answer_to : RequestId → Handled J → Option (Response J)
  answer_to id (returns v) = some (record { id = id; result = some v; error = none })
  answer_to id (throws_rpc e) = some (failed id e.code e.message e.details)
  answer_to id (throws what) = some (failed id (code_value internal_error) what null)
  answer_to id throws_foreign = none

  abbrev pub reply :
      Option (String → Value → Handled J) → RequestId → Request J → Option (Response J)
  reply none id r =
      some (failed id (code_value method_not_found) (str_append "Method not found: " r.method) null)
  reply (some handler) id r = answer_to id (handler r.method r.params)

  abbrev pub sends : Value → Client J → Client J
  sends message c = record c { sent = c.sent ++ message ∷ [] }

  send_message-written :
      (P : Peer J)
      → ((v : Value) → P.write v ≡ none)
      → (v : Value) (c : Client J) → send_message J P v c ≡ (none, sends v c)
  unfolding send_message
  send_message-written P w v c = rw (w v, send_message) refl

  -- what is left of a request: its answer is the one message that is sent, or there is none and the
  -- exception goes through
  abbrev pub replied : Option (Response J) → Client J → Result Fault (Unit {0}) × Client J
  replied (some r) c = (ok tt, sends (response_to_json J r) c)
  replied none c = (err foreign, c)

  answer-reply :
      (P : Peer J)
      → ((v : Value) → P.write v ≡ none)
      → (id : RequestId) (h : Handled J) (c : Client J)
      → answer J P id h c ≡ replied (answer_to id h) c
  unfolding answer internal send_response send_error_response or_internal
  answer-reply P w id (returns v) c =
      ap (λ r. thrown J P (or_internal J P id r)) (send_message-written P w _ c)
  answer-reply P w id (throws_rpc e) c = ap (thrown J P) (send_message-written P w _ c)
  answer-reply P w id (throws what) c = ap (thrown J P) (send_message-written P w _ c)
  answer-reply P w id throws_foreign c = refl

  handle_request-reply :
      (P : Peer J)
      → ((v : Value) → P.write v ≡ none)
      → (id : RequestId) (r : Request J) (c : Client J)
      → handle_request J P id r c ≡ replied (reply P.request_handler id r) c
  unfolding handle_request send_error_response
  handle_request-reply P w id r c = elim (Option-cases P.request_handler) [
    | inl e ↦ rw (e, handle_request) (ap (thrown J P) (send_message-written P w _ c))
    | inr (h, e) ↦ rw (e, handle_request) (answer-reply P w id (h r.method r.params) c)
  ]

  request_kind :
      ⦃L : IsLawful J⦄ (P : Peer J) (m : String) (p : Value) (i : Option RequestId)
      → let v = request_to_json J (record { method = m; params = p; id = i }) in
        (is_response J P v ≡ ok false) × (Json.contains J v "method" ≡ true)
  unfolding is_response has_id require request_to_json set_some set_unless_null
  request_kind P m p none = elim (Bool-cases (is_null p)) [
    | inl e ↦ rw (e, request_to_json) (simp object_laws, simp object_laws)
    | inr e ↦ rw (e, request_to_json) (simp object_laws, simp object_laws)
  ]
  request_kind P m p (some id) = elim (Bool-cases (is_null p)) [
    | inl e ↦ rw (e, request_to_json) (simp (object_laws, id_null J id), simp object_laws)
    | inr e ↦ rw (e, request_to_json) (simp (object_laws, id_null J id), simp object_laws)
  ]

  response_kind :
      ⦃L : IsLawful J⦄ (P : Peer J) (id : RequestId) (result : Option Value)
      (error : Option (ErrorObject J))
      → (is_some result || is_some error) ≡ true
      → is_response J P (response_to_json J (record { id = id; result = result; error = error }))
        ≡ ok true
  unfolding is_response has_id require response_to_json set_some
  response_kind P id none none h = absurd (false_isnt_true h)
  response_kind P id none (some e) h = simp (object_laws, id_null J id)
  response_kind P id (some v) none h = simp (object_laws, id_null J id)
  response_kind P id (some v) (some e) h = simp (object_laws, id_null J id)

  handle_response_lem :
      ⦃L : IsLawful J⦄ (r : Response J) (c : Client J)
      → IdFits J r.id
      → ErrorFits J r.error
      → handle_response J (response_to_json J r) c
        ≡ ok (resolve J (own_id J r.id) (outcome_of J r) c)
  unfolding handle_response
  handle_response_lem r c h f = rw (response_round_trip J r h f)

  dispatch_request :
      ⦃L : IsLawful J⦄ (P : Peer J) (r : Request J) (c : Client J)
      → OptionFits J r.id
      → dispatch_message J P (request_to_json J r) c ≡ handle_call J P (ok r) c
  unfolding dispatch_message dispatch_kind
  dispatch_request P r c h =
      let (e, k) = request_kind P r.method r.params r.id in
      rw (e, k, dispatch_kind, request_round_trip J r h) refl

  -- A request that arrives is answered once when its handler returns or throws a `std::exception`,
  -- or when there is no handler: with the result, with the code, message and data of the
  -- `JsonRpcError`, with an internal error that holds the text of another exception, or with "Method
  -- not found". When the handler throws something else, nothing is sent, and the exception goes
  -- through dispatch_message. This supposes that writes succeed.
  pub dispatch_request-reply :
      ⦃L : IsLawful J⦄ (P : Peer J) (method : String) (params : Value) (id : RequestId)
      (c : Client J)
      → ((v : Value) → P.write v ≡ none)
      → IdFits J id
      → let r : Request J = record { method = method; params = params; id = some id } in
        dispatch_message J P (request_to_json J r) c ≡ replied (reply P.request_handler id r) c
  unfolding handle_call
  dispatch_request-reply P method params id c w h =
      let r : Request J = record { method = method; params = params; id = some id } in
      dispatch_request P r c h ∙ handle_request-reply P w id r c

  -- A notification that arrives goes to the notification handler, if one is set, and nothing is
  -- sent for it.
  pub dispatch_notification-silent :
      ⦃L : IsLawful J⦄ (P : Peer J) (method : String) (params : Value) (c : Client J)
      → let r : Request J = record { method = method; params = params; id = none } in
        dispatch_message J P (request_to_json J r) c ≡ (
          ok tt,
          (if P.has_notification_handler
              then record c { notified = c.notified ++ (method, params) ∷ [] }
              else c),
        )
  unfolding handle_call handle_notification
  dispatch_notification-silent P method params c =
      dispatch_request P (record { method = method; params = params; id = none }) c tt

  -- A response that arrives settles the promise of its id, if this client has a request of that id
  -- pending, with the error object if it has one, and else with the result; no handler sees it.
  pub dispatch_response-resolve :
      ⦃L : IsLawful J⦄ (P : Peer J) (r : Response J) (c : Client J)
      → IdFits J r.id
      → ErrorFits J r.error
      → (is_some r.result || is_some r.error) ≡ true
      → dispatch_message J P (response_to_json J r) c
        ≡ (ok tt, resolve J (own_id J r.id) (outcome_of J r) c)
  unfolding dispatch_message dispatch_kind respond
  dispatch_response-resolve P r c h f some_part =
      rw (response_kind P r.id r.result r.error some_part, handle_response_lem r c h f)
