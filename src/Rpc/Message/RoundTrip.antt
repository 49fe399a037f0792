-- ===== src/Rpc/Message/RoundTrip.antt =====
-- include/copilot/jsonrpc.hpp: `from_json` after `to_json`, for requests and responses.
use copilot_cpp.Prelude.{false, Option, none, some, String, ◌≡◌, Bool-cases, inl, inr}
use copilot_cpp.Prelude.Int.{ℤ, Fits}
use copilot_cpp.Prelude.Exec.{ok}
use copilot_cpp.Json.{Json, IsLawful}
use copilot_cpp.Json.Laws.{object_laws, get_int64-integer, get_int-integer, null_unique}
use copilot_cpp.Rpc.Message.{
  ErrorObject, error_from_json, error_to_json, Response, response_from_json, response_to_json,
  Request, RequestId, string_id, int_id, request_to_json, request_from_json, id_to_json,
  id_from_json,
}

module _ (J : Json) ⦃L : IsLawful J⦄ where
  open J use {Value, is_null}

  -- An `int64_t` id is a value of its type.
  abbrev pub IdFits : RequestId → Type 0
  IdFits (string_id s) = Unit
  IdFits (int_id n) = Fits 63 n

  abbrev pub OptionFits : Option RequestId → Type 0
  OptionFits none = Unit
  OptionFits (some id) = IdFits id

  pub id_null : (id : RequestId) → is_null (id_to_json J id) ≡ false
  unfolding id_to_json
  id_null (string_id s) = simp object_laws
  id_null (int_id n) = simp object_laws

  id_round_trip : (id : RequestId) → IdFits id → id_from_json J (id_to_json J id) ≡ ok id
  unfolding id_from_json id_to_json
  id_round_trip (string_id s) h = simp object_laws
  id_round_trip (int_id n) h = simp (object_laws, get_int64-integer J n h)

  request_parts :
      (m : String) (p : Value) (i : Option RequestId)
      → OptionFits i
      → let r : Request J = record { method = m; params = p; id = i } in
        request_from_json J (request_to_json J r) ≡ ok r
  unfolding request_from_json request_to_json
  request_parts m p none h = elim (Bool-cases (is_null p)) [
    | inl e ↦ simp (object_laws, null_unique J p e)
    | inr e ↦ rw (e, request_to_json) (simp object_laws)
  ]
  request_parts m p (some id) h = elim (Bool-cases (is_null p)) [
    | inl e ↦ simp (object_laws, id_null id, id_round_trip id h, null_unique J p e)
    | inr e ↦ rw (e, request_to_json) (simp (object_laws, id_null id, id_round_trip id h))
  ]

  abbrev pub ErrorFits : Option (ErrorObject J) → Type 0
  ErrorFits none = Unit
  ErrorFits (some e) = Fits 31 e.code

  error_parts :
      (code : ℤ) (message : String) (details : Value)
      → Fits 31 code
      → let e : ErrorObject J = record { code = code; message = message; details = details } in
        error_from_json J (error_to_json J e) ≡ ok e
  unfolding error_from_json error_to_json
  error_parts code message details h = elim (Bool-cases (is_null details)) [
    | inl e ↦ simp (object_laws, get_int-integer J code h, null_unique J details e)
    | inr e ↦ rw (e, error_to_json) (simp (object_laws, get_int-integer J code h))
  ]

  error_round_trip :
      (e : ErrorObject J) → Fits 31 e.code → error_from_json J (error_to_json J e) ≡ ok e
  error_round_trip e h = error_parts e.code e.message e.details h

  -- A request, or a notification, whose id fits its type is read back as it was written.
  pub request_round_trip :
      (r : Request J) → OptionFits r.id → request_from_json J (request_to_json J r) ≡ ok r
  request_round_trip r h = request_parts r.method r.params r.id h

  response_parts :
      (id : RequestId) (result : Option Value) (error : Option (ErrorObject J))
      → IdFits id
      → ErrorFits error
      → let r : Response J = record { id = id; result = result; error = error } in
        response_from_json J (response_to_json J r) ≡ ok r
  unfolding response_from_json response_to_json
  response_parts id none none h f = simp (object_laws, id_null id, id_round_trip id h)
  response_parts id (some v) none h f = simp (object_laws, id_null id, id_round_trip id h)
  response_parts id none (some e) h f =
      simp (object_laws, id_null id, id_round_trip id h, error_round_trip e f)
  response_parts id (some v) (some e) h f =
      simp (object_laws, id_null id, id_round_trip id h, error_round_trip e f)

  -- A response is read back as it was written, with its result, its error object, or both, if its
  -- id and its error code fit their types.
  pub response_round_trip :
      (r : Response J)
      → IdFits r.id
      → ErrorFits r.error
      → response_from_json J (response_to_json J r) ≡ ok r
  response_round_trip r h f = response_parts r.id r.result r.error h f
