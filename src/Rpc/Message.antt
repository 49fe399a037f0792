-- ===== src/Rpc/Message.antt =====
-- include/copilot/jsonrpc.hpp: the JSON-RPC 2.0 messages, to JSON and back, and what a message is.
use mathlib.Core.Option
pub mod RoundTrip
use copilot_cpp.Prelude.{
  Bool, true, false, Option, none, some, String, List, [], ◌∷◌, if◌then◌else◌,
}
use copilot_cpp.Prelude.Int.{ℤ, negsuc}
use copilot_cpp.Prelude.Exec.{Result, ok, err}
use copilot_cpp.Prelude.Try.{◌>>=◌, or_throw}
use copilot_cpp.Json.{Json}

-- `JsonRpcErrorCode`
pub data ErrorCode : Type 0 where
  parse_error invalid_request method_not_found invalid_params internal_error : ErrorCode
  server_error request_cancelled connection_closed timeout : ErrorCode

abbrev pub code_value : ErrorCode → ℤ
code_value parse_error = negsuc 32699
code_value invalid_request = negsuc 32599
code_value method_not_found = negsuc 32600
code_value invalid_params = negsuc 32601
code_value internal_error = negsuc 32602
code_value server_error = negsuc 31999
code_value request_cancelled = negsuc 32799
code_value connection_closed = negsuc 32800
code_value timeout = negsuc 32801

-- What the message functions throw: `json::exception`, and `std::runtime_error`.
pub data Fault : Type 0 where
  json_exception : Fault
  runtime_error : String → Fault
  -- an exception that is no `std::exception`, which no handler of the client catches
  foreign : Fault

-- `JsonRpcId`
pub data RequestId : Type 0 where
  string_id : String → RequestId
  int_id : ℤ → RequestId

-- the `id` of a response that has none is the default of the variant, an empty string
pub id_or_default : Option RequestId → RequestId
id_or_default none = string_id ""
id_or_default (some id) = id

module _ (J : Json) where
  open J use {
    Value, null, text, integer, object, is_null, is_string, is_integer, get_string, get_int64,
    get_int, contains, at,
  }

  pub record Request : Type 0 where
    pub method : String
    pub params : Value
    pub id : Option RequestId

  pub record ErrorObject : Type 0 where
    pub code : ℤ
    pub message : String
    pub details : Value

  pub record Response : Type 0 where
    pub id : RequestId
    pub result : Option Value
    pub error : Option ErrorObject

  -- `j.at(key)`, `j.get<std::string>()`, `j.get<int>()`
  unfoldable pub require : Value → String → Result Fault Value
  require j key = or_throw (at j key) json_exception

  pub as_string : Value → Result Fault String
  as_string j = or_throw (get_string j) json_exception

  pub as_int : Value → Result Fault ℤ
  as_int j = or_throw (get_int j) json_exception

  unfoldable pub id_to_json : RequestId → Value
  id_to_json (string_id s) = text s
  id_to_json (int_id n) = integer n

  pub id_from_json : Value → Result Fault RequestId
  id_from_json j =
      if is_string j
      then (or_throw (get_string j) json_exception >>= λ s. ok (string_id s))
      else if is_integer j
      then (or_throw (get_int64 j) json_exception >>= λ n. ok (int_id n))
      else err (runtime_error "Invalid JSON-RPC id type")

  -- The members of an object that is being built; a later one is put in front.
  abbrev pub Members : Type 0
  Members = List (String × Value)

  -- `if (value) j[key] = *value`
  unfoldable pub set_some : String → Option Value → Members → Members
  set_some key none m = m
  set_some key (some v) m = (key, v) ∷ m

  -- `if (!value.is_null()) j[key] = value`
  unfoldable pub set_unless_null : String → Value → Members → Members
  set_unless_null key v m = if is_null v then m else (key, v) ∷ m

  -- JsonRpcRequest::to_json
  unfoldable pub request_to_json : Request → Value
  unfolding set_unless_null set_some
  request_to_json r = object (
      set_some "id" (Option.map id_to_json r.id) (
        set_unless_null "params" r.params
          (("method", text r.method) ∷ ("jsonrpc", text "2.0") ∷ [])))

  -- `j.contains(key) && !j.at(key).is_null()`, after which `j.at(key)` is read
  pub present : Value → String → Result Fault (Option Value)
  unfolding require
  present j key =
      if contains j key
      then (require j key >>= λ v. ok (if is_null v then none else some v))
      else ok none

  pub optional_id : Option Value → Result Fault (Option RequestId)
  optional_id none = ok none
  optional_id (some v) = id_from_json v >>= λ id. ok (some id)

  -- JsonRpcRequest::from_json
  pub request_from_json : Value → Result Fault Request
  unfolding require as_string present optional_id
  request_from_json j = do
    m ← require j "method"
    method ← as_string m
    params ← (if contains j "params" then require j "params" else ok null)
    i ← present j "id"
    id ← optional_id i
    ok (record { method = method; params = params; id = id })

  pub is_notification : Request → Bool
  is_notification r = elim r.id [ none ↦ true | some id ↦ false ]

  -- JsonRpcErrorObject::to_json
  pub error_to_json : ErrorObject → Value
  unfolding set_unless_null
  error_to_json e = object (
      set_unless_null "data" e.details
        (("message", text e.message) ∷ ("code", integer e.code) ∷ []))

  -- JsonRpcErrorObject::from_json
  pub error_from_json : Value → Result Fault ErrorObject
  unfolding require as_string as_int
  error_from_json j = do
    c ← require j "code"
    code ← as_int c
    m ← require j "message"
    message ← as_string m
    details ← (if contains j "data" then require j "data" else ok null)
    ok (record { code = code; message = message; details = details })

  -- JsonRpcResponse::to_json
  unfoldable pub response_to_json : Response → Value
  unfolding set_some
  response_to_json r = object (
      set_some "error" (Option.map error_to_json r.error)
        (set_some "result" r.result (("id", id_to_json r.id) ∷ ("jsonrpc", text "2.0") ∷ [])))

  pub optional_result : Value → Result Fault (Option Value)
  unfolding require
  optional_result j =
      if contains j "result" then (require j "result" >>= λ v. ok (some v)) else ok none

  pub optional_error : Value → Result Fault (Option ErrorObject)
  unfolding require
  optional_error j =
      if contains j "error"
      then (require j "error" >>= λ v. error_from_json v >>= λ e. ok (some e))
      else ok none

  -- JsonRpcResponse::from_json
  pub response_from_json : Value → Result Fault Response
  unfolding present optional_id id_or_default optional_result optional_error
  response_from_json j = do
    i ← present j "id"
    id ← optional_id i
    result ← optional_result j
    error ← optional_error j
    ok (record { id = id_or_default id; result = result; error = error })

  pub is_error : Response → Bool
  is_error r = elim r.error [ none ↦ false | some e ↦ true ]
