-- ===== src/Events.antt =====
-- events.hpp: `parse_session_event`. The structs of the events' data and their from_json are a
-- parameter; the table of the names and the choice of the struct are the program's.
pub mod Types
pub mod Names
pub mod Payloads
pub mod Fallback
use copilot_cpp.Prelude.{
  Bool, true, false, ◌&&◌, not, Option, none, some, String, List, [], ◌∷◌, if◌then◌else◌,
}
use copilot_cpp.Prelude.Text.{lookup}
use copilot_cpp.Prelude.Exec.{Result, ok, err}
use copilot_cpp.Prelude.Try.{◌>>=◌, or_throw}
use copilot_cpp.Json.{Json}
use Types.{SessionEventType, unknown, Payload}
use Names.{type_map}
use Payloads.{payload_of}

abbrev pub type_or_unknown : Option SessionEventType → SessionEventType
type_or_unknown none = unknown
type_or_unknown (some t) = t

-- The structs, and `get<T>` of nlohmann::json: none where it throws a json::exception.
pub record Structs (J : Json) : Type 1 where
  pub Data : Payload → Type 0
  pub get : (p : Payload) → Json.Value J → Option (Data p)
  pub get_bool : Json.Value J → Option Bool

module _ {J : Json} (S : Structs J) where
  open J use {Value, get_string, is_null, contains, at}
  open S use {Data, get, get_bool}

  -- `SessionEventData`
  pub data SessionEventData : Type 0 where
    typed : (p : Payload) → Data p → SessionEventData
    raw : Value → SessionEventData

  pub record SessionEvent : Type 0 where
    pub id : String
    pub timestamp : String
    pub parent_id : Option String
    pub ephemeral : Option Bool
    pub agent_id : Option String
    pub type : SessionEventType
    pub type_string : String
    pub content : SessionEventData

  -- `j.at(key).get<std::string>()`; the exception is a json::exception
  abbrev pub text_of : Option Value → Result String String
  text_of none = err "json::out_of_range"
  text_of (some v) = or_throw (get_string v) "json::type_error"

  abbrev pub text_at : Value → String → Result String String
  text_at j key = text_of (at j key)

  abbrev some_of : {A : Type 0} → Result String A → Result String (Option A)
  some_of (ok a) = ok (some a)
  some_of (err e) = err e

  -- a member that may be absent or null
  abbrev pub optional_of : Option Value → Result String (Option String)
  optional_of none = ok none
  optional_of (some v) =
      if is_null v then ok none else some_of (or_throw (get_string v) "json::type_error")

  abbrev pub flag_of : Option Value → Result String (Option Bool)
  flag_of none = ok none
  flag_of (some v) = some_of (or_throw (get_bool v) "json::type_error")

  abbrev pub value_of : Option Value → Result String Value
  value_of none = err "json::out_of_range"
  value_of (some v) = ok v

  -- the `try` round the `switch`, whose `catch` keeps the raw JSON
  abbrev pub data_or_raw : (p : Payload) → Value → Option (Data p) → SessionEventData
  data_or_raw p v none = raw v
  data_or_raw p v (some x) = typed p x

  abbrev pub data_for : Option Payload → Value → SessionEventData
  data_for none v = raw v
  data_for (some p) v = data_or_raw p v (get p v)

  abbrev pub data_of : Option SessionEventType → Value → SessionEventData
  data_of none v = raw v
  data_of (some t) v = data_for (payload_of t) v

  -- parse_session_event
  unfoldable pub parse_session_event : Value → Result String SessionEvent
  parse_session_event j = do
    id ← text_at j "id"
    timestamp ← text_at j "timestamp"
    parent_id ← optional_of (at j "parentId")
    ephemeral ← flag_of (at j "ephemeral")
    agent_id ← optional_of (at j "agentId")
    type_string ← text_at j "type"
    data_json ← value_of (at j "data")
    ok (record {
      id = id;
      timestamp = timestamp;
      parent_id = parent_id;
      ephemeral = ephemeral;
      agent_id = agent_id;
      type = type_or_unknown (lookup type_string type_map);
      type_string = type_string;
      content = data_of (lookup type_string type_map) data_json;
    })
