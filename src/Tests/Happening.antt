-- ===== src/Tests/Happening.antt =====
-- events.hpp: an event whose data does not fit its type.
use copilot_cpp.Prelude.{◌≡◌, refl, Bool, true, inl, inr, Option, none, some, String, List, [], ◌∷◌}
use copilot_cpp.Prelude.Exec.{ok}
use copilot_cpp.Json.{Json}
use copilot_cpp.Events.Types.{Payload}
use copilot_cpp.Events.{Structs, SessionEvent, parse_session_event}
use copilot_cpp.Events.Fallback.{IsEnvelope, Reads, parse_session_event-Reads}
use copilot_cpp.Tests.Values.{Node, nothing, string, flag, object_of, nodes, nodes-IsLawful}

abbrev object_only : Payload → Node → Option Node
object_only p (object_of m) = some (object_of m)
object_only p v = none

abbrev flag_in : Node → Option Bool
flag_in (flag b) = some b
flag_in v = none

abbrev structs : Structs nodes
structs = record { Data = λ p. Node; get = object_only; get_bool = flag_in }

abbrev idle_members : List (String × Node)
idle_members =
    ("id", string "e1")
    ∷ ("timestamp", string "2025-01-01T00:00:00Z")
    ∷ ("parentId", nothing)
    ∷ ("ephemeral", flag true)
    ∷ ("type", string "session.idle")
    ∷ ("data", string "odd")
    ∷ []

envelope : IsEnvelope structs nodes-IsLawful idle_members "session.idle" (string "odd")
envelope = record {
  id = ("e1", refl);
  timestamp = ("2025-01-01T00:00:00Z", refl);
  parent_id = inr (inl refl);
  ephemeral = inr (true, refl);
  agent_id = inl refl;
  type = refl;
  content = refl;
}

parse_session_event-Reads_example :
    (e : SessionEvent structs) × (parse_session_event structs (Json.object nodes idle_members)
      ≡ ok e)
    × Reads structs nodes-IsLawful idle_members "session.idle" (string "odd") e
parse_session_event-Reads_example =
    parse_session_event-Reads structs nodes-IsLawful idle_members "session.idle" (string "odd")
      (λ b. refl) envelope
