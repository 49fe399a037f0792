-- ===== src/Session/Waiting.antt =====
-- src/session.cpp: `send_and_wait`.
use Prim.Native.String.{◌++◌ as str_append}
use copilot_cpp.Prelude.{
  first_some, Bool, true, false, ◌||◌, Option, none, some, String, List, [], ◌∷◌, ◌≡◌, refl, ◌∙◌,
  ap, if◌then◌else◌,
}
use copilot_cpp.Prelude.Exec.{Result, ok, err}

-- The types of events that the wait looks at.
pub data EventType : Type 0 where
  assistant_message session_idle session_error other_type : EventType

-- `SessionEvent`: `message` is the text of its data, if this is a `SessionErrorData`
pub record Event : Type 0 where
  pub number : String
  pub event_type : EventType
  pub message : Option String

-- the variables that the subscribed handler captures
pub record Seen : Type 0 where
  pub done : Bool
  pub last_assistant_message : Option Event
  pub error_message : Option String

abbrev nothing_seen : Seen
nothing_seen = record { done = false; last_assistant_message = none; error_message = none }

abbrev error_text : Option String → String
error_text (some what) = what
error_text none = "Session error"

-- the subscribed handler
abbrev pub note_as : EventType → Event → Seen → Seen
note_as assistant_message e s = record s { last_assistant_message = some e }
note_as session_idle e s = record s { done = true }
note_as session_error e s = record s { error_message = some (error_text e.message); done = true }
note_as other_type e s = s

unfoldable pub note : Event → Seen → Seen
note e s = note_as e.event_type e s

unfoldable pub note_all : List Event → Seen → Seen
unfolding note
note_all [] s = s
note_all (e ∷ es) s = note_all es (note e s)

-- what follows the wait
unfoldable pub conclude : Seen → Result String (Option Event)
conclude s =
    if s.done
    then elim s.error_message [
      | some what ↦ err (str_append "Session error: " what)
      | none ↦ ok s.last_assistant_message
    ]
    else err "Timeout waiting for session to become idle"

-- send_and_wait, for what the send comes to and the events that are noted from the subscription
-- until the wait is over: by an event that ends it, or by the timeout
unfoldable pub send_and_wait : Result String String → List Event → Result String (Option Event)
unfolding note_all conclude
send_and_wait (err what) events = err what
send_and_wait (ok id) events = conclude (note_all events nothing_seen)

-- The reference: the last event of which something is read.
unfoldable pub last_of {ℓ} : {A : Type ℓ} → (Event → Option A) → List Event → Option A
last_of f [] = none
last_of f (e ∷ es) = first_some (last_of f es) (f e)

abbrev pub message_as : EventType → Event → Option Event
message_as assistant_message e = some e
message_as _ e = none

abbrev pub message_in : Event → Option Event
message_in e = message_as e.event_type e

abbrev pub error_as : EventType → Event → Option String
error_as session_error e = some (error_text e.message)
error_as _ e = none

abbrev pub error_in : Event → Option String
error_in e = error_as e.event_type e

abbrev pub ends_as : EventType → Bool
ends_as session_idle = true
ends_as session_error = true
ends_as _ = false

unfoldable pub any_ends : List Event → Bool
any_ends [] = false
any_ends (e ∷ es) = ends_as e.event_type || any_ends es

noted : List Event → Seen → Seen
noted es s = record {
  done = any_ends es || s.done;
  last_assistant_message = first_some (last_of message_in es) s.last_assistant_message;
  error_message = first_some (last_of error_in es) s.error_message;
}

done-note :
    (t : EventType) (e : Event) (b : Bool) (s : Seen)
    → b || (note_as t e s).done ≡ (ends_as t || b) || s.done
done-note assistant_message e b s = refl
done-note session_idle e true s = refl
done-note session_idle e false s = refl
done-note session_error e true s = refl
done-note session_error e false s = refl
done-note other_type e b s = refl

last-note :
    (t : EventType) (e : Event) (m : Option Event) (s : Seen)
    → first_some m (note_as t e s).last_assistant_message
      ≡ first_some (first_some m (message_as t e)) s.last_assistant_message
last-note t e (some m) s = refl
last-note assistant_message e none s = refl
last-note session_idle e none s = refl
last-note session_error e none s = refl
last-note other_type e none s = refl

error-note :
    (t : EventType) (e : Event) (m : Option String) (s : Seen)
    → first_some m (note_as t e s).error_message
      ≡ first_some (first_some m (error_as t e)) s.error_message
error-note t e (some m) s = refl
error-note assistant_message e none s = refl
error-note session_idle e none s = refl
error-note session_error e none s = refl
error-note other_type e none s = refl

note-noted : (e : Event) (es : List Event) (s : Seen) → noted es (note e s) ≡ noted (e ∷ es) s
unfolding note noted last_of any_ends
note-noted e es s = λ i. record {
  done = done-note e.event_type e (any_ends es) s i;
  last_assistant_message = last-note e.event_type e (last_of message_in es) s i;
  error_message = error-note e.event_type e (last_of error_in es) s i;
}

note_all-noted : (es : List Event) (s : Seen) → note_all es s ≡ noted es s
unfolding note_all noted last_of any_ends
note_all-noted [] s = refl
note_all-noted (e ∷ es) s = note_all-noted es (note e s) ∙ note-noted e es s

noted_none : (b : Bool) → (b || false) ≡ b
noted_none true = refl
noted_none false = refl

first_some-none : {A : Type 0} (o : Option A) → first_some o none ≡ o
first_some-none (some a) = refl
first_some-none none = refl

noted-nothing_seen :
    (es : List Event)
    → noted es nothing_seen ≡ record {
      done = any_ends es;
      last_assistant_message = last_of message_in es;
      error_message = last_of error_in es;
    }
unfolding noted
noted-nothing_seen es = λ i. record {
  done = noted_none (any_ends es) i;
  last_assistant_message = first_some-none (last_of message_in es) i;
  error_message = first_some-none (last_of error_in es) i;
}

-- what the caller gets, by the reference
unfoldable pub answer_of : List Event → Result String (Option Event)
unfolding any_ends last_of
answer_of es =
    if any_ends es
    then elim (last_of error_in es) [
      | some what ↦ err (str_append "Session error: " what)
      | none ↦ ok (last_of message_in es)
    ]
    else err "Timeout waiting for session to become idle"

-- Once the message is sent, send_and_wait gives: an exception of timeout if no noted event is idle or
-- an error; else an exception with the text of the last error, if there is one; else the last
-- assistant message, if there is one.
pub send_and_wait-answer_of :
    (id : String) (events : List Event) → send_and_wait (ok id) events ≡ answer_of events
unfolding send_and_wait conclude answer_of
send_and_wait-answer_of id events =
    ap conclude (note_all-noted events nothing_seen ∙ noted-nothing_seen events)
