-- ===== src/Tests/Sessions.antt =====
-- src/session.cpp and src/client.cpp: handlers that subscribe, cancel and throw.
use copilot_cpp.Prelude.{ℕ, ◌+◌, ◌≡◌, ◌≢◌, refl, some, none, List, [], ◌∷◌, arith}
use copilot_cpp.Session.Subscriptions.{
  Registry, Op, Run, on, unsubscribe, subscribes, unsubscribes, apply_all, dispatch,
}
use copilot_cpp.Session.Subscriptions.Exactness.{
  IsValid, Rises, handler_of, cancels, subscription_exact, dispatch-called,
}
use copilot_cpp.Prelude.Exec.{ok}
use copilot_cpp.Session.Waiting.{
  Event, assistant_message, session_idle, send_and_wait, answer_of, any_ends, last_of,
  send_and_wait-answer_of,
}
use copilot_cpp.Session.Lifecycle.{Vector, on_lifecycle, cancel, cancel_shifts}

abbrev two_handlers : Registry ℕ
two_handlers = record { next_handler_id = 5; event_handlers = (1, 10) ∷ (4, 40) ∷ [] }

two_handlers-IsValid : IsValid two_handlers
unfolding Rises
two_handlers-IsValid = (omega arith, (omega arith, omega arith))

-- each handler cancels the other, subscribes a new one and throws
abbrev unruly : ℕ → ℕ → Registry ℕ → Run ℕ
unruly h event r = record {
  ops = unsubscribes 1 ∷ unsubscribes 4 ∷ subscribes (h + event) ∷ [];
  thrown = some "handler";
}

abbrev changes : List (Op ℕ)
changes = unsubscribes 4 ∷ subscribes 60 ∷ []

subscription_exact_example :
    let later = apply_all changes (on 50 two_handlers).1 in
    (handler_of 5 later.event_handlers ≡ some 50)
    × (handler_of 5 (unsubscribe 5 later).event_handlers ≡ none)
    × ((j : ℕ)
        → 5 ≢ j
        → handler_of j (unsubscribe 5 later).event_handlers ≡ handler_of j later.event_handlers)
unfolding on cancels
subscription_exact_example = subscription_exact 50 two_handlers changes two_handlers-IsValid refl

dispatch-called_example :
    ((dispatch unruly 7 two_handlers).0 ≡ 10 ∷ 40 ∷ []) × IsValid (dispatch unruly 7 two_handlers).1
dispatch-called_example = dispatch-called unruly 7 two_handlers two_handlers-IsValid

abbrev roomy : Vector ℕ
roomy = record { buffer = 0; capacity = 8; items = 1 ∷ [] }

abbrev double : ℕ → ℕ
double n = n + n

cancel_shifts_example :
    let (address_a, with_a) = on_lifecycle double 2 roomy in
    let (address_b, with_b) = on_lifecycle double 3 with_a in
    let (address_c, with_c) = on_lifecycle double 4 with_b in
    (cancel address_b (cancel address_a with_c)).items ≡ 1 ∷ 3 ∷ []
cancel_shifts_example = cancel_shifts double 2 3 4 roomy (omega arith)

abbrev answered : List Event
answered =
    record { number = "1"; event_type = assistant_message; message = none }
    ∷ record { number = "2"; event_type = assistant_message; message = none }
    ∷ record { number = "3"; event_type = session_idle; message = none }
    ∷ []

send_and_wait-answer_of_example :
    send_and_wait (ok "m1") answered
    ≡ ok (some (record { number = "2"; event_type = assistant_message; message = none }))
unfolding answer_of any_ends last_of
send_and_wait-answer_of_example = send_and_wait-answer_of "m1" answered
