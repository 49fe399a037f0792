-- ===== src/Rpc/Client/Steps.antt =====
-- include/copilot/jsonrpc.hpp: the critical sections of the callers, of the read thread and of the
-- timeout thread, in any order.
use copilot_cpp.Prelude.{ℕ, List, [], ◌∷◌}
use copilot_cpp.Prelude.Exec.{Result, ok, err}
use copilot_cpp.Json.{Json}
use copilot_cpp.Rpc.Message.{Fault}
use copilot_cpp.Rpc.Client.{
  Client, timed_out, closed, register, withdraw, fail_pending_request, fail_all_pending,
  timeout_round, handle_response, halt, join_threads,
}

module _ (J : Json) where
  open J use {Value}

  pub data Event : Type 0 where
    -- `invoke` at a time, with a timeout; and its `catch` for an id
    registers : ℕ → ℕ → Event
    withdraws : ℕ → Event
    -- the read thread has a response
    responds : Value → Event
    -- one round of the timeout thread, at a time
    rounds : ℕ → Event
    -- `invoke_sync` has waited long enough for an id
    times_out : ℕ → Event
    -- `fail_all_pending` of `stop` or of the read thread, and what `stop` does about threads
    fails_all halts joins : Event

  -- A response that cannot be read throws, and the read loop goes on.
  abbrev pub after : Client J → Result Fault (Client J) → Client J
  after c (ok c') = c'
  after c (err e) = c

  unfoldable pub step : Client J → Event → Client J
  step c (registers now limit) = (register J now limit c).1
  step c (withdraws id) = withdraw J id c
  step c (responds message) = after c (handle_response J message c)
  step c (rounds now) = timeout_round J now c
  step c (times_out id) = fail_pending_request J id (timed_out J) c
  step c fails_all = fail_all_pending J (closed J) c
  step c halts = halt J c
  step c joins = join_threads J c

  unfoldable pub run : Client J → List Event → Client J
  run c [] = c
  run c (e ∷ es) = run (step c e) es
