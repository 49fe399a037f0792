-- ===== src/Tests/Calls.antt =====
-- jsonrpc.hpp: a client with a few requests under way.
use copilot_cpp.Prelude.{
  ◌≡◌, refl, true, none, some, List, [], ◌∷◌, ltb, leb, ◌&&◌, if◌then◌else◌, arith,
}
use copilot_cpp.Prelude.Int.{pos, negsuc}
use copilot_cpp.Prelude.Exec.{ok}
use copilot_cpp.Rpc.Message.{
  int_id, Request, Response, request_to_json, request_from_json, response_to_json,
}
use copilot_cpp.Rpc.Message.RoundTrip.{request_round_trip}
use copilot_cpp.Rpc.Client.{Client, init, register, stop}
use copilot_cpp.Rpc.Client.Promises.{tally, settled_count}
use copilot_cpp.Rpc.Client.Steps.{
  Event, registers, responds, rounds, times_out, fails_all, step, run,
}
use copilot_cpp.Rpc.Client.Conservation.{run-tally}
use copilot_cpp.Rpc.Client.Timeouts.{stop_settles}
use copilot_cpp.Rpc.Dispatch.{returns, Peer, dispatch_message}
use copilot_cpp.Rpc.Dispatch.Answers.{replied, reply, dispatch_request-reply}
use copilot_cpp.Tests.Values.{nothing, string, number, nodes, nodes-IsLawful}

abbrev answered : Response nodes
answered = record { id = int_id (pos 1); result = some (number (pos 7)); error = none }

-- Two requests, of which one is answered and the other times out.
abbrev story : List (Event nodes)
story =
    registers 0 1000
    ∷ registers 5 100
    ∷ responds (response_to_json nodes answered)
    ∷ rounds 200
    ∷ times_out 2
    ∷ fails_all
    ∷ []

abbrev after_story : Client nodes
after_story = run nodes (init nodes) story

run-tally_example : tally 2 after_story ≡ (if leb 1 2 && ltb 2 after_story.next_id then 1 else 0)
run-tally_example = run-tally 2 story (tt, (tt, (tt, (tt, (tt, (tt, tt))))))

abbrev running_client : Client nodes
running_client = record (init nodes) {
  running = true;
  pending = record { id = 1; deadline = some 50 } ∷ record { id = 2; deadline = some 500 } ∷ [];
}

abbrev opening : List (Event nodes)
opening = registers 0 1000 ∷ registers 5 100 ∷ []

stop_settles_example : settled_count 2 (stop nodes (run nodes (init nodes) opening)).settled ≡ 1
unfolding run step register
stop_settles_example = stop_settles 2 opening (tt, (tt, tt)) (omega arith) (omega arith)

abbrev unattended : List (Event nodes)
unattended = rounds 900 ∷ registers 1000 10 ∷ rounds 5000 ∷ []

abbrev ping : Request nodes
ping = record { method = "ping"; params = nothing; id = some (int_id (negsuc 4)) }

request_round_trip_example : request_from_json nodes (request_to_json nodes ping) ≡ ok ping
request_round_trip_example = request_round_trip nodes ping (omega arith)

abbrev peer : Peer nodes
peer = record {
  request_handler = some (λ m p. returns (string m));
  has_notification_handler = true;
  write = λ v. none;
}

dispatch_request-reply_example :
    dispatch_message nodes peer (request_to_json nodes ping) (init nodes)
    ≡ replied (reply peer.request_handler (int_id (negsuc 4)) ping) (init nodes)
dispatch_request-reply_example =
    dispatch_request-reply peer "ping" nothing (int_id (negsuc 4)) (init nodes) (λ v. refl)
      (omega arith)
