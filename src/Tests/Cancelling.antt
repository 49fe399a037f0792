-- ===== src/Tests/Cancelling.antt =====
-- src/request_handler.cpp: two WebSockets that are cancelled; and a timestamp.
use copilot_cpp.Prelude.{
  ◌≡◌, refl, arith, zero, true, false, Option, none, some, String, [], ◌∷◌, map,
}
use copilot_cpp.Prelude.Text.{codes}
use copilot_cpp.Prelude.Int.{negsuc}
use copilot_cpp.Inference.Exchanges.{
  Exchange, Bridge, Call, closes, cancel_all, cancel_each, cancel_exchange,
}
use copilot_cpp.Inference.Exchanges.Cancellation.{Cancelled, cancel_all-Cancelled}
use copilot_cpp.Timestamp.{Stamp, parse_iso8601_timestamp}
use copilot_cpp.Timestamp.RoundTrip.{Moment, IsWritable, west, parse_iso8601_timestamp-written}

abbrev exchange : String → Exchange
exchange id = record {
  request_id = id;
  method = "GET";
  url = "wss://example.com";
  body = "";
  is_websocket = true;
  is_cancelled = false;
}

abbrev busy : Bridge
busy = record {
  exchanges = exchange "r1" ∷ exchange "r2" ∷ [];
  pending = ("r1", 0) ∷ ("r2", 1) ∷ [];
  completing = [];
  calls = [];
}

-- the close of the first WebSocket cannot be sent
abbrev lost : Call → Option String
lost (closes zero reason) = some "closed"
lost _ = none

-- its exception leaves the second exchange as it is
cancel_all_stops : map (λ e. e.is_cancelled) (cancel_all lost busy).1.exchanges ≡ true ∷ false ∷ []
unfolding cancel_all cancel_each cancel_exchange
cancel_all_stops = refl

cancel_all-Cancelled_example :
    let (r, b) = cancel_all lost busy in
    (b.pending ≡ []) × Cancelled lost busy.pending r b.exchanges
cancel_all-Cancelled_example = cancel_all-Cancelled lost busy

abbrev moment : Moment
moment = record {
  year = 2025;
  month = 1;
  day = 17;
  hour = 10;
  minute = 24;
  second = 12;
  millisecond = 345;
}

moment-IsWritable : IsWritable moment
moment-IsWritable = record {
  year = omega arith;
  month = omega arith;
  day = omega arith;
  hour = omega arith;
  minute = omega arith;
  second = omega arith;
  millisecond = omega arith;
  date = refl;
}

abbrev stamp : Stamp
stamp = record {
  year = 2025;
  month = 1;
  day = 17;
  hour = 10;
  minute = 24;
  second = 12;
  nanoseconds = 345000000;
  offset = negsuc 89;
}

parse_iso8601_timestamp-written_example :
    (parse_iso8601_timestamp (codes "2025-01-17T10:24:12.345-01:30") ≡ some stamp)
    × (parse_iso8601_timestamp (codes "2025-01-17T10:24:12.345-01:30Z") ≡ none)
parse_iso8601_timestamp-written_example =
    parse_iso8601_timestamp-written moment (west 1 30) b'Z' [] moment-IsWritable
      (omega arith, omega arith)
