-- ===== src/Tests/Streams.antt =====
-- transport.hpp: the framer over a transport that hands out at most seven bytes at a time.
use copilot_cpp.Prelude.{
  suc, ◌≡◌, refl, ◌++◌, length, take, drop, min, length-take, take-append-drop, arith,
}
use copilot_cpp.Prelude.Text.{Bytes, codes}
use copilot_cpp.Prelude.Exec.{ok}
use copilot_cpp.Framing.Input.{Transport, Delivers}
use copilot_cpp.Framing.Header.{frame}
use copilot_cpp.Framing.{Channel, init, read_message}
use copilot_cpp.Framing.Stream.{IsValid}
use copilot_cpp.Framing.Refill.{stream}
use copilot_cpp.Framing.Agreement.{Agrees}
use copilot_cpp.Framing.Parser.{take_message}
use copilot_cpp.Framing.Refinement.{read_message-Agrees}
use copilot_cpp.Framing.RoundTrip.{read_message-frame}
use copilot_cpp.Framing.Soundness.{Outcome, read_message-Outcome}

abbrev pub pieces : Transport
pieces = record { State = Bytes; read = λ s n. (ok (take (min n 7) s), drop (min n 7) s) }

unfoldable pub pieces-Delivers : Delivers pieces
pieces-Delivers = record {
  pending = λ s. s;
  read_ok = λ s n h. (
    take (min n 7) s,
    drop (min n 7) s,
    refl,
    record {
      within = omega (arith, length-take (min n 7) s);
      split = take-append-drop (min n 7) s;
      progress = λ p. omega (arith, length-take (min n 7) s, p, h);
    },
  );
}

abbrev hello : Bytes
hello = codes "{\"method\":\"ping\"}"

abbrev tail : Bytes
tail = codes "Content-Length: "

abbrev framed : Bytes
framed = frame hello ++ tail

abbrev fresh : Channel pieces
fresh = init framed

fresh-IsValid : IsValid fresh
fresh-IsValid = record { ordered = omega arith; fits = omega arith }

read_message-frame_example :
    (c' : Channel pieces) × (read_message 1000 (suc (length framed)) fresh ≡ (ok hello, c'))
    × IsValid c'
    × (stream pieces-Delivers c' ≡ tail)
unfolding frame pieces-Delivers
read_message-frame_example =
    read_message-frame pieces-Delivers 1000 (suc (length framed)) fresh hello tail fresh-IsValid
      refl (omega arith) (omega arith) (omega arith)

-- A header in lower case, with another header, and a body that is cut short.
abbrev cut : Bytes
cut = codes "content-length:\t 12\nX-Trace: 1\r\n\r\nshort"

abbrev cut_channel : Channel pieces
cut_channel = init cut

cut_channel-IsValid : IsValid cut_channel
cut_channel-IsValid = record { ordered = omega arith; fits = omega arith }

read_message-Agrees_example :
    Agrees pieces-Delivers
      (read_message 1000 100 cut_channel)
      (take_message 1000 100 (stream pieces-Delivers cut_channel))
unfolding pieces-Delivers
read_message-Agrees_example =
    read_message-Agrees pieces-Delivers 1000 100 cut_channel cut_channel-IsValid (omega arith)

read_message-Outcome_example :
    Outcome 1000
      (stream pieces-Delivers cut_channel)
      (stream pieces-Delivers)
      (read_message 1000 100 cut_channel)
unfolding pieces-Delivers
read_message-Outcome_example =
    read_message-Outcome pieces-Delivers 1000 100 cut_channel cut_channel-IsValid (omega arith)
