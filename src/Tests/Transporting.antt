-- ===== src/Tests/Transporting.antt =====
-- transport_tcp.hpp, transport_stdio.hpp: the transports on a system that takes three bytes at a time,
-- gives out descriptors in order and reaches one of two addresses.
use copilot_cpp.Prelude.{
  ℕ, suc, ◌≡◌, refl, Bool, true, false, not, none, some, inr, List, [], ◌∷◌, ◌++◌, length, take,
  min, if◌then◌else◌, ◌==◌, arith,
}
use copilot_cpp.Prelude.Text.{Bytes, codes}
use copilot_cpp.Prelude.Int.{pos}
use copilot_cpp.Prelude.Exec.{ok, err}
use copilot_cpp.Framing.Header.{frame}
use copilot_cpp.Framing.{Channel, init, read_message}
use copilot_cpp.Framing.Stream.{IsValid}
use copilot_cpp.Framing.Refill.{stream}
use copilot_cpp.Transports.{posix, econnreset, einprogress, System, send_all}
use copilot_cpp.Transports.Sending.{IsWriter, Takes, Sends}
use copilot_cpp.Transports.Tcp
use copilot_cpp.Transports.Tcp.{opened, connect, close_tcp, write}
use copilot_cpp.Transports.Tcp.Descriptors.{live}
use copilot_cpp.Transports.Tcp.Settling.{Settled, connect-Settled}
use copilot_cpp.Transports.Tcp.Ended.{Use, reads, connects, closes, perform_all, read-leaks}
use copilot_cpp.Transports.Tcp.Reaching.{connect-reached}
use copilot_cpp.Transports.Tcp.Writing.{wire_of, write-Sends, write-delivers}
use copilot_cpp.Transports.Stdio
use copilot_cpp.Transports.Stdio.Closing.{count, IsShut, close_stdio_lem}
use copilot_cpp.Tests.Streams.{pieces, pieces-Delivers}

record Kernel : Type 0 where
  taken : Bytes
  next : ℕ

abbrev system : System
system = record {
  State = Kernel;
  Address = Bool;
  platform = posix;
  describe = λ e. codes "error";
  gai_strerror = λ n. codes "unknown host";
  to_string = λ n. codes "4321";
  getaddrinfo = λ host port s. (ok (false ∷ true ∷ []), s);
  now = λ s. (7_000_000, s);
  socket = λ a s. (some (if a then 9 else 8), record s { next = suc s.next });
  connect = λ fd a s. (some einprogress, s);
  select = λ fd us s. (record { ready = true; except = not (fd == 9) }, s);
  so_error = λ fd s. (pos 0, s);
  read = λ fd n s. (err econnreset, s);
  write = λ fd bs s.
      (ok (min 3 (length bs)), record s { taken = s.taken ++ take (min 3 (length bs)) bs });
  act = λ c s. s;
}

system-IsWriter : IsWriter system (λ s. s.taken)
unfolding Takes
system-IsWriter fd bs s h = (omega (arith, h), omega arith, refl)

abbrev unconnected : Tcp.Host system
unconnected = record {
  tcp = record { socket = none; open_ = false };
  os = record { taken = []; next = 3 };
  history = opened 2 ∷ [];
}

abbrev connected : Tcp.Host system
connected = record {
  tcp = record { socket = some 9; open_ = true };
  os = record { taken = codes "before"; next = 4 };
  history = opened 9 ∷ opened 2 ∷ [];
}

-- the first address refuses, and its socket is closed
connect_second :
    live (connect (codes "localhost") (pos 4321) (pos 30000) unconnected).1.history ≡ 9 ∷ 2 ∷ []
unfolding connect Tcp.resolved Tcp.try_each Tcp.open_socket Tcp.attempt Tcp.completed Tcp.wait
    Tcp.keep Tcp.close_fd Tcp.adopt close_tcp
connect_second = refl

connect-Settled_example :
    let (r, h) = connect (codes "localhost") (pos 4321) (pos 30000) unconnected in
    Settled (2 ∷ []) r h
connect-Settled_example =
    connect-Settled (codes "localhost") (pos 4321) (pos 30000) (2 ∷ []) unconnected refl

connect-reached_example : (connect (codes "localhost") (pos 4321) (pos 30000) unconnected).0 ≡ ok tt
connect-reached_example =
    connect-reached (codes "localhost") (pos 4321) (pos 30000) (false ∷ []) [] true unconnected
      (λ s. refl)
      (λ s.
        (9, refl, λ s'. inr (einprogress, refl, refl, refl, λ us s''. (refl, refl), λ s''. refl)))

-- what is done with the transport when its stream has ended
abbrev afterwards : List Use
afterwards = closes ∷ connects (codes "localhost") (pos 4321) (pos 30000) ∷ reads 100 ∷ closes ∷ []

read-leaks_example :
    let h' = perform_all afterwards (Tcp.read 100 connected).1 in
    (others : List ℕ) × (live h'.history ≡ others ++ 9 ∷ 2 ∷ [])
unfolding Tcp.read Tcp.received
read-leaks_example = read-leaks 100 9 (2 ∷ []) connected afterwards refl refl refl

abbrev hello : Bytes
hello = codes "{\"method\":\"ping\"}"

write-Sends_example :
    let (r, h) = write hello connected in
    Sends (wire_of {S = system} (λ s. s.taken)) hello connected r h
write-Sends_example = write-Sends {S = system} (λ s. s.taken) system-IsWriter hello connected refl

abbrev peer : Channel pieces
peer = init (frame hello)

peer-IsValid : IsValid peer
peer-IsValid = record { ordered = omega arith; fits = omega arith }

write-delivers_example :
    (c' : Channel pieces) × (read_message 1000 100 peer ≡ (ok hello, c'))
    × IsValid c'
    × (stream pieces-Delivers c' ≡ [])
unfolding write Tcp.put send_all frame pieces-Delivers
write-delivers_example =
    write-delivers {S = system} (λ s. s.taken) pieces-Delivers 1000 100 peer hello connected
      system-IsWriter refl refl peer-IsValid refl (omega arith) (omega arith) (omega arith)

abbrev stdio : Stdio.Host system
stdio = record {
  stdio = record { read_handle = some 5; write_handle = some 5; owns_handles = true; open_ = true };
  os = record { taken = []; next = 3 };
  closed_handles = [];
}

close_stdio_lem_example :
    (count 5 (Stdio.close_stdio stdio).closed_handles ≡ 1) × IsShut (Stdio.close_stdio stdio)
close_stdio_lem_example = close_stdio_lem 5 stdio
