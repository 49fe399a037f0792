-- ===== src/Transports/Tcp/Writing.antt =====
-- transport_tcp.hpp: `TcpTransport::write`, and a message that it carries to the framer of the peer.
use copilot_cpp.Prelude.{
  ℕ, ◌^◌, ◌≤◌, ◌<◌, ◌≡◌, sym, ap, ◌∙◌, Bool, true, if◌then◌else◌, [], ◌++◌, length, drop,
  append-nil, arith,
}
use copilot_cpp.Prelude.Text.{Bytes}
use copilot_cpp.Prelude.Exec.{Result, ok, err}
use copilot_cpp.Framing.Input.{Error, Transport, Delivers}
use copilot_cpp.Framing.Header.{frame}
use copilot_cpp.Framing.{Channel, read_message}
use copilot_cpp.Framing.Slices.{drop-append_self}
use copilot_cpp.Framing.Stream.{IsValid}
use copilot_cpp.Framing.Refill.{stream}
use copilot_cpp.Framing.RoundTrip.{read_message-frame}
use copilot_cpp.Transports.{Errno, System, int_max, chunk}
use copilot_cpp.Transports.Sending.{
  Progress, Sends, Advances, Takes, IsWriter, chunk_pos, send_all-Sends,
}
use copilot_cpp.Transports.Tcp.{Host, put, sent, write}

module _ {S : System} (wire : S.State → Bytes) where
  abbrev pub wire_of : Host S → Bytes
  wire_of h = wire h.os

  sent-Progress :
      (bs : Bytes) (h : Host S) (r : Result Errno ℕ) (s : S.State)
      → Takes wire bs h.os r s
      → let (r', h') = sent {S = S} r (record h { os = s }) in Progress wire_of bs h r' h'
  unfolding Takes Progress
  sent-Progress bs h (ok n) s taken = taken
  sent-Progress bs h (err e) s same = (λ p. cc, same)

  put-Advances : IsWriter S wire → Advances wire_of put
  unfolding put
  put-Advances law bs h some_bytes =
      sent-Progress bs h (S.write h.tcp.socket bs h.os).0 (S.write h.tcp.socket bs h.os).1
        (law h.tcp.socket bs h.os some_bytes)

  if_open :
      (bs : Bytes) (h : Host S) (f g : Result Error (Unit {0}) × Host S) (b : Bool)
      → b ≡ true
      → Sends wire_of bs h f.0 f.1
      → let r = (if b then f else g) in Sends wire_of bs h r.0 r.1
  if_open bs h f g b e sends = rw e sends

  -- A write on an open transport ends: either it returns, and the system has taken all the bytes in
  -- order, or it throws, and the system has taken a first part of them. It is assumed that a call of
  -- `send` takes at least one and at most those bytes that it is given, in order, or fails.
  pub write-Sends :
      IsWriter S wire
      → (bs : Bytes) (h : Host S) → h.tcp.open_ ≡ true
      → let (r, h') = write bs h in Sends wire_of bs h r h'
  unfolding write
  write-Sends law bs h live = if_open bs h _ _ _ live (
      send_all-Sends wire_of put (chunk S.platform int_max) (put-Advances law)
        (λ n some_left. chunk_pos S.platform int_max n (omega arith) some_left) (length bs) bs h
        (omega arith))

  written :
      (bs : Bytes) (h h' : Host S) (r : Result Error (Unit {0}))
      → Sends wire_of bs h r h'
      → r ≡ ok tt
      → wire_of h' ≡ wire_of h ++ bs
  unfolding Sends
  written bs h h' (ok x) e p = e
  written bs h h' (err x) e p = absurd cc

  -- A message that `write_message` hands to an open transport reaches the framer of the peer: if the
  -- write returns, and the peer's stream holds just what was written since, then `read_message` of the
  -- peer returns that message and leaves nothing, however the bytes were cut on both sides. It is
  -- assumed that a call of `send` takes at least one and at most those bytes that it is given, in
  -- order, or fails, that the peer's buffer keeps its bounds and that its fuel is more than the bytes
  -- of its stream; the message has fewer than 2 ^ 64 bytes and at most as many as the peer can
  -- allocate.
  pub write-delivers :
      {T : Transport} (D : Delivers T) (max_size fuel : ℕ) (c : Channel T) (m : Bytes) (h : Host S)
      → IsWriter S wire
      → h.tcp.open_ ≡ true
      → (write (frame m) h).0 ≡ ok tt
      → IsValid c
      → wire (write (frame m) h).1.os ≡ wire h.os ++ stream D c
      → length (stream D c) < fuel
      → length m < 2 ^ 64
      → length m ≤ max_size
      → (c' : Channel T) × (read_message max_size fuel c ≡ (ok m, c'))
        × IsValid c'
        × (stream D c' ≡ [])
  write-delivers D max_size fuel c m h law live returned v arrived enough small fits =
      let all_taken = written (frame m) h _ _ (write-Sends law (frame m) h live) returned in
      let same : stream D c ≡ frame m =
        sym (drop-append_self (wire h.os) (stream D c))
        ∙ ap (drop (length (wire h.os))) (sym arrived ∙ all_taken)
        ∙ drop-append_self (wire h.os) (frame m) in
      read_message-frame D max_size fuel c m [] v (same ∙ sym (append-nil (frame m))) enough small
        fits
