-- ===== src/Transports/Tcp.antt =====
-- transport_tcp.hpp: class `TcpTransport`. Its fields stand beside the system's state and a history
-- of the descriptors that were opened and closed and of the waits for a connection.
pub mod Descriptors
pub mod Settling
pub mod Ended
pub mod Reaching
pub mod Writing
use copilot_cpp.Prelude.{
  ℕ, ◌+◌, ◌-◌, ◌*◌, Bool, true, false, ◌&&◌, not, Option, none, some, List, [], ◌∷◌, ◌++◌, length,
  ltb, ◌==◌, if◌then◌else◌,
}
use copilot_cpp.Prelude.Text.{Bytes, codes}
use copilot_cpp.Prelude.Int.{ℤ, pos, negsuc, equal_ℤ}
use copilot_cpp.Prelude.Exec.{Result, ok, err, Exec, pure, raise, lift, gets, modify, ◌>>=◌, ◌>>◌}
use copilot_cpp.Framing.Input.{Error, transport_error}
use copilot_cpp.Transports.{
  Platform, windows, posix, Errno, econnreset, epipe, einprogress, wsaeconnreset, wsaeconnaborted,
  wsaewouldblock, Call, set_blocking, no_delay, shutdown, close, Selection, System, closed, int_max,
  chunk, to_int32, send_all,
}

pub data Event : Type 0 where
  opened closed_fd : ℕ → Event
  -- a `select` that starts at a moment with a timeout, in microseconds
  waits : ℕ → ℕ → Event

-- `timeout_ms > 0 ? timeout_ms : 0`
abbrev pub budget : ℤ → ℕ
budget (pos n) = n
budget (negsuc n) = 0

abbrev pub is_would_block : Platform → Errno → Bool
is_would_block windows wsaewouldblock = true
is_would_block windows _ = false
is_would_block posix einprogress = true
is_would_block posix _ = false

-- the failures of `recv` that count as the end of the stream
abbrev pub is_reset : Platform → Errno → Bool
is_reset windows wsaeconnreset = true
is_reset windows wsaeconnaborted = true
is_reset windows _ = false
is_reset posix econnreset = true
is_reset posix epipe = true
is_reset posix _ = false

-- the size that `recv` is asked for
abbrev pub asked : Platform → ℕ → ℤ
asked windows size = to_int32 size
asked posix size = pos size

-- `TcpTransport`; no socket stands for `kInvalidSocket`
pub record Tcp : Type 0 where
  pub socket : Option ℕ
  pub open_ : Bool

module _ (S : System) where
  pub record Host : Type 0 where
    pub tcp : Tcp
    pub os : S.State
    pub history : List Event

  abbrev pub Io : Type 0 → Type 0
  Io = Exec Error Host

module _ (S : System) where
  -- connect: what `getaddrinfo` gave
  abbrev pub status_text : Platform → ℤ → Bytes
  status_text windows status = S.to_string status
  status_text posix status = S.gai_strerror status

  unfoldable pub resolved : Result ℤ (List S.Address) → Result Error (List S.Address)
  resolved (ok addresses) = ok addresses
  resolved (err status) =
      err (transport_error (codes "getaddrinfo failed: " ++ status_text S.platform status))

module _ {S : System} where
  -- A call of the system.
  abbrev pub ask : {A : Type 0} → (S.State → A × S.State) → Io S A
  ask f h = let (a, s) = f h.os in (ok a, record h { os = s })

  abbrev pub act : Call → Io S (Unit {0})
  act c = modify (λ h. record h { os = S.act c h.os })

  abbrev pub note : Event → Host S → Host S
  note e h = record h { history = e ∷ h.history }

  abbrev pub set_open : Bool → Host S → Host S
  set_open b h = record h { tcp = record { socket = h.tcp.socket; open_ = b } }

  abbrev pub set_socket : Option ℕ → Host S → Host S
  set_socket s h = record h { tcp = record { socket = s; open_ = h.tcp.open_ } }

  -- `closesocket` or `::close`
  unfoldable pub close_fd : ℕ → Io S (Unit {0})
  close_fd fd = do act (close fd); modify (note (closed_fd fd))

  -- close
  unfoldable pub close_socket : Option ℕ → Io S (Unit {0})
  unfolding close_fd
  close_socket none = pure tt
  close_socket (some fd) = do act (shutdown fd); close_fd fd; modify (set_socket none)

  unfoldable pub close_tcp : Io S (Unit {0})
  unfolding close_socket
  close_tcp h =
      if h.tcp.open_
      then close_socket h.tcp.socket (set_open false h)
      else pure tt (set_open false h)

  -- connect: `socket`
  unfoldable pub open_socket : S.Address → Io S (Option ℕ)
  open_socket a h =
      let (fd, s) = S.socket a h.os in
      (
        ok fd,
        record h { os = s; history = elim fd [ none ↦ h.history | some n ↦ opened n ∷ h.history ] },
      )

  -- connect: the `select` of a connection in progress, within what the deadline leaves
  unfoldable pub wait : ℕ → ℕ → Io S Bool
  wait deadline fd = do
    start ← ask S.now
    modify (note (waits start (deadline - start)))
    selection ← ask (S.select fd (deadline - start))
    let inspect = (do
      error ← ask (S.so_error fd)
      pure (equal_ℤ error (pos 0) && not selection.except))
    if selection.ready then inspect else pure false

  unfoldable pub completed : ℤ → ℕ → ℕ → Option Errno → Io S Bool
  unfolding wait
  completed timeout_ms deadline fd none = pure true
  completed timeout_ms deadline fd (some e) =
      if is_would_block S.platform e && ltb 0 (budget timeout_ms)
      then wait deadline fd
      else pure false

  -- the socket of an attempt that failed is closed
  unfoldable pub keep : ℕ → Bool → Io S (Option ℕ)
  unfolding close_fd
  keep fd true = pure (some fd)
  keep fd false = do close_fd fd; pure none

  unfoldable pub attempt : ℤ → ℕ → S.Address → Option ℕ → Io S (Option ℕ)
  unfolding completed keep
  attempt timeout_ms deadline a none = pure none
  attempt timeout_ms deadline a (some fd) = do
    if ltb 0 (budget timeout_ms) then act (set_blocking false fd) else pure tt
    result ← ask (S.connect fd a)
    connected ← completed timeout_ms deadline fd result
    keep fd connected

  abbrev pub or_next : Io S (Option ℕ) → Option ℕ → Io S (Option ℕ)
  or_next rest (some fd) = pure (some fd)
  or_next rest none = rest

  -- `for (auto* rp = result; …)`
  unfoldable pub try_each : ℤ → ℕ → List S.Address → Io S (Option ℕ)
  unfolding open_socket attempt
  try_each timeout_ms deadline [] = pure none
  try_each timeout_ms deadline (a ∷ addresses) = do
    let rest = try_each timeout_ms deadline addresses
    fd ← open_socket a
    connected ← attempt timeout_ms deadline a fd
    or_next rest connected

  unfoldable pub adopt : Bytes → ℤ → Option ℕ → Io S (Unit {0})
  adopt host port none =
      raise
        (transport_error (codes "Failed to connect to " ++ host ++ codes ":" ++ S.to_string port))
  adopt host port (some fd) = do
    modify (set_socket (some fd))
    act (set_blocking true fd)
    act (no_delay fd)
    modify (set_open true)

  -- connect
  unfoldable pub connect : Bytes → ℤ → ℤ → Io S (Unit {0})
  unfolding close_tcp resolved try_each adopt
  connect host port timeout_ms = do
    close_tcp
    found ← ask (S.getaddrinfo host port)
    addresses ← lift (resolved S found)
    start ← ask S.now
    fd ← try_each timeout_ms (start + budget timeout_ms * 1000) addresses
    adopt host port fd

  abbrev pub failed : {A : Type 0} → Bytes → Errno → Io S A
  failed what e = raise (transport_error (what ++ codes " failed: " ++ S.describe e))

  -- read: what `recv` gave
  unfoldable pub received : Result Errno Bytes → Io S Bytes
  received (err e) =
      if is_reset S.platform e
      then (do modify (set_open false); pure [])
      else failed (codes "recv") e
  received (ok bs) = do if length bs == 0 then modify (set_open false) else pure tt; pure bs

  -- read
  unfoldable pub read : ℕ → Io S Bytes
  unfolding received
  read size h =
      if h.tcp.open_
      then (ask (S.read h.tcp.socket (asked S.platform size)) >>= received) h
      else raise closed h

  -- write: one call of `send`
  abbrev pub sent : Result Errno ℕ → Io S ℕ
  sent (ok n) = pure n
  sent (err e) = failed (codes "send") e

  unfoldable pub put : Bytes → Io S ℕ
  put bs h = (ask (S.write h.tcp.socket bs) >>= sent) h

  -- write
  unfoldable pub write : Bytes → Io S (Unit {0})
  unfolding put
  write bs h =
      if h.tcp.open_
      then send_all put (chunk S.platform int_max) (length bs) bs h
      else raise closed h
