-- ===== src/Transports.antt =====
-- transport_tcp.hpp, transport_stdio.hpp: what the transports call of the operating system, and the
-- loop that both of their writers run. The system is a parameter.
pub mod Sending
pub mod Tcp
pub mod Stdio
pub mod Pipes
use copilot_cpp.Prelude.{
  ℕ, zero, suc, ◌-◌, ◌%◌, ◌^◌, Bool, Option, List, [], ◌∷◌, length, take, drop, min, ltb,
  if◌then◌else◌,
}
use copilot_cpp.Prelude.Text.{Bytes, codes}
use copilot_cpp.Prelude.Int.{ℤ, pos, negsuc}
use copilot_cpp.Prelude.Exec.{Result, Exec, pure, raise, ◌>>=◌}
use copilot_cpp.Framing.Input.{Error, out_of_fuel, connection_closed}

pub data Platform : Type 0 where
  windows posix : Platform

-- The codes that the transports tell apart.
pub data Errno : Type 0 where
  econnreset epipe ebadf einprogress : Errno
  wsaeconnreset wsaeconnaborted wsaewouldblock error_broken_pipe error_no_data : Errno
  other : ℕ → Errno

-- The calls whose outcome the transports ignore.
pub data Call : Type 0 where
  set_blocking : Bool → ℕ → Call
  no_delay shutdown close : ℕ → Call

-- What `select` reports of the one socket: whether its count is positive, and `FD_ISSET` of
-- `except_fds`.
pub record Selection : Type 0 where
  pub ready : Bool
  pub except : Bool

-- Handles are numbers; no number is the invalid handle. `read` and `write` are `recv` and `send` of a
-- socket, and `read`, `write`, `ReadFile` and `WriteFile` of a pipe.
-- `describe` is the text that a branch prints of a code: `strerror`, `FormatMessage` or the number.
pub record System : Type 1 where
  pub State : Type 0
  pub Address : Type 0
  pub platform : Platform
  pub describe : Errno → Bytes
  pub gai_strerror : ℤ → Bytes
  pub to_string : ℤ → Bytes
  pub getaddrinfo : Bytes → ℤ → State → Result ℤ (List Address) × State
  pub now : State → ℕ × State
  pub socket : Address → State → Option ℕ × State
  pub connect : ℕ → Address → State → Option Errno × State
  pub select : ℕ → ℕ → State → Selection × State
  pub so_error : ℕ → State → ℤ × State
  pub read : Option ℕ → ℤ → State → Result Errno Bytes × State
  pub write : Option ℕ → Bytes → State → Result Errno ℕ × State
  pub act : Call → State → State

-- `ConnectionClosedError()`
abbrev pub closed : Error
closed = connection_closed (codes "Connection closed")

-- What one call of `send`, `write` or `WriteFile` is asked to send of `n` bytes: `INT_MAX` or
-- `MAXDWORD` at most on Windows, all of them elsewhere.
abbrev pub int_max : ℕ
int_max = 2 ^ 31 - 1

abbrev pub maxdword : ℕ
maxdword = 2 ^ 32 - 1

abbrev pub chunk : Platform → ℕ → ℕ → ℕ
chunk windows most n = min n most
chunk posix most n = n

-- `static_cast<int>`
unfoldable pub to_int32 : ℕ → ℤ
to_int32 n = let m = n % 2 ^ 32 in if ltb m (2 ^ 31) then pos m else negsuc (2 ^ 32 - 1 - m)

module _ {X : Type 0} (put : Bytes → Exec Error X ℕ) (limit : ℕ → ℕ) where
  -- `while (total < size)`, where `put` makes one call and gives the count that the system reports
  unfoldable pub send_all : ℕ → Bytes → Exec Error X (Unit {0})
  send_all fuel [] = pure tt
  send_all zero (b ∷ rest) = raise out_of_fuel
  send_all (suc fuel) (b ∷ rest) = do
    n ← put (take (limit (length (b ∷ rest))) (b ∷ rest))
    send_all fuel (drop n (b ∷ rest))
