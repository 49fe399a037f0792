-- ===== src/Framing/Input.antt =====
-- transport.hpp: `ITransport` as the framer sees it, and the exceptions that cross this boundary.
use copilot_cpp.Prelude.{ℕ, ◌≤◌, ◌<◌, ◌≡◌, ◌++◌, length}
use copilot_cpp.Prelude.Text.{Bytes}
use copilot_cpp.Prelude.Exec.{Result, ok}

-- `TransportError`, its subclass `ConnectionClosedError`, and the `std::length_error` or
-- `std::bad_alloc` of a string that is too long. `out_of_fuel` is no exception of the program: it
-- marks a loop of the model whose fuel did not suffice.
pub data Error : Type 0 where
  transport_error : Bytes → Error
  connection_closed : Bytes → Error
  length_error : Error
  out_of_fuel : Error

-- The reading half of `ITransport`. `read s n` asks for up to `n` bytes; none means end of file.
pub record Transport : Type 1 where
  pub State : Type 0
  pub read : State → ℕ → Result Error Bytes × State

-- What one successful `read` gives of a byte stream `before`.
pub record Chunk (n : ℕ) (before after bs : Bytes) : Type 0 where
  pub within : length bs ≤ n
  pub split : bs ++ after ≡ before
  pub progress : 0 < length before → 0 < length bs

-- A transport that delivers a byte stream: a read of a positive number of bytes does not fail,
-- returns a piece of the stream in order, and returns nothing at the end of the stream only. How
-- the stream is cut into pieces is left open.
pub record Delivers (T : Transport) : Type 1 where
  pub pending : Transport.State T → Bytes
  pub read_ok :
      (s : Transport.State T) (n : ℕ)
      → 0 < n
      → (bs : Bytes) × (s' : Transport.State T) × (Transport.read T s n ≡ (ok bs, s'))
        × Chunk n (pending s) (pending s') bs
