-- ===== src/Framing.antt =====
-- transport.hpp: class `MessageFramer`, reading. Each method is an action on the framer together
-- with its transport. A `while (true)` loop takes fuel.
pub mod Input
pub mod Header
pub mod Slices
pub mod Stream
pub mod Refill
pub mod Parser
pub mod Agreement
pub mod Lines
pub mod Body
pub mod Refinement
pub mod RoundTrip
pub mod Soundness
use copilot_cpp.Prelude.{
  ℕ, zero, suc, ◌+◌, ◌-◌, Option, none, some, [], ◌∷◌, ◌++◌, length, get_or, take, drop, replicate,
  ltb, leb, ◌==◌, if◌then◌else◌,
}
use copilot_cpp.Prelude.Text.{Bytes, codes}
use copilot_cpp.Prelude.Exec.{Result, ok, err, Exec, pure, raise, lift, gets, modify, ◌>>=◌, ◌>>◌}
use Input.{Transport, Error, transport_error, connection_closed, length_error, out_of_fuel}
use Header.{prefix, is_content_length, trim, stoull}

abbrev pub closed_in_header : Error
closed_in_header = connection_closed (codes "Connection closed while reading header")

abbrev pub closed_in_body : Error
closed_in_body = connection_closed (codes "Connection closed while reading message body")

abbrev pub min_buffer_size : ℕ
min_buffer_size = 4096

-- `std::vector<char>::resize`, growing
pub resize : ℕ → Bytes → Bytes
resize n buffer = buffer ++ replicate (n - length buffer) 0

-- the bytes `[i, i + length bs)` of a buffer overwritten
pub overwrite : ℕ → Bytes → Bytes → Bytes
overwrite i bs buffer = take i buffer ++ (bs ++ drop (i + length bs) buffer)

-- `!line.empty() && line.back() == '\r'`, then `line.pop_back()`
pub strip_cr : Bytes → Bytes
strip_cr [] = []
strip_cr (c ∷ []) = if c == 13 then [] else c ∷ []
strip_cr (c ∷ d ∷ line) = c ∷ strip_cr (d ∷ line)

-- read_message: one header line, which may set the length
unfoldable pub header : Option ℕ → Bytes → Result Error (Option ℕ)
header found line =
    if is_content_length line
    then (let value_str = trim (drop (length prefix) line) in
        elim (stoull value_str) [
          | none ↦ err (transport_error (codes "Invalid Content-Length value: " ++ value_str))
          | some n ↦ ok (some n)
        ])
    else ok found

pub require_length : Option ℕ → Result Error ℕ
require_length none = err (transport_error (codes "Missing Content-Length header"))
require_length (some n) = ok n

-- `std::string message(n, '\0')`: `max_size` is the greatest size that the allocation grants
pub allocate : ℕ → ℕ → Result Error (Unit {0})
allocate max_size n = if leb n max_size then ok tt else err length_error

module _ (T : Transport) where
  open T use {State, read}

  -- The framer's fields, and the transport that it holds by reference.
  pub record Channel : Type 0 where
    pub buffer : Bytes
    pub buffer_pos : ℕ
    pub buffer_len : ℕ
    pub transport : State

  abbrev pub Io : Type 0 → Type 0
  Io = Exec Error Channel

module _ {T : Transport} where
  open T use {State, read}

  -- `MessageFramer(transport)`
  abbrev pub init : State → Channel T
  init s = record { buffer = []; buffer_pos = 0; buffer_len = 0; transport = s }

  -- `transport_.read(…, n)`
  pub transport_read : ℕ → Io T Bytes
  transport_read n c = let (r, s') = read c.transport n in (r, record c { transport = s' })

  -- fill_buffer: the unread bytes move to the front
  pub compact : Channel T → Channel T
  compact c =
      if ltb 0 c.buffer_pos
      then (if ltb c.buffer_pos c.buffer_len
          then record c {
            buffer =
                overwrite 0 (take (c.buffer_len - c.buffer_pos) (drop c.buffer_pos c.buffer))
                  c.buffer;
            buffer_len = c.buffer_len - c.buffer_pos;
            buffer_pos = 0;
          }
          else record c { buffer_len = 0; buffer_pos = 0 })
      else c

  -- fill_buffer: room for at least `kMinBufferSize` bytes
  pub ensure_size : Channel T → Channel T
  unfolding resize
  ensure_size c =
      if ltb (length c.buffer) min_buffer_size
      then record c { buffer = resize min_buffer_size c.buffer }
      else c

  -- what one read brought, put behind the bytes that the buffer holds
  pub accept : Bytes → Channel T → Channel T
  unfolding overwrite
  accept bs c = record c {
    buffer = overwrite c.buffer_len bs c.buffer;
    buffer_len = c.buffer_len + length bs;
  }

  -- fill_buffer: `while (buffer_len_ < min_bytes)`
  pub fill_loop : ℕ → ℕ → Io T (Unit {0})
  unfolding transport_read accept
  fill_loop zero min_bytes = raise out_of_fuel
  fill_loop (suc fuel) min_bytes = do
    buffer_len ← gets (λ c. c.buffer_len)
    let more = (do
      room ← gets (λ c. length c.buffer - c.buffer_len)
      bs ← transport_read room
      if length bs == 0 then pure tt else (do modify (accept bs); fill_loop fuel min_bytes))
    if ltb buffer_len min_bytes then more else pure tt

  pub fill_buffer : ℕ → Io T (Unit {0})
  unfolding compact ensure_size fill_loop
  fill_buffer min_bytes = do modify compact; modify ensure_size; fill_loop (suc min_bytes) min_bytes

  -- read_line: the buffer refilled if it is empty
  pub require_byte : Io T (Unit {0})
  unfolding fill_buffer
  require_byte = do
    empty ← gets (λ c. leb c.buffer_len c.buffer_pos)
    let refill = (do
      fill_buffer 1
      len ← gets (λ c. c.buffer_len)
      if len == 0 then raise closed_in_header else pure tt)
    if empty then refill else pure tt

  -- `buffer_[buffer_pos_++]`
  pub take_byte : Io T ℕ
  take_byte c = (ok (get_or c.buffer c.buffer_pos 0), record c { buffer_pos = c.buffer_pos + 1 })

  pub read_line_loop : ℕ → Bytes → Io T Bytes
  unfolding require_byte take_byte strip_cr
  read_line_loop zero line = raise out_of_fuel
  read_line_loop (suc fuel) line = do
    require_byte
    b ← take_byte
    let more = read_line_loop fuel (line ++ b ∷ [])
    if b == 10 then pure (strip_cr line) else more

  pub read_line : ℕ → Io T Bytes
  unfolding read_line_loop
  read_line fuel = read_line_loop fuel []

  -- read_exact: the bytes that the buffer holds
  pub drain : ℕ → Bytes → Channel T → Bytes × Channel T
  drain zero out c = (out, c)
  drain (suc n) out c =
      let next =
        drain n (out ++ get_or c.buffer c.buffer_pos 0 ∷ [])
          (record c { buffer_pos = c.buffer_pos + 1 }) in
      if ltb c.buffer_pos c.buffer_len then next else (out, c)

  -- read_exact: the rest from the transport
  pub receive_exact : ℕ → ℕ → Bytes → Io T Bytes
  unfolding transport_read
  receive_exact zero n out = if ltb (length out) n then raise out_of_fuel else pure out
  receive_exact (suc fuel) n out = do
    let more = (do
      bs ← transport_read (n - length out)
      if length bs == 0 then raise closed_in_body else receive_exact fuel n (out ++ bs))
    if ltb (length out) n then more else pure out

  pub read_exact : ℕ → Io T Bytes
  unfolding drain receive_exact
  read_exact n c = let (out, c') = drain n [] c in receive_exact n n out c'

  -- read_message: headers until an empty line
  pub read_headers : ℕ → Option ℕ → Io T (Option ℕ)
  unfolding read_line header
  read_headers zero found = raise out_of_fuel
  read_headers (suc fuel) found = do
    line ← read_line (suc fuel)
    let more = (do found' ← lift (header found line); read_headers fuel found')
    if length line == 0 then pure found else more

  pub read_message : ℕ → ℕ → Io T Bytes
  unfolding read_headers require_length allocate read_exact
  read_message max_size fuel = do
    found ← read_headers fuel none
    n ← lift (require_length found)
    lift (allocate max_size n)
    read_exact n
