-- ===== src/Framing/RoundTrip.antt =====
-- transport.hpp: `read_message` after `write_message`.
use copilot_cpp.Prelude.{
  ℕ, suc, ◌-◌, ◌^◌, ◌≤◌, ◌<◌, ◌≡◌, ◌≢◌, refl, ap, ◌∙◌, [], ◌∷◌, ◌++◌, append_assoc, none, some,
  length, leb, ◌==◌, All, All-append, arith, true, false, length-append, append-nil,
}
use copilot_cpp.Prelude.Text.{Bytes, codes}
use copilot_cpp.Prelude.Exec.{ok}
use copilot_cpp.Framing.Input.{Transport, Delivers}
use copilot_cpp.Framing.Header.{frame, to_string, is_content_length}
use copilot_cpp.Framing.Header.Decimal.{IsDigits, to_string-IsDigits, stoull-to_string}
use copilot_cpp.Framing.{Channel, strip_cr, header, require_length, allocate, read_message}
use copilot_cpp.Framing.Slices.{take-append_self, drop-append_self}
use copilot_cpp.Framing.Stream.{IsValid}
use copilot_cpp.Framing.Refill.{stream}
use copilot_cpp.Framing.Parser.{
  take_headers_more, take_headers_stop, take_line, take_headers, take_body, take_message,
}
use copilot_cpp.Framing.Refinement.{read_message-Agrees}

-- A line without a newline is read whole.
take_line_lem :
    (acc line rest : Bytes)
    → All (λ c. c ≢ 10) line
    → take_line acc (line ++ 10 ∷ rest) ≡ (ok (strip_cr (acc ++ line)), rest)
unfolding take_line
take_line_lem acc [] rest h = rw append-nil
take_line_lem acc (c ∷ line) rest h =
    let e : (c == 10) ≡ false = ground (arith, h.0) in
    rw (e, take_line_lem (acc ++ c ∷ []) line rest h.1, append_assoc)

strip_cr_lem : (line : Bytes) → strip_cr (line ++ 13 ∷ []) ≡ line
unfolding strip_cr
strip_cr_lem [] = refl
strip_cr_lem (c ∷ []) = refl
strip_cr_lem (c ∷ d ∷ line) = ap (◌∷◌ c) (strip_cr_lem (d ∷ line))

abbrev header_line : ℕ → Bytes
header_line n = codes "Content-Length: " ++ to_string n

digits_no_newline : (s : Bytes) → IsDigits s → All (λ c. c ≢ 10) s
digits_no_newline [] h = tt
digits_no_newline (c ∷ s) h = (omega arith, digits_no_newline s h.1)

is_header_line : (n : ℕ) → is_content_length (header_line n) ≡ true
unfolding is_content_length
is_header_line n = refl

header-header_line : (n : ℕ) → n < 2 ^ 64 → header none (header_line n) ≡ ok (some n)
unfolding header
header-header_line n h = rw (is_header_line n, stoull-to_string n h)

frame_lines :
    (m rest : Bytes)
    → frame m ++ rest ≡ (header_line (length m) ++ 13 ∷ []) ++ 10 ∷ 13 ∷ 10 ∷ (m ++ rest)
unfolding frame
frame_lines m rest = simp append_assoc

-- A line that ends with a carriage return and a newline.
take_line-crlf :
    (line rest : Bytes)
    → All (λ c. c ≢ 10) line
    → take_line [] ((line ++ 13 ∷ []) ++ 10 ∷ rest) ≡ (ok line, rest)
take_line-crlf line rest h =
    take_line_lem [] (line ++ 13 ∷ []) rest
      (All-append (λ c. c ≢ 10) line (13 ∷ []) h (omega arith, tt))
    ∙ ap (λ l. (ok l, rest)) (strip_cr_lem line)

header_line-no_newline : (n : ℕ) → All (λ c. c ≢ 10) (header_line n)
header_line-no_newline n =
    All-append (λ c. c ≢ 10) (codes "Content-Length: ") (to_string n) (omega arith)
      (digits_no_newline (to_string n) (to_string-IsDigits n))

-- The parser on one frame and what follows it.
take_headers-frame :
    (fuel : ℕ) (m rest : Bytes)
    → length m < 2 ^ 64
    → take_headers (suc (suc fuel)) none (frame m ++ rest) ≡ (ok (some (length m)), m ++ rest)
take_headers-frame fuel m rest h =
    ap (take_headers (suc (suc fuel)) none) (frame_lines m rest)
    ∙ take_headers_more (suc fuel) none _ (13 ∷ 10 ∷ (m ++ rest)) (some (length m))
        (header_line (length m))
        (take_line-crlf (header_line (length m)) _ (header_line-no_newline (length m)))
        (ground arith) (header-header_line (length m) h)
    ∙ take_headers_stop fuel (some (length m)) _ (m ++ rest) [] (take_line-crlf [] (m ++ rest) tt)
        refl

take_body-append : (m rest : Bytes) → take_body (length m) (m ++ rest) ≡ (ok m, rest)
unfolding take_body
take_body-append m rest =
    let e : leb (length m) (length (m ++ rest)) ≡ true = ground (arith, length-append m rest) in
    rw (e, take-append_self m rest, drop-append_self m rest)

take_message-frame :
    (max_size fuel : ℕ) (m rest : Bytes)
    → length m < 2 ^ 64
    → length m ≤ max_size
    → take_message max_size (suc (suc fuel)) (frame m ++ rest) ≡ (ok m, rest)
unfolding take_message require_length allocate
take_message-frame max_size fuel m rest h fits =
    let e : leb (length m) max_size ≡ true = ground arith in
    rw (take_headers-frame fuel m rest h, e, take_body-append m rest)

length-frame : (m : Bytes) → 16 < length (frame m)
unfolding frame
length-frame m = omega (arith, length-append (to_string (length m)) (13 ∷ 10 ∷ 13 ∷ 10 ∷ m))

-- What `write_message` sends, `read_message` returns: with the frame of a message next on the
-- stream, the framer returns that message, of at most `max_size` and fewer than 2 ^ 64 bytes, and
-- leaves just the bytes behind the frame, whatever they are and however the transport cuts the
-- stream into pieces.
pub read_message-frame :
    {T : Transport} (D : Delivers T) (max_size fuel : ℕ) (c : Channel T) (m rest : Bytes)
    → IsValid c
    → stream D c ≡ frame m ++ rest
    → length (stream D c) < fuel
    → length m < 2 ^ 64
    → length m ≤ max_size
    → (c' : Channel T) × (read_message max_size fuel c ≡ (ok m, c'))
      × IsValid c'
      × (stream D c' ≡ rest)
read_message-frame D max_size fuel c m rest v e enough small fits =
    let long : 16 < fuel =
      omega (arith, ap length e, length-append (frame m) rest, length-frame m) in
    let k : suc (suc (fuel - 2)) ≡ fuel = omega arith in
    let agrees = read_message-Agrees D max_size fuel c v enough in
    let parsed : take_message max_size fuel (stream D c) ≡ (ok m, rest) =
      rw (e, ← k) (take_message-frame max_size (fuel - 2) m rest small fits) in
    (
      (read_message max_size fuel c).1,
      (λ i. ((agrees.result ∙ ap (λ r. r.0) parsed) i, (read_message max_size fuel c).1)),
      agrees.valid,
      agrees.rest ∙ ap (λ r. r.1) parsed,
    )
