-- ===== src/Framing/Parser.antt =====
-- The message format as a parser of a byte stream, with no buffer and no transport. `MessageFramer`
-- is compared with it.
use copilot_cpp.Prelude.{
  ℕ, zero, suc, Option, none, [], ◌∷◌, ◌++◌, length, take, drop, leb, ◌==◌, if◌then◌else◌, ◌≡◌,
  true, false,
}
use copilot_cpp.Prelude.Text.{Bytes}
use copilot_cpp.Prelude.Exec.{ok, err, Exec, pure, raise, lift, ◌>>=◌, ◌>>◌}
use copilot_cpp.Framing.Input.{Error, out_of_fuel}
use copilot_cpp.Framing.{
  strip_cr, header, require_length, allocate, closed_in_header, closed_in_body,
}

abbrev pub Parser : Type 0 → Type 0
Parser = Exec Error Bytes

-- The rest of a line that begins with `line`.
unfoldable pub take_line : Bytes → Parser Bytes
take_line line [] = (err closed_in_header, [])
take_line line (b ∷ rest) =
    let more = take_line (line ++ b ∷ []) rest in
    if b == 10 then (ok (strip_cr line), rest) else more

unfoldable pub take_headers : ℕ → Option ℕ → Parser (Option ℕ)
take_headers zero found = raise out_of_fuel
take_headers (suc fuel) found = do
  line ← take_line []
  let more = (do found' ← lift (header found line); take_headers fuel found')
  if length line == 0 then pure found else more

unfoldable pub take_body : ℕ → Parser Bytes
take_body n bytes =
    if leb n (length bytes) then (ok (take n bytes), drop n bytes) else (err closed_in_body, [])

unfoldable pub take_message : ℕ → ℕ → Parser Bytes
take_message max_size fuel = do
  found ← take_headers fuel none
  n ← lift (require_length found)
  lift (allocate max_size n)
  take_body n

-- The rounds of the header loop.
module _ (fuel : ℕ) (found : Option ℕ) (bytes rest : Bytes) where
  pub take_headers_more :
      (found' : Option ℕ) (line : Bytes)
      → take_line [] bytes ≡ (ok line, rest)
      → (length line == 0) ≡ false
      → header found line ≡ ok found'
      → take_headers (suc fuel) found bytes ≡ take_headers fuel found' rest
  unfolding take_headers
  take_headers_more found' line e z p = rw (e, z, p)

  pub take_headers_stop :
      (line : Bytes)
      → take_line [] bytes ≡ (ok line, rest)
      → (length line == 0) ≡ true
      → take_headers (suc fuel) found bytes ≡ (ok found, rest)
  unfolding take_headers
  take_headers_stop line e z = rw (e, z)

  pub take_headers_bad :
      (line : Bytes) (x : Error)
      → take_line [] bytes ≡ (ok line, rest)
      → (length line == 0) ≡ false
      → header found line ≡ err x
      → take_headers (suc fuel) found bytes ≡ (err x, rest)
  unfolding take_headers
  take_headers_bad line x e z p = rw (e, z, p)

  pub take_headers_throw :
      (x : Error)
      → take_line [] bytes ≡ (err x, rest)
      → take_headers (suc fuel) found bytes ≡ (err x, rest)
  unfolding take_headers
  take_headers_throw x e = rw e
