-- ===== src/Framing/Refinement.antt =====
-- transport.hpp: `read_message` refines the parser of Framing/Parser.antt.
use copilot_cpp.Prelude.{
  ℕ, zero, suc, ◌<◌, ◌≡◌, refl, ap, [], ◌∷◌, ◌++◌, Option, none, length, ◌==◌, if◌then◌else◌,
  Bool-cases, arith, inl, inr,
}
use copilot_cpp.Prelude.Text.{Bytes}
use copilot_cpp.Prelude.Exec.{ok, pure, lift, ◌>>=◌}
use copilot_cpp.Framing.Input.{Transport, Delivers}
use copilot_cpp.Framing.{
  Channel, read_line, header, read_headers, require_length, allocate, read_message,
}
use copilot_cpp.Framing.Stream.{IsValid}
use copilot_cpp.Framing.Refill.{stream}
use copilot_cpp.Framing.Parser.{take_line, take_headers, take_message}
use copilot_cpp.Framing.Agreement.{Agrees, Agrees-bind, Agrees-continue}
use copilot_cpp.Framing.Lines.{read_line-Agrees}
use copilot_cpp.Framing.Body.{read_exact-Agrees}

-- A line that was read took at least its newline from the stream.
take_line-shrinks :
    (line bytes : Bytes) (a : Bytes)
    → (take_line line bytes).0 ≡ ok a
    → length (take_line line bytes).1 < length bytes
unfolding take_line
take_line-shrinks line [] a h = absurd (ground arith)
take_line-shrinks line (b ∷ rest) a h = elim (Bool-cases (b == 10)) [
  | inl e ↦ rw e (omega arith)
  | inr e ↦
      (let h' : (take_line (line ++ b ∷ []) rest).0 ≡ ok a = rw e at h in
        rw e (omega (arith, take_line-shrinks (line ++ b ∷ []) rest a h')))
]

module _ {T : Transport} (D : Delivers T) where
  -- The rest of the header loop, once a line is read.
  after_line :
      (fuel : ℕ) (found : Option ℕ) (line : Bytes) (c : Channel T)
      → IsValid c
      → ((found' : Option ℕ)
          → Agrees D (read_headers fuel found' c) (take_headers fuel found' (stream D c)))
      → Agrees D
          ((if length line == 0
              then pure found
              else (lift (header found line) >>= λ found'. read_headers fuel found'))
            c)
          ((if length line == 0
              then pure found
              else (lift (header found line) >>= λ found'. take_headers fuel found'))
            (stream D c))
  after_line fuel found line c v ih = elim (Bool-cases (length line == 0)) [
    | inl e ↦ rw e (record { result = refl; rest = refl; valid = v })
    | inr e ↦ rw e (Agrees-continue D (header found line) c _ _ v (λ found' _. ih found'))
  ]

  read_headers-Agrees :
      (fuel : ℕ) (found : Option ℕ) (c : Channel T)
      → IsValid c
      → length (stream D c) < fuel
      → Agrees D (read_headers fuel found c) (take_headers fuel found (stream D c))
  unfolding take_headers read_headers
  read_headers-Agrees zero found c v h = absurd (omega arith)
  read_headers-Agrees (suc fuel) found c v h =
      let agrees = read_line-Agrees D (suc fuel) c v h in
      let c₁ = (read_line (suc fuel) c).1 in
      Agrees-bind D (read_line (suc fuel) c) (take_line [] (stream D c)) _ _ agrees
        (λ line done rest.
          let shorter : length (stream D c₁) < fuel =
            omega (arith, take_line-shrinks [] (stream D c) line done, ap length rest) in
          after_line fuel found line c₁ agrees.valid
            (λ found'. read_headers-Agrees fuel found' c₁ agrees.valid shorter))

  -- The framer reads what the parser reads of the byte stream: the same message or the same
  -- exception, with the same bytes left for the next call. This holds of every transport that
  -- delivers the stream in order, in pieces of any size, and of any bounds-respecting buffer, with
  -- fuel for each byte of the stream.
  pub read_message-Agrees :
      (max_size fuel : ℕ) (c : Channel T)
      → IsValid c
      → length (stream D c) < fuel
      → Agrees D (read_message max_size fuel c) (take_message max_size fuel (stream D c))
  unfolding take_message read_message
  read_message-Agrees max_size fuel c v h =
      let agrees = read_headers-Agrees fuel none c v h in
      let c₁ = (read_headers fuel none c).1 in
      Agrees-bind D (read_headers fuel none c) (take_headers fuel none (stream D c)) _ _ agrees
        (λ found _ _. Agrees-continue D (require_length found) c₁ _ _ agrees.valid (λ n _.
          Agrees-continue D (allocate max_size n) c₁ _ _ agrees.valid
            (λ _ _. read_exact-Agrees D n c₁ agrees.valid)))
