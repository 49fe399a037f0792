-- ===== src/Framing/Soundness.antt =====
-- transport.hpp: every outcome of `read_message`.
use copilot_cpp.Prelude.{
  ℕ, zero, suc, ◌≤◌, ◌<◌, ◌≡◌, ◌≢◌, refl, sym, ap, ◌∙◌, [], ◌∷◌, ◌++◌, append_assoc, Option, none,
  some, length, take, drop, leb, leb→le, ◌==◌, Bool-cases, arith, true, false, inl, inr,
  length-append, length-take, take-append-drop,
}
use copilot_cpp.Prelude.Text.{Bytes, codes}
use copilot_cpp.Prelude.Exec.{Result, Result-cases, ok, err}
use copilot_cpp.Framing.Input.{Transport, Delivers, Error, out_of_fuel}
use copilot_cpp.Framing.{
  Channel, strip_cr, header, require_length, allocate, closed_in_header, closed_in_body,
  read_message,
}
use copilot_cpp.Framing.Stream.{IsValid}
use copilot_cpp.Framing.Refill.{stream}
use copilot_cpp.Framing.Parser.{
  take_headers_more, take_headers_stop, take_headers_bad, take_headers_throw, take_line,
  take_headers, take_body, take_message,
}
use copilot_cpp.Framing.Refinement.{read_message-Agrees}

-- A step took some bytes of the stream, or threw an exception of the program.
data Took {A : Type 0} (bytes : Bytes) (least : ℕ) (r : Result Error A × Bytes) : Type 0 where
  took :
      (a : A) (used rest : Bytes)
      → r ≡ (ok a, rest)
      → bytes ≡ used ++ rest
      → least ≤ length used
      → Took bytes least r
  threw : (e : Error) (rest : Bytes) → r ≡ (err e, rest) → e ≢ out_of_fuel → Took bytes least r

closed_not_fuel : (b : Bytes) → Error.connection_closed b ≢ out_of_fuel
closed_not_fuel b e = cc

take_line-Took : (line bytes : Bytes) → Took bytes 1 (take_line line bytes)
unfolding take_line
take_line-Took line [] = threw closed_in_header [] refl (closed_not_fuel _)
take_line-Took line (b ∷ bytes) = elim (Bool-cases (b == 10)) [
  | inl e ↦ rw e (took (strip_cr line) (b ∷ []) bytes refl refl (omega arith))
  | inr e ↦ rw e (more (take_line-Took (line ++ b ∷ []) bytes))
]
  where
    more :
        Took bytes 1 (take_line (line ++ b ∷ []) bytes)
        → Took (b ∷ bytes) 1 (take_line (line ++ b ∷ []) bytes)
    more (took a used rest e p l) = took a (b ∷ used) rest e (ap (◌∷◌ b) p) (omega arith)
    more (threw x rest e n) = threw x rest e n

-- `header` throws no exception but `TransportError`.
header-ne-fuel : (found : Option ℕ) (line : Bytes) → header found line ≢ err out_of_fuel
unfolding header
header-ne-fuel found line e = ground arith

take_headers-Took :
    (fuel : ℕ) (found : Option ℕ) (bytes : Bytes)
    → length bytes < fuel
    → Took bytes 0 (take_headers fuel found bytes)
take_headers-Took zero found bytes h = absurd (omega arith)
take_headers-Took (suc fuel) found bytes h = elim (take_line-Took [] bytes) [
  | threw x rest e n ↦ threw x rest (take_headers_throw fuel found bytes rest x e) n
  | took line used rest e p l ↦ elim (Bool-cases (length line == 0)) [
    | inl z ↦
        took found used rest (take_headers_stop fuel found bytes rest line e z) p (omega arith)
    | inr z ↦ elim (Result-cases (header found line)) [
      | inr (x, q) ↦
          threw x rest (take_headers_bad fuel found bytes rest line x e z q)
            (λ y. header-ne-fuel found line (q ∙ ap err y))
      | inl (found', q) ↦
          behind used rest p (take_headers_more fuel found bytes rest found' line e z q) (
            take_headers-Took fuel found' rest
              (omega (arith, ap length p, length-append used rest)))
    ]
  ]
]
  where
    behind :
        {A : Type 0} {r s : Result Error A × Bytes} (used rest : Bytes)
        → bytes ≡ used ++ rest
        → r ≡ s
        → Took rest 0 s
        → Took bytes 0 r
    behind used rest p e (took a used' rest' e' p' l) =
        took a (used ++ used') rest' (e ∙ e')
          (p ∙ ap (◌++◌ used) p' ∙ sym (append_assoc used used' rest')) (omega arith)
    behind used rest p e (threw x rest' e' n) = threw x rest' (e ∙ e') n

-- What a call of `read_message` comes to: a message that stood whole in the stream, just before the
-- bytes that are left, or an exception of the program.
pub data Outcome {S : Type 0} (max_size : ℕ) (before : Bytes) (left : S → Bytes)
    (r : Result Error Bytes × S) : Type 0 where
  message :
      (m used : Bytes) (s : S)
      → r ≡ (ok m, s)
      → before ≡ used ++ (m ++ left s)
      → length m ≤ max_size
      → Outcome max_size before left r
  exception :
      (e : Error) (s : S) → r ≡ (err e, s) → e ≢ out_of_fuel → Outcome max_size before left r

take_body-Outcome :
    (max_size n : ℕ) (used bytes : Bytes)
    → n ≤ max_size
    → Outcome max_size (used ++ bytes) (λ s. s) (take_body n bytes)
unfolding take_body
take_body-Outcome max_size n used bytes h = elim (Bool-cases (leb n (length bytes))) [
  | inr e ↦ rw e (exception closed_in_body [] refl (closed_not_fuel _))
  | inl e ↦ rw e (
      message (take n bytes) used (drop n bytes) refl
        (ap (◌++◌ used) (sym (take-append-drop n bytes))) (ground (arith, length-take n bytes)))
]

body_step :
    (max_size fuel n : ℕ) (bytes rest : Bytes)
    → take_headers fuel none bytes ≡ (ok (some n), rest)
    → leb n max_size ≡ true
    → take_message max_size fuel bytes ≡ take_body n rest
unfolding take_message require_length allocate
body_step max_size fuel n bytes rest e h = rw (e, h)

alloc_step :
    (max_size fuel n : ℕ) (bytes rest : Bytes)
    → take_headers fuel none bytes ≡ (ok (some n), rest)
    → leb n max_size ≡ false
    → take_message max_size fuel bytes ≡ (err Error.length_error, rest)
unfolding take_message require_length allocate
alloc_step max_size fuel n bytes rest e h = rw (e, h)

missing_step :
    (max_size fuel : ℕ) (bytes rest : Bytes)
    → take_headers fuel none bytes ≡ (ok none, rest)
    → take_message max_size fuel bytes
      ≡ (err (Error.transport_error (codes "Missing Content-Length header")), rest)
unfolding take_message require_length
missing_step max_size fuel bytes rest e = rw e

throw_step :
    (max_size fuel : ℕ) (bytes rest : Bytes) (x : Error)
    → take_headers fuel none bytes ≡ (err x, rest)
    → take_message max_size fuel bytes ≡ (err x, rest)
unfolding take_message
throw_step max_size fuel bytes rest x e = rw e

after_headers :
    (max_size fuel : ℕ) (bytes : Bytes)
    → Took bytes 0 (take_headers fuel none bytes)
    → Outcome max_size bytes (λ s. s) (take_message max_size fuel bytes)
after_headers max_size fuel bytes (threw x rest e n) =
    exception x rest (throw_step max_size fuel bytes rest x e) n
after_headers max_size fuel bytes (took none used rest e p l) =
    exception _ rest (missing_step max_size fuel bytes rest e) (λ y. cc)
after_headers max_size fuel bytes (took (some n) used rest e p l) =
    elim (Bool-cases (leb n max_size)) [
      | inr h ↦ exception _ rest (alloc_step max_size fuel n bytes rest e h) (λ y. cc)
      | inl h ↦
          rw (body_step max_size fuel n bytes rest e h, p)
            (take_body-Outcome max_size n used rest (leb→le n max_size h))
    ]

-- A call of `read_message` ends, whatever the stream holds: it returns a message of at most
-- `max_size` bytes, which are the last that it took from the stream, or it throws one of the
-- program's exceptions. Fuel for each byte of the stream is enough.
pub read_message-Outcome :
    {T : Transport} (D : Delivers T) (max_size fuel : ℕ) (c : Channel T)
    → IsValid c
    → length (stream D c) < fuel
    → Outcome max_size (stream D c) (stream D) (read_message max_size fuel c)
read_message-Outcome D max_size fuel c v h =
    transfer (after_headers max_size fuel (stream D c) (take_headers-Took fuel none (stream D c) h))
  where
    transfer :
        Outcome max_size (stream D c) (λ s. s) (take_message max_size fuel (stream D c))
        → Outcome max_size (stream D c) (stream D) (read_message max_size fuel c)
    transfer (message m used s e p l) =
        let a = read_message-Agrees D max_size fuel c v h in
        message m used (read_message max_size fuel c).1
          (λ i. ((a.result ∙ ap (λ r. r.0) e) i, (read_message max_size fuel c).1))
          (p ∙ ap (λ s. used ++ (m ++ s)) (sym (a.rest ∙ ap (λ r. r.1) e))) l
    transfer (exception x s e n) =
        let a = read_message-Agrees D max_size fuel c v h in
        exception x (read_message max_size fuel c).1
          (λ i. ((a.result ∙ ap (λ r. r.0) e) i, (read_message max_size fuel c).1)) n
