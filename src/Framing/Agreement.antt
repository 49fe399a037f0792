-- ===== src/Framing/Agreement.antt =====
-- transport.hpp: what it means that the framer does what the parser of Framing/Parser.antt does, and
-- the step of taking one buffered byte.
use copilot_cpp.Prelude.{
  suc, ◌+◌, ◌-◌, ◌<◌, ◌≡◌, refl, ap, sym, ◌∙◌, ◌∷◌, ◌++◌, take, drop, get_or, arith,
}
use copilot_cpp.Prelude.Text.{Bytes}
use copilot_cpp.Prelude.Exec.{Result, ok, err, Exec, continue}
use copilot_cpp.Framing.Input.{Transport, Delivers, Error}
use copilot_cpp.Framing.{Channel}
use copilot_cpp.Framing.Slices.{take-drop_cons}
use copilot_cpp.Framing.Stream.{head, advance, IsValid, unread}
use copilot_cpp.Framing.Refill.{stream}

module _ {T : Transport} (D : Delivers T) where
  open D use {pending, read_ok}

  -- The framer's outcome is the parser's: the same result or exception, and the same bytes left.
  pub record Agrees {A : Type 0} (r : Result Error A × Channel T) (e : Result Error A × Bytes)
      : Type 0 where
    pub result : r.0 ≡ e.0
    pub rest : stream D r.1 ≡ e.1
    pub valid : IsValid r.1

  pub Agrees-continue :
      {A B : Type 0} (x : Result Error A) (c : Channel T) (k : A → Exec Error (Channel T) B)
      (g : A → Exec Error Bytes B)
      → IsValid c
      → ((a : A) → x ≡ ok a → Agrees (k a c) (g a (stream D c)))
      → Agrees (continue x k c) (continue x g (stream D c))
  Agrees-continue (ok a) c k g v h = h a refl
  Agrees-continue (err e) c k g v h = record { result = refl; rest = refl; valid = v }

  -- Two steps that agree, one after the other.
  pub Agrees-bind :
      {A B : Type 0} (r : Result Error A × Channel T) (e : Result Error A × Bytes)
      (k : A → Exec Error (Channel T) B) (g : A → Exec Error Bytes B)
      → Agrees r e
      → ((a : A) → e.0 ≡ ok a → e.1 ≡ stream D r.1 → Agrees (k a r.1) (g a (stream D r.1)))
      → Agrees (continue r.0 k r.1) (continue e.0 g e.1)
  Agrees-bind r e k g agrees h =
      rw (← agrees.result, ← agrees.rest)
        (Agrees-continue r.0 r.1 k g agrees.valid
          (λ a p. h a (sym agrees.result ∙ p) (sym agrees.rest)))

  -- `buffer_[buffer_pos_++]` is the head of the stream.
  unread_cons :
      (c : Channel T)
      → IsValid c
      → c.buffer_pos < c.buffer_len
      → unread c
        ≡ get_or c.buffer c.buffer_pos 0 ∷ unread (record c { buffer_pos = c.buffer_pos + 1 })
  unread_cons c v h =
      let n = c.buffer_len - (c.buffer_pos + 1) in
      let e : c.buffer_len - c.buffer_pos ≡ suc n = omega arith in
      let p : suc c.buffer_pos ≡ c.buffer_pos + 1 = omega arith in
      ap (λ k. take k (drop c.buffer_pos c.buffer)) e
      ∙ take-drop_cons n c.buffer_pos c.buffer 0 (omega (arith, v.fits))
      ∙ ap (λ k. get_or c.buffer c.buffer_pos 0 ∷ take n (drop k c.buffer)) p

  pub stream_cons :
      (c : Channel T)
      → IsValid c
      → c.buffer_pos < c.buffer_len
      → IsValid (advance c) × (stream D c ≡ head c ∷ stream D (advance c))
  stream_cons c v h = (
    record { ordered = omega arith; fits = v.fits },
    ap (λ u. u ++ pending c.transport) (unread_cons c v h),
  )
