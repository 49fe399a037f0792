-- ===== src/Framing/Lines.antt =====
-- transport.hpp: `read_line` reads a line of the byte stream, whatever pieces the transport delivers.
use copilot_cpp.Prelude.{
  ℕ, zero, suc, ◌<◌, ◌≡◌, inl, inr, refl, ap, sym, ◌∙◌, [], ◌∷◌, ◌++◌, length, ◌==◌, Bool-cases,
  arith, true, false,
}
use copilot_cpp.Prelude.Text.{Bytes}
use copilot_cpp.Prelude.Exec.{ok, err}
use copilot_cpp.Framing.Input.{Transport, Delivers, Error}
use copilot_cpp.Framing.{
  Channel, strip_cr, require_byte, closed_in_header, read_line_loop, read_line,
}
use copilot_cpp.Framing.Stream.{head, advance, IsValid}
use copilot_cpp.Framing.Refill.{stream, ready, ended, require_byte_lem}
use copilot_cpp.Framing.Parser.{take_line}
use copilot_cpp.Framing.Agreement.{Agrees, stream_cons}

module _ {T : Transport} (D : Delivers T) where
  open D use {pending, read_ok}

  line_end_run :
      (fuel : ℕ) (line : Bytes) (e : Error) (c c₁ : Channel T)
      → require_byte c ≡ (err e, c₁)
      → read_line_loop (suc fuel) line c ≡ (err e, c₁)
  unfolding read_line_loop
  line_end_run fuel line e c c₁ run = rw run

  line_newline_run :
      (fuel : ℕ) (line : Bytes) (c c₁ : Channel T)
      → require_byte c ≡ (ok tt, c₁)
      → (head c₁ == 10) ≡ true
      → read_line_loop (suc fuel) line c ≡ (ok (strip_cr line), advance c₁)
  unfolding read_line_loop
  line_newline_run fuel line c c₁ run e = rw (run, e)

  line_byte_run :
      (fuel : ℕ) (line : Bytes) (c c₁ : Channel T)
      → require_byte c ≡ (ok tt, c₁)
      → (head c₁ == 10) ≡ false
      → read_line_loop (suc fuel) line c ≡ read_line_loop fuel (line ++ head c₁ ∷ []) (advance c₁)
  unfolding read_line_loop
  line_byte_run fuel line c c₁ run e = rw (run, e)

  -- `read_line` reads a line of the stream, whatever the transport's pieces are.
  read_line_loop-Agrees :
      (fuel : ℕ) (line : Bytes) (c : Channel T)
      → IsValid c
      → length (stream D c) < fuel
      → Agrees D (read_line_loop fuel line c) (take_line line (stream D c))
  unfolding take_line
  read_line_loop-Agrees zero line c v h = absurd (omega arith)
  read_line_loop-Agrees (suc fuel) line c v h = elim (require_byte_lem D c v) [
    | ended c₁ run v₁ empty empty₁ ↦
        rw (line_end_run fuel line closed_in_header c c₁ run, empty)
          (record { result = refl; rest = empty₁; valid = v₁ })
    | ready c₁ run v₁ same l ↦
        (let (v₂, cons) = stream_cons D c₁ v₁ l in
          let e : stream D c ≡ head c₁ ∷ stream D (advance c₁) = sym same ∙ cons in
          elim (Bool-cases (head c₁ == 10)) [
            | inl z ↦
                rw (line_newline_run fuel line c c₁ run z, e, z)
                  (record { result = refl; rest = refl; valid = v₂ })
            | inr z ↦
                rw (line_byte_run fuel line c c₁ run z, e, z)
                  (read_line_loop-Agrees fuel (line ++ head c₁ ∷ []) (advance c₁) v₂
                    (omega (arith, ap length e)))
          ])
  ]

  pub read_line-Agrees :
      (fuel : ℕ) (c : Channel T)
      → IsValid c
      → length (stream D c) < fuel
      → Agrees D (read_line fuel c) (take_line [] (stream D c))
  unfolding read_line
  read_line-Agrees fuel c v h = read_line_loop-Agrees fuel [] c v h
