-- ===== src/Framing/Refill.antt =====
-- transport.hpp: `fill_buffer` over a transport that delivers a byte stream.
use mathlib.Core.Path.{ap₂}
use copilot_cpp.Prelude.{
  ℕ, zero, suc, ◌+◌, ◌-◌, ◌≤◌, ◌<◌, ◌≡◌, ◌⊎◌, inl, inr, refl, ap, sym, ◌∙◌, [], ◌∷◌, ◌++◌,
  append_assoc, length, length-append, ltb, leb, ◌==◌, Bool-cases, arith, true, false,
}
use copilot_cpp.Prelude.Text.{Bytes}
use copilot_cpp.Prelude.Exec.{Result, ok, err}
use copilot_cpp.Framing.Input.{Transport, Delivers, Error}
use copilot_cpp.Framing.{
  Channel, min_buffer_size, compact, ensure_size, accept, fill_loop, fill_buffer, require_byte,
  closed_in_header,
}
use copilot_cpp.Framing.Slices.{empty_of_length}
use copilot_cpp.Framing.Stream.{
  IsValid, unread, length-unread, compact_lem, compact_pos, ensure_size_lem, ensure_size_room,
  accept_lem, accept-Accepted, ensure_size_pos,
}

module _ {T : Transport} (D : Delivers T) where
  open D use {pending, read_ok}

  -- All the bytes that the framer still has before it.
  abbrev pub stream : Channel T → Bytes
  stream c = unread c ++ pending c.transport

  -- What `fill_buffer` promises: the same stream, and enough bytes or the end of the input.
  pub record Filled (min_bytes : ℕ) (c c' : Channel T) : Type 0 where
    pub valid : IsValid c'
    pub same : stream c' ≡ stream c
    pub position : c'.buffer_pos ≡ c.buffer_pos
    pub enough : (min_bytes ≤ c'.buffer_len) ⊎ (length (pending c'.transport) ≡ 0)

  fill_step :
      (fuel min_bytes : ℕ) (c : Channel T) (s' : Transport.State T) (bs : Bytes)
      → ltb c.buffer_len min_bytes ≡ true
      → Transport.read T c.transport (length c.buffer - c.buffer_len) ≡ (ok bs, s')
      → (length bs == 0) ≡ false
      → fill_loop (suc fuel) min_bytes c
        ≡ fill_loop fuel min_bytes (accept bs (record c { transport = s' }))
  unfolding fill_loop
  fill_step fuel min_bytes c s' bs h e z = rw (h, e, z)

  fill_end :
      (fuel min_bytes : ℕ) (c : Channel T) (s' : Transport.State T) (bs : Bytes)
      → ltb c.buffer_len min_bytes ≡ true
      → Transport.read T c.transport (length c.buffer - c.buffer_len) ≡ (ok bs, s')
      → (length bs == 0) ≡ true
      → fill_loop (suc fuel) min_bytes c ≡ (ok tt, record c { transport = s' })
  unfolding fill_loop
  fill_end fuel min_bytes c s' bs h e z = rw (h, e, z)

  fill_done :
      (fuel min_bytes : ℕ) (c : Channel T)
      → ltb c.buffer_len min_bytes ≡ false
      → fill_loop (suc fuel) min_bytes c ≡ (ok tt, c)
  unfolding fill_loop
  fill_done fuel min_bytes c h = rw h

  Filled-trans :
      (min_bytes : ℕ) {a b c : Channel T}
      → stream b ≡ stream a
      → b.buffer_pos ≡ a.buffer_pos
      → Filled min_bytes b c
      → Filled min_bytes a c
  Filled-trans min_bytes e p f = record {
    valid = f.valid;
    same = f.same ∙ e;
    position = f.position ∙ p;
    enough = f.enough;
  }

  -- The bytes of one read, put into the buffer, leave the stream as it was.
  stream-accept :
      (c : Channel T) (s' : Transport.State T) (bs : Bytes)
      → IsValid c
      → c.buffer_len + length bs ≤ length c.buffer
      → bs ++ pending s' ≡ pending c.transport
      → stream (accept bs (record c { transport = s' })) ≡ stream c
  stream-accept c s' bs v h e =
      let c₁ : Channel T = record c { transport = s' } in
      let v₁ : IsValid c₁ = record { ordered = v.ordered; fits = v.fits } in
      ap₂ (λ u t. u ++ pending t) (accept_lem bs c₁ v₁ h).1 (accept-Accepted bs c₁ h).transport
      ∙ append_assoc (unread c) bs (pending s')
      ∙ ap (λ t. unread c ++ t) e

  pending_same :
      {before after : Bytes} (bs : Bytes)
      → bs ++ after ≡ before
      → (length bs == 0) ≡ true
      → after ≡ before
  pending_same [] e z = e
  pending_same (b ∷ bs) e z = absurd (ground arith)

  -- The loop ends, and it ends as `fill_buffer` promises.
  pub fill_loop_lem :
      (fuel min_bytes : ℕ) (c : Channel T)
      → IsValid c
      → min_bytes ≤ length c.buffer
      → min_bytes - c.buffer_len < fuel
      → (c' : Channel T) × (fill_loop fuel min_bytes c ≡ (ok tt, c')) × Filled min_bytes c c'
  fill_loop_lem zero min_bytes c v room h = absurd (omega arith)
  fill_loop_lem (suc fuel) min_bytes c v room h = elim (Bool-cases (ltb c.buffer_len min_bytes)) [
    | inr e ↦ (
      c,
      fill_done fuel min_bytes c e,
      record { valid = v; same = refl; position = refl; enough = inl (ground arith) },
    )
    | inl e ↦
        (let (bs, s', read, chunk) =
            read_ok c.transport (length c.buffer - c.buffer_len) (ground arith) in
          elim (Bool-cases (length bs == 0)) [
            | inl z ↦ (
              record c { transport = s' },
              fill_end fuel min_bytes c s' bs e read z,
              (record {
                valid = record { ordered = v.ordered; fits = v.fits };
                same = ap (λ t. unread c ++ t) (pending_same bs chunk.split z);
                position = refl;
                enough =
                    inr (ground (arith, chunk.progress, ap length (pending_same bs chunk.split z)));
              }),
            )
            | inr z ↦
                (let fits : c.buffer_len + length bs ≤ length c.buffer =
                    omega (arith, chunk.within, v.fits) in
                  let c₁ : Channel T = record c { transport = s' } in
                  let (v₂, _) =
                    accept_lem bs c₁ (record { ordered = v.ordered; fits = v.fits }) fits in
                  let a = accept-Accepted bs c₁ fits in
                  let (c', run, filled) =
                    fill_loop_lem fuel min_bytes (accept bs c₁) v₂ (omega (arith, a.size))
                      (ground (arith, a.held, a.size)) in
                  (
                    c',
                    fill_step fuel min_bytes c s' bs e read z ∙ run,
                    Filled-trans min_bytes (stream-accept c s' bs v fits chunk.split) a.position
                        filled,
                  ))
          ])
  ]

  -- `fill_buffer` keeps the stream and ends with the bytes asked for, or at the end of the input.
  pub fill_buffer_lem :
      (min_bytes : ℕ) (c : Channel T)
      → IsValid c
      → min_bytes ≤ min_buffer_size
      → (c' : Channel T) × (fill_buffer min_bytes c ≡ (ok tt, c'))
        × (stream c' ≡ stream c)
        × Filled min_bytes (ensure_size (compact c)) c'
        × (c'.buffer_pos ≡ 0)
  unfolding fill_buffer
  fill_buffer_lem min_bytes c v h =
      let c₁ = compact c in
      let s₁ = compact_lem c v in
      let c₂ = ensure_size c₁ in
      let s₂ = ensure_size_lem c₁ s₁.valid in
      let (c', run, filled) =
        fill_loop_lem (suc min_bytes) min_bytes c₂ s₂.valid (omega (arith, h, ensure_size_room c₁))
          (omega arith) in
      (
        c',
        run,
        filled.same
            ∙ ap₂ (λ u t. u ++ pending t) (s₂.bytes ∙ s₁.bytes) (s₂.transport ∙ s₁.transport),
        filled,
        filled.position ∙ ensure_size_pos c₁ ∙ compact_pos c,
      )

  -- What `require_byte` ends with: a buffered byte, or the end of the stream.
  pub data Required (c : Channel T) (r : Result Error (Unit {0}) × Channel T) : Type 0 where
    ready :
        (c' : Channel T)
        → r ≡ (ok tt, c')
        → IsValid c'
        → stream c' ≡ stream c
        → c'.buffer_pos < c'.buffer_len
        → Required c r
    ended :
        (c' : Channel T)
        → r ≡ (err closed_in_header, c')
        → IsValid c'
        → stream c ≡ []
        → stream c' ≡ []
        → Required c r

  stream-empty :
      (c : Channel T)
      → IsValid c
      → c.buffer_len ≡ 0
      → (1 ≤ c.buffer_len) ⊎ (length (pending c.transport) ≡ 0)
      → stream c ≡ []
  stream-empty c v z enough =
      empty_of_length (stream c)
        (ground (arith, length-append (unread c) (pending c.transport), length-unread c v))

  require_refilled :
      (c c' : Channel T)
      → leb c.buffer_len c.buffer_pos ≡ true
      → fill_buffer 1 c ≡ (ok tt, c')
      → IsValid c'
      → stream c' ≡ stream c
      → c'.buffer_pos ≡ 0
      → (1 ≤ c'.buffer_len) ⊎ (length (pending c'.transport) ≡ 0)
      → Required c (require_byte c)
  unfolding require_byte
  require_refilled c c' e run v same p enough = elim (Bool-cases (c'.buffer_len == 0)) [
    | inr z ↦ rw (e, run, z) (ready c' refl v same (ground arith))
    | inl z ↦
        (let empty : stream c' ≡ [] = stream-empty c' v (ground arith) enough in
          rw (e, run, z) (ended c' refl v (sym same ∙ empty) empty))
  ]

  pub require_byte_lem : (c : Channel T) → IsValid c → Required c (require_byte c)
  unfolding require_byte
  require_byte_lem c v = elim (Bool-cases (leb c.buffer_len c.buffer_pos)) [
    | inr e ↦ rw e (ready c refl v refl (ground arith))
    | inl e ↦
        (let (c', run, same, filled, pos) = fill_buffer_lem 1 c v (omega arith) in
          require_refilled c c' e run filled.valid same pos filled.enough)
  ]
