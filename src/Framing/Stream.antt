-- ===== src/Framing/Stream.antt =====
-- transport.hpp: the bytes that a framer still has before it, buffered and in the transport, and
-- what the buffer operations do to them.
use copilot_cpp.Prelude.{
  ℕ, ◌+◌, ◌-◌, ◌≤◌, ◌≡◌, inl, inr, refl, ap, sym, ◌∙◌, ◌++◌, length, take, drop, get_or,
  length-append, length-take, length-drop, length-replicate, replicate, ltb, Bool-cases, arith,
}
use copilot_cpp.Prelude.Text.{Bytes}
use copilot_cpp.Framing.Input.{Transport}
use copilot_cpp.Framing.{Channel, resize, overwrite, min_buffer_size, compact, ensure_size, accept}
use copilot_cpp.Framing.Slices.{
  take-append_at, take_none, slice-append, slice-append_end, drop-take_le,
}

length-resize : (n : ℕ) (b : Bytes) → (n ≤ length (resize n b)) × (length b ≤ length (resize n b))
unfolding resize
length-resize n b =
    let e = length-append b (replicate (n - length b) 0) in
    let f = length-replicate {A = ℕ} (n - length b) 0 in (omega (arith, e, f), omega (arith, e, f))

slice-resize :
    (k n p : ℕ) (b : Bytes) → p + n ≤ length b → take n (drop p (resize k b)) ≡ take n (drop p b)
unfolding resize
slice-resize k n p b h = slice-append n p b _ h

module _ {T : Transport} where
  -- The buffer's bounds, which each method keeps.
  pub record IsValid (c : Channel T) : Type 0 where
    pub ordered : c.buffer_pos ≤ c.buffer_len
    pub fits : c.buffer_len ≤ length c.buffer

  -- The buffered bytes that are not read yet.
  abbrev pub unread : Channel T → Bytes
  unread c = take (c.buffer_len - c.buffer_pos) (drop c.buffer_pos c.buffer)

  pub length-unread : (c : Channel T) → IsValid c → length (unread c) ≡ c.buffer_len - c.buffer_pos
  length-unread c v = omega (
    arith,
    length-take (c.buffer_len - c.buffer_pos) (drop c.buffer_pos c.buffer),
    length-drop c.buffer_pos c.buffer,
    v.ordered,
    v.fits,
  )

  -- What an operation on the buffer leaves as it was.
  pub record SameBytes (c c' : Channel T) : Type 0 where
    pub valid : IsValid c'
    pub bytes : unread c' ≡ unread c
    pub transport : c'.transport ≡ c.transport

  compact_front :
      (c : Channel T) (u : Bytes)
      → length u ≡ c.buffer_len - c.buffer_pos
      → c.buffer_len ≤ length c.buffer
      → (c.buffer_len - c.buffer_pos ≤ length (overwrite 0 u c.buffer))
        × (take (c.buffer_len - c.buffer_pos - 0) (overwrite 0 u c.buffer) ≡ u)
  unfolding overwrite
  compact_front c u e f = (
    omega (arith, length-append u (drop (0 + length u) c.buffer)),
    take-append_at _ u _ (omega arith),
  )

  -- Moving the unread bytes to the front loses none of them.
  pub compact_lem : (c : Channel T) → IsValid c → SameBytes c (compact c)
  unfolding compact
  compact_lem c v = elim (Bool-cases (ltb 0 c.buffer_pos)) [
    | inr e ↦ rw e (record { valid = v; bytes = refl; transport = refl })
    | inl e ↦ elim (Bool-cases (ltb c.buffer_pos c.buffer_len)) [
      | inl l ↦
          rw (e, l)
            (let n = c.buffer_len - c.buffer_pos in
              let u = take n (drop c.buffer_pos c.buffer) in
              let (fits, bytes) = compact_front c u (length-unread c v) v.fits in
              record {
                valid = record { ordered = omega arith; fits = fits };
                bytes = bytes;
                transport = refl;
              })
      | inr l ↦
          rw (e, l)
            (record {
              valid = record { ordered = omega arith; fits = omega arith };
              bytes = sym (take_none _ _ (ground arith));
              transport = refl;
            })
    ]
  ]

  -- After it the unread bytes stand at the front.
  pub compact_pos : (c : Channel T) → (compact c).buffer_pos ≡ 0
  unfolding compact
  compact_pos c = ground arith

  pub ensure_size_lem : (c : Channel T) → IsValid c → SameBytes c (ensure_size c)
  unfolding ensure_size
  ensure_size_lem c v = elim (Bool-cases (ltb (length c.buffer) min_buffer_size)) [
    | inr e ↦ rw e (record { valid = v; bytes = refl; transport = refl })
    | inl e ↦ rw e (record {
      valid = record {
        ordered = v.ordered;
        fits = omega (arith, v.fits, (length-resize min_buffer_size c.buffer).1);
      };
      bytes = slice-resize _ _ _ c.buffer (omega (arith, v.ordered, v.fits));
      transport = refl;
    })
  ]

  -- There is room for a read.
  pub ensure_size_room : (c : Channel T) → min_buffer_size ≤ length (ensure_size c).buffer
  unfolding ensure_size
  ensure_size_room c = elim (Bool-cases (ltb (length c.buffer) min_buffer_size)) [
    | inr e ↦ rw e (ground arith)
    | inl e ↦ rw e ((length-resize min_buffer_size c.buffer).0)
  ]

  -- What was read stands behind the unread bytes.
  pub accept_lem :
      (bs : Bytes) (c : Channel T)
      → IsValid c
      → c.buffer_len + length bs ≤ length c.buffer
      → IsValid (accept bs c) × (unread (accept bs c) ≡ unread c ++ bs)
  unfolding accept overwrite
  accept_lem bs c v h =
      let X = take c.buffer_len c.buffer in
      let Z = drop (c.buffer_len + length bs) c.buffer in
      let eX = length-take c.buffer_len c.buffer in
      let eZ = length-drop (c.buffer_len + length bs) c.buffer in
      let e₁ = length-append X (bs ++ Z) in
      let e₂ = length-append bs Z in
      (
        record {
          ordered = omega (arith, v.ordered);
          fits = omega (arith, e₁, e₂, eX, eZ, v.fits, h);
        },
        slice-append_end _ c.buffer_pos X bs Z (omega (arith, eX, v.ordered, v.fits))
              (omega (arith, eX, v.ordered, v.fits))
            ∙ ap (λ u. u ++ bs) (drop-take_le c.buffer_pos c.buffer_len c.buffer v.ordered),
      )

  pub record Accepted (bs : Bytes) (c c' : Channel T) : Type 0 where
    pub position : c'.buffer_pos ≡ c.buffer_pos
    pub transport : c'.transport ≡ c.transport
    pub held : c'.buffer_len ≡ c.buffer_len + length bs
    pub size : length c'.buffer ≡ length c.buffer

  pub accept-Accepted :
      (bs : Bytes) (c : Channel T)
      → c.buffer_len + length bs ≤ length c.buffer
      → Accepted bs c (accept bs c)
  unfolding accept overwrite
  accept-Accepted bs c h =
      let X = take c.buffer_len c.buffer in
      let Z = drop (c.buffer_len + length bs) c.buffer in
      record {
        position = refl;
        transport = refl;
        held = refl;
        size = omega (
          arith,
          length-append X (bs ++ Z),
          length-append bs Z,
          length-take c.buffer_len c.buffer,
          length-drop (c.buffer_len + length bs) c.buffer,
        );
      }

  pub ensure_size_pos : (c : Channel T) → (ensure_size c).buffer_pos ≡ c.buffer_pos
  unfolding ensure_size
  ensure_size_pos c = ground arith

  -- The byte that `take_byte` returns, and the framer after it.
  abbrev pub head : Channel T → ℕ
  head c = get_or c.buffer c.buffer_pos 0

  abbrev pub advance : Channel T → Channel T
  advance c = record c { buffer_pos = c.buffer_pos + 1 }
