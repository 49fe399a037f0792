-- ===== src/Framing/Body.antt =====
-- transport.hpp: `read_exact` reads a body of the byte stream.
use copilot_cpp.Prelude.{
  ℕ, zero, suc, ◌+◌, ◌-◌, ◌≤◌, ◌<◌, ◌≡◌, ◌⊎◌, inl, inr, refl, ap, sym, ◌∙◌, [], ◌∷◌, ◌++◌,
  append_assoc, append-nil, length, take, drop, length-append, ltb, leb, ◌==◌, if◌then◌else◌,
  Bool-cases, arith, true, false,
}
use copilot_cpp.Prelude.Text.{Bytes}
use copilot_cpp.Prelude.Exec.{ok, err}
use copilot_cpp.Framing.Input.{Transport, Delivers}
use copilot_cpp.Framing.{Channel, closed_in_body, drain, receive_exact, read_exact}
use copilot_cpp.Framing.Slices.{empty_of_length, take_none, take-append_add, drop-append_add}
use copilot_cpp.Framing.Stream.{head, advance, IsValid, unread}
use copilot_cpp.Framing.Refill.{stream}
use copilot_cpp.Framing.Parser.{Parser, take_body}
use copilot_cpp.Framing.Agreement.{Agrees, stream_cons}

-- What `read_exact` has still to read, as a parser.
take_rest : ℕ → Bytes → Parser Bytes
take_rest n out bytes =
    if leb (n - length out) (length bytes)
    then (ok (out ++ take (n - length out) bytes), drop (n - length out) bytes)
    else (err closed_in_body, [])

leb_shift : (k j l s : ℕ) → l ≡ k + s → leb (k + j) l ≡ leb j s
leb_shift k j l s e = ground arith

-- Some bytes taken first.
take_rest-append :
    (n : ℕ) (out bs rest : Bytes)
    → length bs ≤ n - length out
    → take_rest n out (bs ++ rest) ≡ take_rest n (out ++ bs) rest
unfolding take_rest
take_rest-append n out bs rest h =
    let j = n - length (out ++ bs) in
    let e : n - length out ≡ length bs + j = omega (arith, length-append out bs) in
    rw (
      e,
      take-append_add bs rest j,
      drop-append_add bs rest j,
      ← append_assoc,
      leb_shift (length bs) j (length (bs ++ rest)) (length rest) (length-append bs rest),
    )

take_rest-full : (n : ℕ) (out rest : Bytes) → n ≡ length out → take_rest n out rest ≡ (ok out, rest)
unfolding take_rest
take_rest-full n out rest e =
    let z : n - length out ≡ 0 = omega arith in
    let y : leb 0 (length rest) ≡ true = ground arith in rw (z, y, append-nil)

take_rest-empty :
    (n : ℕ) (out : Bytes) → length out < n → take_rest n out [] ≡ (err closed_in_body, [])
unfolding take_rest
take_rest-empty n out h = let y : leb (n - length out) 0 ≡ false = ground arith in rw y

take_body-rest : (n : ℕ) (bytes : Bytes) → take_body n bytes ≡ take_rest n [] bytes
unfolding take_rest take_body
take_body-rest n bytes = let e : n - 0 ≡ n = omega arith in rw e

module _ {T : Transport} (D : Delivers T) where
  open D use {pending, read_ok}

  -- What `drain` gives: bytes of the stream, `n` of them or all that the buffer held.
  record Drained (n : ℕ) (out : Bytes) (c : Channel T) (r : Bytes × Channel T) : Type 0 where
    got : Bytes
    taken : r.0 ≡ out ++ got
    valid : IsValid r.1
    split : stream D c ≡ got ++ stream D r.1
    within : length got ≤ n
    enough : (length got ≡ n) ⊎ (unread r.1 ≡ [])

  drain_lem : (n : ℕ) (out : Bytes) (c : Channel T) → IsValid c → Drained n out c (drain n out c)
  unfolding drain
  drain_lem zero out c v = record {
    got = [];
    taken = sym (append-nil out);
    valid = v;
    split = refl;
    within = omega arith;
    enough = inl refl;
  }
  drain_lem (suc n) out c v = elim (Bool-cases (ltb c.buffer_pos c.buffer_len)) [
    | inr e ↦ rw e (record {
      got = [];
      taken = sym (append-nil out);
      valid = v;
      split = refl;
      within = omega arith;
      enough = inr (take_none _ _ (ground arith));
    })
    | inl e ↦
        (let (v₁, cons) = stream_cons D c v (ground arith) in
          let d = drain_lem n (out ++ head c ∷ []) (advance c) v₁ in
          rw e (record {
            got = head c ∷ d.got;
            taken = d.taken ∙ append_assoc out (head c ∷ []) d.got;
            valid = d.valid;
            split = cons ∙ ap (◌∷◌ (head c)) d.split;
            within = omega (arith, d.within);
            enough = elim d.enough [ inl e ↦ inl (ap suc e) | inr e ↦ inr e ];
          }))
  ]

  receive_done :
      (fuel n : ℕ) (out : Bytes) (c : Channel T)
      → ltb (length out) n ≡ false
      → receive_exact fuel n out c ≡ (ok out, c)
  unfolding receive_exact
  receive_done zero n out c e = rw e
  receive_done (suc fuel) n out c e = rw e

  receive_step :
      (fuel n : ℕ) (out bs : Bytes) (c : Channel T) (s' : Transport.State T)
      → ltb (length out) n ≡ true
      → Transport.read T c.transport (n - length out) ≡ (ok bs, s')
      → (length bs == 0) ≡ false
      → receive_exact (suc fuel) n out c
        ≡ receive_exact fuel n (out ++ bs) (record c { transport = s' })
  unfolding receive_exact
  receive_step fuel n out bs c s' h e z = rw (h, e, z)

  receive_closed :
      (fuel n : ℕ) (out bs : Bytes) (c : Channel T) (s' : Transport.State T)
      → ltb (length out) n ≡ true
      → Transport.read T c.transport (n - length out) ≡ (ok bs, s')
      → (length bs == 0) ≡ true
      → receive_exact (suc fuel) n out c ≡ (err closed_in_body, record c { transport = s' })
  unfolding receive_exact
  receive_closed fuel n out bs c s' h e z = rw (h, e, z)

  receive_exact-Agrees :
      (fuel n : ℕ) (out : Bytes) (c : Channel T)
      → IsValid c
      → length out ≤ n
      → (length out ≡ n) ⊎ (unread c ≡ [])
      → n - length out ≤ fuel
      → Agrees D (receive_exact fuel n out c) (take_rest n out (stream D c))
  receive_exact-Agrees zero n out c v le enough h =
      let e : ltb (length out) n ≡ false = ground arith in
      rw (receive_done zero n out c e, take_rest-full n out (stream D c) (omega arith))
        (record { result = refl; rest = refl; valid = v })
  receive_exact-Agrees (suc fuel) n out c v le enough h = elim (Bool-cases (ltb (length out) n)) [
    | inr e ↦
        rw (receive_done (suc fuel) n out c e, take_rest-full n out (stream D c) (ground arith))
          (record { result = refl; rest = refl; valid = v })
    | inl e ↦
        (let (bs, s', read, chunk) = read_ok c.transport (n - length out) (ground arith) in
          let c₁ : Channel T = record c { transport = s' } in
          let v₁ : IsValid c₁ = record { ordered = v.ordered; fits = v.fits } in
          let u : unread c ≡ [] = elim enough [ inl p ↦ absurd (ground arith) | inr p ↦ p ] in
          let here : stream D c ≡ pending c.transport = rw u in
          let there : stream D c₁ ≡ pending s' = ap (λ x. x ++ pending s') u in
          elim (Bool-cases (length bs == 0)) [
            | inl z ↦
                (let none_left : stream D c ≡ [] =
                    here ∙ empty_of_length _ (ground (arith, chunk.progress)) in
                  let none_after : stream D c₁ ≡ [] =
                    there
                    ∙ empty_of_length _ (
                        ground (
                          arith,
                          chunk.progress,
                          ap length chunk.split,
                          length-append bs (pending s'),
                        )) in
                  rw
                    (
                      receive_closed fuel n out bs c s' e read z,
                      none_left,
                      take_rest-empty n out (ground arith),
                    )
                    (record { result = refl; rest = none_after; valid = v₁ }))
            | inr z ↦
                (let len = length-append out bs in
                  let ih =
                    receive_exact-Agrees fuel n (out ++ bs) c₁ v₁ (omega (arith, len, chunk.within))
                      (inr u) (ground (arith, len, h)) in
                  rw
                    (
                      receive_step fuel n out bs c s' e read z,
                      here,
                      ← chunk.split,
                      take_rest-append n out bs (pending s') chunk.within,
                      ← there,
                    )
                    ih)
          ])
  ]

  -- `read_exact` returns the next `n` bytes, or fails at the end of the stream.
  pub read_exact-Agrees :
      (n : ℕ) (c : Channel T) → IsValid c → Agrees D (read_exact n c) (take_body n (stream D c))
  unfolding read_exact
  read_exact-Agrees n c v =
      let d = drain_lem n [] c v in
      let c' = (drain n [] c).1 in
      let out = (drain n [] c).0 in
      let lens = ap length d.taken in
      let goal =
        receive_exact-Agrees n n out c' d.valid (omega (arith, lens, d.within))
          (elim d.enough [ inl e ↦ inl (lens ∙ e) | inr e ↦ inr e ]) (omega arith) in
      let e : take_body n (stream D c) ≡ take_rest n out (stream D c') =
        take_body-rest n (stream D c)
        ∙ ap (take_rest n []) d.split
        ∙ take_rest-append n [] d.got (stream D c') (omega (arith, d.within))
        ∙ ap (λ o. take_rest n o (stream D c')) (sym d.taken) in
      rw e goal
