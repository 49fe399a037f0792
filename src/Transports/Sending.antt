-- ===== src/Transports/Sending.antt =====
-- The writers' loop, over any call that sends a part of what it is given.
use copilot_cpp.Prelude.{
  ℕ, zero, suc, ◌+◌, ◌≤◌, ◌<◌, ◌≡◌, ◌≢◌, refl, sym, ap, ◌∙◌, Option, [], ◌∷◌, ◌++◌, append_assoc,
  append-nil, length, take, drop, length-take, length-drop, take-append-drop, arith,
}
use copilot_cpp.Prelude.Text.{Bytes}
use copilot_cpp.Prelude.Exec.{Result, ok, err, Exec, continue}
use copilot_cpp.Framing.Input.{Error, out_of_fuel}
use copilot_cpp.Transports.{Platform, windows, posix, Errno, System, chunk, send_all}

take-take : (n m : ℕ) (bs : Bytes) → n ≤ length (take m bs) → take n (take m bs) ≡ take n bs
take-take zero m bs h = refl
take-take (suc n) zero bs h = absurd (omega (arith, h))
take-take (suc n) (suc m) [] h = refl
take-take (suc n) (suc m) (b ∷ bs) h = ap (◌∷◌ b) (take-take n m bs (omega (arith, h)))

take-nil : (n : ℕ) → take {A = ℕ} n [] ≡ []
take-nil zero = refl
take-nil (suc n) = refl

take-add : (n k : ℕ) (bs : Bytes) → take n bs ++ take k (drop n bs) ≡ take (n + k) bs
take-add zero k bs = let e : zero + k ≡ k = omega arith in rw e refl
take-add (suc n) k [] = let e : suc n + k ≡ suc (n + k) = omega arith in rw e (take-nil k)
take-add (suc n) k (b ∷ bs) =
    let e : suc n + k ≡ suc (n + k) = omega arith in rw e (ap (◌∷◌ b) (take-add n k bs))

pub chunk_pos : (p : Platform) (most n : ℕ) → 0 < most → 0 < n → 0 < chunk p most n
chunk_pos windows most n room some_left = omega arith
chunk_pos posix most n room some_left = some_left

module _ {X : Type 0} (wire : X → Bytes) where
  -- One call of the system that was given `bs`: it takes one byte or more of them, in order, or it
  -- fails and takes none.
  unfoldable pub Takes : Bytes → X → Result Errno ℕ → X → Type 0
  Takes bs x (ok n) x' = (0 < n) × (n ≤ length bs) × (wire x' ≡ wire x ++ take n bs)
  Takes bs x (err e) x' = wire x' ≡ wire x

-- The documented behaviour of the calls that write, given at least one byte, over the bytes `wire`
-- that the system has taken.
abbrev pub IsWriter : (S : System) → (S.State → Bytes) → Type 0
IsWriter S wire =
    (fd : Option ℕ) (bs : Bytes) (s : S.State)
    → 0 < length bs
    → Takes wire bs s (S.write fd bs s).0 (S.write fd bs s).1

module _ {X : Type 0} (wire : X → Bytes) where
  -- One call that was given `bs`: some of its first bytes are sent, or it fails and none is.
  unfoldable pub Progress : Bytes → X → Result Error ℕ → X → Type 0
  Progress bs x (ok n) x' = (0 < n) × (n ≤ length bs) × (wire x' ≡ wire x ++ take n bs)
  Progress bs x (err e) x' = (e ≢ out_of_fuel) × (wire x' ≡ wire x)

  -- A whole write: all bytes are sent, in order, or it throws with a first part of them sent.
  unfoldable pub Sends : Bytes → X → Result Error (Unit {0}) → X → Type 0
  Sends bs x (ok _) x' = wire x' ≡ wire x ++ bs
  Sends bs x (err e) x' = (e ≢ out_of_fuel) × (k : ℕ) × (wire x' ≡ wire x ++ take k bs)

  module _ (put : Bytes → Exec Error X ℕ) where
    -- What is asked of the call: given at least one byte, it sends one or more of them or fails.
    abbrev pub Advances : Type 0
    Advances = (bs : Bytes) (x : X) → 0 < length bs → Progress bs x (put bs x).0 (put bs x).1

    module _ (limit : ℕ → ℕ) where
      Sends-after :
          (n : ℕ) (bs : Bytes) (x x' : X) (r : Result Error (Unit {0})) (x'' : X)
          → wire x' ≡ wire x ++ take n bs
          → Sends (drop n bs) x' r x''
          → Sends bs x r x''
      unfolding Sends
      Sends-after n bs x x' (ok _) x'' e h =
          h
          ∙ ap (λ w. w ++ drop n bs) e
          ∙ append_assoc (wire x) (take n bs) (drop n bs)
          ∙ ap (λ w. wire x ++ w) (take-append-drop n bs)
      Sends-after n bs x x' (err _) x'' e (fine, k, h) = (
        fine,
        n + k,
        h
            ∙ ap (λ w. w ++ take k (drop n bs)) e
            ∙ append_assoc (wire x) (take n bs) (take k (drop n bs))
            ∙ ap (λ w. wire x ++ w) (take-add n k bs),
      )

      -- the round that sent something, followed by the rest of the loop
      Sends-round :
          (bs : Bytes) (x x' : X) (r : Result Error ℕ) (m : ℕ) (rest : ℕ → Exec Error X (Unit {0}))
          → Progress (take m bs) x r x'
          → ((n : ℕ) → 0 < n → Sends (drop n bs) x' (rest n x').0 (rest n x').1)
          → Sends bs x (continue r rest x').0 (continue r rest x').1
      unfolding Progress Sends
      Sends-round bs x x' (ok n) m rest (some_sent, fits, e) ih =
          Sends-after n bs x x' _ _ (e ∙ ap (λ w. wire x ++ w) (take-take n m bs fits))
            (ih n some_sent)
      Sends-round bs x x' (err e) m rest (fine, same) ih =
          (fine, zero, same ∙ sym (append-nil (wire x)))

      pub send_all-Sends :
          Advances
          → ((n : ℕ) → 0 < n → 0 < limit n)
          → (fuel : ℕ) (bs : Bytes) (x : X) → length bs ≤ fuel
          → Sends bs x (send_all put limit fuel bs x).0 (send_all put limit fuel bs x).1
      unfolding send_all Sends
      send_all-Sends adv some_room fuel [] x h = sym (append-nil (wire x))
      send_all-Sends adv some_room zero (b ∷ bs) x h = absurd (omega (arith, h))
      send_all-Sends adv some_room (suc fuel) (b ∷ bs) x h =
          let m = limit (length (b ∷ bs)) in
          let room : 0 < length (take m (b ∷ bs)) =
            omega (arith, length-take m (b ∷ bs), some_room (length (b ∷ bs)) (omega arith)) in
          Sends-round (b ∷ bs) x _ _ m (λ n. send_all put limit fuel (drop n (b ∷ bs)))
            (adv (take m (b ∷ bs)) x room)
            (λ n some_sent.
              send_all-Sends adv some_room fuel (drop n (b ∷ bs)) _
                (omega (arith, h, length-drop n (b ∷ bs), some_sent)))
