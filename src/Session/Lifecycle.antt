-- ===== src/Session/Lifecycle.antt =====
-- src/client.cpp: `on_lifecycle`, whose subscriptions hold the address of their handler.
use copilot_cpp.Prelude.{
  ℕ, ◌+◌, ◌≤◌, ◌<◌, ◌≡◌, ◌≢◌, refl, true, false, List, [], ◌∷◌, ◌++◌, ◌==◌, ltb, length,
  length-append, append_assoc, append-nil, ◌∙◌, ==_refl, if◌then◌else◌, arith,
}

-- The address of an element: its buffer and its place. Buffers are numbered as they are allocated.
pub record Address : Type 0 where
  pub in_buffer : ℕ
  pub place : ℕ

module _ (H : Type 0) where
  -- `std::vector`: the buffer that it owns, how many elements this one holds, and the elements
  pub record Vector : Type 0 where
    pub buffer : ℕ
    pub capacity : ℕ
    pub items : List H

module _ {H : Type 0} where
  -- the capacity that the standard library gives to a vector that is full: a parameter
  module _ (grow : ℕ → ℕ) where
    unfoldable pub push_back : H → Vector H → Vector H
    push_back h v =
        let more = v.items ++ h ∷ [] in
        if ltb (length v.items) v.capacity
        then record v { items = more }
        else record { buffer = v.buffer + 1; capacity = grow v.capacity; items = more }

    -- on_lifecycle: the address that the subscription keeps, and the vector afterwards
    unfoldable pub on_lifecycle : H → Vector H → Address × Vector H
    unfolding push_back
    on_lifecycle h v =
        let v' = push_back h v in (record { in_buffer = v'.buffer; place = length v.items }, v')

  -- the elements that do not stand at the place `n`, where the first one stands at `i`
  unfoldable pub remove_at : ℕ → ℕ → List H → List H
  remove_at n i [] = []
  remove_at n i (h ∷ hs) = let rest = remove_at n (i + 1) hs in if i == n then rest else h ∷ rest

  -- the cancel of a subscription: the element at its address is erased, if one stands there
  unfoldable pub cancel : Address → Vector H → Vector H
  unfolding remove_at
  cancel a v =
      if v.buffer == a.in_buffer then record v { items = remove_at a.place 0 v.items } else v

module _ {H : Type 0} where
  remove_at-before : (n i : ℕ) (xs : List H) → n < i → remove_at n i xs ≡ xs
  unfolding remove_at
  remove_at-before n i [] l = refl
  remove_at-before n i (x ∷ xs) l = ground (arith, remove_at-before n (i + 1) xs)

  remove_at-length :
      (n : ℕ) (xs : List H) (i : ℕ) (h : H) (ys : List H)
      → n ≡ i + length xs
      → remove_at n i (xs ++ h ∷ ys) ≡ xs ++ ys
  unfolding remove_at
  remove_at-length n [] i h ys e = ground (arith, remove_at-before n (i + 1) ys)
  remove_at-length n (x ∷ xs) i h ys e = ground (arith, remove_at-length n xs (i + 1) h ys)

  cancel-same :
      (n : ℕ) (v : Vector H)
      → cancel (record { in_buffer = v.buffer; place = n }) v
        ≡ record v { items = remove_at n 0 v.items }
  unfolding cancel
  cancel-same n v = rw (==_refl v.buffer) refl

  cancel-other : (a : Address) (v : Vector H) → v.buffer ≢ a.in_buffer → cancel a v ≡ v
  unfolding cancel
  cancel-other a v n =
      let other : (v.buffer == a.in_buffer) ≡ false = ground (arith, n) in rw other refl

  first_gone :
      (xs : List H) (a b c : H)
      → remove_at (length xs) 0 (((xs ++ a ∷ []) ++ b ∷ []) ++ c ∷ []) ≡ xs ++ b ∷ c ∷ []
  first_gone xs a b c =
      rw (append_assoc (xs ++ a ∷ []) (b ∷ []) (c ∷ []), append_assoc xs (a ∷ []) (b ∷ c ∷ []))
        (remove_at-length (length xs) xs 0 a (b ∷ c ∷ []) (omega arith))

  second_gone :
      (xs : List H) (a b c : H)
      → remove_at (length (xs ++ a ∷ [])) 0 (xs ++ b ∷ c ∷ []) ≡ xs ++ b ∷ []
  second_gone xs a b c =
      let lengths : length (xs ++ a ∷ []) ≡ 0 + length (xs ++ b ∷ []) =
        rw (length-append xs (a ∷ []), length-append xs (b ∷ [])) (omega arith) in
      rw⁻¹ (append_assoc xs (b ∷ []) (c ∷ [])) (
        remove_at-length (length (xs ++ a ∷ [])) (xs ++ b ∷ []) 0 c [] lengths
        ∙ append-nil (xs ++ b ∷ []))

  module _ (grow : ℕ → ℕ) where
    on_lifecycle-fits :
        (h : H) (v : Vector H)
        → length v.items < v.capacity
        → on_lifecycle grow h v ≡ (
          record { in_buffer = v.buffer; place = length v.items },
          record v { items = v.items ++ h ∷ [] },
        )
    unfolding on_lifecycle push_back
    on_lifecycle-fits h v l =
        let fits : ltb (length v.items) v.capacity ≡ true = ground (arith, l) in rw fits refl

    -- a vector without room moves its elements to a new buffer
    on_lifecycle-moves :
        (h : H) (v : Vector H)
        → length v.items ≡ v.capacity
        → (on_lifecycle grow h v).1.buffer ≡ v.buffer + 1
    unfolding on_lifecycle push_back
    on_lifecycle-moves h v e =
        let full : ltb (length v.items) v.capacity ≡ false = ground (arith, e) in rw full refl

    -- Where one more handler fills the vector, the cancel of its subscription after the next one was
    -- made removes nothing: the elements have moved to another buffer.
    pub cancel_stale :
        (a b : H) (v : Vector H)
        → length v.items + 1 ≡ v.capacity
        → let (address_a, with_a) = on_lifecycle grow a v in
          let (address_b, with_b) = on_lifecycle grow b with_a in cancel address_a with_b ≡ with_b
    cancel_stale a b v last =
        let with_a : Vector H = record v { items = v.items ++ a ∷ [] } in
        let full : length with_a.items ≡ v.capacity = length-append v.items (a ∷ []) ∙ last in
        rw (on_lifecycle-fits a v (omega arith)) (
          cancel-other (record { in_buffer = v.buffer; place = length v.items })
            (on_lifecycle grow b with_a).1 (omega (arith, on_lifecycle-moves b with_a full)))

    -- Where the vector has room for three handlers more, and a, b and c subscribe in this order:
    -- when the subscriptions of a and then of b are cancelled, it is c that is gone and b that stays.
    pub cancel_shifts :
        (a b c : H) (v : Vector H)
        → length v.items + 3 ≤ v.capacity
        → let (address_a, with_a) = on_lifecycle grow a v in
          let (address_b, with_b) = on_lifecycle grow b with_a in
          let (address_c, with_c) = on_lifecycle grow c with_b in
          (cancel address_b (cancel address_a with_c)).items ≡ v.items ++ b ∷ []
    cancel_shifts a b c v room =
        let with_a : Vector H = record v { items = v.items ++ a ∷ [] } in
        let with_b : Vector H = record v { items = (v.items ++ a ∷ []) ++ b ∷ [] } in
        let room_b : length with_a.items < v.capacity =
          rw (length-append v.items (a ∷ [])) (omega arith) in
        let room_c : length with_b.items < v.capacity =
          rw (length-append (v.items ++ a ∷ []) (b ∷ []), length-append v.items (a ∷ []))
            (omega arith) in
        rw
          (
            on_lifecycle-fits a v (omega arith),
            on_lifecycle-fits b with_a room_b,
            on_lifecycle-fits c with_b room_c,
            cancel-same (length v.items) (record v { items = with_b.items ++ c ∷ [] }),
            first_gone v.items a b c,
            cancel-same (length (v.items ++ a ∷ [])) (record v { items = v.items ++ b ∷ c ∷ [] }),
          )
          (second_gone v.items a b c)
