-- ===== src/Framing/Slices.antt =====
-- Slices of a buffer: what `take` and `drop` give of joined and overwritten lists.
use Prim.Native.Nat.add
use copilot_cpp.Prelude.{
  ℕ, zero, suc, ◌+◌, ◌-◌, ◌≤◌, ◌<◌, ◌≡◌, refl, ap, sym, List, [], ◌∷◌, ◌++◌, append_assoc,
  length-append, length, take, drop, get_or, arith,
}

module _ {ℓ} {A : Type ℓ} where
  take_nil : (n : ℕ) → take {A = A} n [] ≡ []
  take_nil zero = refl
  take_nil (suc n) = refl

  pub take-append_self : (xs ys : List A) → take (length xs) (xs ++ ys) ≡ xs
  take-append_self [] ys = refl
  take-append_self (x ∷ xs) ys = ap (◌∷◌ x) (take-append_self xs ys)

  pub take-append_at : (n : ℕ) (xs ys : List A) → n ≡ length xs → take n (xs ++ ys) ≡ xs
  take-append_at n xs ys e = rw e (take-append_self xs ys)

  pub empty_of_length : (xs : List A) → length xs ≡ 0 → xs ≡ []
  empty_of_length [] h = refl
  empty_of_length (x ∷ xs) h = absurd (omega arith)

  pub take_none : (n : ℕ) (xs : List A) → n ≡ 0 → take n xs ≡ []
  take_none n xs e = rw e refl

  pub take-append_le : (n : ℕ) (xs ys : List A) → n ≤ length xs → take n (xs ++ ys) ≡ take n xs
  take-append_le zero xs ys h = refl
  take-append_le (suc n) [] ys h = absurd (omega arith)
  take-append_le (suc n) (x ∷ xs) ys h = ap (◌∷◌ x) (take-append_le n xs ys (omega arith))

  -- A slice that lies within the first part.
  pub slice-append :
      (n p : ℕ) (xs ys : List A)
      → p + n ≤ length xs
      → take n (drop p (xs ++ ys)) ≡ take n (drop p xs)
  slice-append n zero xs ys h = take-append_le n xs ys (omega arith)
  slice-append n (suc p) [] ys h = absurd (omega arith)
  slice-append n (suc p) (x ∷ xs) ys h = slice-append n p xs ys (omega arith)

  -- A slice that ends with the second part.
  pub slice-append_end :
      (n p : ℕ) (xs ys zs : List A)
      → p ≤ length xs
      → p + n ≡ length xs + length ys
      → take n (drop p (xs ++ (ys ++ zs))) ≡ drop p xs ++ ys
  slice-append_end n zero xs ys zs h e =
      rw (← append_assoc) (take-append_at n (xs ++ ys) zs (omega (arith, length-append xs ys)))
  slice-append_end n (suc p) [] ys zs h e = absurd (omega arith)
  slice-append_end n (suc p) (x ∷ xs) ys zs h e =
      slice-append_end n p xs ys zs (omega arith) (omega arith)

  pub take-append_add : (xs ys : List A) (n : ℕ) → take (length xs + n) (xs ++ ys) ≡ xs ++ take n ys
  take-append_add [] ys n = rw add.zero
  take-append_add (x ∷ xs) ys n = rw add.suc (ap (◌∷◌ x) (take-append_add xs ys n))

  pub drop-append_add : (xs ys : List A) (n : ℕ) → drop (length xs + n) (xs ++ ys) ≡ drop n ys
  drop-append_add [] ys n = rw add.zero
  drop-append_add (x ∷ xs) ys n = rw add.suc (drop-append_add xs ys n)

  pub drop-append_self : (xs ys : List A) → drop (length xs) (xs ++ ys) ≡ ys
  drop-append_self [] ys = refl
  drop-append_self (x ∷ xs) ys = drop-append_self xs ys

  pub drop-append_le :
      (n : ℕ) (xs ys : List A) → n ≤ length xs → drop n (xs ++ ys) ≡ drop n xs ++ ys
  drop-append_le zero xs ys h = refl
  drop-append_le (suc n) [] ys h = absurd (omega arith)
  drop-append_le (suc n) (x ∷ xs) ys h = drop-append_le n xs ys (omega arith)

  pub drop-take : (p n : ℕ) (xs : List A) → drop p (take (p + n) xs) ≡ take n (drop p xs)
  drop-take zero n xs = rw add.zero
  drop-take (suc p) n [] = rw add.suc (sym (take_nil n))
  drop-take (suc p) n (x ∷ xs) = rw add.suc (drop-take p n xs)

  pub drop-take_le : (p l : ℕ) (xs : List A) → p ≤ l → drop p (take l xs) ≡ take (l - p) (drop p xs)
  drop-take_le p l xs h = let e : p + (l - p) ≡ l = omega arith in rw e at (drop-take p (l - p) xs)

  pub take_all : (n : ℕ) (xs : List A) → length xs ≤ n → take n xs ≡ xs
  take_all zero [] h = refl
  take_all zero (x ∷ xs) h = absurd (omega arith)
  take_all (suc n) [] h = refl
  take_all (suc n) (x ∷ xs) h = ap (◌∷◌ x) (take_all n xs (omega arith))

  pub drop_all : (n : ℕ) (xs : List A) → length xs ≤ n → drop n xs ≡ []
  drop_all zero [] h = refl
  drop_all zero (x ∷ xs) h = absurd (omega arith)
  drop_all (suc n) [] h = refl
  drop_all (suc n) (x ∷ xs) h = drop_all n xs (omega arith)

  -- The first element of a slice that is not empty.
  pub take-drop_cons :
      (n p : ℕ) (xs : List A) (d : A)
      → p < length xs
      → take (suc n) (drop p xs) ≡ get_or xs p d ∷ take n (drop (suc p) xs)
  take-drop_cons n p [] d h = absurd (omega arith)
  take-drop_cons n zero (x ∷ xs) d h = refl
  take-drop_cons n (suc p) (x ∷ xs) d h = take-drop_cons n p xs d (omega arith)
