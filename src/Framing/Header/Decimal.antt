-- ===== src/Framing/Header/Decimal.antt =====
-- transport.hpp: the length in a header, printed by `std::to_string` and read by `std::stoull`.
use mathlib.Core.WellFounded.{Acc}
use mathlib.Core.Logic.{dif_pos, dif_neg}
use native.Mathlib.Bridge.{le_prop}
use native.Mathlib.Decide.{dec_lt}
use copilot_cpp.Prelude.{
  ℕ, ◌+◌, ◌-◌, ◌*◌, ◌/◌, ◌%◌, ◌^◌, ◌<◌, ◌≤◌, ◌≡◌, refl, ◌∙◌, true, some, [], ◌∷◌, All, ltb, arith,
}
use copilot_cpp.Prelude.Order.{lt_wf}
use copilot_cpp.Prelude.Text.{Bytes}
use copilot_cpp.Framing.Header.{
  is_digit, trim, skip_spaces, digits_value, unsigned_value, signed_value, stoull, to_digits,
  to_string,
}

abbrev pub IsDigits : Bytes → Type 0
IsDigits = All (λ c. (48 ≤ c) × (c ≤ 57))

is_digit_lem : (d : ℕ) → d < 10 → is_digit (48 + d) ≡ true
unfolding is_digit
is_digit_lem d h = ground arith

-- One more digit is read.
digits_value_digit :
    (n d : ℕ) (s : Bytes) → d < 10 → digits_value n ((48 + d) ∷ s) ≡ digits_value (n * 10 + d) s
unfolding digits_value
digits_value_digit n d s h = let e : 48 + d - 48 ≡ d = omega arith in rw (is_digit_lem d h, e)

last_digit : (n : ℕ) → ¬ (0 < n / 10) → 0 * 10 + n % 10 ≡ n
last_digit n h = omega arith

-- Reading what was printed in front of other text goes on with the number printed.
digits_value-to_digits :
    (n : ℕ) (w : Acc ◌<◌ n) (s : Bytes) → digits_value 0 (to_digits n w s) ≡ digits_value n s
unfolding to_digits
digits_value-to_digits n (Acc.intro _ smaller) s = elim (dec_lt 0 (n / 10)) [
  | yes p ↦ rw (dif_pos _ le_prop p) (
      digits_value-to_digits (n / 10) (smaller (n / 10) (omega arith)) ((48 + n % 10) ∷ s)
      ∙ rw (digits_value_digit (n / 10) (n % 10) s (omega arith))
          (let e : n / 10 * 10 + n % 10 ≡ n = omega arith in rw e))
  | no p ↦
      rw (dif_neg _ p, digits_value_digit 0 (n % 10) s (omega arith))
        (let e : 0 * 10 + n % 10 ≡ n = last_digit n p in rw e)
]

IsDigits-to_digits : (n : ℕ) (w : Acc ◌<◌ n) (s : Bytes) → IsDigits s → IsDigits (to_digits n w s)
unfolding to_digits
IsDigits-to_digits n (Acc.intro _ smaller) s h = elim (dec_lt 0 (n / 10)) [
  | yes p ↦ rw (dif_pos _ le_prop p) (
      IsDigits-to_digits (n / 10) (smaller (n / 10) (omega arith)) ((48 + n % 10) ∷ s)
        (omega arith, h))
  | no p ↦ rw (dif_neg _ p) (omega arith, h)
]

pub to_string-IsDigits : (n : ℕ) → IsDigits (to_string n)
unfolding to_string
to_string-IsDigits n = IsDigits-to_digits n (lt_wf.apply n) [] tt

-- A printed number is a digit and more.
pub data Digits (s : Bytes) : Type 0 where
  digits : (c : ℕ) (t : Bytes) → s ≡ c ∷ t → 48 ≤ c → c ≤ 57 → Digits s

to_digits-Digits : (n : ℕ) (w : Acc ◌<◌ n) (s : Bytes) → Digits (to_digits n w s)
unfolding to_digits
to_digits-Digits n (Acc.intro _ smaller) s = elim (dec_lt 0 (n / 10)) [
  | yes p ↦
      rw (dif_pos _ le_prop p)
        (to_digits-Digits (n / 10) (smaller (n / 10) (omega arith)) ((48 + n % 10) ∷ s))
  | no p ↦ rw (dif_neg _ p) (digits (48 + n % 10) s refl (omega arith) (omega arith))
]

trim_digit : (c : ℕ) (t : Bytes) → 48 ≤ c → trim (32 ∷ c ∷ t) ≡ c ∷ t
unfolding trim
trim_digit c t l = ground arith

pub is_digit_of : (c : ℕ) → 48 ≤ c → c ≤ 57 → is_digit c ≡ true
unfolding is_digit
is_digit_of c l h = ground arith

stoull_digit : (c : ℕ) (t : Bytes) → 48 ≤ c → c ≤ 57 → stoull (c ∷ t) ≡ unsigned_value (c ∷ t)
unfolding skip_spaces signed_value stoull
stoull_digit c t l h = ground arith

unsigned_value-digits :
    (c : ℕ) (t : Bytes)
    → 48 ≤ c
    → c ≤ 57
    → digits_value 0 (c ∷ t) < 2 ^ 64
    → unsigned_value (c ∷ t) ≡ some (digits_value 0 (c ∷ t))
unfolding unsigned_value
unsigned_value-digits c t l h lt =
    let e : ltb (digits_value 0 (c ∷ t)) (2 ^ 64) ≡ true = ground arith in
    rw (is_digit_of c l h) (ground arith)

printed_value :
    (n : ℕ) (s : Bytes)
    → n < 2 ^ 64
    → digits_value 0 s ≡ n
    → Digits s
    → stoull (trim (32 ∷ s)) ≡ some n
printed_value n s h e (digits c t p l u) =
    let v : digits_value 0 (c ∷ t) ≡ n = rw (← p) e in
    rw (p, trim_digit c t l, stoull_digit c t l u, unsigned_value-digits c t l u (omega arith), v)

-- A header value of one blank and a printed number is read as that number.
pub stoull-to_string : (n : ℕ) → n < 2 ^ 64 → stoull (trim (32 ∷ to_string n)) ≡ some n
unfolding to_string digits_value
stoull-to_string n h =
    printed_value n (to_string n) h (digits_value-to_digits n (lt_wf.apply n) [])
      (to_digits-Digits n (lt_wf.apply n) [])

pub digits_value-to_string : (n : ℕ) → digits_value 0 (to_string n) ≡ n
unfolding to_string digits_value
digits_value-to_string n = digits_value-to_digits n (lt_wf.apply n) []

pub to_string-Digits : (n : ℕ) → Digits (to_string n)
unfolding to_string
to_string-Digits n = to_digits-Digits n (lt_wf.apply n) []
