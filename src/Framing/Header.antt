-- ===== src/Framing/Header.antt =====
-- transport.hpp, the header line of `MessageFramer::read_message` and `write_message`, with the
-- parts of the C++ standard library that they use on bytes.
pub mod Decimal
use mathlib.Core.WellFounded.{Acc}
use mathlib.Core.Logic.{dite}
use native.Mathlib.Decide.{dec_lt}
use copilot_cpp.Prelude.{
  ℕ, ◌+◌, ◌-◌, ◌*◌, ◌/◌, ◌%◌, ◌^◌, ◌<◌, Bool, true, false, ◌&&◌, ◌||◌, Option, none, some, [], ◌∷◌,
  ◌++◌, map, length, take, ltb, leb, ◌==◌, if◌then◌else◌, arith,
}
use copilot_cpp.Prelude.Order.{lt_wf}
use copilot_cpp.Prelude.Text.{Bytes, codes}

-- `==` of two byte strings
pub equal_bytes : Bytes → Bytes → Bool
equal_bytes [] [] = true
equal_bytes [] (y ∷ ys) = false
equal_bytes (x ∷ xs) [] = false
equal_bytes (x ∷ xs) (y ∷ ys) = x == y && equal_bytes xs ys

-- `std::tolower` in the C locale
pub to_lower : ℕ → ℕ
to_lower c = if leb b'A' c && leb c b'Z' then c + 32 else c

-- `std::isspace` in the C locale: space and \t \n \v \f \r
pub is_space : ℕ → Bool
is_space c = c == 32 || (leb 9 c && leb c 13)

-- `std::isdigit`
unfoldable pub is_digit : ℕ → Bool
is_digit c = leb b'0' c && leb c b'9'

abbrev pub prefix : Bytes
prefix = codes "content-length:"

-- `lower_line.compare(0, prefix.size(), prefix) == 0`
unfoldable pub is_content_length : Bytes → Bool
unfolding equal_bytes to_lower
is_content_length line = equal_bytes (take (length prefix) (map to_lower line)) prefix

-- `find_first_not_of(" \t")` and `substr`: a value of blanks alone stays as it is
pub skip_blanks : Bytes → Option Bytes
skip_blanks [] = none
skip_blanks (c ∷ s) = if c == 32 || c == 9 then skip_blanks s else some (c ∷ s)

pub trim : Bytes → Bytes
unfolding skip_blanks
trim s = elim (skip_blanks s) [ none ↦ s | some t ↦ t ]

-- `std::stoull`: white space, a sign, digits, and anything after them
pub skip_spaces : Bytes → Bytes
unfolding is_space
skip_spaces [] = []
skip_spaces (c ∷ s) = if is_space c then skip_spaces s else c ∷ s

pub digits_value : ℕ → Bytes → ℕ
unfolding is_digit
digits_value n [] = n
digits_value n (c ∷ s) =
    let rest = digits_value (n * 10 + (c - b'0')) s in if is_digit c then rest else n

-- no digits: `std::invalid_argument`; more than 64 bits: `std::out_of_range`
pub unsigned_value : Bytes → Option ℕ
unfolding digits_value
unsigned_value [] = none
unsigned_value (c ∷ s) =
    let n = digits_value 0 (c ∷ s) in
    if is_digit c then (if ltb n (2 ^ 64) then some n else none) else none

-- a minus sign negates in the unsigned type
pub negated : Option ℕ → Option ℕ
negated none = none
negated (some n) = some ((2 ^ 64 - n) % 2 ^ 64)

pub signed_value : Bytes → Option ℕ
unfolding unsigned_value negated
signed_value [] = none
signed_value (c ∷ s) =
    if c == b'-'
    then negated (unsigned_value s)
    else if c == b'+'
    then unsigned_value s
    else unsigned_value (c ∷ s)

pub stoull : Bytes → Option ℕ
unfolding skip_spaces signed_value
stoull s = signed_value (skip_spaces s)

-- `std::to_string` of an unsigned number
pub to_digits : (n : ℕ) → Acc ◌<◌ n → Bytes → Bytes
to_digits n (Acc.intro _ smaller) out =
    dite (dec_lt 0 (n / 10))
      (λ h. to_digits (n / 10) (smaller (n / 10) (omega arith)) ((b'0' + n % 10) ∷ out))
      (λ _. (b'0' + n % 10) ∷ out)

pub to_string : ℕ → Bytes
unfolding to_digits lt_wf dec_lt
to_string n = to_digits n (lt_wf.apply n) []

-- `MessageFramer::write_message`: the frame that is handed to `transport_.write`
unfoldable pub frame : Bytes → Bytes
unfolding to_string
frame message =
    codes "Content-Length: " ++ to_string (length message) ++ 13 ∷ 10 ∷ 13 ∷ 10 ∷ message
