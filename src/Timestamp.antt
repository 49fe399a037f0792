-- ===== src/Timestamp.antt =====
-- include/copilot/types.hpp, namespace detail: ISO 8601 timestamps.
pub mod RoundTrip
use copilot_cpp.Prelude.{
  ℕ, zero, suc, ◌+◌, ◌-◌, ◌*◌, ◌%◌, ◌^◌, Bool, true, false, not, ◌&&◌, ◌||◌, Option, none, some, [],
  ◌∷◌, length, get_or, get_elem?, ltb, leb, ◌==◌, if◌then◌else◌, min,
}
use copilot_cpp.Prelude.Text.{Bytes}
use copilot_cpp.Prelude.Int.{ℤ, pos, negsuc}

infixl 5 ◌>>=◌
abbrev pub ◌>>=◌ {ℓ κ} : {A : Type ℓ} {B : Type κ} → Option A → (A → Option B) → Option B
none >>= f = none
some a >>= f = f a

abbrev pub is_decimal : ℕ → Bool
is_decimal c = leb b'0' c && leb c b'9'

-- parse_fixed_decimal: the loop over `len` digits, behind the check of the length
unfoldable pub parse_digits : Bytes → ℕ → ℕ → ℕ → Option ℕ
parse_digits s at zero v = some v
parse_digits s at (suc len) v =
    let c = get_or s at 0 in
    let more = parse_digits s (at + 1) len (v * 10 + (c - b'0')) in
    if is_decimal c then more else none

unfoldable pub parse_fixed_decimal : Bytes → ℕ → ℕ → Option ℕ
unfolding parse_digits
parse_fixed_decimal s at len =
    let digits = parse_digits s at len 0 in if ltb (length s) (at + len) then none else digits

-- `s[i] == c`
abbrev pub has : Bytes → ℕ → ℕ → Bool
has s i c = elim (get_elem? s i) [ none ↦ false | some d ↦ d == c ]

abbrev pub require : Bool → Option (Unit {0})
require b = if b then some tt else none

-- the end of the run of digits that starts at `at`
unfoldable pub digits_end : ℕ → Bytes → ℕ → ℕ
digits_end zero s at = at
digits_end (suc fuel) s at =
    let next = digits_end fuel s (at + 1) in
    elim (get_elem? s at) [ none ↦ at | some c ↦ (if is_decimal c then next else at) ]

-- the fraction of a second in nanoseconds, and where it ends
unfoldable pub parse_fraction : Bytes → ℕ → Option (ℕ × ℕ)
unfolding parse_fixed_decimal digits_end
parse_fraction s at =
    if has s at b'.'
    then (let start = at + 1 in
        let stop = digits_end (length s) s start in
        let digits = min (stop - start) 9 in
        if stop - start == 0
        then none
        else (parse_fixed_decimal s start digits >>= λ frac. some (frac * 10 ^ (9 - digits), stop)))
    else some (0, at)

-- minutes of a negative or positive offset
abbrev pub signed : Bool → ℕ → ℤ
signed false m = pos m
signed true zero = pos 0
signed true (suc m) = negsuc m

-- the time zone, and where it ends
unfoldable pub parse_zone : Bytes → ℕ → Option (ℤ × ℕ)
unfolding parse_fixed_decimal
parse_zone s at =
    if leb (length s) at
    then some (pos 0, at)
    else if has s at b'Z' || has s at b'z'
    then some (pos 0, at + 1)
    else if has s at b'+' || has s at b'-'
    then (do
      hours ← parse_fixed_decimal s (at + 1) 2
      let next = if has s (at + 3) b':' then at + 4 else at + 3
      minutes ← parse_fixed_decimal s next 2
      some (signed (has s at b'-') (hours * 60 + minutes), next + 2))
    else none

-- The fields of a timestamp; the offset is in minutes.
pub record Stamp : Type 0 where
  pub year : ℕ
  pub month : ℕ
  pub day : ℕ
  pub hour : ℕ
  pub minute : ℕ
  pub second : ℕ
  pub nanoseconds : ℕ
  pub offset : ℤ

-- `std::chrono::year::is_leap`, the last day of a month, and `year_month_day::ok`
abbrev pub is_leap : ℕ → Bool
is_leap y = y % 4 == 0 && (not (y % 100 == 0) || y % 400 == 0)

abbrev pub last_day : ℕ → ℕ → ℕ
last_day y m =
    if m == 2
    then (if is_leap y then 29 else 28)
    else if m == 4 || m == 6 || m == 9 || m == 11
    then 30
    else 31

abbrev pub is_date : ℕ → ℕ → ℕ → Bool
is_date y m d = leb 1 m && leb m 12 && leb 1 d && leb d (last_day y m)

-- parse_iso8601_timestamp: year, month and day
unfoldable pub parse_date : Bytes → Option (ℕ × ℕ × ℕ)
unfolding parse_fixed_decimal
parse_date s = do
  year ← parse_fixed_decimal s 0 4
  _ ← require (has s 4 b'-')
  month ← parse_fixed_decimal s 5 2
  _ ← require (has s 7 b'-')
  day ← parse_fixed_decimal s 8 2
  some (year, month, day)

-- parse_iso8601_timestamp: hour, minute and second
unfoldable pub parse_time : Bytes → Option (ℕ × ℕ × ℕ)
unfolding parse_fixed_decimal
parse_time s = do
  hour ← parse_fixed_decimal s 11 2
  _ ← require (has s 13 b':')
  minute ← parse_fixed_decimal s 14 2
  _ ← require (has s 16 b':')
  second ← parse_fixed_decimal s 17 2
  some (hour, minute, second)

-- parse_iso8601_timestamp: the fraction and the zone, to the end of the text
unfoldable pub parse_tail : Bytes → Option (ℕ × ℤ)
unfolding parse_fraction parse_zone
parse_tail s = do
  (nanoseconds, at) ← parse_fraction s 19
  (offset, stop) ← parse_zone s at
  _ ← require (stop == length s)
  some (nanoseconds, offset)

abbrev pub stamp_of : ℕ × ℕ × ℕ → ℕ × ℕ × ℕ → ℕ × ℤ → Stamp
stamp_of (year, month, day) (hour, minute, second) (nanoseconds, offset) = record {
  year = year;
  month = month;
  day = day;
  hour = hour;
  minute = minute;
  second = second;
  nanoseconds = nanoseconds;
  offset = offset;
}

-- parse_iso8601_timestamp, up to the sum of the fields
unfoldable pub parse_iso8601_timestamp : Bytes → Option Stamp
unfolding parse_date parse_time parse_tail
parse_iso8601_timestamp s = do
  _ ← require (leb 19 (length s))
  date ← parse_date s
  _ ← require (has s 10 b'T' || has s 10 b't' || has s 10 b' ')
  time ← parse_time s
  tail ← parse_tail s
  _ ← require (is_date date.0 date.1 date.2)
  some (stamp_of date time tail)
