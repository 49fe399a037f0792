-- ===== src/Timestamp/RoundTrip.antt =====
-- include/copilot/types.hpp: a timestamp that is written out and parsed.
use copilot_cpp.Prelude.{
  ℕ, zero, suc, ◌+◌, ◌-◌, ◌*◌, ◌/◌, ◌%◌, ◌<◌, ◌≤◌, ◌≡◌, refl, ap, ◌∙◌, true, false, Option, none,
  some, [], ◌∷◌, get_or, get_elem?, length, ◌==◌, ltb, leb, arith,
}
use copilot_cpp.Prelude.Text.{Bytes}
use copilot_cpp.Prelude.Int.{ℤ, pos, negsuc}
use copilot_cpp.Timestamp.{
  is_decimal, parse_digits, parse_fixed_decimal, is_date, parse_date, parse_time, parse_fraction,
  parse_zone, parse_tail, parse_iso8601_timestamp, stamp_of, digits_end, signed, require, ◌>>=◌,
}

decimal : (d : ℕ) → d ≤ 9 → (is_decimal (b'0' + d) ≡ true) × (b'0' + d - b'0' ≡ d)
decimal d h = (ground (arith, h), omega (arith, h))

two_digits : (n : ℕ) → n < 100 → (n / 10 ≤ 9) × (n % 10 ≤ 9) × (n / 10 * 10 + n % 10 ≡ n)
two_digits n h = (omega (arith, h), omega arith, omega arith)

parse_digits-step :
    (s : Bytes) (at len v d : ℕ)
    → d ≤ 9
    → get_or s at 0 ≡ b'0' + d
    → parse_digits s at (suc len) v ≡ parse_digits s (at + 1) len (v * 10 + d)
unfolding parse_digits
parse_digits-step s at len v d h g = rw (g, (decimal d h).0, (decimal d h).1) refl

parse_two :
    (s : Bytes) (at n : ℕ)
    → n < 100
    → ltb (length s) (at + 2) ≡ false
    → get_or s at 0 ≡ b'0' + n / 10
    → get_or s (at + 1) 0 ≡ b'0' + n % 10
    → parse_fixed_decimal s at 2 ≡ some n
unfolding parse_fixed_decimal parse_digits
parse_two s at n h room tens ones =
    let (t, o, e) = two_digits n h in
    rw room (
      parse_digits-step s at 1 0 (n / 10) t tens
      ∙ parse_digits-step s (at + 1) 0 (0 * 10 + n / 10) (n % 10) o ones
      ∙ ap some (omega (arith, e)))

parse_three :
    (s : Bytes) (at n : ℕ)
    → n < 1000
    → ltb (length s) (at + 3) ≡ false
    → get_or s at 0 ≡ b'0' + n / 100
    → get_or s (at + 1) 0 ≡ b'0' + n / 10 % 10
    → get_or s (at + 1 + 1) 0 ≡ b'0' + n % 10
    → parse_fixed_decimal s at 3 ≡ some n
unfolding parse_fixed_decimal parse_digits
parse_three s at n h room a b c = rw room (
    parse_digits-step s at 2 0 (n / 100) (omega (arith, h)) a
    ∙ parse_digits-step s (at + 1) 1 (0 * 10 + n / 100) (n / 10 % 10) (omega arith) b
    ∙ parse_digits-step s (at + 1 + 1) 0 ((0 * 10 + n / 100) * 10 + n / 10 % 10) (n % 10)
        (omega arith) c
    ∙ ap some (omega (arith, h)))

parse_four :
    (s : Bytes) (at n : ℕ)
    → n < 10000
    → ltb (length s) (at + 4) ≡ false
    → get_or s at 0 ≡ b'0' + n / 1000
    → get_or s (at + 1) 0 ≡ b'0' + n / 100 % 10
    → get_or s (at + 1 + 1) 0 ≡ b'0' + n / 10 % 10
    → get_or s (at + 1 + 1 + 1) 0 ≡ b'0' + n % 10
    → parse_fixed_decimal s at 4 ≡ some n
unfolding parse_fixed_decimal parse_digits
parse_four s at n h room a b c d = rw room (
    parse_digits-step s at 3 0 (n / 1000) (omega (arith, h)) a
    ∙ parse_digits-step s (at + 1) 2 (0 * 10 + n / 1000) (n / 100 % 10) (omega arith) b
    ∙ parse_digits-step s (at + 1 + 1) 1 ((0 * 10 + n / 1000) * 10 + n / 100 % 10) (n / 10 % 10)
        (omega arith) c
    ∙ parse_digits-step s (at + 1 + 1 + 1) 0
        (((0 * 10 + n / 1000) * 10 + n / 100 % 10) * 10 + n / 10 % 10) (n % 10) (omega arith) d
    ∙ ap some (omega (arith, h)))

-- A time zone, with its hours and minutes east or west of UTC.
pub data Zone : Type 0 where
  utc : Zone
  east west : ℕ → ℕ → Zone

abbrev minus : ℕ → ℤ
minus zero = pos 0
minus (suc n) = negsuc n

-- the minutes east of UTC
abbrev pub offset_of : Zone → ℤ
offset_of utc = pos 0
offset_of (east hours minutes) = pos (hours * 60 + minutes)
offset_of (west hours minutes) = minus (hours * 60 + minutes)

abbrev pub two : ℕ → Bytes → Bytes
two n rest = (b'0' + n / 10) ∷ (b'0' + n % 10) ∷ rest

abbrev pub three : ℕ → Bytes → Bytes
three n rest = (b'0' + n / 100) ∷ (b'0' + n / 10 % 10) ∷ (b'0' + n % 10) ∷ rest

abbrev pub four : ℕ → Bytes → Bytes
four n rest =
    (b'0' + n / 1000) ∷ (b'0' + n / 100 % 10) ∷ (b'0' + n / 10 % 10) ∷ (b'0' + n % 10) ∷ rest

abbrev pub written_zone : Zone → Bytes → Bytes
written_zone utc rest = b'Z' ∷ rest
written_zone (east hours minutes) rest = b'+' ∷ two hours (b':' ∷ two minutes rest)
written_zone (west hours minutes) rest = b'-' ∷ two hours (b':' ∷ two minutes rest)

-- A date and a time, to the millisecond.
pub record Moment : Type 0 where
  pub year : ℕ
  pub month : ℕ
  pub day : ℕ
  pub hour : ℕ
  pub minute : ℕ
  pub second : ℕ
  pub millisecond : ℕ

-- each field has as many digits as it is written with
pub record IsWritable (m : Moment) : Type 0 where
  pub year : m.year < 10000
  pub month : m.month < 100
  pub day : m.day < 100
  pub hour : m.hour < 100
  pub minute : m.minute < 100
  pub second : m.second < 100
  pub millisecond : m.millisecond < 1000
  pub date : is_date m.year m.month m.day ≡ true

abbrev pub ZoneFits : Zone → Type 0
ZoneFits utc = Unit
ZoneFits (east hours minutes) = (hours < 100) × (minutes < 100)
ZoneFits (west hours minutes) = (hours < 100) × (minutes < 100)

-- `YYYY-MM-DDTHH:MM:SS.mmm` before the zone
abbrev pub written : Moment → Bytes → Bytes
written m rest = four m.year (
    b'-'
    ∷ two m.month (
        b'-'
        ∷ two m.day (
            b'T'
            ∷ two m.hour
                (b':' ∷ two m.minute (b':' ∷ two m.second (b'.' ∷ three m.millisecond rest))))))

enough : (n m : ℕ) → m ≤ n → ltb n m ≡ false
enough n m h = ground (arith, h)

module _ (m : Moment) (w : IsWritable m) (rest : Bytes) where
  date_parsed : parse_date (written m rest) ≡ some (m.year, m.month, m.day)
  unfolding parse_date
  date_parsed =
      let s = written m rest in
      rw
        (
          parse_four s 0 m.year w.year (enough _ _ (omega arith)) refl refl refl refl,
          parse_two s 5 m.month w.month (enough _ _ (omega arith)) refl refl,
          parse_two s 8 m.day w.day (enough _ _ (omega arith)) refl refl,
        )
        refl

  time_parsed : parse_time (written m rest) ≡ some (m.hour, m.minute, m.second)
  unfolding parse_time
  time_parsed =
      let s = written m rest in
      rw
        (
          parse_two s 11 m.hour w.hour (enough _ _ (omega arith)) refl refl,
          parse_two s 14 m.minute w.minute (enough _ _ (omega arith)) refl refl,
          parse_two s 17 m.second w.second (enough _ _ (omega arith)) refl refl,
        )
        refl

too_long : (n m : ℕ) → suc m ≤ n → leb n m ≡ false
too_long n m h = ground (arith, h)

digits_end-step :
    (fuel : ℕ) (s : Bytes) (at d : ℕ)
    → d ≤ 9
    → get_elem? s at ≡ some (b'0' + d)
    → digits_end (suc fuel) s at ≡ digits_end fuel s (at + 1)
unfolding digits_end
digits_end-step fuel s at d h g = rw (g, digits_end, (decimal d h).0) refl

digits_end-stop :
    (fuel : ℕ) (s : Bytes) (at c : ℕ)
    → is_decimal c ≡ false
    → get_elem? s at ≡ some c
    → digits_end (suc fuel) s at ≡ at
unfolding digits_end
digits_end-stop fuel s at c h g = rw (g, digits_end, h) refl

signed-minus : (n : ℕ) → signed true n ≡ minus n
signed-minus zero = refl
signed-minus (suc n) = refl

-- where a zone that starts behind the milliseconds ends
abbrev stop_of : Zone → ℕ
stop_of utc = 24
stop_of (east hours minutes) = 29
stop_of (west hours minutes) = 29

module _ (m : Moment) (w : IsWritable m) where
  fraction_parsed :
      (c : ℕ) (rest : Bytes) (fuel : ℕ)
      → is_decimal c ≡ false
      → length (written m (c ∷ rest)) ≡ suc (suc (suc (suc fuel)))
      → parse_fraction (written m (c ∷ rest)) 19 ≡ some (m.millisecond * 1000000, 23)
  unfolding parse_fraction
  fraction_parsed c rest fuel h e =
      let s = written m (c ∷ rest) in
      let ms = m.millisecond in
      let end : digits_end (length s) s 20 ≡ 23 =
        ap (λ f. digits_end f s 20) e
        ∙ digits_end-step (suc (suc (suc fuel))) s 20 (ms / 100) (omega (arith, w.millisecond)) refl
        ∙ digits_end-step (suc (suc fuel)) s 21 (ms / 10 % 10) (omega arith) refl
        ∙ digits_end-step (suc fuel) s 22 (ms % 10) (omega arith) refl
        ∙ digits_end-stop fuel s 23 c h refl in
      rw (end, parse_three s 20 ms w.millisecond (enough _ _ (omega arith)) refl refl refl) refl

  zone_parsed :
      (z : Zone) (rest : Bytes)
      → ZoneFits z
      → parse_zone (written m (written_zone z rest)) 23 ≡ some (offset_of z, stop_of z)
  unfolding parse_zone
  zone_parsed utc rest fits = rw (too_long (length (written m (b'Z' ∷ rest))) 23 (omega arith)) refl
  zone_parsed (east hours minutes) rest (h, i) =
      let s = written m (written_zone (east hours minutes) rest) in
      rw
        (
          too_long (length s) 23 (omega arith),
          parse_two s 24 hours h (enough _ _ (omega arith)) refl refl,
          parse_two s 27 minutes i (enough _ _ (omega arith)) refl refl,
        )
        refl
  zone_parsed (west hours minutes) rest (h, i) =
      let s = written m (written_zone (west hours minutes) rest) in
      rw
        (
          too_long (length s) 23 (omega arith),
          parse_two s 24 hours h (enough _ _ (omega arith)) refl refl,
          parse_two s 27 minutes i (enough _ _ (omega arith)) refl refl,
        )
        (ap (λ o. some (o, 29)) (signed-minus (hours * 60 + minutes)))

  -- behind a zone, the text must end
  tail_parsed :
      (z : Zone) (rest : Bytes)
      → ZoneFits z
      → parse_tail (written m (written_zone z rest)) ≡ (
          require (stop_of z == length (written m (written_zone z rest))) >>= λ _.
          some (m.millisecond * 1000000, offset_of z))
  unfolding parse_tail
  tail_parsed utc rest fits =
      rw (fraction_parsed b'Z' rest _ refl refl, zone_parsed utc rest fits) refl
  tail_parsed (east hours minutes) rest fits =
      rw
        (
          fraction_parsed b'+' (two hours (b':' ∷ two minutes rest)) _ refl refl,
          zone_parsed (east hours minutes) rest fits,
        )
        refl
  tail_parsed (west hours minutes) rest fits =
      rw
        (
          fraction_parsed b'-' (two hours (b':' ∷ two minutes rest)) _ refl refl,
          zone_parsed (west hours minutes) rest fits,
        )
        refl

  text_parsed :
      (rest : Bytes) (tail : Option (ℕ × ℤ))
      → parse_tail (written m rest) ≡ tail
      → parse_iso8601_timestamp (written m rest)
        ≡ (tail >>= λ t. some (stamp_of (m.year, m.month, m.day) (m.hour, m.minute, m.second) t))
  unfolding parse_iso8601_timestamp
  text_parsed rest tail e =
      let long : leb 19 (length (written m rest)) ≡ true = ground arith in
      rw (long, date_parsed m w rest, time_parsed m w rest, e, w.date) refl

at_end : (z : Zone) (m : Moment) → (stop_of z == length (written m (written_zone z []))) ≡ true
at_end utc m = refl
at_end (east hours minutes) m = refl
at_end (west hours minutes) m = refl

not_at_end :
    (z : Zone) (m : Moment) (c : ℕ) (more : Bytes)
    → (stop_of z == length (written m (written_zone z (c ∷ more)))) ≡ false
not_at_end utc m c more = ground arith
not_at_end (east hours minutes) m c more = ground arith
not_at_end (west hours minutes) m c more = ground arith

-- A timestamp that is written as `YYYY-MM-DDTHH:MM:SS.mmm` with `Z`, `+HH:MM` or `-HH:MM` behind it, of
-- a date of the calendar, is parsed to its fields: the milliseconds as nanoseconds, and the offset in
-- minutes, which is negative for `-`. With any further bytes behind the zone it is refused.
pub parse_iso8601_timestamp-written :
    (m : Moment) (z : Zone) (c : ℕ) (more : Bytes)
    → IsWritable m
    → ZoneFits z
    → (parse_iso8601_timestamp (written m (written_zone z []))
        ≡ some (record {
          year = m.year;
          month = m.month;
          day = m.day;
          hour = m.hour;
          minute = m.minute;
          second = m.second;
          nanoseconds = m.millisecond * 1000000;
          offset = offset_of z;
        }))
      × (parse_iso8601_timestamp (written m (written_zone z (c ∷ more))) ≡ none)
parse_iso8601_timestamp-written m z c more w fits = (
  rw (text_parsed m w (written_zone z []) _ (tail_parsed m w z [] fits), at_end z m) refl,
  rw
      (
        text_parsed m w (written_zone z (c ∷ more)) _ (tail_parsed m w z (c ∷ more) fits),
        not_at_end z m c more,
      )
      refl,
)
