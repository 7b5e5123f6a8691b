-- ===== src/Value/Time.antt =====
-- crates/refix-message/src/value/time.rs and time_precision.rs: times of day.
use refix.Base.{
  ℕ, ◌+◌, ◌-◌, ◌*◌, ◌^◌, not, ◌&&◌, ◌||◌, Option, none, some, [], ◌∷◌, ltb, leb, ◌==◌,
  if◌then◌else◌, length, Bytes, slice, byte_at,
}
use refix.Base.Digits.{checked}
use refix.Base.Maybe.{◌>>=◌}
use refix.Value.{number, u8_max, split_at}

-- How finely a time is written, as its count of fraction digits.
pub record TimePrecision : Type 0 where
  pub fraction_digits : ℕ

abbrev pub seconds_precision : TimePrecision
seconds_precision = record { fraction_digits = 0 }

unfoldable pub from_fraction_digits : ℕ → Option TimePrecision
from_fraction_digits count = if leb count 9 then some (record { fraction_digits = count }) else none

abbrev pub unit_nanos : TimePrecision → ℕ
unit_nanos p = 10 ^ (9 - p.fraction_digits)

pub record Time : Type 0 where
  pub nanos_since_midnight : ℕ
  pub precision : TimePrecision

-- `Time::new`, on a number of nanoseconds that is not negative.
unfoldable pub new_time : ℕ → TimePrecision → Option Time
new_time nanos precision =
    if ltb nanos 86401000000000
    then some (record { nanos_since_midnight = nanos; precision = precision })
    else none

-- The match on what is behind the seconds: the precision, and the fraction in its unit.
unfoldable pub parse_fraction : Bytes → Option (TimePrecision × ℕ)
unfolding from_fraction_digits
parse_fraction [] = some (seconds_precision, 0)
parse_fraction (b ∷ digits) =
    if (b == b'.') && not (leb (length digits) 0)
    then (checked u8_max (length digits) >>= λ count. from_fraction_digits count >>= λ precision.
        number digits >>= λ fraction. some (precision, fraction))
    else none

-- The hour, minute and second in eight bytes, as seconds.
unfoldable pub parse_clock : Bytes → Option ℕ
parse_clock time =
    if not (byte_at time 2 == b':') || not (byte_at time 5 == b':')
    then none
    else (number (slice time 0 2) >>= λ hour. number (slice time 3 5) >>= λ minute.
        number (slice time 6 8) >>= λ second.
        if ltb 23 hour || ltb 59 minute || ltb 60 second
        then none
        else some (hour * 3600 + minute * 60 + second))

-- `Time::parse`
unfoldable pub parse_time : Bytes → Option Time
unfolding parse_clock parse_fraction new_time
parse_time text = do
  (time, rest) ← split_at 8 text
  seconds ← parse_clock time
  (precision, fraction) ← parse_fraction rest
  new_time (seconds * 1000000000 + fraction * unit_nanos precision) precision
