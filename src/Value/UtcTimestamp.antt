-- ===== src/Value/UtcTimestamp.antt =====
-- crates/refix-message/src/value/utc_timestamp.rs: instants as nanoseconds since the Unix epoch.
pub mod RoundTrip
use refix.Base.{ℕ, Option, none, some, [], ◌∷◌, ◌==◌, if◌then◌else◌, Bytes}
use refix.Base.Maybe.{◌>>=◌}
use refix.Base.Int.{ℤ, pos, ◌+ℤ◌, scale, div_euclid, rem_euclid, checked_i64}
use refix.Value.{split_at}
use refix.Value.Date.{Date, parse_date, days_since_epoch, from_days_since_epoch}
use refix.Value.Time.{TimePrecision, Time, new_time, parse_time}

abbrev pub nanos_per_day : ℕ
nanos_per_day = 86400000000000

pub record UtcTimestamp : Type 0 where
  pub unix_nanos : ℤ
  pub precision : TimePrecision

-- `UtcTimestamp::date`; `none` is the panic of `expect`.
abbrev pub date_of : UtcTimestamp → Option Date
date_of t = from_days_since_epoch (div_euclid t.unix_nanos nanos_per_day)

-- `UtcTimestamp::time`; `none` is the panic of `expect`.
abbrev pub time_of : UtcTimestamp → Option Time
time_of t = new_time (rem_euclid t.unix_nanos nanos_per_day) t.precision

-- `strip_prefix` of one byte.
unfoldable pub strip_byte : ℕ → Bytes → Option Bytes
strip_byte b [] = none
strip_byte b (c ∷ bytes) = if c == b then some bytes else none

-- The instant of a date and a time, if an `i64` holds it.
unfoldable pub timestamp_at : Date → Time → Option UtcTimestamp
timestamp_at date time =
    checked_i64 (scale (days_since_epoch date) nanos_per_day +ℤ pos time.nanos_since_midnight)
    >>= λ nanos. some (record { unix_nanos = nanos; precision = time.precision })

-- `UtcTimestamp::parse`
unfoldable pub parse_utc_timestamp : Bytes → Option UtcTimestamp
unfolding timestamp_at
parse_utc_timestamp text = do
  (day, rest) ← split_at 8 text
  date ← parse_date day
  clock ← strip_byte b'-' rest
  time ← parse_time clock
  timestamp_at date time
