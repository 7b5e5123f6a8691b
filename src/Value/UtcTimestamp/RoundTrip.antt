-- ===== src/Value/UtcTimestamp/RoundTrip.antt =====
-- value/utc_timestamp.rs: the date and the time that a timestamp was read from are those that it
-- gives.
use mathlib.Core.Option.{some-injective}
use refix.Base.{ℕ, zero, suc, ◌+◌, ◌-◌, ◌*◌, ◌<◌, ◌≡◌, ap, ◌∙◌, subst, true, some, arith}
use refix.Base.Maybe.{bind-eq-some}
use refix.Base.Int.{ℤ, pos, negsuc, diff, ◌+ℤ◌, negate, scale, div_euclid, rem_euclid, checked_i64}
use refix.Value.Date.{Date, is_date, days_since_epoch, from_days_since_epoch}
use refix.Value.Time.{Time, new_time}
use refix.Value.UtcTimestamp.{nanos_per_day, UtcTimestamp, date_of, time_of, timestamp_at}
use refix.Value.Date.RoundTrip.{from_days-days}

negate_pos : (k : ℕ) → 0 < k → negate k ≡ negsuc (k - 1)
unfolding negate
negate_pos zero h = absurd (omega arith)
negate_pos (suc k) h = ap negsuc (omega arith)

-- The nanoseconds of `days` days before the epoch, and of some of a day.
before_epoch :
    (days n : ℕ)
    → n < 86400000000000
    → scale (negsuc days) 86400000000000 +ℤ pos n ≡ negsuc ((days + 1) * 86400000000000 - n - 1)
unfolding scale ◌+ℤ◌ diff
before_epoch days n h = rw (negate_pos ((days + 1) * 86400000000000) (omega arith)) (ground arith)

day_back :
    (days : ℤ) (n : ℕ)
    → n < 86400000000000
    → (div_euclid (scale days 86400000000000 +ℤ pos n) 86400000000000 ≡ days)
      × (rem_euclid (scale days 86400000000000 +ℤ pos n) 86400000000000 ≡ n)
unfolding div_euclid rem_euclid scale ◌+ℤ◌
day_back (pos days) n h = (ap pos (omega arith), omega arith)
day_back (negsuc days) n h = rw (before_epoch days n h) (ap negsuc (omega arith), omega arith)

checked-eq : (n m : ℤ) → checked_i64 n ≡ some m → m ≡ n
unfolding checked_i64
checked-eq (pos a) m h = ground arith
checked-eq (negsuc a) m h = ground arith

new_time_short :
    (time : Time)
    → time.nanos_since_midnight < 86400000000000
    → new_time time.nanos_since_midnight time.precision ≡ some time
unfolding new_time
new_time_short time h = ground arith

made_at :
    (date : Date) (time : Time) (nanos : ℤ)
    → is_date date.year date.month date.day ≡ true
    → time.nanos_since_midnight < 86400000000000
    → nanos ≡ scale (days_since_epoch date) nanos_per_day +ℤ pos time.nanos_since_midnight
    → (date_of (record { unix_nanos = nanos; precision = time.precision }) ≡ some date)
      × (time_of (record { unix_nanos = nanos; precision = time.precision }) ≡ some time)
made_at date time nanos valid short e =
    let (day, left) = day_back (days_since_epoch date) time.nanos_since_midnight short in
    (
      ap from_days_since_epoch (rw e day) ∙ from_days-days date valid,
      ap (λ n. new_time n time.precision) (rw e left) ∙ new_time_short time short,
    )

-- The timestamp made of a date that exists and a time before the day's leap second, where an `i64`
-- holds it, gives that date and that time back.
pub timestamp_at-date_time :
    (date : Date) (time : Time) (t : UtcTimestamp)
    → is_date date.year date.month date.day ≡ true
    → time.nanos_since_midnight < 86400000000000
    → timestamp_at date time ≡ some t
    → (date_of t ≡ some date) × (time_of t ≡ some time)
unfolding timestamp_at
timestamp_at-date_time date time t valid short h =
    let (nanos, fits, made) =
      bind-eq-some
        (checked_i64 (scale (days_since_epoch date) nanos_per_day +ℤ pos time.nanos_since_midnight))
        _ h in
    let t_is : record { unix_nanos = nanos; precision = time.precision } ≡ t =
      some-injective _ t made in
    subst (λ u. (date_of u ≡ some date) × (time_of u ≡ some time)) t_is
      (made_at date time nanos valid short (checked-eq _ nanos fits))
