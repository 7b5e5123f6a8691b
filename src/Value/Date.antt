-- ===== src/Value/Date.antt =====
-- crates/refix-message/src/value/date.rs: dates.
--
-- Where the source subtracts on `i64` what cannot pass 0, the model subtracts on ℕ.
pub mod Days
pub mod RoundTrip
pub mod Years
pub mod Months
use refix.Base.{
  ℕ, ◌+◌, ◌-◌, ◌*◌, ◌/◌, ◌%◌, Bool, not, ◌&&◌, ◌||◌, Option, none, some, ltb, leb, ◌==◌,
  if◌then◌else◌, length, Bytes, slice,
}
use refix.Base.Digits.{checked}
use refix.Base.Maybe.{◌>>=◌}
use refix.Base.Int.{ℤ, pos, diff, ◌+ℤ◌, negate, scale, div_euclid, rem_euclid, checked_i64, as_u16}
use refix.Value.{number, u16_max, u8_max}

pub record Date : Type 0 where
  pub year : ℕ
  pub month : ℕ
  pub day : ℕ

unfoldable pub is_leap_year : ℕ → Bool
is_leap_year year = (year % 4 == 0) && (not (year % 100 == 0) || (year % 400 == 0))

-- The number of days in `month` of `year`.
unfoldable pub days_in_month : ℕ → ℕ → ℕ
unfolding is_leap_year
days_in_month year month =
    if (month == 2) && is_leap_year year
    then 29
    else if month == 2
    then 28
    else if (month == 4) || (month == 6) || (month == 9) || (month == 11)
    then 30
    else 31

-- The test of `Date::new`.
unfoldable pub is_date : ℕ → ℕ → ℕ → Bool
unfolding days_in_month
is_date year month day =
    leb year 9999 && leb 1 month && leb month 12 && leb 1 day && leb day (days_in_month year month)

-- `Date::new`
unfoldable pub new_date : ℕ → ℕ → ℕ → Option Date
unfolding is_date
new_date year month day =
    if is_date year month day then some (record { year = year; month = month; day = day }) else none

-- `Date::parse`
unfoldable pub parse_date : Bytes → Option Date
parse_date text =
    if not (length text == 8)
    then none
    else (number (slice text 0 4) >>= λ y. checked u16_max y >>= λ year.
        number (slice text 4 6) >>= λ m. checked u8_max m >>= λ month.
        number (slice text 6 8) >>= λ d. checked u8_max d >>= λ day. new_date year month day)

-- The year that starts in March.
abbrev pub shifted_year : Date → ℤ
shifted_year d = if leb d.month 2 then diff d.year 1 else pos d.year

unfoldable pub day_of_year : Date → ℕ
day_of_year d = (153 * ((d.month + 9) % 12) + 2) / 5 + d.day - 1

-- The days of the whole years of an era before `year_of_era`.
abbrev pub days_before : ℕ → ℕ
days_before year_of_era = year_of_era * 365 + year_of_era / 4 - year_of_era / 100

unfoldable pub days_since_epoch : Date → ℤ
unfolding day_of_year diff rem_euclid div_euclid scale ◌+ℤ◌
days_since_epoch d =
    let era = div_euclid (shifted_year d) 400 in
    let year_of_era = rem_euclid (shifted_year d) 400 in
    let day_of_era = days_before year_of_era + day_of_year d in
    (scale era 146097 +ℤ pos day_of_era) +ℤ negate 719468

unfoldable pub year_of_day : ℕ → ℕ
year_of_day day_of_era =
    (day_of_era - day_of_era / 1460 + day_of_era / 36524 - day_of_era / 146096) / 365

-- The date in an era, counted from March.
unfoldable pub civil : ℤ → ℕ → Option Date
civil era day_of_era =
    let year_of_era = year_of_day day_of_era in
    let day_of_year = day_of_era - days_before year_of_era in
    let month_from_march = (5 * day_of_year + 2) / 153 in
    let day = day_of_year - (153 * month_from_march + 2) / 5 + 1 in
    let month = if ltb month_from_march 10 then month_from_march + 3 else month_from_march - 9 in
    let year = scale era 400 +ℤ pos year_of_era +ℤ pos (if leb month 2 then 1 else 0) in
    as_u16 year >>= λ y. checked u8_max month >>= λ m. checked u8_max day >>= λ d. new_date y m d

unfoldable pub from_days_since_epoch : ℤ → Option Date
unfolding civil
from_days_since_epoch days = do
  shifted ← checked_i64 (days +ℤ pos 719468)
  civil (div_euclid shifted 146097) (rem_euclid shifted 146097)
