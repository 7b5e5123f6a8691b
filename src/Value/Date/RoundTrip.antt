-- ===== src/Value/Date/RoundTrip.antt =====
-- value/date.rs: `from_days_since_epoch` undoes `days_since_epoch`.
use refix.Base.{
  ℕ, ◌+◌, ◌-◌, ◌*◌, ◌/◌, ◌%◌, ◌<◌, ◌≡◌, refl, ap, ◌∙◌, true, some, arith, ltb, leb, if◌then◌else◌,
}
use refix.Base.Digits.{checked}
use refix.Base.Maybe.{◌>>=◌}
use refix.Base.Int.{ℤ, pos, diff, ◌+ℤ◌, negate, scale, as_u16}
use refix.Value.{u8_max}
use refix.Value.Date.{
  Date, is_date, new_date, day_of_year, days_before, days_since_epoch, civil, from_days_since_epoch,
}
use refix.Value.Date.Years.{IsYearDay, year_of_day_lem, day_of_era-lt}
use refix.Value.Date.Months.{
  is_date-IsDate, from_march, days_before_month, month_of_day, days_of_year,
}
use refix.Value.Date.Days.{
  IsShifted, in_era, before_eras, shifted_year-IsShifted, shifted_back, shifted_back_before,
}

-- What `civil` makes of an era, the year of it and the day of that year.
civil_year :
    (era : ℤ) (year_of_era day : ℕ)
    → year_of_era < 400
    → IsYearDay year_of_era day
    → civil era (days_before year_of_era + day) ≡ (
        let mp = (5 * day + 2) / 153 in
        let month = if ltb mp 10 then mp + 3 else mp - 9 in
        as_u16 (scale era 400 +ℤ pos year_of_era +ℤ pos (if leb month 2 then 1 else 0)) >>= λ y.
        checked u8_max month >>= λ m.
        checked u8_max (day - days_before_month mp + 1) >>= λ d. new_date y m d)
unfolding civil
civil_year era yoe day h i =
    let back : days_before yoe + day - days_before yoe ≡ day = omega arith in
    rw (year_of_day_lem yoe day h i) (rw back refl)

year_back :
    (year month : ℕ) (era : ℤ) (year_of_era : ℕ)
    → IsShifted year month era year_of_era
    → scale era 400 +ℤ pos year_of_era +ℤ pos (if leb month 2 then 1 else 0) ≡ pos year
unfolding scale ◌+ℤ◌ diff negate
year_back year month _ _ (in_era era yoe lt e) = ap pos e
year_back year month _ _ (before_eras e h) = ground arith

IsShifted-lt :
    {year month : ℕ} {era : ℤ} {year_of_era : ℕ}
    → IsShifted year month era year_of_era
    → (year_of_era < 400) × (year_of_era ≡ (if leb month 2 then year + 399 else year) % 400)
IsShifted-lt (in_era era yoe lt e) = (lt, ground arith)
IsShifted-lt (before_eras e h) = (omega arith, ground arith)

new_date_back :
    (d : Date)
    → is_date d.year d.month d.day ≡ true
    → (as_u16 (pos d.year) >>= λ y.
        checked u8_max d.month >>= λ m. checked u8_max d.day >>= λ day. new_date y m day)
      ≡ some d
unfolding as_u16 new_date
new_date_back d valid =
    let i = is_date-IsDate d.year d.month d.day valid in
    let year : leb d.year 65535 ≡ true = ground (arith, i.year_fits) in
    let month : leb d.month 255 ≡ true = ground (arith, i.month_high) in
    let day : leb d.day 255 ≡ true = ground (arith, i.day_high) in
    rw year (rw month (rw day (rw valid refl)))

civil_date :
    (d : Date) (era : ℤ) (year_of_era : ℕ)
    → is_date d.year d.month d.day ≡ true
    → IsShifted d.year d.month era year_of_era
    → civil era (days_before year_of_era + day_of_year d) ≡ some d
unfolding day_of_year
civil_date d era yoe valid shifted =
    let i = is_date-IsDate d.year d.month d.day valid in
    let (lt, e) = IsShifted-lt shifted in
    let day = days_before_month (from_march d.month) + d.day - 1 in
    let month : (if ltb (from_march d.month) 10
          then from_march d.month + 3
          else from_march d.month - 9)
        ≡ d.month =
      ground (arith, i.month_low, i.month_high) in
    let day_back : day - days_before_month (from_march d.month) + 1 ≡ d.day =
      omega (arith, i.day_low) in
    civil_year era yoe day lt (days_of_year d.year d.month d.day yoe i e)
    ∙ rw (month_of_day d.year d.month d.day i) (
        rw month
          (rw (year_back d.year d.month era yoe shifted) (rw day_back (new_date_back d valid))))

days_back :
    (d : Date) (era : ℤ) (year_of_era : ℕ)
    → is_date d.year d.month d.day ≡ true
    → IsShifted d.year d.month era year_of_era
    → from_days_since_epoch
        ((scale era 146097 +ℤ pos (days_before year_of_era + day_of_year d)) +ℤ negate 719468)
      ≡ civil era (days_before year_of_era + day_of_year d)
unfolding day_of_year
days_back d _ _ valid (in_era era yoe lt e) =
    let i = is_date-IsDate d.year d.month d.day valid in
    let day = days_of_year d.year d.month d.day yoe i (ground (arith, e)) in
    shifted_back era (days_before yoe + day_of_year d) (omega (arith, i.year_fits, e))
      (day_of_era-lt yoe _ lt day)
days_back d _ _ valid (before_eras e h) =
    let i = is_date-IsDate d.year d.month d.day valid in
    let day = days_of_year d.year d.month d.day 399 i (ground (arith, e)) in
    shifted_back_before (days_before 399 + day_of_year d) (day_of_era-lt 399 _ (omega arith) day)

-- For every date that Date::new accepts, from_days_since_epoch gives the date back from its
-- days_since_epoch.
pub from_days-days :
    (d : Date)
    → is_date d.year d.month d.day ≡ true
    → from_days_since_epoch (days_since_epoch d) ≡ some d
unfolding days_since_epoch
from_days-days d valid =
    let shifted = shifted_year-IsShifted d in
    days_back d _ _ valid shifted ∙ civil_date d _ _ valid shifted
