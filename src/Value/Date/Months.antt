-- ===== src/Value/Date/Months.antt =====
-- value/date.rs: the months of a year that starts in March.
use refix.Base.{
  ℕ, ◌+◌, ◌-◌, ◌*◌, ◌/◌, ◌%◌, ◌≤◌, ◌≡◌, ◌≢◌, ◌⊎◌, inl, inr, true, arith, dec_lt, leb, if◌then◌else◌,
}
use refix.Value.Date.Years.{IsYearDay, in_common_year, leap_day}
use refix.Value.Date.{is_leap_year, days_in_month, is_date}

-- What `is_date` says in numbers; the days are those of the longest such month but for February.
pub record IsDate (year month day : ℕ) : Type 0 where
  pub year_fits : year ≤ 9999
  pub month_low : 1 ≤ month
  pub month_high : month ≤ 12
  pub day_low : 1 ≤ day
  pub day_high : day ≤ 31
  pub short : (month ≡ 4) ⊎ (month ≡ 6) ⊎ (month ≡ 9) ⊎ (month ≡ 11) → day ≤ 30
  pub february : month ≡ 2 → day ≤ 29
  pub leap : month ≡ 2 → day ≡ 29 → (year % 4 ≡ 0) × ((year % 100 ≢ 0) ⊎ (year % 400 ≡ 0))

pub is_date-IsDate : (year month day : ℕ) → is_date year month day ≡ true → IsDate year month day
unfolding is_date days_in_month is_leap_year
is_date-IsDate year month day h = record {
  year_fits = ground arith;
  month_low = ground arith;
  month_high = ground arith;
  day_low = ground arith;
  day_high = ground arith;
  short = λ e. ground arith;
  february = λ e. ground arith;
  leap = λ e f. ground arith;
}

abbrev pub from_march : ℕ → ℕ
from_march month = (month + 9) % 12

abbrev pub days_before_month : ℕ → ℕ
days_before_month mp = (153 * mp + 2) / 5

pub month_of_day :
    (year month day : ℕ)
    → IsDate year month day
    → (5 * (days_before_month (from_march month) + day - 1) + 2) / 153 ≡ from_march month
month_of_day year month day i = ground (arith, i.short, i.february)

-- The year of an era that a month belongs to, where years start in March.
pub days_of_year :
    (year month day year_of_era : ℕ)
    → IsDate year month day
    → year_of_era ≡ (if leb month 2 then year + 399 else year) % 400
    → IsYearDay year_of_era (days_before_month (from_march month) + day - 1)
days_of_year year month day yoe i e =
    elim (dec_lt (days_before_month (from_march month) + day - 1) 365) [
      | yes lt ↦ in_common_year lt
      | no ge ↦
          let at : (month ≡ 2) × (day ≡ 29) =
            (ground (arith, i.short, i.february), ground (arith, i.short, i.february)) in
          let full : days_before_month (from_march month) + day - 1 ≡ 365 = ground (arith, at) in
          let march : yoe ≡ (year + 399) % 400 = ground (arith, at) in
          let (four, rule) = i.leap at.0 at.1 in
          leap_day full (omega (arith, march, four)) (elim rule [
            | inl hundred ↦ inl (λ z. hundred (omega (arith, march)))
            | inr whole ↦ inr (omega (arith, march))
          ])
    ]
