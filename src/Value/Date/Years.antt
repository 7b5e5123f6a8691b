-- ===== src/Value/Date/Years.antt =====
-- value/date.rs: the year of an era that a day of it falls in.
use refix.Base.{ℕ, ◌+◌, ◌%◌, ◌<◌, ◌≡◌, ◌≢◌, ◌⊎◌, inl, inr, arith}
use refix.Value.Date.{days_before, year_of_day}

-- Day `day` of the year `year_of_era` that starts in March. Only where the next January is in a
-- leap year has a year a day 365.
pub data IsYearDay (year_of_era day : ℕ) : Type 0 where
  in_common_year : day < 365 → IsYearDay year_of_era day
  leap_day :
      day ≡ 365
      → (year_of_era + 1) % 4 ≡ 0
      → ((year_of_era + 1) % 100 ≢ 0) ⊎ ((year_of_era + 1) % 400 ≡ 0)
      → IsYearDay year_of_era day

pub year_of_day_lem :
    (year_of_era day : ℕ)
    → year_of_era < 400
    → IsYearDay year_of_era day
    → year_of_day (days_before year_of_era + day) ≡ year_of_era
unfolding year_of_day
year_of_day_lem y day h (in_common_year lt) = omega arith
year_of_day_lem y day h (leap_day e f (inl g)) = omega arith
year_of_day_lem y day h (leap_day e f (inr g)) = omega arith

pub day_of_era-lt :
    (year_of_era day : ℕ)
    → year_of_era < 400
    → IsYearDay year_of_era day
    → days_before year_of_era + day < 146097
day_of_era-lt y day h (in_common_year lt) = omega arith
day_of_era-lt y day h (leap_day e f (inl g)) = omega arith
day_of_era-lt y day h (leap_day e f (inr g)) = omega arith
