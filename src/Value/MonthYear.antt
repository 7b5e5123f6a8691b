-- ===== src/Value/MonthYear.antt =====
-- crates/refix-message/src/value/month_year.rs: months, with a day or a week or neither.
use refix.Base.{
  ℕ, ◌-◌, Bool, ◌&&◌, Option, none, some, [], ◌∷◌, leb, ◌==◌, if◌then◌else◌, is_some, Bytes, slice,
  is_digit,
}
use refix.Base.Digits.{checked}
use refix.Base.Maybe.{◌>>=◌}
use refix.Value.{number, u16_max, u8_max, split_at}
use refix.Value.Date.{new_date}

pub data DayOrWeek : Type 0 where
  day_of_month : ℕ → DayOrWeek
  week_of_month : ℕ → DayOrWeek

pub record MonthYear : Type 0 where
  pub year : ℕ
  pub month : ℕ
  pub day_or_week : Option DayOrWeek

-- The test of `MonthYear::checked`.
unfoldable pub is_month_year : ℕ → ℕ → Option DayOrWeek → Bool
is_month_year year month none = is_some (new_date year month 1)
is_month_year year month (some (day_of_month day)) = is_some (new_date year month day)
is_month_year year month (some (week_of_month week)) =
    is_some (new_date year month 1) && leb 1 week && leb week 5

-- `MonthYear::checked`
unfoldable pub checked_month_year : ℕ → ℕ → Option DayOrWeek → Option MonthYear
unfolding is_month_year
checked_month_year year month day_or_week =
    if is_month_year year month day_or_week
    then some (record { year = year; month = month; day_or_week = day_or_week })
    else none

-- `MonthYear::new`
abbrev pub new_month_year : ℕ → ℕ → Option MonthYear
new_month_year year month = checked_month_year year month none

abbrev pub with_day : ℕ → ℕ → ℕ → Option MonthYear
with_day year month day = checked_month_year year month (some (day_of_month day))

abbrev pub with_week : ℕ → ℕ → ℕ → Option MonthYear
with_week year month week = checked_month_year year month (some (week_of_month week))

-- The match on what is behind the month.
unfoldable pub parse_rest : ℕ → ℕ → Bytes → Option MonthYear
parse_rest year month [] = new_month_year year month
parse_rest year month (b ∷ c ∷ []) =
    if (b == b'w') && is_digit c
    then with_week year month (c - b'0')
    else number (b ∷ c ∷ []) >>= λ n. checked u8_max n >>= λ day. with_day year month day
parse_rest year month _ = none

-- `MonthYear::parse`
unfoldable pub parse_month_year : Bytes → Option MonthYear
unfolding parse_rest
parse_month_year text = do
  (year_month, rest) ← split_at 6 text
  year ← number (slice year_month 0 4) >>= checked u16_max
  month ← number (slice year_month 4 6) >>= checked u8_max
  parse_rest year month rest
