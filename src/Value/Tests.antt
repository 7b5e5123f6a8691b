-- ===== src/Value/Tests.antt =====
-- The data types of field values on concrete values.
use refix.Value.Decimal.Equality.{value, SameDecimal-value}
use refix.Value.Decimal.Display.{parse_decimal-display_decimal}
use refix.Value.Decimal.Parse.{IsDecimal, parse_decimal-IsDecimal}
use refix.Value.Decimal.{Decimal, parse_decimal, normalized, SameDecimal, display_decimal}
use refix.Base.Int.{pos, negsuc, diff, ◌+ℤ◌, negate, scale, div_euclid, rem_euclid, checked_i64}
use refix.Base.Text.{codes}
use refix.Base.{◌≡◌, refl, ◌↔◌, some, arith}
use refix.Value.Date.{Date, is_date, day_of_year, days_since_epoch, from_days_since_epoch}
use refix.Value.Date.RoundTrip.{from_days-days}
use refix.Value.Time.{Time}
use refix.Value.UtcTimestamp.{UtcTimestamp, date_of, time_of, timestamp_at}
use refix.Value.UtcTimestamp.RoundTrip.{timestamp_at-date_time}

abbrev leap_date : Date
leap_date = record { year = 2000; month = 2; day = 29 }

leap_date_counted : days_since_epoch leap_date ≡ pos 11016
unfolding days_since_epoch
leap_date_counted = refl

from_days-days_example : from_days_since_epoch (days_since_epoch leap_date) ≡ some leap_date
from_days-days_example = from_days-days leap_date (unfold is_date in refl)

abbrev afternoon : Time
afternoon = record {
  nanos_since_midnight = 52191123000000;
  precision = record { fraction_digits = 3 };
}

abbrev leap_afternoon : UtcTimestamp
leap_afternoon = record {
  unix_nanos = pos 951834591123000000;
  precision = record { fraction_digits = 3 };
}

leap_afternoon_made : timestamp_at leap_date afternoon ≡ some leap_afternoon
unfolding timestamp_at days_since_epoch scale ◌+ℤ◌ checked_i64 diff negate div_euclid rem_euclid
    day_of_year
leap_afternoon_made = refl

timestamp_at-date_time_example :
    (date_of leap_afternoon ≡ some leap_date) × (time_of leap_afternoon ≡ some afternoon)
timestamp_at-date_time_example =
    timestamp_at-date_time leap_date afternoon leap_afternoon (unfold is_date in refl) (omega arith)
      leap_afternoon_made

abbrev price : Decimal
price = record { mantissa = negsuc 10124; exponent = negsuc 1 }

parse_decimal-IsDecimal_example :
    (parse_decimal (codes "-101.25") ≡ some price) ↔ IsDecimal (codes "-101.25") price
parse_decimal-IsDecimal_example = parse_decimal-IsDecimal (codes "-101.25") price

parse_decimal-of_price : parse_decimal (codes "-101.25") ≡ some price
unfolding parse_decimal negate
parse_decimal-of_price = refl

-- 1.50 and 1.5
abbrev in_cents : Decimal
in_cents = record { mantissa = pos 150; exponent = negsuc 1 }

abbrev in_tenths : Decimal
in_tenths = record { mantissa = pos 15; exponent = negsuc 0 }

SameDecimal-value_example : SameDecimal in_cents in_tenths ↔ (value in_cents ≡ value in_tenths)
SameDecimal-value_example = SameDecimal-value in_cents in_tenths (omega arith) (omega arith)

in_cents-same : SameDecimal in_cents in_tenths
unfolding normalized ◌+ℤ◌ diff
in_cents-same = refl

-- -0.05
abbrev small : Decimal
small = record { mantissa = negsuc 4; exponent = negsuc 1 }

display_decimal-of_small : display_decimal small ≡ codes "-0.05"
unfolding display_decimal
display_decimal-of_small = refl

parse_decimal-display_decimal_example : parse_decimal (display_decimal small) ≡ some small
parse_decimal-display_decimal_example =
    parse_decimal-display_decimal small (omega arith) (omega arith)
