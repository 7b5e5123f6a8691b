-- ===== src/Value.antt =====
-- crates/refix-message/src/value.rs: the data types of field values.
pub mod Tests
pub mod Date
pub mod Time
pub mod MonthYear
pub mod UtcTimestamp
pub mod Decimal
use refix.Base.{
  ℕ, ◌+◌, ◌-◌, ◌*◌, Option, none, some, [], ◌∷◌, leb, if◌then◌else◌, length, take, drop, Bytes,
  is_digit,
}

-- The loop of `number`. The program reads at most nine digits with it, so no `i64` overflows.
unfoldable pub number_from : ℕ → Bytes → Option ℕ
number_from value [] = some value
number_from value (b ∷ digits) =
    let rest = number_from (value * 10 + (b - b'0')) digits in if is_digit b then rest else none

-- The value of `digits`, if they're all ASCII digits.
unfoldable pub number : Bytes → Option ℕ
unfolding number_from
number digits = number_from 0 digits

abbrev pub u16_max : ℕ
u16_max = 65535

abbrev pub u8_max : ℕ
u8_max = 255

-- `split_at_checked(n)`
unfoldable pub split_at : ℕ → Bytes → Option (Bytes × Bytes)
split_at n bytes = if leb n (length bytes) then some (take n bytes, drop n bytes) else none
