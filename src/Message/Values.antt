-- ===== src/Message/Values.antt =====
-- message.rs, the typed getters of a scope. `RawMessage` has the same ones, on its whole scope.
use refix.Base.{
  ℕ, zero, suc, ◌+◌, Bool, true, false, not, ◌&&◌, ◌||◌, Option, none, some, [], ◌∷◌, ltb, leb,
  ◌==◌, if◌then◌else◌, length, Bytes, equal, all, is_digit,
}
use refix.Base.Digits.{fold_digits}
use refix.Base.Maybe.{◌>>=◌}
use refix.Base.Result.{Result, ok, err}
use refix.Base.Int.{ℤ, pos, negate, i64_max}
use refix.Tags.{Tag}
use refix.Message.{Scope, get}
use refix.Value.Date.{Date, parse_date}
use refix.Value.Time.{Time, parse_time}
use refix.Value.MonthYear.{MonthYear, parse_month_year}
use refix.Value.UtcTimestamp.{UtcTimestamp, parse_utc_timestamp}
use refix.Value.Decimal.{Decimal, parse_decimal}

-- `std::str::from_utf8`, on the number of bytes that the character begun still needs and the range
-- of the next of them.
unfoldable pub utf8_from : ℕ → ℕ → ℕ → Bytes → Bool
utf8_from zero low high [] = true
utf8_from (suc n) low high [] = false
utf8_from zero low high (b ∷ bytes) =
    (ltb b 128 && utf8_from 0 0 0 bytes)
    || (leb 194 b && leb b 223 && utf8_from 1 128 191 bytes)
    || ((b == 224) && utf8_from 2 160 191 bytes)
    || (leb 225 b && leb b 239 && not (b == 237) && utf8_from 2 128 191 bytes)
    || ((b == 237) && utf8_from 2 128 159 bytes)
    || ((b == 240) && utf8_from 3 144 191 bytes)
    || (leb 241 b && leb b 243 && utf8_from 3 128 191 bytes)
    || ((b == 244) && utf8_from 3 128 143 bytes)
utf8_from (suc n) low high (b ∷ bytes) = leb low b && leb b high && utf8_from n 128 191 bytes

abbrev pub is_utf8 : Bytes → Bool
is_utf8 bytes = utf8_from 0 0 0 bytes

-- The digits of an `i64` whose magnitude is at most `limit`.
unfoldable pub magnitude : ℕ → Bytes → Option ℕ
magnitude limit digits =
    if leb (length digits) 0 || not (all is_digit digits) then none else fold_digits limit 0 digits

-- `parse::<i64>`
unfoldable pub parse_i64 : Bytes → Option ℤ
unfolding magnitude negate
parse_i64 [] = none
parse_i64 (b ∷ bytes) =
    if b == b'-'
    then (magnitude (i64_max + 1) bytes >>= λ n. some (negate n))
    else if b == b'+'
    then (magnitude i64_max bytes >>= λ n. some (pos n))
    else (magnitude i64_max (b ∷ bytes) >>= λ n. some (pos n))

-- A value that is present and read, or the error that names its tag.
abbrev pub required : {A : Type 0} → Tag → Option A → Result Tag (Option A)
required tag none = err tag
required tag (some a) = ok (some a)

-- A getter on what `get` found: absent, or read by `parse`.
abbrev pub read_as : {A : Type 0} → Tag → (Bytes → Option A) → Option Bytes → Result Tag (Option A)
read_as tag parse none = ok none
read_as tag parse (some v) = required tag (parse v)

abbrev pub parse_str : Bytes → Option Bytes
parse_str v = if is_utf8 v then some v else none

abbrev pub parse_bool : Bytes → Option Bool
parse_bool v =
    if equal v (b'Y' ∷ []) then some true else if equal v (b'N' ∷ []) then some false else none

unfoldable pub get_str : Scope → Tag → Result Tag (Option Bytes)
unfolding get utf8_from
get_str s tag = read_as tag parse_str (get s tag)

unfoldable pub get_int : Scope → Tag → Result Tag (Option ℤ)
unfolding get utf8_from parse_i64
get_int s tag = read_as tag (λ v. parse_str v >>= parse_i64) (get s tag)

unfoldable pub get_bool : Scope → Tag → Result Tag (Option Bool)
unfolding get
get_bool s tag = read_as tag parse_bool (get s tag)

unfoldable pub get_decimal : Scope → Tag → Result Tag (Option Decimal)
unfolding get parse_decimal
get_decimal s tag = read_as tag parse_decimal (get s tag)

unfoldable pub get_utc_timestamp : Scope → Tag → Result Tag (Option UtcTimestamp)
unfolding get parse_utc_timestamp
get_utc_timestamp s tag = read_as tag parse_utc_timestamp (get s tag)

unfoldable pub get_date : Scope → Tag → Result Tag (Option Date)
unfolding get parse_date
get_date s tag = read_as tag parse_date (get s tag)

unfoldable pub get_time : Scope → Tag → Result Tag (Option Time)
unfolding get parse_time
get_time s tag = read_as tag parse_time (get s tag)

unfoldable pub get_month_year : Scope → Tag → Result Tag (Option MonthYear)
unfolding get parse_month_year
get_month_year s tag = read_as tag parse_month_year (get s tag)
