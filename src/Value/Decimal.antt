-- ===== src/Value/Decimal.antt =====
-- crates/refix-message/src/value/decimal.rs: FIX floats, `mantissa * 10^exponent`.
pub mod Parse
pub mod Display
pub mod Zeros
pub mod Equality
pub mod Trimmed
use refix.Base.Decimals.{to_string}
use refix.Base.{
  ℕ, zero, suc, ◌+◌, ◌-◌, ◌*◌, ◌/◌, ◌%◌, ◌≡◌, Bool, true, false, not, ◌&&◌, Option, none, some, [],
  ◌∷◌, ◌++◌, ltb, leb, ◌==◌, if◌then◌else◌, length, take, drop, Bytes, is_digit,
}
use refix.Base.Digits.{checked}
use refix.Base.Maybe.{◌>>=◌}
use refix.Base.Int.{ℤ, pos, negsuc, ◌+ℤ◌, negate, scale, i64_max}

pub record Decimal : Type 0 where
  pub mantissa : ℤ
  pub exponent : ℤ

-- `text.strip_prefix(b"-")`, as whether there was one, and the rest.
unfoldable pub strip_minus : Bytes → Bool × Bytes
strip_minus [] = (false, [])
strip_minus (b ∷ bytes) = if b == b'-' then (true, bytes) else (false, b ∷ bytes)

-- `splitn(2, |&byte| byte == b'.')`, each part empty where it is missing.
unfoldable pub split_point : Bytes → Bytes × Bytes
split_point [] = ([], [])
split_point (b ∷ bytes) =
    let rest = split_point bytes in if b == b'.' then ([], bytes) else (b ∷ rest.0, rest.1)

-- The loop over the digits of both parts.
unfoldable pub mantissa_of : ℕ → Bytes → Option ℕ
mantissa_of mantissa [] = some mantissa
mantissa_of mantissa (b ∷ bytes) =
    if not (is_digit b)
    then none
    else (checked i64_max (mantissa * 10) >>= λ tens.
        checked i64_max (tens + (b - b'0')) >>= λ next. mantissa_of next bytes)

-- `Decimal::parse`
unfoldable pub parse_decimal : Bytes → Option Decimal
unfolding strip_minus split_point mantissa_of
parse_decimal text =
    let (negative, unsigned) = strip_minus text in
    let (whole, fraction) = split_point unsigned in
    if leb (length whole) 0 && leb (length fraction) 0
    then none
    else (checked 127 (length fraction) >>= λ scale.
        mantissa_of 0 (whole ++ fraction) >>= λ mantissa. some (record {
          mantissa = if negative then negate mantissa else pos mantissa;
          exponent = negate scale;
        }))

-- `exponent < i8::MAX`
abbrev pub below_max : ℤ → Bool
below_max (pos n) = ltb n 127
below_max (negsuc n) = true

-- The loop of `normalized`, on the magnitude of a mantissa that is not 0 and an exponent. At most
-- 255 rounds raise an `i8` to its largest value.
unfoldable pub trim_zeros : ℕ → ℕ → ℤ → ℕ × ℤ
unfolding ◌+ℤ◌
trim_zeros zero mantissa exponent = (mantissa, exponent)
trim_zeros (suc fuel) mantissa exponent =
    let further = trim_zeros fuel (mantissa / 10) (exponent +ℤ pos 1) in
    if (mantissa % 10 == 0) && below_max exponent then further else (mantissa, exponent)

-- The same value without trailing zeros; `i64` division drops the sign of nothing here.
unfoldable pub normalized : Decimal → ℤ × ℤ
unfolding trim_zeros negate
normalized d = normal d.mantissa
  where
    normal : ℤ → ℤ × ℤ
    normal (pos zero) = (pos 0, pos 0)
    normal (pos (suc n)) = let r = trim_zeros 255 (suc n) d.exponent in (pos r.0, r.1)
    normal (negsuc n) = let r = trim_zeros 255 (suc n) d.exponent in (negate r.0, r.1)

-- `PartialEq for Decimal`
abbrev pub SameDecimal : Decimal → Decimal → Type 0
SameDecimal a b = normalized a ≡ normalized b

-- `"0".repeat(count)`
unfoldable pub zeros : ℕ → Bytes
zeros zero = []
zeros (suc count) = b'0' ∷ zeros count

abbrev pub unsigned_abs : ℤ → ℕ
unsigned_abs (pos n) = n
unsigned_abs (negsuc n) = n + 1

abbrev pub is_negative : ℤ → Bool
is_negative (pos n) = false
is_negative (negsuc n) = true

-- The digits of a mantissa with the exponent's zeros or point.
unfoldable pub with_exponent : Bytes → ℤ → Bytes
unfolding zeros
with_exponent digits (pos n) = digits ++ zeros n
with_exponent digits (negsuc n) =
    let scale = n + 1 in
    let whole = length digits - scale in
    if ltb scale (length digits)
    then take whole digits ++ b'.' ∷ drop whole digits
    else b'0' ∷ b'.' ∷ zeros (scale - length digits) ++ digits

-- `Display for Decimal`, with no width or flag.
unfoldable pub display_decimal : Decimal → Bytes
unfolding with_exponent to_string
display_decimal d =
    let text = with_exponent (to_string (pos (unsigned_abs d.mantissa))) d.exponent in
    if is_negative d.mantissa then b'-' ∷ text else text
