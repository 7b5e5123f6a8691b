-- ===== src/Value/Decimal/Parse.antt =====
-- value/decimal.rs, `Decimal::parse`: the texts that it reads.
use mathlib.Core.Option.{some-injective}
use refix.Base.Digits.{checked, fold_digits, decimal, fold_digits_fits, fold_digits-eq-some}
use refix.Base.Maybe.{◌>>=◌}
use refix.Base.Int.{pos, negate, scale, i64_max}
use refix.Value.Decimal.{Decimal, strip_minus, split_point, mantissa_of, parse_decimal}
use refix.Base.Decimals.{all-append}
use refix.Base.{
  ℕ, ◌+◌, ◌-◌, ◌*◌, ◌≤◌, ◌≡◌, refl, sym, ap, ◌∙◌, ◌↔◌, inl, inr, Bool, true, false, ◌&&◌, Option,
  none, some, [], ◌∷◌, ◌++◌, arith, leb, ◌==◌, if◌then◌else◌, Bool-cases, Option-cases, length,
  Bytes, all, is_digit,
}

-- What stands for the sign, and what follows the whole part.
abbrev pub sign : Bool → Bytes
sign negative = if negative then b'-' ∷ [] else []

abbrev pub point : Bool → Bytes → Bytes
point pointed fraction = if pointed then b'.' ∷ fraction else []

abbrev pub value_of : Bool → ℕ → ℕ → Decimal
value_of negative mantissa scale = record {
  mantissa = if negative then negate mantissa else pos mantissa;
  exponent = negate scale;
}

-- The digits of both parts, and the value that they denote.
pub record Denotes (negative : Bool) (whole fraction : Bytes) (d : Decimal) : Type 0 where
  pub some_digit : 1 ≤ length whole + length fraction
  pub digits_only : all is_digit (whole ++ fraction) ≡ true
  pub is_short : length fraction ≤ 127
  pub fits : decimal 0 (whole ++ fraction) ≤ i64_max
  pub is_value : d ≡ value_of negative (decimal 0 (whole ++ fraction)) (length fraction)

-- A decimal text, such as `-101.25`, and the value that it denotes.
pub record IsDecimal (text : Bytes) (d : Decimal) : Type 0 where
  pub negative : Bool
  pub pointed : Bool
  pub whole : Bytes
  pub fraction : Bytes
  pub spells : text ≡ sign negative ++ (whole ++ point pointed fraction)
  pub no_point : pointed ≡ false → fraction ≡ []
  pub denotes : Denotes negative whole fraction d

mantissa_of-digits :
    (acc : ℕ) (bs : Bytes)
    → all is_digit bs ≡ true
    → mantissa_of acc bs ≡ fold_digits i64_max acc bs
unfolding mantissa_of fold_digits all
mantissa_of-digits acc [] h = refl
mantissa_of-digits acc (b ∷ bs) h = ground (arith, h, mantissa_of-digits (acc * 10 + (b - b'0')) bs)

mantissa_of-eq-some :
    (acc : ℕ) (bs : Bytes) (n : ℕ) → mantissa_of acc bs ≡ some n → all is_digit bs ≡ true
unfolding mantissa_of all
mantissa_of-eq-some acc [] n h = refl
mantissa_of-eq-some acc (b ∷ bs) n h =
    ground (arith, h, mantissa_of-eq-some (acc * 10 + (b - b'0')) bs n)

strip_minus_lem : (text : Bytes) → text ≡ sign (strip_minus text).0 ++ (strip_minus text).1
unfolding strip_minus
strip_minus_lem [] = refl
strip_minus_lem (b ∷ bytes) = ground arith

-- The parts of a split, and whether there was a point.
split_point_lem :
    (bytes : Bytes)
    → (pointed : Bool) × (bytes ≡ (split_point bytes).0 ++ point pointed (split_point bytes).1)
      × (pointed ≡ false → (split_point bytes).1 ≡ [])
unfolding split_point
split_point_lem [] = (false, refl, λ _. refl)
split_point_lem (b ∷ bytes) = elim (Bool-cases (b == b'.')) [
  | inl is_point ↦ (true, ground (arith, is_point), λ e. absurd (cc))
  | inr other ↦
      let (pointed, spells, no_point) = split_point_lem bytes in
      (pointed, ground (arith, other, spells), λ e. ground (arith, other, no_point e))
]

split_point-digits :
    (whole fraction : Bytes) (pointed : Bool)
    → all is_digit whole ≡ true
    → (pointed ≡ false → fraction ≡ [])
    → split_point (whole ++ point pointed fraction) ≡ (whole, fraction)
unfolding split_point all
split_point-digits [] fraction true h no_point = refl
split_point-digits [] fraction false h no_point = ground (arith, no_point refl)
split_point-digits (b ∷ whole) fraction pointed h no_point =
    ground (arith, h, split_point-digits whole fraction pointed)

strip_minus-sign :
    (negative : Bool) (whole fraction : Bytes) (pointed : Bool)
    → all is_digit whole ≡ true
    → strip_minus (sign negative ++ (whole ++ point pointed fraction))
      ≡ (negative, whole ++ point pointed fraction)
unfolding strip_minus all
strip_minus-sign true whole fraction pointed h = refl
strip_minus-sign false [] fraction true h = refl
strip_minus-sign false [] fraction false h = refl
strip_minus-sign false (b ∷ whole) fraction pointed h = ground (arith, h)

-- What `Decimal::parse` does with the parts.
abbrev parse_parts : Bool → Bytes → Bytes → Option Decimal
parse_parts negative whole fraction =
    if leb (length whole) 0 && leb (length fraction) 0
    then none
    else (checked 127 (length fraction) >>= λ scale.
        mantissa_of 0 (whole ++ fraction) >>= λ mantissa. some (record {
          mantissa = if negative then negate mantissa else pos mantissa;
          exponent = negate scale;
        }))

parse_parts-eq-some :
    (negative : Bool) (whole fraction : Bytes) (d : Decimal)
    → parse_parts negative whole fraction ≡ some d
    → Denotes negative whole fraction d
parse_parts-eq-some negative whole fraction d h =
    elim (Option-cases (mantissa_of 0 (whole ++ fraction))) [
      | inl bad ↦ absurd (ground (arith, h, bad))
      | inr (mantissa, good) ↦
          let has_digit : (leb (length whole) 0 && leb (length fraction) 0) ≡ false =
            ground (arith, h) in
          let short : leb (length fraction) 127 ≡ true = ground (arith, h) in
          let digits = mantissa_of-eq-some 0 (whole ++ fraction) mantissa good in
          let (same, fits) =
            fold_digits-eq-some i64_max 0 (whole ++ fraction) mantissa (omega arith)
              (sym (mantissa_of-digits 0 (whole ++ fraction) digits) ∙ good) in
          record {
            some_digit = ground (arith, has_digit);
            digits_only = digits;
            is_short = ground (arith, short);
            fits = omega (arith, same, fits);
            is_value =
                some-injective d (value_of negative mantissa (length fraction))
                  (sym h ∙ rw (has_digit, short, good) refl)
                ∙ ap (λ n. value_of negative n (length fraction)) same;
          }
    ]

parse_parts-Denotes :
    (negative : Bool) (whole fraction : Bytes) (d : Decimal)
    → Denotes negative whole fraction d
    → parse_parts negative whole fraction ≡ some d
parse_parts-Denotes negative whole fraction d s =
    let read : mantissa_of 0 (whole ++ fraction) ≡ some (decimal 0 (whole ++ fraction)) =
      mantissa_of-digits 0 (whole ++ fraction) s.digits_only
      ∙ fold_digits_fits i64_max 0 (whole ++ fraction) s.fits in
    let has_digit : (leb (length whole) 0 && leb (length fraction) 0) ≡ false =
      ground (arith, s.some_digit) in
    let short : leb (length fraction) 127 ≡ true = ground (arith, s.is_short) in
    rw (has_digit, short, read) (ap some (sym s.is_value))

whole-digits : (xs ys : Bytes) → all is_digit (xs ++ ys) ≡ true → all is_digit xs ≡ true
whole-digits xs ys h = ground (arith, all-append xs ys, h)

-- Decimal::parse reads a text as a decimal exactly where the text is an optional minus, digits,
-- and optionally a point and more digits, at least one digit and at most 127 behind the point, and
-- the number that the digits of both parts denote fits an i64; the mantissa is then that number
-- with the sign, and the exponent minus the count of digits behind the point.
pub parse_decimal-IsDecimal :
    (text : Bytes) (d : Decimal) → (parse_decimal text ≡ some d) ↔ IsDecimal text d
unfolding parse_decimal
parse_decimal-IsDecimal text d = (
  (λ h.
      let unsigned = (strip_minus text).1 in
      let (pointed, spells, no_point) = split_point_lem unsigned in
      record {
        negative = (strip_minus text).0;
        pointed = pointed;
        whole = (split_point unsigned).0;
        fraction = (split_point unsigned).1;
        spells = strip_minus_lem text ∙ ap (λ x. sign (strip_minus text).0 ++ x) spells;
        no_point = no_point;
        denotes =
            parse_parts-eq-some (strip_minus text).0 (split_point unsigned).0
              (split_point unsigned).1 d h;
      }),
  (λ i.
      let digits = whole-digits i.whole i.fraction i.denotes.digits_only in
      let stripped = strip_minus-sign i.negative i.whole i.fraction i.pointed digits in
      let split = split_point-digits i.whole i.fraction i.pointed digits i.no_point in
      rw (i.spells, stripped, split)
        (parse_parts-Denotes i.negative i.whole i.fraction d i.denotes)),
)
