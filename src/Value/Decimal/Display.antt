-- ===== src/Value/Decimal/Display.antt =====
-- value/decimal.rs, `Display for Decimal` and `Decimal::parse`.
use refix.Value.Decimal.{
  Decimal, parse_decimal, zeros, unsigned_abs, is_negative, with_exponent, display_decimal,
}
use refix.Base.Decimals.{
  to_string, decimal-append, all-append, decimal-to_string, to_string-digits, to_string_positive,
}
use refix.Value.Decimal.Parse.{sign, point, value_of, parse_decimal-IsDecimal}
use refix.Base.Int.{ℤ, pos, negsuc, negate, i64_max}
use refix.Base.Digits.{decimal}
use refix.Base.{
  ℕ, zero, suc, ◌+◌, ◌-◌, ◌≤◌, ◌<◌, ◌≡◌, refl, sym, ap, ◌∙◌, inl, inr, Bool, true, false, some, [],
  ◌∷◌, ◌++◌, append-nil, arith, ltb, if◌then◌else◌, Bool-cases, length, take, drop, length-append,
  length-drop, take-append-drop, Bytes, all, is_digit,
}

zeros-digits : (count : ℕ) → all is_digit (zeros count) ≡ true
unfolding zeros all
zeros-digits zero = refl
zeros-digits (suc count) = zeros-digits count

length-zeros : (count : ℕ) → length (zeros count) ≡ count
unfolding zeros
length-zeros zero = refl
length-zeros (suc count) = omega (arith, length-zeros count)

decimal-zeros : (count : ℕ) → decimal 0 (zeros count) ≡ 0
unfolding zeros decimal
decimal-zeros zero = refl
decimal-zeros (suc count) = decimal-zeros count

-- The parts of a text with a point, or none.
record IsSplit (digits : Bytes) (exponent : ℤ) : Type 0 where
  pointed : Bool
  whole : Bytes
  fraction : Bytes
  spells : with_exponent digits exponent ≡ whole ++ point pointed fraction
  no_point : pointed ≡ false → fraction ≡ []
  some_digit : 1 ≤ length whole + length fraction
  only_digits : all is_digit (whole ++ fraction) ≡ true
  same : decimal 0 (whole ++ fraction) ≡ decimal 0 digits
  places : negate (length fraction) ≡ exponent
  few : length fraction ≤ 127

padded-same :
    (count : ℕ) (digits : Bytes)
    → decimal 0 ((b'0' ∷ []) ++ (zeros count ++ digits)) ≡ decimal 0 digits
unfolding decimal
padded-same count digits =
    decimal-append 0 (zeros count) digits ∙ ap (λ n. decimal n digits) (decimal-zeros count)

padded-digits :
    (count : ℕ) (digits : Bytes)
    → all is_digit digits ≡ true
    → all is_digit ((b'0' ∷ []) ++ (zeros count ++ digits)) ≡ true
unfolding all
padded-digits count digits h =
    all-append (zeros count) digits ∙ ground (arith, h, zeros-digits count)

-- The exponents of decimals that were read.
abbrev pub IsScale : ℤ → Type 0
IsScale (pos n) = n ≡ 0
IsScale (negsuc n) = n < 127

IsSplit-digits :
    (digits : Bytes) (exponent : ℤ)
    → all is_digit digits ≡ true
    → 1 ≤ length digits
    → IsScale exponent
    → IsSplit digits exponent
unfolding with_exponent zeros negate
IsSplit-digits digits (pos n) h not_empty e = record {
  pointed = false;
  whole = digits;
  fraction = [];
  spells = ap (λ k. digits ++ zeros k) e;
  no_point = λ _. refl;
  some_digit = omega (arith, not_empty);
  only_digits = rw (append-nil digits) h;
  same = ap (decimal 0) (append-nil digits);
  places = ap pos (sym e);
  few = omega arith;
}
IsSplit-digits digits (negsuc n) h not_empty lt =
    let scale = n + 1 in
    elim (Bool-cases (ltb scale (length digits))) [
      | inl long ↦
          let whole = length digits - scale in
          let places : length (drop whole digits) ≡ suc n =
            ground (arith, length-drop whole digits, long) in
          (record {
            pointed = true;
            whole = take whole digits;
            fraction = drop whole digits;
            spells = rw long refl;
            no_point = λ e. absurd (cc);
            some_digit = omega (arith, places);
            only_digits = rw (take-append-drop whole digits) h;
            same = ap (decimal 0) (take-append-drop whole digits);
            places = ap negate places;
            few = omega (arith, places, lt);
          })
      | inr short ↦
          let count = scale - length digits in
          let places : length (zeros count ++ digits) ≡ suc n =
            ground (arith, length-append (zeros count) digits, length-zeros count, short) in
          (record {
            pointed = true;
            whole = b'0' ∷ [];
            fraction = zeros count ++ digits;
            spells = rw short refl;
            no_point = λ e. absurd (cc);
            some_digit = omega arith;
            only_digits = padded-digits count digits h;
            same = padded-same count digits;
            places = ap negate places;
            few = omega (arith, places, lt);
          })
    ]

abbrev with_parts : ℤ → ℤ → Decimal
with_parts mantissa exponent = record { mantissa = mantissa; exponent = exponent }

-- What the value of the digits is with the sign.
signed : (m : ℤ) → m ≡ (if is_negative m then negate (unsigned_abs m) else pos (unsigned_abs m))
unfolding negate
signed (pos n) = refl
signed (negsuc n) = let e : n + 1 ≡ suc n = omega arith in rw e refl

display-sign :
    (d : Decimal)
    → display_decimal d
      ≡ sign (is_negative d.mantissa)
        ++ with_exponent (to_string (pos (unsigned_abs d.mantissa))) d.exponent
unfolding display_decimal
display-sign d = elim (Bool-cases (is_negative d.mantissa)) [
  | inl below ↦ rw below refl
  | inr not_below ↦ rw not_below refl
]

-- For any decimal whose mantissa without its sign is at most the largest i64, and whose exponent
-- is between -127 and 0, as those of decimals that were read are: Decimal::parse reads the text
-- that Display writes, with no width or flag, as that decimal, the scale included.
pub parse_decimal-display_decimal :
    (d : Decimal)
    → unsigned_abs d.mantissa ≤ i64_max
    → IsScale d.exponent
    → parse_decimal (display_decimal d) ≡ some d
parse_decimal-display_decimal d fits e =
    let n = unsigned_abs d.mantissa in
    let s =
      IsSplit-digits (to_string (pos n)) d.exponent (to_string-digits n) (to_string_positive n) e in
    let is_n : decimal 0 (s.whole ++ s.fraction) ≡ n =
      s.same ∙ decimal-to_string n (omega (arith, fits)) in
    (parse_decimal-IsDecimal (display_decimal d) d).1 (record {
      negative = is_negative d.mantissa;
      pointed = s.pointed;
      whole = s.whole;
      fraction = s.fraction;
      spells = display-sign d ∙ ap (λ x. sign (is_negative d.mantissa) ++ x) s.spells;
      no_point = s.no_point;
      denotes = record {
        some_digit = s.some_digit;
        digits_only = s.only_digits;
        is_short = s.few;
        fits = omega (arith, is_n, fits);
        is_value =
            ap (λ m. with_parts m d.exponent) (signed d.mantissa)
            ∙ ap (λ x. with_parts (if is_negative d.mantissa then negate n else pos n) x)
                (sym s.places)
            ∙ ap (λ k. value_of (is_negative d.mantissa) k (length s.fraction)) (sym is_n);
      };
    })
