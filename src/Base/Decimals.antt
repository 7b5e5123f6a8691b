-- ===== src/Base/Decimals.antt =====
-- Numbers written in decimal, as `to_string` of the standard library writes them.
use mathlib.Core.List.{reverse-reverse, reverse-cons}
use refix.Base.Int.{ℤ, pos, negsuc}
use refix.Base.Digits.{decimal}
use refix.Base.{
  ℕ, zero, suc, ◌+◌, ◌-◌, ◌*◌, ◌/◌, ◌%◌, ◌≤◌, ◌<◌, ◌≡◌, refl, sym, ap, ◌∙◌, inl, inr, true, ◌&&◌,
  [], ◌∷◌, ◌++◌, reverse, arith, ltb, if◌then◌else◌, Bool-cases, length, length-append, Bytes, all,
  is_digit,
}

-- The decimal digits of a number, the last ones first.
unfoldable pub digits_of : ℕ → ℕ → Bytes
digits_of zero n = []
digits_of (suc fuel) n =
    let more = digits_of fuel (n / 10) in
    if ltb n 10 then (n + b'0') ∷ [] else (n % 10 + b'0') ∷ more

-- `to_string` of an `i64`, whose magnitude has at most nineteen digits.
unfoldable pub to_string : ℤ → Bytes
unfolding digits_of
to_string (pos n) = reverse (digits_of 20 n)
to_string (negsuc n) = b'-' ∷ reverse (digits_of 20 (n + 1))

-- The number that digits denote, the last ones first.
undigits : Bytes → ℕ
undigits [] = 0
undigits (d ∷ ds) = (d - b'0') + 10 * undigits ds

-- The number has at most `fuel` digits.
abbrev Fits : ℕ → ℕ → Type 0
Fits zero n = n ≡ 0
Fits (suc fuel) n = Fits fuel (n / 10)

undigits-digits_of : (fuel n : ℕ) → Fits fuel n → undigits (digits_of fuel n) ≡ n
unfolding undigits digits_of
undigits-digits_of zero n h = omega (arith, h)
undigits-digits_of (suc fuel) n h = elim (Bool-cases (ltb n 10)) [
  | inl small ↦ rw small (ground (arith, small))
  | inr large ↦ rw large (omega (arith, undigits-digits_of fuel (n / 10) h))
]

u32-Fits : (n : ℕ) → n < 4294967296 → Fits 20 n
u32-Fits n h = omega (arith, h)

abbrev pub u32_end : ℕ
u32_end = 4294967296

pub to_string-injective :
    (i j : ℕ) → i < u32_end → j < u32_end → to_string (pos i) ≡ to_string (pos j) → i ≡ j
unfolding to_string
to_string-injective i j hi hj e =
    let same : digits_of 20 i ≡ digits_of 20 j =
      sym (reverse-reverse (digits_of 20 i)) ∙ ap reverse e ∙ reverse-reverse (digits_of 20 j) in
    sym (undigits-digits_of 20 i (u32-Fits i hi))
    ∙ ap undigits same
    ∙ undigits-digits_of 20 j (u32-Fits j hj)

-- Ten to the power of 20.
abbrev pub ten_to_20 : ℕ
ten_to_20 = 100000000000000000000

below-Fits : (n : ℕ) → n < ten_to_20 → Fits 20 n
below-Fits n h = omega (arith, h)

pub decimal-append :
    (acc : ℕ) (xs ys : Bytes) → decimal acc (xs ++ ys) ≡ decimal (decimal acc xs) ys
unfolding decimal
decimal-append acc [] ys = refl
decimal-append acc (x ∷ xs) ys = decimal-append (acc * 10 + (x - b'0')) xs ys

pub all-append : (xs ys : Bytes) → all is_digit (xs ++ ys) ≡ (all is_digit xs && all is_digit ys)
unfolding all
all-append [] ys = refl
all-append (x ∷ xs) ys = ground (arith, all-append xs ys)

decimal-reverse : (ds : Bytes) → decimal 0 (reverse ds) ≡ undigits ds
unfolding decimal undigits
decimal-reverse [] = refl
decimal-reverse (d ∷ ds) =
    rw (reverse-cons d ds, decimal-append 0 (reverse ds) (d ∷ []))
      (omega (arith, decimal-reverse ds))

all-reverse : (ds : Bytes) → all is_digit (reverse ds) ≡ all is_digit ds
unfolding all
all-reverse [] = refl
all-reverse (d ∷ ds) =
    rw (reverse-cons d ds, all-append (reverse ds) (d ∷ [])) (ground (arith, all-reverse ds))

digits_of-all : (fuel n : ℕ) → all is_digit (digits_of fuel n) ≡ true
unfolding digits_of all
digits_of-all zero n = refl
digits_of-all (suc fuel) n = ground (arith, digits_of-all fuel (n / 10))

-- The digits that are written for a number denote it.
pub decimal-to_string : (n : ℕ) → n < ten_to_20 → decimal 0 (to_string (pos n)) ≡ n
unfolding to_string
decimal-to_string n h = decimal-reverse (digits_of 20 n) ∙ undigits-digits_of 20 n (below-Fits n h)

pub to_string-digits : (n : ℕ) → all is_digit (to_string (pos n)) ≡ true
unfolding to_string
to_string-digits n = all-reverse (digits_of 20 n) ∙ digits_of-all 20 n

length-reverse : (ds : Bytes) → length (reverse ds) ≡ length ds
length-reverse [] = refl
length-reverse (d ∷ ds) =
    rw (reverse-cons d ds) (omega (arith, length-append (reverse ds) (d ∷ []), length-reverse ds))

digits_of_positive : (fuel n : ℕ) → 1 ≤ length (digits_of (suc fuel) n)
unfolding digits_of
digits_of_positive fuel n = elim (Bool-cases (ltb n 10)) [
  | inl small ↦ rw small (omega arith)
  | inr large ↦ rw large (omega arith)
]

pub to_string_positive : (n : ℕ) → 1 ≤ length (to_string (pos n))
unfolding to_string
to_string_positive n = omega (arith, length-reverse (digits_of 20 n), digits_of_positive 19 n)
