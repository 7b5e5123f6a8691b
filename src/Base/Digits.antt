-- ===== src/Base/Digits.antt =====
-- Checked decimal accumulation, the `try_fold` that the program writes for `usize` and `u32`, and
-- the number that a run of digits denotes.
use refix.Base.{
  ℕ, ◌+◌, ◌-◌, ◌*◌, ◌≤◌, ◌≡◌, refl, Option, none, some, [], ◌∷◌, arith, leb, if◌then◌else◌, Bytes,
}
use refix.Base.Maybe.{◌>>=◌}

abbrev pub u32_max : ℕ
u32_max = 4294967295

abbrev pub usize_max : ℕ
usize_max = 18446744073709551615

-- A result of an unsigned type whose largest value is `limit`.
abbrev pub checked : ℕ → ℕ → Option ℕ
checked limit n = if leb n limit then some n else none

-- `try_fold(acc, |acc, &b| acc.checked_mul(10)?.checked_add(b - b'0'))`.
unfoldable pub fold_digits : ℕ → ℕ → Bytes → Option ℕ
fold_digits limit acc [] = some acc
fold_digits limit acc (b ∷ bs) = do
  tens ← checked limit (acc * 10)
  next ← checked limit (tens + (b - b'0'))
  fold_digits limit next bs

-- The number that the digits `bs` denote behind the digits of `acc`, with no bound.
unfoldable pub decimal : ℕ → Bytes → ℕ
decimal acc [] = acc
decimal acc (b ∷ bs) = decimal (acc * 10 + (b - b'0')) bs

pub le-decimal : (acc : ℕ) (bs : Bytes) → acc ≤ decimal acc bs
unfolding decimal
le-decimal acc [] = omega arith
le-decimal acc (b ∷ bs) = omega (arith, le-decimal (acc * 10 + (b - b'0')) bs)

-- The checked fold returns the number just when it fits.
pub fold_digits_fits :
    (limit acc : ℕ) (bs : Bytes)
    → decimal acc bs ≤ limit
    → fold_digits limit acc bs ≡ some (decimal acc bs)
unfolding fold_digits decimal
fold_digits_fits limit acc [] h = refl
fold_digits_fits limit acc (b ∷ bs) h =
    let next = acc * 10 + (b - b'0') in
    ground (arith, le-decimal next bs, fold_digits_fits limit next bs)

pub fold_digits-eq-some :
    (limit acc : ℕ) (bs : Bytes) (n : ℕ)
    → acc ≤ limit
    → fold_digits limit acc bs ≡ some n
    → (n ≡ decimal acc bs) × (n ≤ limit)
unfolding fold_digits decimal
fold_digits-eq-some limit acc [] n le h = ground arith
fold_digits-eq-some limit acc (b ∷ bs) n le h =
    let next = acc * 10 + (b - b'0') in ground (arith, fold_digits-eq-some limit next bs n)
