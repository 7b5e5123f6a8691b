-- ===== src/Value/Decimal/Zeros.antt =====
-- Numbers with zeros written behind them.
use refix.Base.{ℕ, zero, suc, ◌+◌, ◌*◌, ◌%◌, ◌≤◌, ◌≡◌, refl, sym, ◌∙◌, arith}

-- `n` with `places` zeros behind it: `n * 10^places`.
unfoldable pub scaled : ℕ → ℕ → ℕ
scaled n zero = n
scaled n (suc places) = scaled (n * 10) places

scaled-suc : (n places : ℕ) → scaled n (suc places) ≡ 10 * scaled n places
unfolding scaled
scaled-suc n zero = omega arith
scaled-suc n (suc places) = scaled-suc (n * 10) places

scaled-add : (n more a : ℕ) → scaled n (more + a) ≡ scaled (scaled n more) a
unfolding scaled
scaled-add n zero a = let e : 0 + a ≡ a = omega arith in rw e refl
scaled-add n (suc more) a =
    let e : suc more + a ≡ suc (more + a) = omega arith in rw e (scaled-add (n * 10) more a)

pub scaled-positive : (n places : ℕ) → 1 ≤ n → 1 ≤ scaled n places
unfolding scaled
scaled-positive n zero h = h
scaled-positive n (suc places) h = scaled-positive (n * 10) places (omega arith)

pub scaled_zero : (places : ℕ) → scaled 0 places ≡ 0
unfolding scaled
scaled_zero zero = refl
scaled_zero (suc places) = scaled_zero places

pub scaled-injective : (m n places : ℕ) → scaled m places ≡ scaled n places → m ≡ n
unfolding scaled
scaled-injective m n zero e = e
scaled-injective m n (suc places) e = omega (arith, scaled-injective (m * 10) (n * 10) places e)

-- The same number, the second with more zeros behind it.
pub scaled-more : (m n a more : ℕ) → scaled m (more + a) ≡ scaled n a → n ≡ scaled m more
scaled-more m n a more e =
    sym (scaled-injective (scaled m more) n a (sym (scaled-add m more a) ∙ e))

pub scaled-divides : (n places : ℕ) → scaled n (suc places) % 10 ≡ 0
scaled-divides n places = omega (arith, scaled-suc n places)
