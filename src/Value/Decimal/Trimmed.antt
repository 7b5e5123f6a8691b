-- ===== src/Value/Decimal/Trimmed.antt =====
-- value/decimal.rs, `normalized`: the loop that trims zeros.
use refix.Value.Decimal.Zeros.{scaled}
use refix.Value.Decimal.{below_max, trim_zeros}
use refix.Base.Int.{ℤ, pos, negsuc, diff, ◌+ℤ◌}
use refix.Base.{
  ℕ, zero, suc, ◌+◌, ◌-◌, ◌*◌, ◌/◌, ◌%◌, ◌≤◌, ◌≡◌, refl, ap, ◌∙◌, inl, inr, true, false, arith, leb,
  ◌==◌, Bool-cases,
}

-- The exponents of type `i8`.
abbrev pub IsI8 : ℤ → Type 0
IsI8 (pos n) = n ≤ 127
IsI8 (negsuc n) = n ≤ 127

-- An exponent counted from -128.
abbrev pub shifted : ℤ → ℕ
shifted (pos n) = 128 + n
shifted (negsuc n) = 127 - n

pub shifted-injective : (a b : ℤ) → IsI8 a → IsI8 b → shifted a ≡ shifted b → a ≡ b
shifted-injective (pos a) (pos b) ha hb e = ap pos (omega (arith, e))
shifted-injective (pos a) (negsuc b) ha hb e = absurd (omega (arith, e))
shifted-injective (negsuc a) (pos b) ha hb e = absurd (omega (arith, e))
shifted-injective (negsuc a) (negsuc b) ha hb e = ap negsuc (omega (arith, ha, hb, e))

diff-negative : (n : ℕ) → diff 1 (suc n + 1) ≡ negsuc n
unfolding diff
diff-negative n = let e : leb (suc n + 1) 1 ≡ false = ground arith in rw e (ap negsuc (omega arith))

shifted-next :
    (e : ℤ)
    → IsI8 e
    → below_max e ≡ true
    → (shifted (e +ℤ pos 1) ≡ shifted e + 1) × IsI8 (e +ℤ pos 1)
unfolding ◌+ℤ◌
shifted-next (pos n) h below = ground (arith, below)
shifted-next (negsuc zero) h below = (refl, omega arith)
shifted-next (negsuc (suc n)) h below =
    let e : diff 1 (suc n + 1) ≡ negsuc n = diff-negative n in
    rw e (omega (arith, h), omega (arith, h))

shifted_max : (e : ℤ) → IsI8 e → below_max e ≡ false → shifted e ≡ 255
shifted_max (pos n) h at_max = ground (arith, h, at_max)
shifted_max (negsuc n) h at_max = absurd (cc)

shifted_full : (e : ℤ) → IsI8 e → 255 ≤ shifted e → shifted e ≡ 255
shifted_full (pos n) h le = omega (arith, h, le)
shifted_full (negsuc n) h le = absurd (omega (arith, le))

pub shifted-le : (e : ℤ) → IsI8 e → shifted e ≤ 255
shifted-le (pos n) h = omega (arith, h)
shifted-le (negsuc n) h = omega arith

scaled-next : (n places : ℕ) → scaled n (places + 1) ≡ scaled (n * 10) places
unfolding scaled
scaled-next n places = let e : places + 1 ≡ suc places = omega arith in rw e refl

-- The same value, with no zero at the end of the mantissa, unless the exponent is the largest.
pub record IsTrimmed (mantissa : ℕ) (exponent : ℤ) (r : ℕ × ℤ) : Type 0 where
  pub is_i8 : IsI8 r.1
  pub same : scaled r.0 (shifted r.1) ≡ scaled mantissa (shifted exponent)
  pub trimmed : r.0 % 10 ≡ 0 → shifted r.1 ≡ 255

pub trim_zeros-IsTrimmed :
    (fuel mantissa : ℕ) (exponent : ℤ)
    → IsI8 exponent
    → 255 ≤ fuel + shifted exponent
    → IsTrimmed mantissa exponent (trim_zeros fuel mantissa exponent)
unfolding trim_zeros
trim_zeros-IsTrimmed zero mantissa exponent h fuel_left = record {
  is_i8 = h;
  same = refl;
  trimmed = λ _. shifted_full exponent h (omega (arith, fuel_left));
}
trim_zeros-IsTrimmed (suc fuel) mantissa exponent h fuel_left =
    elim (Bool-cases (mantissa % 10 == 0)) [
      | inr other ↦
          rw other
            (record { is_i8 = h; same = refl; trimmed = λ e. absurd (ground (arith, other, e)) })
      | inl ends ↦ elim (Bool-cases (below_max exponent)) [
        | inr at_max ↦
            rw (ends, at_max)
              (record { is_i8 = h; same = refl; trimmed = λ e. shifted_max exponent h at_max })
        | inl below ↦
            let (next, in_range) = shifted-next exponent h below in
            let t =
              trim_zeros-IsTrimmed fuel (mantissa / 10) (exponent +ℤ pos 1) in_range
                (omega (arith, next, fuel_left)) in
            let m : mantissa / 10 * 10 ≡ mantissa = ground (arith, ends) in
            rw (ends, below)
              (record {
                is_i8 = t.is_i8;
                same =
                    t.same
                    ∙ (rw next (scaled-next (mantissa / 10) (shifted exponent))
                        ∙ ap (λ x. scaled x (shifted exponent)) m);
                trimmed = t.trimmed;
              })
      ]
    ]
