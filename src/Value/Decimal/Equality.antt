-- ===== src/Value/Decimal/Equality.antt =====
-- value/decimal.rs, `PartialEq for Decimal`: which decimals are equal.
use refix.Value.Decimal.Trimmed.{
  IsI8, shifted, shifted-injective, shifted-le, IsTrimmed, trim_zeros-IsTrimmed,
}
use refix.Value.Decimal.Zeros.{
  scaled, scaled-positive, scaled_zero, scaled-injective, scaled-more, scaled-divides,
}
use refix.Value.Decimal.{Decimal, trim_zeros, normalized, SameDecimal}
use refix.Base.Int.{ℤ, pos, negsuc, negate}
use refix.Base.{ℕ, zero, suc, ◌+◌, ◌-◌, ◌%◌, ◌≤◌, ◌≡◌, refl, sym, ap, ◌∙◌, ◌≢◌, ◌↔◌, arith, dec_lt}

-- `mantissa * 10^(exponent + 128)`.
abbrev value_at : ℤ → ℤ → ℤ
value_at (pos n) exponent = pos (scaled n (shifted exponent))
value_at (negsuc n) exponent = negate (scaled (suc n) (shifted exponent))

abbrev pub value : Decimal → ℤ
value d = value_at d.mantissa d.exponent

negate-injective : (a b : ℕ) → negate a ≡ negate b → a ≡ b
unfolding negate
negate-injective zero zero e = refl
negate-injective zero (suc b) e = absurd (cc)
negate-injective (suc a) zero e = absurd (cc)
negate-injective (suc a) (suc b) e = let e' : a ≡ b = cc in ap suc e'

pos-injective : {a b : ℕ} → pos a ≡ pos b → a ≡ b
pos-injective e = cc

-- A number that is not negative differs from a negative one.
pos-negate : (a b : ℕ) → 1 ≤ b → pos a ≢ negate b
unfolding negate
pos-negate a zero h e = absurd (omega (arith, h))
pos-negate a (suc b) h e = absurd (cc)

value_at-negate : (n : ℕ) (e : ℤ) → value_at (negate n) e ≡ negate (scaled n (shifted e))
unfolding negate
value_at-negate zero e = rw (scaled_zero (shifted e)) refl
value_at-negate (suc n) e = refl

IsTrimmed-trim : (n : ℕ) (e : ℤ) → IsI8 e → IsTrimmed n e (trim_zeros 255 n e)
IsTrimmed-trim n e h = trim_zeros-IsTrimmed 255 n e h (omega arith)

not_more : (x y j k : ℕ) → scaled x j ≡ scaled y k → (x % 10 ≡ 0 → j ≡ 255) → k ≤ 255 → k ≤ j
not_more x y j k e trimmed le = elim (dec_lt j k) [
  | no not_less ↦ omega (arith, not_less)
  | yes less ↦
      let more : ℕ = k - j - 1 in
      let split : k ≡ suc more + j = omega arith in
      let x_is : x ≡ scaled y (suc more) =
        scaled-more y x j (suc more) (sym (e ∙ ap (scaled y) split)) in
      let ends : x % 10 ≡ 0 = ap (λ n. n % 10) x_is ∙ scaled-divides y more in
      absurd (omega (arith, trimmed ends))
]

-- Trimming finds one form for one value.
trimmed_unique :
    (m n : ℕ) (a b : ℤ) (r s : ℕ × ℤ)
    → IsTrimmed m a r
    → IsTrimmed n b s
    → scaled m (shifted a) ≡ scaled n (shifted b)
    → r ≡ s
trimmed_unique m n a b (x, j) (y, k) t u e =
    let same : scaled x (shifted j) ≡ scaled y (shifted k) = t.same ∙ e ∙ sym u.same in
    let places : shifted j ≡ shifted k = omega (
      arith,
      not_more x y (shifted j) (shifted k) same t.trimmed (shifted-le k u.is_i8),
      not_more y x (shifted k) (shifted j) (sym same) u.trimmed (shifted-le j t.is_i8),
    ) in
    let digits : x ≡ y = scaled-injective x y (shifted k) (ap (scaled x) (sym places) ∙ same) in
    ap (λ p. (p, j)) digits ∙ ap (λ q. (y, q)) (shifted-injective j k t.is_i8 u.is_i8 places)

same_value :
    (mantissa exponent : ℤ)
    → IsI8 exponent
    → let d : Decimal = record { mantissa = mantissa; exponent = exponent } in
      value_at (normalized d).0 (normalized d).1 ≡ value_at mantissa exponent
unfolding normalized
same_value (pos zero) e h = rw (scaled_zero (shifted e), scaled_zero 128) refl
same_value (pos (suc n)) e h = ap pos (IsTrimmed-trim (suc n) e h).same
same_value (negsuc n) e h =
    let r = trim_zeros 255 (suc n) e in
    value_at-negate r.0 r.1 ∙ ap negate (IsTrimmed-trim (suc n) e h).same

abbrev with_parts : ℤ → ℤ → Decimal
with_parts mantissa exponent = record { mantissa = mantissa; exponent = exponent }

trimmed_same :
    (m n : ℕ) (a b : ℤ)
    → IsI8 a
    → IsI8 b
    → scaled m (shifted a) ≡ scaled n (shifted b)
    → trim_zeros 255 m a ≡ trim_zeros 255 n b
trimmed_same m n a b ha hb =
    trimmed_unique m n a b (trim_zeros 255 m a) (trim_zeros 255 n b) (IsTrimmed-trim m a ha)
      (IsTrimmed-trim n b hb)

positive : (n : ℕ) (e : ℤ) → scaled (suc n) (shifted e) ≢ 0
positive n e zero_there =
    omega (arith, zero_there, scaled-positive (suc n) (shifted e) (omega arith))

value_at-normalized :
    (m n a b : ℤ)
    → IsI8 a
    → IsI8 b
    → value_at m a ≡ value_at n b
    → normalized (with_parts m a) ≡ normalized (with_parts n b)
unfolding normalized negate
value_at-normalized (pos zero) (pos zero) a b ha hb e = refl
value_at-normalized (pos zero) (pos (suc n)) a b ha hb e =
    absurd (positive n b (sym (pos-injective e) ∙ scaled_zero (shifted a)))
value_at-normalized (pos (suc m)) (pos zero) a b ha hb e =
    absurd (positive m a (pos-injective e ∙ scaled_zero (shifted b)))
value_at-normalized (pos (suc m)) (pos (suc n)) a b ha hb e =
    ap (λ r. (pos r.0, r.1)) (trimmed_same (suc m) (suc n) a b ha hb (pos-injective e))
value_at-normalized (pos m) (negsuc n) a b ha hb e =
    absurd
      (pos-negate (scaled m (shifted a)) _ (scaled-positive (suc n) (shifted b) (omega arith)) e)
value_at-normalized (negsuc m) (pos n) a b ha hb e = absurd (
    pos-negate (scaled n (shifted b)) _ (scaled-positive (suc m) (shifted a) (omega arith)) (sym e))
value_at-normalized (negsuc m) (negsuc n) a b ha hb e =
    ap (λ r. (negate r.0, r.1)) (trimmed_same (suc m) (suc n) a b ha hb (negate-injective _ _ e))

-- For any two decimals with exponents of type i8, and whatever their mantissas: they are equal,
-- which is that normalized gives the same for both, exactly where they have one value, which is
-- that mantissa * 10^(exponent + 128) is the same for both.
pub SameDecimal-value :
    (a b : Decimal) → IsI8 a.exponent → IsI8 b.exponent → SameDecimal a b ↔ (value a ≡ value b)
SameDecimal-value a b ha hb = (
  (λ e.
      sym (same_value a.mantissa a.exponent ha)
      ∙ ap (λ p. value_at p.0 p.1) e
      ∙ same_value b.mantissa b.exponent hb),
  value_at-normalized a.mantissa b.mantissa a.exponent b.exponent ha hb,
)
