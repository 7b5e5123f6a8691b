-- ===== src/Base/Appends.antt =====
-- Slices and bytes of an append, counted from the end of its first part.
use refix.Base.{
  ℕ, zero, suc, ◌+◌, ◌<◌, ◌≡◌, refl, ap, true, none, some, List, [], ◌∷◌, ◌++◌, arith, ◌==◌, length,
  get_elem?, take, drop, Bytes, byte_at, position, all, is_digit,
}

module _ {ℓ} {A : Type ℓ} where
  pub drop-append_add : (xs ys : List A) (k : ℕ) → drop (length xs + k) (xs ++ ys) ≡ drop k ys
  drop-append_add [] ys k = ap (λ n. drop n ys) (omega arith)
  drop-append_add (x ∷ xs) ys k =
      let e : suc (length xs) + k ≡ suc (length xs + k) = omega arith in
      rw e (drop-append_add xs ys k)

  pub take-append_add : (xs ys : List A) (k : ℕ) → take (length xs + k) (xs ++ ys) ≡ xs ++ take k ys
  take-append_add [] ys k = ap (λ n. take n ys) (omega arith)
  take-append_add (x ∷ xs) ys k =
      let e : suc (length xs) + k ≡ suc (length xs + k) = omega arith in
      rw e (ap (◌∷◌ x) (take-append_add xs ys k))

pub byte_at-append_add : (xs ys : Bytes) (k : ℕ) → byte_at (xs ++ ys) (length xs + k) ≡ byte_at ys k
byte_at-append_add [] ys k = ap (byte_at ys) (omega arith)
byte_at-append_add (x ∷ xs) ys k =
    let e : suc (length xs) + k ≡ suc (length xs + k) = omega arith in
    rw e (byte_at-append_add xs ys k)

pub byte_at-append_lt :
    (xs ys : Bytes) (k : ℕ) → k < length xs → byte_at (xs ++ ys) k ≡ byte_at xs k
byte_at-append_lt [] ys k h = absurd (omega arith)
byte_at-append_lt (x ∷ xs) ys zero h = refl
byte_at-append_lt (x ∷ xs) ys (suc k) h = byte_at-append_lt xs ys k (omega arith)

-- No digit is a control character.
pub all_digits-clear :
    (bs : Bytes) (c : ℕ) → c < 48 → all is_digit bs ≡ true → position (λ b. b == c) bs ≡ none
unfolding all position
all_digits-clear [] c lt h = refl
all_digits-clear (b ∷ bs) c lt h = ground (arith, all_digits-clear bs c)

module _ {ℓ} {A : Type ℓ} where
  pub get_elem?-drop : (xs : List A) (n k : ℕ) → get_elem? (drop n xs) k ≡ get_elem? xs (n + k)
  get_elem?-drop xs zero k = ap (get_elem? xs) (omega arith)
  get_elem?-drop [] (suc n) k = refl
  get_elem?-drop (x ∷ xs) (suc n) k =
      let e : suc n + k ≡ suc (n + k) = omega arith in rw e (get_elem?-drop xs n k)

  pub get_elem?-some_lt : (xs : List A) (n : ℕ) (a : A) → get_elem? xs n ≡ some a → n < length xs
  get_elem?-some_lt [] n a h = cc
  get_elem?-some_lt (x ∷ xs) zero a h = omega arith
  get_elem?-some_lt (x ∷ xs) (suc n) a h = omega (arith, get_elem?-some_lt xs n a h)
