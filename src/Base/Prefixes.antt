-- ===== src/Base/Prefixes.antt =====
-- `starts_with` against appends, takes and drops.
use refix.Base.{
  ℕ, zero, suc, ◌≤◌, ◌≡◌, refl, true, [], ◌∷◌, ◌++◌, arith, length, take, drop, Bytes, equal,
  starts_with,
}

pub equal-take : (xs p : Bytes) → equal (take (length p) xs) p ≡ starts_with xs p
unfolding equal starts_with
equal-take [] [] = refl
equal-take (x ∷ xs) [] = refl
equal-take [] (y ∷ p) = refl
equal-take (x ∷ xs) (y ∷ p) = rw (equal-take xs p)

pub starts_with-append_le :
    (xs ys p : Bytes) → length p ≤ length xs → starts_with (xs ++ ys) p ≡ starts_with xs p
unfolding starts_with
starts_with-append_le xs ys [] h = refl
starts_with-append_le [] ys (y ∷ p) h = absurd (omega arith)
starts_with-append_le (x ∷ xs) ys (y ∷ p) h = rw (starts_with-append_le xs ys p (omega arith))

-- A text that completes to one with the prefix `p` is itself a part of `p`, if it is short.
pub starts_with-append_lt :
    (xs ys p : Bytes)
    → length xs ≤ length p
    → starts_with (xs ++ ys) p ≡ true
    → starts_with p xs ≡ true
unfolding starts_with
starts_with-append_lt [] ys p h s = refl
starts_with-append_lt (x ∷ xs) ys [] h s = absurd (omega arith)
starts_with-append_lt (x ∷ xs) ys (y ∷ p) h s = ground (arith, starts_with-append_lt xs ys p)

pub starts_with-take : (n : ℕ) (p : Bytes) → starts_with p (take n p) ≡ true
unfolding starts_with
starts_with-take zero p = refl
starts_with-take (suc n) [] = refl
starts_with-take (suc n) (x ∷ p) = ground (arith, starts_with-take n p)

pub starts_with-eq_take : (p xs : Bytes) → starts_with p xs ≡ true → xs ≡ take (length xs) p
unfolding starts_with
starts_with-eq_take p [] h = refl
starts_with-eq_take [] (x ∷ xs) h = cc
starts_with-eq_take (y ∷ p) (x ∷ xs) h = ground (arith, starts_with-eq_take p xs)

-- A text with the prefix `p` is `p` and what follows.
pub starts_with-split : (xs p : Bytes) → starts_with xs p ≡ true → xs ≡ p ++ drop (length p) xs
unfolding starts_with
starts_with-split xs [] h = refl
starts_with-split [] (y ∷ p) h = cc
starts_with-split (x ∷ xs) (y ∷ p) h = ground (arith, starts_with-split xs p)

pub starts_with_self : (p ys : Bytes) → starts_with (p ++ ys) p ≡ true
unfolding starts_with
starts_with_self [] ys = refl
starts_with_self (x ∷ p) ys = ground (arith, starts_with_self p ys)

pub starts_with-length : (xs p : Bytes) → starts_with xs p ≡ true → length p ≤ length xs
unfolding starts_with
starts_with-length xs [] h = omega arith
starts_with-length [] (y ∷ p) h = cc
starts_with-length (x ∷ xs) (y ∷ p) h = ground (arith, starts_with-length xs p)
