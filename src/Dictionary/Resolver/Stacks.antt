-- ===== src/Dictionary/Resolver/Stacks.antt =====
-- The components being expanded are different ones, so there are no more of them than there are
-- components.
use refix.Base.{
  ℕ, zero, suc, ◌+◌, ◌≤◌, ◌<◌, ◌≡◌, refl, false, List, [], ◌∷◌, arith, ltb, if◌then◌else◌, length,
}
use refix.Tags.{contains}
use refix.Tags.Counts.{count, IsDistinct, count-contains}

pub record IsStack (n : ℕ) (stack : List ℕ) : Type 0 where
  pub distinct : IsDistinct stack
  pub below : (i : ℕ) → n ≤ i → count i stack ≡ 0

-- How many numbers of the list are below `n`.
count_below : ℕ → List ℕ → ℕ
count_below n [] = 0
count_below n (x ∷ xs) = (if ltb x n then 1 else 0) + count_below n xs

count_below-suc : (n : ℕ) (xs : List ℕ) → count_below (suc n) xs ≡ count_below n xs + count n xs
unfolding count_below count
count_below-suc n [] = omega arith
count_below-suc n (x ∷ xs) = ground (arith, count_below-suc n xs)

count_below-zero : (xs : List ℕ) → count_below 0 xs ≡ 0
unfolding count_below
count_below-zero [] = refl
count_below-zero (x ∷ xs) = ground (arith, count_below-zero xs)

count_below-le : (n : ℕ) (xs : List ℕ) → IsDistinct xs → count_below n xs ≤ n
count_below-le zero xs d = omega (arith, count_below-zero xs)
count_below-le (suc n) xs d = omega (arith, count_below-suc n xs, count_below-le n xs d, d n)

count_below_all :
    (n : ℕ) (xs : List ℕ) → ((i : ℕ) → n ≤ i → count i xs ≡ 0) → count_below n xs ≡ length xs
unfolding count_below count
count_below_all n [] b = refl
count_below_all n (x ∷ xs) b =
    let rest : count_below n xs ≡ length xs = count_below_all n xs (λ i h. ground (arith, b i h)) in
    ground (arith, b x, rest)

pub IsStack-length : (n : ℕ) (stack : List ℕ) → IsStack n stack → length stack ≤ n
IsStack-length n stack s =
    omega (arith, count_below_all n stack s.below, count_below-le n stack s.distinct)

pub IsStack-push :
    (n index : ℕ) (stack : List ℕ)
    → index < n
    → contains stack index ≡ false
    → IsStack n stack
    → IsStack n (index ∷ stack)
unfolding count
IsStack-push n index stack lt new s = record {
  distinct = λ i. ground (arith, s.distinct i, count-contains index stack);
  below = λ i h. ground (arith, s.below i h);
}

pub IsStack-nil : (n : ℕ) → IsStack n []
unfolding count
IsStack-nil n = record { distinct = λ i. omega arith; below = λ i h. refl }
