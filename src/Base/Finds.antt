-- ===== src/Base/Finds.antt =====
-- `position` on any list: what it finds, and what it passes over.
use refix.Base.Appends.{get_elem?-drop}
use refix.Base.{
  ℕ, zero, suc, ◌+◌, ◌-◌, ◌<◌, ◌≡◌, refl, ◌∙◌, Bool, true, false, none, some, List, [], ◌∷◌, arith,
  get_elem?, take, drop, slice, position,
}

module _ {ℓ} {A : Type ℓ} (p : A → Bool) where
  pub position-get :
      (xs : List A) (n : ℕ)
      → position p xs ≡ some n
      → (x : A) × (get_elem? xs n ≡ some x) × (p x ≡ true)
  unfolding position
  position-get [] n h = cc
  position-get (x ∷ xs) zero h = (x, refl, ground arith)
  position-get (x ∷ xs) (suc n) h = position-get xs n (ground arith)

  pub position_before :
      (xs : List A) (n k : ℕ) (x : A)
      → position p xs ≡ some n
      → k < n
      → get_elem? xs k ≡ some x
      → p x ≡ false
  unfolding position
  position_before [] n k x h lt e = cc
  position_before (y ∷ xs) zero k x h lt e = absurd (omega arith)
  position_before (y ∷ xs) (suc n) zero x h lt e = ground arith
  position_before (y ∷ xs) (suc n) (suc k) x h lt e =
      position_before xs n k x (ground arith) (omega arith) e

  pub position-none_get :
      (xs : List A) (k : ℕ) (x : A) → position p xs ≡ none → get_elem? xs k ≡ some x → p x ≡ false
  unfolding position
  position-none_get [] k x h e = cc
  position-none_get (y ∷ xs) zero x h e = ground arith
  position-none_get (y ∷ xs) (suc k) x h e = position-none_get xs k x (ground arith) e

module _ {ℓ} {A : Type ℓ} where
  pub get_elem?-take :
      (m : ℕ) (xs : List A) (k : ℕ) → k < m → get_elem? (take m xs) k ≡ get_elem? xs k
  get_elem?-take zero xs k h = absurd (omega arith)
  get_elem?-take (suc m) [] k h = refl
  get_elem?-take (suc m) (x ∷ xs) zero h = refl
  get_elem?-take (suc m) (x ∷ xs) (suc k) h = get_elem?-take m xs k (omega arith)

  -- An element of a slice is one of the list.
  pub get_elem?-slice :
      (xs : List A) (a b k : ℕ) → a + k < b → get_elem? (slice xs a b) k ≡ get_elem? xs (a + k)
  get_elem?-slice xs a b k h =
      get_elem?-take (b - a) (drop a xs) k (omega arith) ∙ get_elem?-drop xs a k
