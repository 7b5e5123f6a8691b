-- ===== src/Base/Positions.antt =====
-- `position`, and the split of a byte string at the place that it finds.
use mathlib.Core.Option
use refix.Base.{
  ℕ, zero, suc, ◌+◌, ◌<◌, ◌≡◌, refl, ap, inl, inr, Bool, true, none, some, [], ◌∷◌, ◌++◌, arith,
  Option-cases, length, take, Bytes, position,
}

-- `xs` is `before`, a byte that passes the test `p`, and `after`; no byte of `before` passes it.
pub record SplitsAt (p : ℕ → Bool) (xs : Bytes) (n : ℕ) : Type 0 where
  pub before : Bytes
  pub found : ℕ
  pub after : Bytes
  pub splits : xs ≡ before ++ found ∷ after
  pub passes : p found ≡ true
  pub first : position p before ≡ none
  pub at : length before ≡ n

pub position-SplitsAt :
    (p : ℕ → Bool) (xs : Bytes) (n : ℕ) → position p xs ≡ some n → SplitsAt p xs n
unfolding position
position-SplitsAt p [] n h = cc
position-SplitsAt p (x ∷ xs) zero h = record {
  before = [];
  found = x;
  after = xs;
  splits = refl;
  passes = ground arith;
  first = refl;
  at = refl;
}
position-SplitsAt p (x ∷ xs) (suc n) h =
    let rest = position-SplitsAt p xs n (ground arith) in
    record {
      before = x ∷ rest.before;
      found = rest.found;
      after = rest.after;
      splits = ap (◌∷◌ x) rest.splits;
      passes = rest.passes;
      first = ground (arith, rest.first);
      at = ap suc rest.at;
    }

-- The first byte that passes is found behind bytes that do not.
pub position-append :
    (p : ℕ → Bool) (xs : Bytes) (b : ℕ) (ys : Bytes)
    → position p xs ≡ none
    → p b ≡ true
    → position p (xs ++ b ∷ ys) ≡ some (length xs)
unfolding position
position-append p [] b ys clear hit = ground arith
position-append p (x ∷ xs) b ys clear hit = ground (arith, position-append p xs b ys)

pub position-lt : (p : ℕ → Bool) (xs : Bytes) (n : ℕ) → position p xs ≡ some n → n < length xs
unfolding position
position-lt p [] n h = cc
position-lt p (x ∷ xs) zero h = omega arith
position-lt p (x ∷ xs) (suc n) h = ground (arith, position-lt p xs n)

-- What is found among the first bytes is found in the whole.
pub position-take :
    (p : ℕ → Bool) (m : ℕ) (xs : Bytes) (n : ℕ)
    → position p (take m xs) ≡ some n
    → position p xs ≡ some n
unfolding position
position-take p zero xs n h = cc
position-take p (suc m) [] n h = cc
position-take p (suc m) (x ∷ xs) zero h = ground arith
position-take p (suc m) (x ∷ xs) (suc n) h = ground (arith, position-take p m xs n)

-- What is found before the end of a cut is found in the cut.
pub position-take_lt :
    (p : ℕ → Bool) (m : ℕ) (xs : Bytes) (n : ℕ)
    → position p xs ≡ some n
    → n < m
    → position p (take m xs) ≡ some n
unfolding position
position-take_lt p zero xs n h lt = absurd (omega arith)
position-take_lt p (suc m) [] n h lt = cc
position-take_lt p (suc m) (x ∷ xs) zero h lt = ground arith
position-take_lt p (suc m) (x ∷ xs) (suc n) h lt = ground (arith, position-take_lt p m xs n)

pub position-append_some :
    (p : ℕ → Bool) (xs ys : Bytes) (n : ℕ) → position p xs ≡ some n → position p (xs ++ ys) ≡ some n
unfolding position
position-append_some p [] ys n h = cc
position-append_some p (x ∷ xs) ys zero h = ground arith
position-append_some p (x ∷ xs) ys (suc n) h = ground (arith, position-append_some p xs ys n)

pub position-append_none :
    (p : ℕ → Bool) (xs ys : Bytes)
    → position p xs ≡ none
    → position p (xs ++ ys) ≡ Option.map (◌+◌ (length xs)) (position p ys)
unfolding position
position-append_none p [] ys h = elim (Option-cases (position p ys)) [
  | inl e ↦ rw e
  | inr (n, e) ↦ rw e (ap some (omega arith))
]
position-append_none p (x ∷ xs) ys h = ground (arith, position-append_none p xs ys)
