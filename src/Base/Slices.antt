-- ===== src/Base/Slices.antt =====
-- Byte strings, with the slice operations of Rust's standard library that the program uses. A
-- byte is a number; slices are taken as they stand, so `slice xs a b` is `&xs[a..b]` where
-- `a <= b <= xs.len()`.
use Prim.Native.Nat.{ℕ, zero, suc, ◌-◌}
use mathlib.Core.Path.{◌≡◌}
use mathlib.Core.List.{List, [], ◌∷◌}
use mathlib.Core.Bool.{Bool, true, false, ◌&&◌}
use mathlib.Core.Option.{Option, none, some}
use mathlib.Core.Option
use mathlib.Core.Logic.{◌↔◌}
use native.Mathlib.Omega.{arith}
use refix.Base.Tests.{◌==◌, if◌then◌else◌, leb}
use refix.Base.Lists.{take, drop}

abbrev pub Bytes : Type 0
Bytes = List ℕ

abbrev pub slice {ℓ} : {A : Type ℓ} → List A → ℕ → ℕ → List A
slice xs a b = take (b - a) (drop a xs)

-- `xs[i]`; 0 stands for the panic out of range.
abbrev pub byte_at : Bytes → ℕ → ℕ
byte_at [] i = 0
byte_at (x ∷ xs) zero = x
byte_at (x ∷ xs) (suc i) = byte_at xs i

-- `==` on slices.
unfoldable pub equal : Bytes → Bytes → Bool
equal [] [] = true
equal (x ∷ xs) (y ∷ ys) = x == y && equal xs ys
equal _ _ = false

-- `xs.starts_with(ys)`.
unfoldable pub starts_with : Bytes → Bytes → Bool
starts_with xs [] = true
starts_with [] (y ∷ ys) = false
starts_with (x ∷ xs) (y ∷ ys) = x == y && starts_with xs ys

-- `xs.iter().position(p)`.
unfoldable pub position {ℓ} : {A : Type ℓ} → (A → Bool) → List A → Option ℕ
position p [] = none
position p (x ∷ xs) = if p x then some 0 else Option.map suc (position p xs)

-- `xs.iter().all(p)`.
unfoldable pub all {ℓ} : {A : Type ℓ} → (A → Bool) → List A → Bool
all p [] = true
all p (x ∷ xs) = p x && all p xs

-- `xs.iter().take_while(p).count()`.
unfoldable pub count_while : (ℕ → Bool) → Bytes → ℕ
count_while p [] = 0
count_while p (x ∷ xs) = if p x then suc (count_while p xs) else 0

abbrev pub is_digit : ℕ → Bool
is_digit b = leb b'0' b && leb b b'9'

pub equal_iff : (xs ys : Bytes) → (equal xs ys ≡ true) ↔ (xs ≡ ys)
unfolding equal
equal_iff (x ∷ xs) (y ∷ ys) = ground (arith, equal_iff xs ys)
equal_iff _ _ = ground arith
