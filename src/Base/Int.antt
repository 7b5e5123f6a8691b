-- ===== src/Base/Int.antt =====
-- Integers over the native numbers, with the Euclidean division of `i64`.
use refix.Base.{ℕ, zero, suc, ◌+◌, ◌-◌, ◌*◌, ◌/◌, ◌%◌, Option, none, some, leb, if◌then◌else◌}

pub data ℤ : Type 0 where
  pos : ℕ → ℤ
  negsuc : ℕ → ℤ

-- `a - b`
unfoldable pub diff : ℕ → ℕ → ℤ
diff a b = if leb b a then pos (a - b) else negsuc (b - a - 1)

infixl 60 ◌+ℤ◌
unfoldable pub ◌+ℤ◌ : ℤ → ℤ → ℤ
unfolding diff
pos a +ℤ pos b = pos (a + b)
pos a +ℤ negsuc b = diff a (b + 1)
negsuc a +ℤ pos b = diff b (a + 1)
negsuc a +ℤ negsuc b = negsuc (a + b + 1)

-- `-a`
unfoldable pub negate : ℕ → ℤ
negate zero = pos 0
negate (suc a) = negsuc a

-- Times a number that is not negative.
unfoldable pub scale : ℤ → ℕ → ℤ
unfolding negate
scale (pos a) n = pos (a * n)
scale (negsuc a) n = negate ((a + 1) * n)

-- `div_euclid` by a positive number.
unfoldable pub div_euclid : ℤ → ℕ → ℤ
div_euclid (pos a) n = pos (a / n)
div_euclid (negsuc a) n = negsuc (a / n)

-- `rem_euclid` by a positive number.
unfoldable pub rem_euclid : ℤ → ℕ → ℕ
rem_euclid (pos a) n = a % n
rem_euclid (negsuc a) n = n - 1 - a % n

abbrev pub i64_max : ℕ
i64_max = 9223372036854775807

-- A result of type `i64`, if it is one.
unfoldable pub checked_i64 : ℤ → Option ℤ
checked_i64 (pos a) = if leb a i64_max then some (pos a) else none
checked_i64 (negsuc a) = if leb a i64_max then some (negsuc a) else none

-- `u16::try_from`
unfoldable pub as_u16 : ℤ → Option ℕ
as_u16 (pos a) = if leb a 65535 then some a else none
as_u16 (negsuc a) = none
