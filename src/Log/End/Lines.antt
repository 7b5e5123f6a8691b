-- ===== src/Log/End/Lines.antt =====
-- log/end.rs: the line break that a record takes behind its message.
use mathlib.Core.Option.{some-injective}
use refix.Base.Finds.{get_elem?-take}
use refix.Base.{
  ℕ, zero, suc, ◌+◌, ◌-◌, ◌≤◌, ◌<◌, ◌≡◌, refl, sym, ap, ◌∙◌, subst, some, [], ◌∷◌, arith, length,
  get_elem?, take, drop, length-take, Bytes, byte_at,
}

-- `\n`, `\r\n` or nothing.
pub data IsLineEnd : Bytes → Type 0 where
  no_break : IsLineEnd []
  newline : IsLineEnd (10 ∷ [])
  return_newline : IsLineEnd (13 ∷ 10 ∷ [])

-- The first bytes of `bytes` are `capped`.
abbrev pub Opening : Bytes → Bytes → Type 0
Opening capped bytes = (i : ℕ) → i < length capped → get_elem? bytes i ≡ get_elem? capped i

pub take-Opening : (n : ℕ) (xs : Bytes) → Opening (take n xs) xs
take-Opening n xs i h = sym (get_elem?-take n xs i (omega (arith, h, length-take n xs)))

pub Opening-trans : (a b c : Bytes) → length a ≤ length b → Opening a b → Opening b c → Opening a c
Opening-trans a b c le ab bc i h = bc i (omega (arith, h, le)) ∙ ab i h

one_byte : (xs : Bytes) (i a : ℕ) → get_elem? xs i ≡ some a → take 1 (drop i xs) ≡ a ∷ []
one_byte [] i a h = cc
one_byte (x ∷ xs) zero a h = ap (λ u. u ∷ []) (some-injective x a h)
one_byte (x ∷ xs) (suc i) a h = one_byte xs i a h

two_bytes :
    (xs : Bytes) (i a b : ℕ)
    → get_elem? xs i ≡ some a
    → get_elem? xs (suc i) ≡ some b
    → take 2 (drop i xs) ≡ a ∷ b ∷ []
two_bytes [] i a b h k = cc
two_bytes (x ∷ xs) zero a b h k =
    ap (λ u. u ∷ take 1 xs) (some-injective x a h) ∙ ap (◌∷◌ a) (one_byte xs zero b k)
two_bytes (x ∷ xs) (suc i) a b h k = two_bytes xs i a b h k

pub nothing_left : (bytes : Bytes) (len : ℕ) → IsLineEnd (take (len - len) (drop len bytes))
nothing_left bytes len = let e : len - len ≡ 0 = omega arith in rw e no_break

pub newline_left :
    (bytes : Bytes) (at : ℕ)
    → get_elem? bytes at ≡ some 10
    → IsLineEnd (take (at + 1 - at) (drop at bytes))
newline_left bytes at h =
    let e : at + 1 - at ≡ 1 = omega arith in
    rw e (subst IsLineEnd (sym (one_byte bytes at 10 h)) newline)

pub both_left :
    (bytes : Bytes) (at : ℕ)
    → get_elem? bytes at ≡ some 13
    → get_elem? bytes (suc at) ≡ some 10
    → IsLineEnd (take (at + 2 - at) (drop at bytes))
both_left bytes at h k =
    let e : at + 2 - at ≡ 2 = omega arith in
    rw e (subst IsLineEnd (sym (two_bytes bytes at 13 10 h k)) return_newline)

pub byte_at-get : (xs : Bytes) (i : ℕ) → i < length xs → get_elem? xs i ≡ some (byte_at xs i)
byte_at-get [] i h = absurd (omega arith)
byte_at-get (x ∷ xs) zero h = refl
byte_at-get (x ∷ xs) (suc i) h = byte_at-get xs i (omega arith)
