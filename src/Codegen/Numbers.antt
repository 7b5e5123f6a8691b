-- ===== src/Codegen/Numbers.antt =====
-- crates/refix-codegen: the numbers that `claim_value` writes behind names.
use mathlib.Core.List.{append_cancel_left}
use refix.Codegen.Namespace.Hits.{AreDifferent}
use refix.Codegen.Rust.Naming.{numbered_variant}
use refix.Codegen.Python.Naming.{numbered_member}
use refix.Base.Int.{pos}
use refix.Base.Decimals.{to_string, u32_end, to_string-injective}
use refix.Base.{ℕ, ◌+◌, ◌≤◌, ◌≡◌, ◌∷◌, arith}
use refix.Dictionary.Spec.{Name}

pub numbered_variant-AreDifferent :
    (name : Name) (limit : ℕ)
    → limit + 2 ≤ u32_end
    → AreDifferent (λ k. numbered_variant name (2 + k)) limit
unfolding numbered_variant
numbered_variant-AreDifferent name limit le i j hi hj e = omega (
  arith,
  to_string-injective (2 + i) (2 + j) (omega arith) (omega arith) (append_cancel_left name _ _ e),
)

pub numbered_member-AreDifferent :
    (name : Name) (limit : ℕ)
    → limit + 2 ≤ u32_end
    → AreDifferent (λ k. numbered_member name (2 + k)) limit
unfolding numbered_member
numbered_member-AreDifferent name limit le i j hi hj e =
    let behind : b'_' ∷ to_string (pos (2 + i)) ≡ b'_' ∷ to_string (pos (2 + j)) =
      append_cancel_left name _ _ e in
    omega (arith, to_string-injective (2 + i) (2 + j) (omega arith) (omega arith) (cc behind))
