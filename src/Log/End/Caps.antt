-- ===== src/Log/End/Caps.antt =====
-- log/end.rs, `cap`: the bytes that a message can hold are the first ones.
use refix.Base.{
  ℕ, zero, suc, ◌-◌, ◌≤◌, min, ◌≡◌, refl, sym, ◌∙◌, subst, inl, inr, Bool, true, false, ◌&&◌, some,
  [], ◌∷◌, arith, Bool-cases, length, get_elem?, take, last?, length-take, Bytes,
}
use refix.Tokenizer.{is_byte}
use refix.Log.End.{max_message_len, cap}
use refix.Log.End.Lines.{Opening, take-Opening, Opening-trans}
use refix.Log.End.Within.{IsStarted}

pub cap-length :
    (bytes : Bytes) (at_end : Bool)
    → (length (cap bytes at_end).0 ≤ length bytes) × (length (cap bytes at_end).0 ≤ 1048576)
unfolding cap
cap-length bytes at_end = elim (Bool-cases (at_end && is_byte (last? bytes) 13)) [
  | inl cut ↦ rw cut (
      let kept = take (length bytes - 1) bytes in
      let size = length-take (length bytes - 1) bytes in
      let capped = length-take (min (length kept) 1048576) kept in
      (omega (arith, size, capped), omega (arith, size, capped)))
  | inr whole ↦ rw whole (
      let capped = length-take (min (length bytes) 1048576) bytes in
      (omega (arith, capped), omega (arith, capped)))
]

-- Where more bytes may join those that a message can hold, more can arrive.
pub cap-waiting : (bytes : Bytes) (at_end : Bool) → (cap bytes at_end).1 ≡ false → at_end ≡ false
unfolding cap
cap-waiting bytes true h = cc
cap-waiting bytes false h = refl

pub cap-Opening : (bytes : Bytes) (at_end : Bool) → Opening (cap bytes at_end).0 bytes
unfolding cap
cap-Opening bytes at_end = elim (Bool-cases (at_end && is_byte (last? bytes) 13)) [
  | inr whole ↦ rw whole (take-Opening (min (length bytes) max_message_len) bytes)
  | inl cut ↦ rw cut (
      let kept = take (length bytes - 1) bytes in
      let n = min (length kept) max_message_len in
      Opening-trans (take n kept) kept bytes (omega (arith, length-take n kept))
        (take-Opening n kept) (take-Opening (length bytes - 1) bytes))
]

take-first : (n : ℕ) (xs : Bytes) → 1 ≤ n → get_elem? (take n xs) 0 ≡ get_elem? xs 0
take-first zero xs h = absurd (omega arith)
take-first (suc n) [] h = refl
take-first (suc n) (x ∷ xs) h = refl

opened-first : (rest : Bytes) (at_end : Bool) → get_elem? (cap (b'8' ∷ rest) at_end).0 0 ≡ some b'8'
unfolding cap
opened-first [] true = refl
opened-first [] false = refl
opened-first (x ∷ rest) at_end =
    let bytes : Bytes = b'8' ∷ x ∷ rest in
    elim (Bool-cases (at_end && is_byte (last? bytes) 13)) [
      | inr whole ↦ rw whole (take-first (min (length bytes) max_message_len) bytes (omega arith))
      | inl cut ↦
          let kept = take (length bytes - 1) bytes in
          let size = length-take (length bytes - 1) bytes in
          rw cut (
            take-first (min (length kept) max_message_len) kept (omega (arith, size))
            ∙ take-first (length bytes - 1) bytes (omega arith))
    ]

-- What a message opens with is not cut off.
pub cap-first :
    (bytes : Bytes) (sep : ℕ) (at_end : Bool)
    → IsStarted bytes sep
    → get_elem? (cap bytes at_end).0 0 ≡ some b'8'
cap-first bytes sep at_end is =
    subst (λ u. get_elem? (cap u at_end).0 0 ≡ some b'8') (sym is.opens)
      (opened-first is.rest at_end)
