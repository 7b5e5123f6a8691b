-- ===== src/Log/CaretA/Lines.antt =====
-- log/caret_a.rs, `copy_message`: the line that is copied, and its copy, open with the bytes' `8`.
use mathlib.Core.Option.{some-injective}
use refix.Base.Appends.{get_elem?-some_lt}
use refix.Base.{
  ℕ, zero, suc, ◌+◌, ◌-◌, ◌≤◌, ◌<◌, ◌≡◌, refl, sym, ap, ◌∙◌, subst, ◌≢◌, inl, inr, Bool, true,
  false, ◌&&◌, ◌||◌, Option, none, some, [], ◌∷◌, arith, ◌==◌, Bool-cases, length, get_elem?, take,
  drop, last?, length-take, Bytes, byte_at,
}
use refix.Tokenizer.{is_byte}
use refix.Log.End.Lines.{IsLineEnd, take-Opening, nothing_left, newline_left, both_left}
use refix.Log.CaretA.{restore_soh, without_cr, line_of}
use refix.Base.Finds.{get_elem?-take}
use refix.Log.End.{max_message_len}

-- The bytes open with `8`.
abbrev pub Opens8 : Bytes → Type 0
Opens8 bytes = (rest : Bytes) × (bytes ≡ b'8' ∷ rest)

-- The first `n` bytes are the line, and the record takes a line break behind it or nothing. There is
-- a line where no more bytes can arrive.
pub data MayLine (bytes : Bytes) (at_end : Bool) : Option (Bytes × ℕ) → Type 0 where
  no_line : at_end ≡ false → MayLine bytes at_end none
  line :
      {text : Bytes} {consumed : ℕ} (n : ℕ)
      → text ≡ take n bytes
      → Opens8 text
      → n ≤ consumed
      → consumed ≤ length bytes
      → IsLineEnd (take (consumed - n) (drop n bytes))
      → MayLine bytes at_end (some (text, consumed))

pub restore_soh-Opens8 : (text : Bytes) → Opens8 text → Opens8 (restore_soh text)
unfolding restore_soh
restore_soh-Opens8 [] (rest, h) = cc
restore_soh-Opens8 (b ∷ []) (rest, h) = ([], ap (λ u. byte_at u 0 ∷ []) h)
restore_soh-Opens8 (b ∷ c ∷ text) (rest, h) =
    let is : b ≡ b'8' = ap (λ u. byte_at u 0) h in
    let plain : ((b == b'^') && (c == b'A')) ≡ false = ground (arith, is) in
    (restore_soh (c ∷ text), rw (plain, restore_soh) (ap (λ u. u ∷ restore_soh (c ∷ text)) is))

take-Opens8 : (n : ℕ) (bytes : Bytes) → Opens8 bytes → 0 < n → Opens8 (take n bytes)
take-Opens8 zero bytes o lt = absurd (omega (arith, lt))
take-Opens8 (suc n) bytes (rest, h) lt = (take n rest, ap (take (suc n)) h)

pub take-within : (n m : ℕ) (xs : Bytes) → n ≤ m → take n (take m xs) ≡ take n xs
take-within zero m xs h = refl
take-within (suc n) zero xs h = absurd (omega (arith, h))
take-within (suc n) (suc m) [] h = refl
take-within (suc n) (suc m) (x ∷ xs) h = ap (◌∷◌ x) (take-within n m xs (omega (arith, h)))

take_whole : (xs : Bytes) → take (length xs) xs ≡ xs
take_whole [] = refl
take_whole (x ∷ xs) = ap (◌∷◌ x) (take_whole xs)

last-get :
    (xs : Bytes) (b : ℕ) → is_byte (last? xs) b ≡ true → get_elem? xs (length xs - 1) ≡ some b
last-get [] b h = cc
last-get (x ∷ []) b h = ap some (ground (arith, h))
last-get (x ∷ y ∷ xs) b h =
    let e : length (x ∷ y ∷ xs) - 1 ≡ suc (length (y ∷ xs) - 1) = omega arith in
    rw e (last-get (y ∷ xs) b h)

return_left :
    (bytes : Bytes) (at : ℕ)
    → 0 < at
    → get_elem? bytes (at - 1) ≡ some 13
    → get_elem? bytes at ≡ some 10
    → IsLineEnd (take (at + 1 - (at - 1)) (drop (at - 1) bytes))
return_left bytes zero lt h k = absurd (omega (arith, lt))
return_left bytes (suc at) lt h k =
    let e : suc at - 1 ≡ at = omega arith in
    let n : suc at + 1 - at ≡ at + 2 - at = omega arith in
    let h' : get_elem? bytes at ≡ some 13 = ap (get_elem? bytes) (sym e) ∙ h in
    rw (e, n) (both_left bytes at h' k)

module _ (bytes : Bytes) (m : ℕ) (opens : Opens8 bytes) where
  opening_byte : (b at : ℕ) → get_elem? bytes at ≡ some b → b ≢ b'8' → 0 < at
  opening_byte b zero h differs =
      let (rest, o) = opens in
      absurd (differs (some-injective b b'8' (sym h ∙ ap (λ u. get_elem? u 0) o)))
  opening_byte b (suc at) h differs = omega arith

  not_first : (b : ℕ) → b < 48 → b ≢ b'8'
  not_first b lt e = absurd (omega (arith, lt, e))

  returned-MayLine :
      {at_end : Bool} (at : ℕ)
      → get_elem? bytes at ≡ some 10
      → is_byte (last? (take at bytes)) 13 ≡ true
      → MayLine bytes at_end (some (take (at - 1) (take at bytes), at + 1))
  returned-MayLine at there cr =
      let inside = get_elem?-some_lt bytes at 10 there in
      let size : length (take at bytes) - 1 ≡ at - 1 =
        omega (arith, length-take at bytes, inside) in
      let first = opening_byte 10 at there (not_first 10 (omega arith)) in
      let return : get_elem? bytes (at - 1) ≡ some 13 =
        sym (get_elem?-take at bytes (at - 1) (omega (arith, first)))
        ∙ ap (get_elem? (take at bytes)) (sym size)
        ∙ last-get (take at bytes) 13 cr in
      let second = opening_byte 13 (at - 1) return (not_first 13 (omega arith)) in
      let same = take-within (at - 1) at bytes (omega arith) in
      line (at - 1) same (subst Opens8 (sym same) (take-Opens8 (at - 1) bytes opens second))
        (omega arith) (omega (arith, inside)) (return_left bytes at first return there)

  broken-MayLine :
      {at_end : Bool} (at : ℕ)
      → get_elem? (take m bytes) at ≡ some 10
      → MayLine bytes at_end (some (without_cr (take at (take m bytes)), at + 1))
  broken-MayLine at h =
      let lt = get_elem?-some_lt (take m bytes) at 10 h in
      let there : get_elem? bytes at ≡ some 10 = take-Opening m bytes at lt ∙ h in
      let inside = get_elem?-some_lt bytes at 10 there in
      let same = take-within at m bytes (omega (arith, lt, length-take m bytes)) in
      let size : length (take at bytes) ≡ at = omega (arith, length-take at bytes, inside) in
      let first = opening_byte 10 at there (not_first 10 (omega arith)) in
      rw same (elim (Bool-cases (is_byte (last? (take at bytes)) 13)) [
        | inr plain ↦ rw plain (
            line at refl (take-Opens8 at bytes opens first) (omega arith) (omega (arith, inside))
              (newline_left bytes at there))
        | inl cr ↦ rw (cr, size) (returned-MayLine at there cr)
      ])

  whole-MayLine :
      {at_end : Bool} → 0 < m → MayLine bytes at_end (some (take m bytes, length (take m bytes)))
  whole-MayLine lt =
      let n = length (take m bytes) in
      line n
        (sym (take_whole (take m bytes))
          ∙ take-within n m bytes (omega (arith, length-take m bytes)))
        (take-Opens8 m bytes opens lt) (omega arith) (omega (arith, length-take m bytes))
        (nothing_left bytes n)

pub line_of-MayLine :
    (bytes : Bytes) (m : ℕ) (at_end : Bool) (o : Option ℕ)
    → Opens8 bytes
    → 0 < m
    → ((at : ℕ) → o ≡ some at → get_elem? (take m bytes) at ≡ some 10)
    → MayLine bytes at_end (line_of (take m bytes) at_end o)
unfolding line_of
line_of-MayLine bytes m at_end (some at) opens lt h = broken-MayLine bytes m opens at (h at refl)
line_of-MayLine bytes m at_end none opens lt h =
    elim (Bool-cases (at_end || (length (take m bytes) == max_message_len))) [
      | inl ready ↦ rw ready (whole-MayLine bytes m opens lt)
      | inr waits ↦ rw waits (no_line (ground (arith, waits)))
    ]
