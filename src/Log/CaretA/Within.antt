-- ===== src/Log/CaretA/Within.antt =====
-- log/caret_a.rs, `copy_message`: it returns, and the end that it gives lies within the bytes.
use refix.Base.{
  ℕ, suc, ◌-◌, ◌≤◌, min, ◌≡◌, refl, sym, ap, ◌∙◌, inl, inr, Bool, true, false, ◌&&◌, Option, none,
  some, [], ◌∷◌, arith, ◌==◌, Bool-cases, length, take, drop, length-take, Bytes, position,
}
use refix.Base.Finds.{position-get}
use refix.Framing.{soh}
use refix.Tokenizer.{Tokenizer}
use refix.Log.End.{max_message_len, End}
use refix.Log.End.Within.{IsWithin, MayEnd, no_end, ends, bare-IsWithin}
use refix.Log.End.Lines.{IsLineEnd}
use refix.Log.End.Finds.{find_end-MayEnd}
use refix.Log.CaretA.{restore_soh, original_offset, line_of, in_line, copy_line, copy_message}
use refix.Log.CaretA.Offsets.{original_offset-restores}
use refix.Log.CaretA.Lines.{
  Opens8, MayLine, no_line, line, restore_soh-Opens8, take-within, line_of-MayLine,
}

-- An end within the bytes, and the message up to there with SOH restored; there is one where no more
-- bytes can arrive.
pub data MayCopy (bytes : Bytes) (at_end : Bool) : Option (End × Bytes) → Type 0 where
  no_copy : at_end ≡ false → MayCopy bytes at_end none
  copy :
      {e : End} {copied : Bytes}
      → IsWithin bytes e
      → copied ≡ restore_soh (take e.len bytes)
      → MayCopy bytes at_end (some (e, copied))

pub length-restore_soh : (text : Bytes) → length (restore_soh text) ≤ length text
unfolding restore_soh
length-restore_soh [] = omega arith
length-restore_soh (b ∷ []) = omega arith
length-restore_soh (b ∷ c ∷ rest) = elim (Bool-cases ((b == b'^') && (c == b'A'))) [
  | inl caret ↦ rw (caret, restore_soh) (omega (arith, length-restore_soh rest))
  | inr plain ↦ rw (plain, restore_soh) (omega (arith, length-restore_soh (c ∷ rest)))
]

in_line-MayCopy :
    (bytes text : Bytes) (at_end : Bool) (n consumed : ℕ) (o : Option End)
    → MayEnd (restore_soh text) true o
    → text ≡ take n bytes
    → n ≤ consumed
    → consumed ≤ length bytes
    → IsLineEnd (take (consumed - n) (drop n bytes))
    → (r : Option (End × Bytes)) × (in_line text consumed (restore_soh text) (some o) ≡ some r)
      × MayCopy bytes at_end r
in_line-MayCopy bytes text at_end n consumed none (no_end e) same le k left = cc
in_line-MayCopy bytes text at_end n consumed (some e) (ends i) same le k left =
    let (inside, restores) = original_offset-restores text e.len in
    let len = original_offset text (restore_soh text) e.len in
    let size : length text ≡ n = ap length same ∙ omega (arith, length-take n bytes, le, k) in
    let logged : take len text ≡ take len bytes =
      ap (take len) same ∙ take-within len n bytes (omega (arith, inside, size)) in
    let copied = sym restores ∙ ap restore_soh logged in
    let one : 1 ≤ len = omega (
      arith,
      ap length restores,
      i.nonempty,
      i.ordered,
      i.inside,
      length-restore_soh (take len text),
      length-take len text,
      length-take e.len (restore_soh text),
    ) in
    elim (Bool-cases (len == length text)) [
      | inr inner ↦ (
        _,
        refl,
        rw inner (
            copy (bare-IsWithin bytes len e.truncated one (omega (arith, inside, size, le, k)))
              copied),
      )
      | inl whole ↦
          let at : len ≡ n = ground (arith, whole, size) in
          (
            _,
            refl,
            rw whole (
                copy
                  (record {
                    nonempty = one;
                    ordered = omega (arith, at, le);
                    inside = k;
                    line_end = rw at left;
                  })
                  copied),
          )
    ]

copy_line-MayCopy :
    (t : Tokenizer) (bytes : Bytes) (at_end : Bool) (o : Option (Bytes × ℕ))
    → MayLine bytes at_end o
    → (r : Option (End × Bytes)) × (copy_line t o ≡ some r) × MayCopy bytes at_end r
copy_line-MayCopy t bytes at_end none (no_line w) = (none, refl, no_copy w)
copy_line-MayCopy t bytes at_end (some (text, consumed)) (line n same opens le k left) =
    let (rest, o) = restore_soh-Opens8 text opens in
    let (e, found_e, may) =
      find_end-MayEnd t (restore_soh text) soh none true
        (record { rest = rest; opens = o; differs = λ e. absurd (omega (arith, e)) }) in
    let (r, made, c) = in_line-MayCopy bytes text at_end n consumed e may same le k left in
    (r, rw found_e made, c)

-- The copy of a message is made, within the bytes, or waits for its line.
pub copy_message-MayCopy :
    (t : Tokenizer) (bytes : Bytes) (at_end : Bool)
    → Opens8 bytes
    → (r : Option (End × Bytes)) × (copy_message t bytes at_end ≡ some r) × MayCopy bytes at_end r
unfolding copy_message
copy_message-MayCopy t bytes at_end (rest, opens) =
    let m = min (length bytes) max_message_len in
    let found = position (λ b. b == 10) (take m bytes) in
    let size : length bytes ≡ suc (length rest) = ap length opens in
    copy_line-MayCopy t bytes at_end (line_of (take m bytes) at_end found) (
      line_of-MayLine bytes m at_end found (rest, opens) (omega (arith, size))
        (λ at there.
          (let (b, here, is) = position-get (λ b. b == 10) (take m bytes) at there in
            let is_break : b ≡ 10 = ground (arith, is) in here ∙ ap some is_break)))
