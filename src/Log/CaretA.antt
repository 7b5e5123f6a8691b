-- ===== src/Log/CaretA.antt =====
-- crates/refix-message/src/log/caret_a.rs: messages logged with `^A` for SOH.
pub mod Offsets
pub mod Lines
pub mod Within
use refix.Base.{
  ℕ, ◌+◌, ◌-◌, min, Bool, true, false, ◌&&◌, ◌||◌, Option, none, some, [], ◌∷◌, ◌==◌, if◌then◌else◌,
  length, take, last?, Bytes, byte_at, position,
}
use refix.Framing.{soh}
use refix.Tokenizer.{Tokenizer, is_byte}
use refix.Log.End.{max_message_len, End, find_end}

-- The loop that copies a line with SOH for each `^A`, front to back.
unfoldable pub restore_soh : Bytes → Bytes
restore_soh [] = []
restore_soh (b ∷ []) = b ∷ []
restore_soh (b ∷ c ∷ rest) = elim ((b == b'^') && (c == b'A')) [
  | true ↦ soh ∷ restore_soh rest
  | false ↦ b ∷ restore_soh (c ∷ rest)
]

-- The loop of `original_offset` over the bytes of the copy.
unfoldable pub original_from : Bytes → ℕ → Bytes → ℕ
original_from line at [] = at
original_from line at (b ∷ bytes) =
    original_from line (at + (if (b == soh) && (byte_at line at == b'^') then 2 else 1)) bytes

-- The offset in `line` of the byte at `offset` in its `copy`.
unfoldable pub original_offset : Bytes → Bytes → ℕ → ℕ
unfolding original_from
original_offset line copy offset = original_from line 0 (take offset copy)

-- `strip_suffix(b"\r").unwrap_or(line)`
abbrev pub without_cr : Bytes → Bytes
without_cr line = if is_byte (last? line) 13 then take (length line - 1) line else line

-- The line at the start of the bytes that a message can hold, and the bytes its record takes.
unfoldable pub line_of : Bytes → Bool → Option ℕ → Option (Bytes × ℕ)
line_of capped at_end (some at) = some (without_cr (take at capped), at + 1)
line_of capped at_end none =
    if at_end || (length capped == max_message_len) then some (capped, length capped) else none

-- The rest of `copy_message`, on the end that was found in the copy.
abbrev pub in_line : Bytes → ℕ → Bytes → Option (Option End) → Option (Option (End × Bytes))
in_line line line_consumed copy none = none
in_line line line_consumed copy (some none) = some none
in_line line line_consumed copy (some (some e)) =
    let len = original_offset line copy e.len in
    some (
      some (
        record {
          len = len;
          consumed = if len == length line then line_consumed else len;
          truncated = e.truncated;
        },
        take e.len copy,
      ))

abbrev pub copy_line : Tokenizer → Option (Bytes × ℕ) → Option (Option (End × Bytes))
copy_line t none = some none
copy_line t (some (line, line_consumed)) =
    let copy = restore_soh line in in_line line line_consumed copy (find_end t copy soh none true)

-- The message at the start of `bytes` as a copy with SOH restored; `some none` until its line
-- break arrives, and `none` if a slice of `find_end` panics or the fuel ran out.
unfoldable pub copy_message : Tokenizer → Bytes → Bool → Option (Option (End × Bytes))
unfolding line_of restore_soh original_offset find_end
copy_message t bytes at_end =
    let capped = take (min (length bytes) max_message_len) bytes in
    copy_line t (line_of capped at_end (position (λ b. b == 10) capped))
