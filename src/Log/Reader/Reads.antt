-- ===== src/Log/Reader/Reads.antt =====
-- log.rs, `LogReader::read`: what it gives for a buffer, and the cap on a prefix.
use refix.Base.{
  ℕ, ◌+◌, ◌-◌, ◌≤◌, min, ◌≡◌, refl, ap, ◌≢◌, ◌⊎◌, inl, inr, Bool, true, false, not, ◌||◌, Option,
  none, some, [], ◌∷◌, ◌++◌, arith, leb, Bool-cases, length, take, drop, Bytes,
}
use refix.Tokenizer.{tokenize_fields}
use refix.Log.Start.{Separator, byte, caret_a, Start, NextStart, find_start}
use refix.Log.Start.Found.{separator_byte}
use refix.Log.End.{End}
use refix.Log.End.Lines.{IsLineEnd}
use refix.Log.CaretA.{restore_soh}
use refix.Log.Diagnose.{prefix_truncated, diagnose}
use refix.Log.Reader.{max_prefix_len, LogReader, LogRecord, cap_prefix, prefix_end, end_of_message}

-- Where the search for the next message of a reader leads.
abbrev pub next_start : LogReader → Bool → NextStart
next_start r at_end = find_start r.buf r.searched (length r.buf) r.separator at_end

-- What the search for the end of a message at `s` gives.
abbrev pub next_end : LogReader → Bool → Start → Option (Option (End × Option Bytes × ℕ))
next_end r at_end s = end_of_message r.tokenizer (drop s.at r.buf) s.separator r.separator at_end

-- The bytes of a message that is logged as `logged`.
abbrev pub as_message : Separator → Bytes → Bytes
as_message (byte b) logged = logged
as_message caret_a logged = restore_soh logged

-- The bytes in front of the prefix's last MiB.
abbrev pub over_cap : LogReader → Bool → Bytes
over_cap r at_end = take (prefix_end (next_start r at_end) (length r.buf) - 1048576) r.buf

-- The bytes `dropped` went, which the reader will report.
abbrev pub Reported : Bytes → Bool → Type 0
Reported dropped flag = (dropped ≡ []) ⊎ (flag ≡ true)

-- No message starts, or its end is not there yet, and more bytes can arrive.
abbrev pub Unready : LogReader → Bool → Type 0
Unready r at_end =
    ((s : Start) → next_start r at_end ≢ NextStart.found s)
    ⊎ ((s : Start) × (next_start r at_end ≡ NextStart.found s)
        × (next_end r at_end s ≡ some none)
        × (at_end ≡ false))

-- A record `entry` of the message that starts at `s` and is logged as `logged`, and the line's end
-- that it takes.
pub record IsEntry (r : LogReader) (at_end : Bool) (dropped : Bytes) (entry : LogRecord)
    (logged line_end : Bytes) : Type 0 where
  pub at : Start
  pub ending : End
  pub copied : Option Bytes
  pub sep : ℕ
  pub starts : next_start r at_end ≡ NextStart.found at
  pub placed : at.at ≡ length dropped + length entry.prefix
  pub ends_there : next_end r at_end at ≡ some (some (ending, copied, sep))
  pub whole : length logged ≡ ending.len
  pub nonempty : 1 ≤ length logged
  pub breaks : IsLineEnd line_end
  pub bytes : entry.message.bytes ≡ as_message at.separator logged
  pub fields :
      tokenize_fields r.tokenizer entry.message.bytes (separator_byte at.separator)
      ≡ some entry.message.fields
  pub says :
      (r.prefix_truncated ≡ true) ⊎ (dropped ≢ [])
      → entry.diagnostics
        ≡ prefix_truncated
          ∷ diagnose entry.message.bytes entry.message.fields
              (separator_byte at.separator)
              ending.truncated
  pub silent :
      r.prefix_truncated ≡ false
      → dropped ≡ []
      → entry.diagnostics
        ≡ diagnose entry.message.bytes entry.message.fields
            (separator_byte at.separator)
            ending.truncated

-- What a read does to the buffer. Bytes are dropped from a prefix that is over the cap, and the
-- record after them says so first. A record takes its prefix, its message and the line's end.
pub data IsLogRead (r : LogReader) (at_end : Bool) : Option LogRecord → LogReader → Type 0 where
  waits :
      {after : LogReader}
      → r.buf ≡ over_cap r at_end ++ after.buf
      → Reported (over_cap r at_end) after.prefix_truncated
      → (r.prefix_truncated ≡ true → after.prefix_truncated ≡ true)
      → Unready r at_end
      → IsLogRead r at_end none after
  takes :
      {entry : LogRecord} {after : LogReader} (logged line_end : Bytes)
      → r.buf ≡ over_cap r at_end ++ (entry.prefix ++ (logged ++ (line_end ++ after.buf)))
      → length entry.prefix ≤ 1048576
      → IsEntry r at_end (over_cap r at_end) entry logged line_end
      → IsLogRead r at_end (some entry) after

-- The reader behind the search for a start and the cap on its prefix of `len` bytes.
abbrev pub capped : LogReader → ℕ → LogReader
capped r len = record r {
  buf = drop (len - 1048576) r.buf;
  searched = min len 1048576;
  prefix_truncated = not (leb len 1048576) || r.prefix_truncated;
}

pub flag_kept :
    (r : LogReader) (len : ℕ) → r.prefix_truncated ≡ true → (capped r len).prefix_truncated ≡ true
flag_kept r len before =
    rw before
      (elim (Bool-cases (leb len 1048576)) [ inl short ↦ rw short refl | inr long ↦ rw long refl ])

pub cut-Reported :
    (r : LogReader) (len : ℕ)
    → Reported (take (len - 1048576) r.buf) (capped r len).prefix_truncated
cut-Reported r len = elim (Bool-cases (leb len 1048576)) [
  | inl short ↦
      let none_over : len - 1048576 ≡ 0 = ground (arith, short) in
      inl (ap (λ n. take n r.buf) none_over)
  | inr long ↦ inr (rw long refl)
]

pub cap_prefix-capped :
    (r : LogReader) (len : ℕ)
    → ((cap_prefix r len).0 ≡ min len 1048576)
      × (record (cap_prefix r len).1 { searched = (cap_prefix r len).0 } ≡ capped r len)
unfolding cap_prefix
cap_prefix-capped r len = elim (Bool-cases (leb len max_prefix_len)) [
  | inl short ↦
      let none_over : len - 1048576 ≡ 0 = ground (arith, short) in
      let all_of : min len 1048576 ≡ len = ground (arith, short) in
      rw (short, none_over, all_of) (refl, refl)
  | inr long ↦
      let most : min len 1048576 ≡ 1048576 = ground (arith, long) in rw (long, most) (refl, refl)
]
