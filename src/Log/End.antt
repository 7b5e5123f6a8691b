-- ===== src/Log/End.antt =====
-- crates/refix-message/src/log/end.rs: where a message ends in a log.
--
-- `none` means that a slice panics, or that the loop of `walk`, which runs on fuel, ran out of it;
-- `some none` is the source's `None`, that more bytes must arrive.
pub mod Within
pub mod Caps
pub mod Fields
pub mod Lines
pub mod Finds
pub mod Walks
use mathlib.Core.Option
use refix.Base.{
  ℕ, zero, suc, ◌+◌, ◌-◌, min, max, Bool, true, false, not, ◌&&◌, ◌||◌, Option, none, some, [], ◌∷◌,
  map, ltb, leb, ◌==◌, if◌then◌else◌, length, get_elem?, take, drop, last?, Bytes, slice, byte_at,
  equal, starts_with, position, count_while, is_digit,
}
use refix.Framing.{max_body_length_digits}
use refix.Tags.{Tag}
use refix.Tokenizer.{
  Tokenizer, RawField, parse_u32, is_byte, unwrap_or, next_field, pending_data_len,
}
use refix.Log.Start.{NextStart, find_start}

-- `CHECKSUM`
abbrev pub checksum_tag : Tag
checksum_tag = 10

-- `MAX_MESSAGE_LEN`
abbrev pub max_message_len : ℕ
max_message_len = 1048576

-- Where a message ends in a log.
pub record End : Type 0 where
  pub len : ℕ
  pub consumed : ℕ
  pub truncated : Bool

pub data BodyLengthEnd : Type 0 where
  found : End → BodyLengthEnd
  not_found : BodyLengthEnd
  pending : BodyLengthEnd

-- The bytes of `bytes` the message can hold, and whether no more can join them.
unfoldable pub cap : Bytes → Bool → Bytes × Bool
cap bytes at_end =
    let kept =
      if at_end && is_byte (last? bytes) 13 then take (length bytes - 1) bytes else bytes in
    let capped = take (min (length kept) max_message_len) kept in
    (capped, at_end || (length capped == max_message_len))

abbrev pub whole_message : ℕ → ℕ → Option End
whole_message len consumed = some (record { len = len; consumed = consumed; truncated = false })

-- `after_message`, on the bytes behind the message.
unfoldable pub after_in : Bytes → ℕ → Bool → Option End
after_in [] len at_end = if not at_end then none else whole_message len len
after_in (b ∷ []) len at_end =
    if (b == 13) && not at_end
    then none
    else if b == 10
    then whole_message len (len + 1)
    else whole_message len len
after_in (b ∷ c ∷ _) len at_end =
    if b == 10
    then whole_message len (len + 1)
    else if (b == 13) && (c == 10)
    then whole_message len (len + 2)
    else whole_message len len

-- The end of a message whose CheckSum field ends at `len`, taking one line break after it.
unfoldable pub after_message : Bytes → ℕ → Bool → Option End
unfolding after_in
after_message bytes len at_end = after_in (drop len bytes) len at_end

-- The end of a message at the line break at `at`, which its record takes.
unfoldable pub at_line_break : Bytes → ℕ → Bool → End
at_line_break bytes at truncated = record {
  len = if byte_at bytes (at - 1) == 13 then at - 1 else at;
  consumed = at + 1;
  truncated = truncated;
}

abbrev pub pending_unless : Bool → BodyLengthEnd
pending_unless final = if final then BodyLengthEnd.not_found else BodyLengthEnd.pending

abbrev pub found_or_pending : Option End → BodyLengthEnd
found_or_pending none = BodyLengthEnd.pending
found_or_pending (some e) = BodyLengthEnd.found e

-- The match on where the value of CheckSum ends.
unfoldable pub value_ends : Bytes → Bytes → Bool → ℕ → Bool → Option ℕ → BodyLengthEnd
value_ends bytes capped final sep at_end (some at) =
    if byte_at capped at == sep
    then found_or_pending (after_message bytes (at + 1) at_end)
    else BodyLengthEnd.found (at_line_break capped at false)
value_ends bytes capped final sep at_end none =
    if final
    then BodyLengthEnd.found
        (record { len = length capped; consumed = length capped; truncated = false })
    else BodyLengthEnd.pending

-- The part of `by_body_length` from the trailer on.
unfoldable pub trailer_at : Bytes → Bytes → Bool → ℕ → Bool → ℕ → BodyLengthEnd
unfolding value_ends
trailer_at bytes capped final sep at_end trailer_start =
    let value_start = trailer_start + 3 in
    if ltb (length capped) (trailer_start + 3)
    then pending_unless final
    else if not (
        equal (slice capped (trailer_start - 1) (trailer_start + 3))
          (sep ∷ b'1' ∷ b'0' ∷ b'=' ∷ []))
    then BodyLengthEnd.not_found
    else value_ends bytes capped final sep at_end (
        Option.map (λ rel. value_start + rel)
          (position (λ b. (b == sep) || (b == 10)) (drop value_start capped)))

-- The match on the byte behind the digits of BodyLength.
unfoldable pub digits_end : Bytes → Bytes → Bool → ℕ → Bool → ℕ → Bytes → Option ℕ → BodyLengthEnd
digits_end bytes capped final sep at_end tag_start digits none = pending_unless final
digits_end bytes capped final sep at_end tag_start digits (some b) =
    if not (b == sep) then BodyLengthEnd.not_found else elim (parse_u32 digits) [
      | none ↦ BodyLengthEnd.not_found
      | some body_length ↦
          trailer_at bytes capped final sep at_end (tag_start + 2 + length digits + 1 + body_length)
    ]

abbrev pub behind : Option ℕ → ℕ → ℕ
behind none len = len
behind (some at) len = at + 1

-- The end BodyLength gives, if it points at a CheckSum field.
unfoldable pub by_body_length : Bytes → ℕ → Bool → BodyLengthEnd
unfolding digits_end
by_body_length bytes sep at_end =
    let (capped, final) = cap bytes at_end in
    let tag_start = behind (position (λ b. b == sep) capped) (length capped) in
    let rest = drop 2 (drop tag_start capped) in
    let digits = count_while is_digit (take (max_body_length_digits + 1) rest) in
    if not (starts_with (drop tag_start capped) (b'9' ∷ b'=' ∷ []))
    then BodyLengthEnd.not_found
    else if ltb max_body_length_digits digits
    then BodyLengthEnd.not_found
    else digits_end bytes capped final sep at_end tag_start (take digits rest)
        (get_elem? rest digits)

-- What the loop of `walk` does with a field: return, go on with its next variables, or panic.
pub data WalkStep : Type 0 where
  panics : WalkStep
  stop : Option End → WalkStep
  go_on : ℕ → Option ℕ → WalkStep

-- Whether a data value may run past the bytes so far.
abbrev pub may_run_on : Option (RawField × ℕ) → Option ℕ → Bool → ℕ → Bool
may_run_on (some (field, after)) (some len) final size =
    not final && leb size (field.value_start + len)
may_run_on (some _) none final size = false
may_run_on none data_len final size = false

abbrev pub is_len : Option ℕ → ℕ → Bool
is_len none n = false
is_len (some len) n = len == n

-- A data value read by its length may hold anything.
abbrev pub checked_end : Option (RawField × ℕ) → Option ℕ → ℕ → ℕ
checked_end none data_len size = size
checked_end (some (field, after)) data_len size =
    if is_len data_len (field.value_end - field.value_start)
    then field.value_start
    else field.value_end

abbrev pub is_checksum : Option (RawField × ℕ) → Bool
is_checksum none = false
is_checksum (some (field, after)) = field.tag == checksum_tag

-- The end of a message that no more bytes can join.
abbrev pub if_final : Bool → End → Option End
if_final final e = if final then some e else none

-- The last part of a round, where no message starts before the field's end and no line ends.
unfoldable pub take_field :
    Tokenizer → Bytes → Bytes → Bool → Bool → Option (RawField × ℕ) → WalkStep
take_field t bytes capped final at_end none =
    stop
      (if_final final (record { len = length capped; consumed = length capped; truncated = true }))
take_field t bytes capped final at_end (some (field, after)) =
    if field.value_end == length capped
    then stop (
        if_final final (record {
          len = length capped;
          consumed = length capped;
          truncated = not (field.tag == checksum_tag);
        }))
    else if field.tag == checksum_tag
    then stop (after_message bytes after at_end)
    else go_on after (pending_data_len t capped field)

-- The match on a start in the field, and then on a line break.
unfoldable pub look_ahead :
    Tokenizer
    → Bytes
    → Bytes
    → Bool
    → Bool
    → Option (RawField × ℕ)
    → Option ℕ
    → NextStart
    → WalkStep
unfolding take_field
look_ahead t bytes capped final at_end next line_break (NextStart.found s) =
    stop (some (record { len = s.at; consumed = s.at; truncated = true }))
look_ahead t bytes capped final at_end next line_break (NextStart.pending _) = stop none
look_ahead t bytes capped final at_end next (some at) NextStart.not_found =
    stop (some (at_line_break capped at (not (is_checksum next))))
look_ahead t bytes capped final at_end next none NextStart.not_found =
    take_field t bytes capped final at_end next

-- One round of the loop of `walk`, on its variables `pos` and `data_len`. The slice
-- `capped[from..checked_end]` panics where its start is behind its end.
unfoldable pub walk_step :
    Tokenizer → Bytes → Bytes → Bool → ℕ → Option ℕ → Bool → ℕ → Option ℕ → WalkStep
unfolding look_ahead
walk_step t bytes capped final sep override at_end pos data_len =
    let next = next_field capped pos data_len sep in
    let until = checked_end next data_len (length capped) in
    let from = max pos 1 in
    let line_break =
      Option.map (λ at. from + at) (position (λ b. b == 10) (slice capped from until)) in
    if may_run_on next data_len final (length capped)
    then stop none
    else if ltb until from
    then panics
    else look_ahead t bytes capped final at_end next line_break
        (find_start bytes from (unwrap_or line_break until) override at_end)

unfoldable pub walk_rounds :
    ℕ → Tokenizer → Bytes → Bytes → Bool → ℕ → Option ℕ → Bool → ℕ → Option ℕ → Option (Option End)
walk_rounds zero t bytes capped final sep override at_end pos data_len = none
walk_rounds (suc fuel) t bytes capped final sep override at_end pos data_len =
    elim (walk_step t bytes capped final sep override at_end pos data_len) [
      | panics ↦ none
      | stop e ↦ some e
      | go_on after len ↦ walk_rounds fuel t bytes capped final sep override at_end after len
    ]

-- Walks the fields of the message at the start of `bytes` to its CheckSum field. Each round moves
-- on by a byte at least.
unfoldable pub walk : Tokenizer → Bytes → ℕ → Option ℕ → Bool → Option (Option End)
unfolding walk_rounds
walk t bytes sep override at_end =
    let (capped, final) = cap bytes at_end in
    walk_rounds (length capped + 2) t bytes capped final sep override at_end 0 none

-- Where the message at the start of `bytes` ends, or `some none` until more bytes arrive.
unfoldable pub find_end : Tokenizer → Bytes → ℕ → Option ℕ → Bool → Option (Option End)
unfolding by_body_length walk
find_end t bytes sep override at_end = elim (by_body_length bytes sep at_end) [
  | BodyLengthEnd.found e ↦ some (some e)
  | BodyLengthEnd.not_found ↦ walk t bytes sep override at_end
  | BodyLengthEnd.pending ↦ some none
]
