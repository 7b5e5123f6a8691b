-- ===== src/Log/Start.antt =====
-- crates/refix-message/src/log/start.rs: where a message starts in a log.
pub mod Found
pub mod Ranges
use refix.Base.{
  ℕ, zero, suc, ◌+◌, ◌-◌, min, Bool, not, ◌&&◌, ◌||◌, Option, none, some, ltb, leb, ◌==◌,
  if◌then◌else◌, length, get_elem?, take, drop, Bytes, byte_at, equal, count_while, is_digit,
}
use refix.Framing.{max_begin_string_len, begin_string_prefix}

-- `MAX_TAG_DIGITS`
abbrev pub max_tag_digits : ℕ
max_tag_digits = 10

-- How a logged message's fields end.
pub data Separator : Type 0 where
  byte : ℕ → Separator
  caret_a : Separator

pub record Start : Type 0 where
  pub at : ℕ
  pub separator : Separator

pub data NextStart : Type 0 where
  found : Start → NextStart
  pending : ℕ → NextStart
  not_found : NextStart

pub data Check : Type 0 where
  start : Separator → Check
  not_start : Check
  pending : Check

-- `is_ascii_alphanumeric() || b'.'`
abbrev pub is_value_byte : ℕ → Bool
is_value_byte b = is_digit b || leb b'A' b && leb b b'Z' || leb b'a' b && leb b b'z' || (b == b'.')

-- The match on what is behind the tag's digits.
abbrev pub tag_ends : Separator → ℕ → Option ℕ → Check
tag_ends separator digits none = Check.pending
tag_ends separator digits (some b) =
    if (b == b'=') && ltb 0 digits then start separator else not_start

-- The part of `check` from the tag on.
unfoldable pub check_tag : Separator → Bytes → Check
check_tag separator tag =
    let digits = count_while is_digit (take (max_tag_digits + 1) tag) in
    if ltb max_tag_digits digits
    then not_start
    else tag_ends separator digits (get_elem? tag digits)

abbrev pub caret_separator : Option ℕ → Check
caret_separator none = Check.pending
caret_separator (some b) = if b == b'A' then start caret_a else start (byte b'^')

-- The separator that `b` is, given the override; `next` is the byte behind it.
unfoldable pub detect : Option ℕ → ℕ → Option ℕ → Check
detect (some separator) b next = if not (b == separator) then not_start else start (byte separator)
detect none b next =
    if (b == 10) || (b == 13)
    then not_start
    else if b == b'^'
    then caret_separator next
    else start (byte b)

abbrev pub separator_len : Separator → ℕ
separator_len (byte b) = 1
separator_len caret_a = 2

-- The part of `check` from the separator at `value_end` on.
abbrev pub check_behind : Bytes → ℕ → Check → Check
check_behind bytes value_end (start separator) =
    check_tag separator (drop (value_end + separator_len separator) bytes)
check_behind bytes value_end not_start = not_start
check_behind bytes value_end Check.pending = Check.pending

abbrev pub check_separator : Bytes → Option ℕ → ℕ → Option ℕ → Check
check_separator bytes override value_end none = Check.pending
check_separator bytes override value_end (some b) =
    check_behind bytes value_end (detect override b (get_elem? bytes (value_end + 1)))

-- Whether `bytes` opens with a message start, and its separator if so.
unfoldable pub check : Bytes → Option ℕ → Check
unfolding check_tag detect
check bytes override =
    let shared = min (length bytes) (length begin_string_prefix) in
    let value_end = 5 + count_while is_value_byte (take max_begin_string_len (drop 5 bytes)) in
    if not (equal (take shared bytes) (take shared begin_string_prefix))
    then not_start
    else if ltb shared (length begin_string_prefix)
    then Check.pending
    else if ltb max_begin_string_len value_end
    then not_start
    else check_separator bytes override value_end (get_elem? bytes value_end)

-- Whether offset `at` is passed over: no `8`, or a digit before it.
abbrev pub passed_over : Bytes → ℕ → Bool
passed_over bytes at =
    not (byte_at bytes at == b'8') || ltb 0 at && is_digit (byte_at bytes (at - 1))

-- What the loop does at `at`, where `rest` is what it finds further on.
unfoldable pub start_at : Bytes → ℕ → Bool → Check → NextStart → NextStart
start_at bytes at at_end (start separator) rest = found (record { at = at; separator = separator })
start_at bytes at at_end not_start rest = rest
start_at bytes at at_end Check.pending rest = if not at_end then NextStart.pending at else rest

-- The loop over the `count` offsets from `at` on.
unfoldable pub find_start_from : Bytes → ℕ → ℕ → Option ℕ → Bool → NextStart
unfolding start_at
find_start_from bytes zero at override at_end = not_found
find_start_from bytes (suc count) at override at_end =
    let rest = find_start_from bytes count (at + 1) override at_end in
    if passed_over bytes at
    then rest
    else start_at bytes at at_end (check (drop at bytes) override) rest

-- The first message start at an offset in `from..to` of `bytes`.
unfoldable pub find_start : Bytes → ℕ → ℕ → Option ℕ → Bool → NextStart
find_start bytes from to override at_end = find_start_from bytes (to - from) from override at_end
