-- ===== src/Tokenizer.antt =====
-- crates/refix-message/src/tokenizer.rs, with length_tags.rs and dialect.rs: splitting a framed
-- message into its fields.
--
-- The index is of `u32` offsets, so each offset is cut to 32 bits as `as u32` does. The loop of
-- `tokenize_fields` runs on fuel; `none` would mean that the fuel ran out.
pub mod Tests
pub mod Numbers
pub mod Values
pub mod Tiling
pub mod Covers
use refix.Base.{
  ℕ, zero, suc, ◌+◌, ◌%◌, Bool, false, not, ◌&&◌, ◌||◌, Option, none, some, List, [], ◌∷◌, ◌++◌,
  leb, ◌==◌, if◌then◌else◌, length, get_elem?, drop, Bytes, slice, position, all, is_digit,
}
use refix.Base.Digits.{u32_max, usize_max, checked, fold_digits}
use refix.Base.Maybe.{◌>>=◌}
use refix.Tags.{Tag, malformed, binary_search, sort_tags, dedup}
use refix.Framing.{soh, GarbledReason, frame_too_large, Outcome, scan}

-- `length_tags::STANDARD`
unfoldable pub standard_length_tags : List Tag
standard_length_tags =
    90 ∷ 93 ∷ 95 ∷ 212 ∷ 348 ∷ 350 ∷ 352 ∷ 354 ∷ 356 ∷ 358 ∷ 360 ∷ 362 ∷ 364 ∷ 445 ∷ 618 ∷ 621
    ∷ 1184 ∷ 1277 ∷ 1280 ∷ 1282 ∷ 1397 ∷ 1401 ∷ 1403 ∷ 1468 ∷ 1525 ∷ 1578 ∷ 1620 ∷ 1664 ∷ 1678
    ∷ 1733 ∷ 1871 ∷ 1874 ∷ 2072 ∷ 2074 ∷ 2111 ∷ 2179 ∷ 2287 ∷ 2351 ∷ 2372 ∷ 2481 ∷ 2494 ∷ 2522
    ∷ 2637 ∷ 2651 ∷ 2665 ∷ 2715 ∷ 2718 ∷ 2721 ∷ 2797 ∷ 2802 ∷ 2809 ∷ 2815 ∷ 40004 ∷ 40008 ∷ 40978
    ∷ 40980 ∷ 40982 ∷ 40984 ∷ 40986 ∷ 40988 ∷ 41083 ∷ 41101 ∷ 41107 ∷ 41256 ∷ 41320 ∷ 41324 ∷ 41458
    ∷ 41476 ∷ 41482 ∷ 41653 ∷ 41710 ∷ 41806 ∷ 41811 ∷ 41873 ∷ 41969 ∷ 42025 ∷ 42171 ∷ 42451 ∷ 42652
    ∷ 42947 ∷ 43109 ∷ 43110 ∷ 43111 ∷ []

-- How a counterparty's FIX differs from the standard.
pub record Dialect : Type 0 where
  pub extra_length_tags : List Tag

-- `Dialect::new`
abbrev pub standard_dialect : Dialect
standard_dialect = record { extra_length_tags = [] }

-- `Dialect::with_extra_length_tags`
abbrev pub with_extra_length_tags : Dialect → List Tag → Dialect
with_extra_length_tags d tags = record d { extra_length_tags = tags }

pub record Tokenizer : Type 0 where
  pub length_tags : List Tag

-- The extras but `Tag::MALFORMED`.
unfoldable pub real_tags : List Tag → List Tag
real_tags [] = []
real_tags (x ∷ tags) = let rest = real_tags tags in if x == malformed then rest else x ∷ rest

-- `Tokenizer::new`
unfoldable pub new_tokenizer : Dialect → Tokenizer
new_tokenizer d = record {
  length_tags = dedup (sort_tags (standard_length_tags ++ real_tags d.extra_length_tags));
}

abbrev pub default_tokenizer : Tokenizer
default_tokenizer = new_tokenizer standard_dialect

-- The tag and byte range of a field's value within the frame.
pub record RawField : Type 0 where
  pub tag : Tag
  pub value_start : ℕ
  pub value_end : ℕ

-- `as u32`
abbrev pub as_u32 : ℕ → ℕ
as_u32 n = n % 4294967296

-- Parses ASCII digits into a `u32`.
unfoldable pub parse_u32 : Bytes → Option ℕ
parse_u32 digits =
    if leb (length digits) 0 || not (all is_digit digits)
    then none
    else fold_digits u32_max 0 digits

pub data TagEnd : Type 0 where
  equals : ℕ → TagEnd
  separator : ℕ → TagEnd

-- The search of `find_tag_end` through the bytes from offset `at` on.
unfoldable pub tag_end_in : ℕ → Bytes → ℕ → Option TagEnd
tag_end_in at [] sep = none
tag_end_in at (b ∷ bytes) sep =
    if b == b'='
    then some (equals at)
    else if b == sep
    then some (separator at)
    else tag_end_in (at + 1) bytes sep

-- `bytes.get(from..)`
abbrev pub get_from : Bytes → ℕ → Option Bytes
get_from bytes from = if leb from (length bytes) then some (drop from bytes) else none

unfoldable pub find_tag_end : Bytes → ℕ → ℕ → Option TagEnd
find_tag_end bytes from sep = do rest ← get_from bytes from; tag_end_in from rest sep

unfoldable pub find_separator : Bytes → ℕ → ℕ → Option ℕ
find_separator bytes from sep = do
  rest ← get_from bytes from
  rel ← position (λ b. b == sep) rest
  some (from + rel)

-- Whether byte `at` is the separator.
abbrev pub is_byte : Option ℕ → ℕ → Bool
is_byte none sep = false
is_byte (some b) sep = b == sep

unfoldable pub data_value_end : Bytes → ℕ → ℕ → ℕ → Option ℕ
data_value_end bytes value_start len sep = do
  at ← checked usize_max (value_start + len)
  if is_byte (get_elem? bytes at) sep then some at else none

-- `a.or_else(|| b)`
abbrev pub or_else : Option ℕ → Option ℕ → Option ℕ
or_else none b = b
or_else (some a) b = some a

-- `a.unwrap_or(b)`
abbrev pub unwrap_or : Option ℕ → ℕ → ℕ
unwrap_or none b = b
unwrap_or (some a) b = a

-- Where the value that starts at `value_start` ends.
unfoldable pub find_value_end : Bytes → ℕ → Option ℕ → ℕ → ℕ
find_value_end bytes value_start data_len sep =
    unwrap_or
      (or_else (data_len >>= λ len. data_value_end bytes value_start len sep)
        (find_separator bytes value_start sep))
      (length bytes)

-- The match of `next_field` on the end of the tag.
unfoldable pub field_at : Bytes → ℕ → Option ℕ → ℕ → Option TagEnd → Option (RawField × ℕ)
field_at bytes pos data_len sep none = none
field_at bytes pos data_len sep (some (equals delimiter)) =
    let value_end = find_value_end bytes (delimiter + 1) data_len sep in
    some (
      record {
        tag = unwrap_or (parse_u32 (slice bytes pos delimiter)) malformed;
        value_start = as_u32 (delimiter + 1);
        value_end = as_u32 value_end;
      },
      value_end + 1,
    )
field_at bytes pos data_len sep (some (separator delimiter)) = some (
  record { tag = malformed; value_start = as_u32 pos; value_end = as_u32 delimiter },
  delimiter + 1,
)

unfoldable pub next_field : Bytes → ℕ → Option ℕ → ℕ → Option (RawField × ℕ)
unfolding field_at
next_field bytes pos data_len sep = field_at bytes pos data_len sep (find_tag_end bytes pos sep)

-- `tags.first().is_some_and(|&min| tag >= min)`
abbrev pub from_first : List Tag → Tag → Bool
from_first [] tag = false
from_first (x ∷ tags) tag = leb x tag

unfoldable pub is_length_tag : Tokenizer → Tag → Bool
is_length_tag t tag = from_first t.length_tags tag && binary_search t.length_tags tag

-- The bytes of a field's value.
abbrev pub value_of : Bytes → RawField → Bytes
value_of bytes field = slice bytes field.value_start field.value_end

unfoldable pub pending_data_len : Tokenizer → Bytes → RawField → Option ℕ
pending_data_len t bytes field =
    if not (is_length_tag t field.tag) then none else parse_u32 (value_of bytes field)

-- The loop of `tokenize_fields`, on its variables `pos` and `data_len`.
unfoldable pub fields_from : Tokenizer → Bytes → ℕ → ℕ → ℕ → Option ℕ → Option (List RawField)
fields_from t bytes sep zero pos data_len = none
fields_from t bytes sep (suc fuel) pos data_len = elim (next_field bytes pos data_len sep) [
  | none ↦ some []
  | some (field, next) ↦
      fields_from t bytes sep fuel next (pending_data_len t bytes field) >>= λ fields.
      some (field ∷ fields)
]

-- Each round moves on by a byte at least, and none starts past the end.
unfoldable pub tokenize_fields : Tokenizer → Bytes → ℕ → Option (List RawField)
unfolding fields_from
tokenize_fields t bytes sep = fields_from t bytes sep (length bytes + 2) 0 none

-- Raw bytes of a FIX message and an index of every field in wire order.
pub record RawMessage : Type 0 where
  pub bytes : Bytes
  pub fields : List RawField

pub data TokenizeError : Type 0 where
  garbled : GarbledReason → TokenizeError
  incomplete : TokenizeError
  trailing_bytes : ℕ → TokenizeError
  too_large_to_index : TokenizeError

-- The match of `check_frame` on the outcome of the scan; `none` is `Ok(())`.
unfoldable pub frame_error : Bytes → Outcome → Option TokenizeError
frame_error bytes (Outcome.frame f) =
    if not (length f.bytes == length bytes) then some (trailing_bytes (length f.bytes)) else none
frame_error bytes Outcome.incomplete = some TokenizeError.incomplete
frame_error bytes (Outcome.garbled frame_too_large skipped) = some too_large_to_index
frame_error bytes (Outcome.garbled reason skipped) = some (TokenizeError.garbled reason)

unfoldable pub check_frame : Bytes → Option TokenizeError
unfolding frame_error
check_frame bytes = frame_error bytes (scan (record { max_frame_size = u32_max }) bytes)

pub data Tokenized : Type 0 where
  message : RawMessage → Tokenized
  failed : TokenizeError → Tokenized
  stuck : Tokenized

-- The index of a frame that passed the check.
abbrev pub indexed : Bytes → Option (List RawField) → Tokenized
indexed bytes none = stuck
indexed bytes (some fields) = message (record { bytes = bytes; fields = fields })

unfoldable pub tokenize : Tokenizer → Bytes → Tokenized
tokenize t bytes = elim (check_frame bytes) [
  | some e ↦ failed e
  | none ↦ indexed bytes (tokenize_fields t bytes soh)
]
