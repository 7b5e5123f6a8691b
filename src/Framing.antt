-- ===== src/Framing.antt =====
-- crates/refix-message/src/framing.rs: delimiting one checksum-verified message from the start of
-- a buffer. `Scanner.scan` is a pure function of the buffer and the size cap.
--
-- `usize` has 64 bits. Borrowed slices are the bytes that they show.
pub mod Tests
pub mod Resync
pub mod Shape
pub mod Complete
pub mod Sound
pub mod Steps
pub mod Trailer
pub mod Count
pub mod Preamble
pub mod Progress
use refix.Base.{
  ℕ, zero, suc, ◌+◌, ◌-◌, ◌*◌, ◌%◌, min, Bool, not, ◌||◌, Option, none, some, [], ◌∷◌, map, ltb,
  leb, ◌==◌, if◌then◌else◌, length, take, drop, Bytes, slice, byte_at, equal, starts_with, position,
  all, is_digit,
}
use mathlib.Core.Option
use refix.Base.Result.{Result, ok, err, ◌>>=◌, ◌>>◌}
use refix.Base.Digits.{usize_max, fold_digits}

abbrev pub soh : ℕ
soh = 0x01

abbrev pub max_begin_string_len : ℕ
max_begin_string_len = 16

abbrev pub max_body_length_digits : ℕ
max_body_length_digits = 10

abbrev pub checksum_field_len : ℕ
checksum_field_len = 7

-- `8=FIX`
abbrev pub begin_string_prefix : Bytes
begin_string_prefix = b'8' ∷ b'=' ∷ b'F' ∷ b'I' ∷ b'X' ∷ []

pub data GarbledReason : Type 0 where
  missing_begin_string : GarbledReason
  malformed_begin_string : GarbledReason
  missing_body_length : GarbledReason
  malformed_body_length : GarbledReason
  body_length_mismatch : GarbledReason
  missing_msg_type : GarbledReason
  malformed_checksum : GarbledReason
  checksum_mismatch : GarbledReason
  frame_too_large : GarbledReason

pub data BeginString : Type 0 where
  fix40 : BeginString
  fix41 : BeginString
  fix42 : BeginString
  fix43 : BeginString
  fix44 : BeginString
  fixt11 : BeginString
  other : Bytes → BeginString

pub record Frame : Type 0 where
  pub bytes : Bytes
  pub begin_string : BeginString
  pub body_length : ℕ
  pub msg_type : Bytes

pub data Halt : Type 0 where
  incomplete : Halt
  garbled : GarbledReason → ℕ → Halt

pub data Outcome : Type 0 where
  frame : Frame → Outcome
  incomplete : Outcome
  garbled : GarbledReason → ℕ → Outcome

-- `impl From<Halt> for Outcome`
abbrev pub of_halt : Halt → Outcome
of_halt Halt.incomplete = Outcome.incomplete
of_halt (Halt.garbled reason skipped) = Outcome.garbled reason skipped

-- `xs.windows(pattern.len()).position(|w| w == pattern)`
unfoldable pub window_position : Bytes → Bytes → Option ℕ
window_position pattern [] = none
window_position pattern (x ∷ xs) =
    if equal (take (length pattern) (x ∷ xs)) pattern
    then some 0
    else Option.map suc (window_position pattern xs)

-- The loop over `k` of `find_next_begin_string`, downwards from the given `k`.
unfoldable pub partial_prefix : ℕ → Bytes → ℕ
partial_prefix zero buf = length buf
partial_prefix (suc k) buf =
    if equal (drop (length buf - suc k) buf) (take (suc k) begin_string_prefix)
    then length buf - suc k
    else partial_prefix k buf

unfoldable pub find_next_begin_string : Bytes → ℕ
find_next_begin_string buf = elim (window_position begin_string_prefix (drop 1 buf)) [
  | some skip ↦ skip + 1
  | none ↦ partial_prefix (min (length begin_string_prefix - 1) (length buf)) buf
]

abbrev pub structural_garble : GarbledReason → Bytes → Halt
structural_garble reason buf = Halt.garbled reason (find_next_begin_string buf)

abbrev pub post_structural_garble : GarbledReason → Bytes → Halt
post_structural_garble reason bytes = Halt.garbled reason (length bytes)

abbrev pub is_soh : ℕ → Bool
is_soh b = b == soh

-- The match on the BeginString value.
unfoldable pub decode_begin_string : Bytes → BeginString
decode_begin_string value =
    if equal value (b'F' ∷ b'I' ∷ b'X' ∷ b'.' ∷ b'4' ∷ b'.' ∷ b'0' ∷ [])
    then fix40
    else if equal value (b'F' ∷ b'I' ∷ b'X' ∷ b'.' ∷ b'4' ∷ b'.' ∷ b'1' ∷ [])
    then fix41
    else if equal value (b'F' ∷ b'I' ∷ b'X' ∷ b'.' ∷ b'4' ∷ b'.' ∷ b'2' ∷ [])
    then fix42
    else if equal value (b'F' ∷ b'I' ∷ b'X' ∷ b'.' ∷ b'4' ∷ b'.' ∷ b'3' ∷ [])
    then fix43
    else if equal value (b'F' ∷ b'I' ∷ b'X' ∷ b'.' ∷ b'4' ∷ b'.' ∷ b'4' ∷ [])
    then fix44
    else if equal value (b'F' ∷ b'I' ∷ b'X' ∷ b'T' ∷ b'.' ∷ b'1' ∷ b'.' ∷ b'1' ∷ [])
    then fixt11
    else other value

-- The rest of `parse_begin_string`, on where the search found the SOH.
unfoldable pub begin_string_end : Bytes → Option ℕ → Result Halt (BeginString × ℕ)
begin_string_end buf (some rel) =
    let soh_at = rel + 2 in ok (decode_begin_string (slice buf 2 soh_at), soh_at + 1)
begin_string_end buf none =
    if leb (length buf) max_begin_string_len
    then err Halt.incomplete
    else err (structural_garble malformed_begin_string buf)

unfoldable pub parse_begin_string : Bytes → Result Halt (BeginString × ℕ)
unfolding begin_string_end
parse_begin_string buf =
    let search_end = min (length buf) (max_begin_string_len + 1) in
    begin_string_end buf (position is_soh (slice buf 2 search_end))

-- The digits of BodyLength at `digits_start`, `soh_rel` bytes long, as `(body_length, body_start)`.
unfoldable pub body_length_value : Bytes → ℕ → ℕ → Result Halt (ℕ × ℕ)
body_length_value buf digits_start soh_rel =
    let digits = slice buf digits_start (digits_start + soh_rel) in
    if leb (length digits) 0 || not (all is_digit digits)
    then err (structural_garble malformed_body_length buf)
    else elim (fold_digits usize_max 0 digits) [
      | some body_length ↦ ok (body_length, digits_start + soh_rel + 1)
      | none ↦ err (structural_garble malformed_body_length buf)
    ]

-- The rest of `parse_body_length`, on where the search found the SOH.
unfoldable pub body_length_end : Bytes → ℕ → Option ℕ → Result Halt (ℕ × ℕ)
body_length_end buf digits_start (some soh_rel) = body_length_value buf digits_start soh_rel
body_length_end buf digits_start none =
    if leb (length buf) (digits_start + max_body_length_digits)
    then err Halt.incomplete
    else err (structural_garble malformed_body_length buf)

unfoldable pub parse_body_length : Bytes → ℕ → Result Halt (ℕ × ℕ)
parse_body_length buf body_length_start =
    let tag = drop body_length_start buf in
    let digits_start = body_length_start + 2 in
    let search_end = min (length buf) (digits_start + max_body_length_digits + 1) in
    if ltb (length tag) 2
    then err Halt.incomplete
    else if not (equal (take 2 tag) (b'9' ∷ b'=' ∷ []))
    then err (structural_garble missing_body_length buf)
    else body_length_end buf digits_start (position is_soh (slice buf digits_start search_end))

-- `usize::saturating_add`
abbrev pub saturating_add : ℕ → ℕ → ℕ
saturating_add a b = min (a + b) usize_max

unfoldable pub validated_frame_len : Bytes → ℕ → ℕ → ℕ → Result Halt ℕ
validated_frame_len buf body_start body_length max_frame_size =
    let frame_len = saturating_add (saturating_add body_start body_length) checksum_field_len in
    if ltb max_frame_size frame_len
    then err (structural_garble frame_too_large buf)
    else if ltb (length buf) frame_len
    then err Halt.incomplete
    else ok frame_len

unfoldable pub verify_trailer_start : Bytes → ℕ → Result Halt Unit
verify_trailer_start buf checksum_start =
    if not (byte_at buf (checksum_start - 1) == soh)
      || not (equal (slice buf checksum_start (checksum_start + 3)) (b'1' ∷ b'0' ∷ b'=' ∷ []))
    then err (structural_garble body_length_mismatch buf)
    else ok tt

-- `fold(0u8, |acc, &b| acc.wrapping_add(b))`
unfoldable pub checksum : ℕ → Bytes → ℕ
checksum acc [] = acc
checksum acc (b ∷ bs) = checksum ((acc + b) % 256) bs

-- The stated checksum, of type `u16`.
abbrev pub stated_checksum : Bytes → ℕ
stated_checksum digits =
    (byte_at digits 0 - b'0') * 100 + (byte_at digits 1 - b'0') * 10 + (byte_at digits 2 - b'0')

unfoldable pub verify_checksum : Bytes → ℕ → Result Halt Unit
verify_checksum bytes checksum_start =
    let digits = slice bytes (checksum_start + 3) (checksum_start + 6) in
    if not (byte_at bytes (checksum_start + 6) == soh) || not (all is_digit digits)
    then err (post_structural_garble malformed_checksum bytes)
    else if not (checksum 0 (take checksum_start bytes) == stated_checksum digits)
    then err (post_structural_garble checksum_mismatch bytes)
    else ok tt

-- The rest of `parse_msg_type`, on where the search found the SOH.
unfoldable pub msg_type_end : Bytes → Bytes → Option ℕ → Result Halt Bytes
msg_type_end bytes after_tag (some soh_at) = ok (take soh_at after_tag)
msg_type_end bytes after_tag none = err (post_structural_garble missing_msg_type bytes)

-- The rest of `parse_msg_type`, on the region that BodyLength measures.
unfoldable pub msg_type_in : Bytes → Bytes → Result Halt Bytes
unfolding msg_type_end
msg_type_in bytes region =
    let after_tag = drop 3 region in
    if not (starts_with region (b'3' ∷ b'5' ∷ b'=' ∷ []))
    then err (post_structural_garble missing_msg_type bytes)
    else msg_type_end bytes after_tag (position is_soh after_tag)

unfoldable pub parse_msg_type : Bytes → ℕ → ℕ → Result Halt Bytes
unfolding msg_type_in
parse_msg_type bytes body_start body_length =
    msg_type_in bytes (slice bytes body_start (body_start + body_length))

pub record Scanner : Type 0 where
  pub max_frame_size : ℕ

abbrev pub default_scanner : Scanner
default_scanner = record { max_frame_size = 1048576 }

-- The part of `try_scan` behind the test on the prefix.
unfoldable pub scan_fields : Scanner → Bytes → Result Halt Frame
scan_fields s buf = do
  (begin_string, body_length_start) ← parse_begin_string buf
  (body_length, body_start) ← parse_body_length buf body_length_start
  frame_len ← validated_frame_len buf body_start body_length s.max_frame_size
  let bytes = take frame_len buf
  let checksum_start = body_start + body_length
  verify_trailer_start buf checksum_start
  verify_checksum bytes checksum_start
  msg_type ← parse_msg_type bytes body_start body_length
  ok (record {
    bytes = bytes;
    begin_string = begin_string;
    body_length = body_length;
    msg_type = msg_type;
  })

unfoldable pub try_scan : Scanner → Bytes → Result Halt Frame
try_scan s buf =
    if not (starts_with buf begin_string_prefix)
    then (if starts_with begin_string_prefix buf
        then err Halt.incomplete
        else err (structural_garble missing_begin_string buf))
    else scan_fields s buf

abbrev pub outcome_of : Result Halt Frame → Outcome
outcome_of (ok f) = Outcome.frame f
outcome_of (err halt) = of_halt halt

unfoldable pub scan : Scanner → Bytes → Outcome
scan s buf = outcome_of (try_scan s buf)
