-- ===== src/Log/Diagnose.antt =====
-- crates/refix-message/src/log.rs, `diagnose`: what could not be verified about a message.
use refix.Base.{
  ℕ, ◌+◌, ◌-◌, Bool, false, not, ◌&&◌, Option, none, some, List, [], ◌∷◌, ◌++◌, map, ◌==◌,
  if◌then◌else◌, is_some, length, get_elem?, take, last?, Bytes, all, is_digit,
}
use refix.Framing.{soh, checksum}
use refix.Tags.{Tag}
use refix.Tokenizer.{RawField, parse_u32, value_of}

-- `BODY_LENGTH` and `MSG_TYPE`
abbrev pub body_length_tag : Tag
body_length_tag = 9

abbrev pub msg_type_tag : Tag
msg_type_tag = 35

pub data LogDiagnostic : Type 0 where
  missing_body_length : LogDiagnostic
  malformed_body_length : LogDiagnostic
  body_length_mismatch : LogDiagnostic
  missing_msg_type : LogDiagnostic
  malformed_checksum : LogDiagnostic
  checksum_mismatch : LogDiagnostic
  truncated : LogDiagnostic
  prefix_truncated : LogDiagnostic

-- The checksum of `bytes`, counting each separator as SOH.
unfoldable pub calculate_checksum : Bytes → ℕ → ℕ
calculate_checksum bytes sep = checksum 0 (map (λ b. if b == sep then soh else b) bytes)

abbrev pub with_tag : Tag → Option RawField → Option RawField
with_tag tag none = none
with_tag tag (some field) = if field.tag == tag then some field else none

abbrev pub has_tag : Tag → Option RawField → Bool
has_tag tag o = is_some (with_tag tag o)

abbrev pub number_in : Bytes → Option RawField → Option ℕ
number_in bytes none = none
number_in bytes (some field) = parse_u32 (value_of bytes field)

-- The diagnostics on BodyLength, but for where it points.
unfoldable pub on_body_length : Option RawField → Option ℕ → List LogDiagnostic
on_body_length none declared = missing_body_length ∷ []
on_body_length (some field) none = malformed_body_length ∷ []
on_body_length (some field) (some n) = []

abbrev pub end_of : Option RawField → ℕ
end_of none = 0
end_of (some field) = field.value_end + 1

unfoldable pub on_extent : Option RawField → Option ℕ → ℕ → List LogDiagnostic
on_extent (some field) (some declared) trailer_start =
    if not (field.value_end + 1 + declared == trailer_start) then body_length_mismatch ∷ [] else []
on_extent (some field) none trailer_start = []
on_extent none declared trailer_start = []

abbrev pub is_number : Option ℕ → ℕ → Bool
is_number none n = false
is_number (some m) n = m == n

unfoldable pub on_checksum : Bytes → ℕ → ℕ → Bytes → List LogDiagnostic
unfolding calculate_checksum
on_checksum bytes sep trailer_start stated =
    if (length stated == 3) && all is_digit stated
    then (if not (is_number (parse_u32 stated) (calculate_checksum (take trailer_start bytes) sep))
        then LogDiagnostic.checksum_mismatch ∷ []
        else [])
    else LogDiagnostic.malformed_checksum ∷ []

-- The part of `diagnose` about the end, on `fields.last()`.
unfoldable pub on_trailer :
    Bytes → List RawField → ℕ → Option RawField → Option ℕ → Option RawField → List LogDiagnostic
unfolding on_extent on_checksum
on_trailer bytes fields sep body_length declared none = []
on_trailer bytes fields sep body_length declared (some last) =
    let trailer_start = end_of (last? (take (length fields - 1) fields)) in
    on_extent body_length declared trailer_start
    ++ on_checksum bytes sep trailer_start (value_of bytes last)

-- What could not be verified about the message in `bytes`.
unfoldable pub diagnose : Bytes → List RawField → ℕ → Bool → List LogDiagnostic
unfolding on_body_length on_trailer
diagnose bytes fields sep is_truncated =
    let body_length = with_tag body_length_tag (get_elem? fields 1) in
    let declared = number_in bytes body_length in
    let msg_type = get_elem? fields (if is_some body_length then 2 else 1) in
    on_body_length body_length declared
    ++ (if not (has_tag msg_type_tag msg_type) then LogDiagnostic.missing_msg_type ∷ [] else [])
    ++ (if is_truncated
        then truncated ∷ []
        else on_trailer bytes fields sep body_length declared (last? fields))
