-- ===== src/Framing/Shape.antt =====
-- framing.rs: what one frame is, described with no offset.
use refix.Base.{
  ℕ, suc, ◌+◌, ◌-◌, ◌≤◌, ◌≡◌, ap, ◌∙◌, true, none, [], ◌∷◌, ◌++◌, append_assoc, arith, length, drop,
  length-append, Bytes, byte_at, starts_with, position,
}
use refix.Base.Appends.{drop-append_add, byte_at-append_add}
use refix.Base.Digits.{decimal}
use refix.Base.Result.{ok}
use refix.Framing.{soh, Frame, is_soh, decode_begin_string, validated_frame_len, Scanner}
use refix.Framing.Preamble.{IsValue}
use refix.Framing.Count.{IsCount}
use refix.Framing.Trailer.{trailer, IsChecked, msg_type_region}

-- Rust allows no slice of more than `isize::MAX` bytes.
abbrev pub IsBuffer : Bytes → Type 0
IsBuffer buf = length buf ≤ 9223372036854775807

-- `8=`, the BeginString value, `9=`, the BodyLength value, each field with its SOH.
pub preamble : Bytes → Bytes → Bytes
preamble value digits = b'8' ∷ b'=' ∷ (value ++ soh ∷ b'9' ∷ b'=' ∷ (digits ++ soh ∷ []))

abbrev pub fix : Bytes
fix = b'F' ∷ b'I' ∷ b'X' ∷ []

-- What it takes for `f` to be one frame, within the cap of the scanner `s`.
pub record IsFrame (s : Scanner) (f : Frame) : Type 0 where
  pub value : Bytes
  pub digits : Bytes
  pub region : Bytes
  pub fields : Bytes
  pub x : ℕ
  pub y : ℕ
  pub z : ℕ
  pub bytes_are : f.bytes ≡ (preamble value digits ++ region) ++ trailer x y z
  pub region_is : region ≡ msg_type_region f.msg_type fields
  pub is_value : IsValue value
  pub is_fix : starts_with value fix ≡ true
  pub decoded : f.begin_string ≡ decode_begin_string value
  pub is_count : IsCount digits
  pub counted : f.body_length ≡ decimal 0 digits
  pub measured : f.body_length ≡ length region
  pub clear : position is_soh f.msg_type ≡ none
  pub ends : byte_at region (length region - 1) ≡ soh
  pub checked : IsChecked (preamble value digits ++ region) x y z
  pub fits : length f.bytes ≤ s.max_frame_size

pub length-preamble :
    (value digits : Bytes) → length (preamble value digits) ≡ length value + length digits + 6
unfolding preamble
length-preamble value digits = omega (
  arith,
  length-append value (soh ∷ b'9' ∷ b'=' ∷ (digits ++ soh ∷ [])),
  length-append digits (soh ∷ []),
)

pub preamble-append :
    (value digits after : Bytes)
    → preamble value digits ++ after
      ≡ b'8' ∷ b'=' ∷ (value ++ soh ∷ b'9' ∷ b'=' ∷ (digits ++ soh ∷ after))
unfolding preamble
preamble-append value digits after = simp append_assoc

pub frame_len-ok :
    (buf : Bytes) (start n cap m : ℕ)
    → IsBuffer buf
    → validated_frame_len buf start n cap ≡ ok m
    → (m ≡ start + n + 7) × (m ≤ cap) × (m ≤ length buf)
unfolding validated_frame_len
frame_len-ok buf start n cap m b h = ground arith

pub frame_len_accepts :
    (buf : Bytes) (start n cap : ℕ)
    → IsBuffer buf
    → start + n + 7 ≤ cap
    → start + n + 7 ≤ length buf
    → validated_frame_len buf start n cap ≡ ok (start + n + 7)
unfolding validated_frame_len
frame_len_accepts buf start n cap b fits whole = ground arith

-- The last byte before the trailer is the last one of the region.
pub last_of_region :
    (pre region : Bytes)
    → 1 ≤ length region
    → byte_at (pre ++ region) (length (pre ++ region) - 1) ≡ byte_at region (length region - 1)
last_of_region pre region h =
    ap (byte_at (pre ++ region)) (omega (arith, length-append pre region))
    ∙ byte_at-append_add pre region (length region - 1)

-- Past the BeginString field.
pub past_value :
    (value tail : Bytes) → drop (length value + 3) (b'8' ∷ b'=' ∷ (value ++ soh ∷ tail)) ≡ tail
past_value value tail =
    let e : length value + 3 ≡ suc (suc (length value + 1)) = omega arith in
    rw e (drop-append_add value (soh ∷ tail) 1)

-- A frame within one cap is one within any cap that its bytes fit.
pub IsFrame-within :
    (s t : Scanner) (f : Frame) → IsFrame s f → length f.bytes ≤ t.max_frame_size → IsFrame t f
IsFrame-within s t f i fits = record {
  value = i.value;
  digits = i.digits;
  region = i.region;
  fields = i.fields;
  x = i.x;
  y = i.y;
  z = i.z;
  bytes_are = i.bytes_are;
  region_is = i.region_is;
  is_value = i.is_value;
  is_fix = i.is_fix;
  decoded = i.decoded;
  is_count = i.is_count;
  counted = i.counted;
  measured = i.measured;
  clear = i.clear;
  ends = i.ends;
  checked = i.checked;
  fits = fits;
}
