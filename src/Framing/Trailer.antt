-- ===== src/Framing/Trailer.antt =====
-- framing.rs, the checks behind the preamble, on a buffer that is split where they look: the
-- bytes `before` the trailer, of which the last `length region` are what BodyLength measures, and
-- the seven bytes of the trailer.
use refix.Base.{
  ℕ, ◌+◌, ◌-◌, ◌*◌, ◌≤◌, ◌≡◌, refl, sym, ap, ◌∙◌, inl, inr, true, Option, none, some, [], ◌∷◌, ◌++◌,
  arith, ==_iff, Bool-cases, length, take, drop, drop-length, take-length, Bytes, slice, byte_at,
  equal, starts_with, position, all, is_digit,
}
use refix.Base.Appends.{drop-append_add, byte_at-append_add, byte_at-append_lt}
use refix.Base.Positions.{position-SplitsAt, position-append}
use refix.Base.Prefixes.{starts_with-split}
use refix.Base.Result.{ok}
use refix.Framing.{
  soh, is_soh, verify_trailer_start, checksum, verify_checksum, msg_type_end, msg_type_in,
  parse_msg_type,
}

-- `10=`, three digits and SOH.
abbrev pub trailer : ℕ → ℕ → ℕ → Bytes
trailer x y z = b'1' ∷ b'0' ∷ b'=' ∷ x ∷ y ∷ z ∷ soh ∷ []

abbrev pub stated : ℕ → ℕ → ℕ → ℕ
stated x y z = (x - b'0') * 100 + (y - b'0') * 10 + (z - b'0')

-- The trailer's digits state the checksum of the bytes before it.
pub record IsChecked (before : Bytes) (x y z : ℕ) : Type 0 where
  pub digit_x : is_digit x ≡ true
  pub digit_y : is_digit y ≡ true
  pub digit_z : is_digit z ≡ true
  pub sums : checksum 0 before ≡ stated x y z

module _ (before : Bytes) where
  slice_at :
      (k m : ℕ) (ys : Bytes)
      → slice (before ++ ys) (length before + k) (length before + (k + m)) ≡ take m (drop k ys)
  slice_at k m ys =
      ap (λ n. take n (drop (length before + k) (before ++ ys))) (omega arith)
      ∙ ap (take m) (drop-append_add before ys k)

  slice_here :
      (m : ℕ) (ys : Bytes) → slice (before ++ ys) (length before) (length before + m) ≡ take m ys
  slice_here m ys =
      ap (λ n. take n (drop (length before) (before ++ ys))) (omega arith)
      ∙ ap (take m) (drop-length before ys (length before) refl)

  last_byte :
      (ys : Bytes)
      → 1 ≤ length before
      → byte_at (before ++ ys) (length before - 1) ≡ byte_at before (length before - 1)
  last_byte ys h = byte_at-append_lt before ys (length before - 1) (omega arith)

  -- The landing of BodyLength's jump.
  pub verify_trailer_start-ok :
      (a b c : ℕ) (ys : Bytes)
      → 1 ≤ length before
      → verify_trailer_start (before ++ a ∷ b ∷ c ∷ ys) (length before) ≡ ok tt
      → (byte_at before (length before - 1) ≡ soh) × (a ≡ b'1') × (b ≡ b'0') × (c ≡ b'=')
  unfolding verify_trailer_start equal
  verify_trailer_start-ok a b c ys h e =
      ground (arith, slice_here 3 (a ∷ b ∷ c ∷ ys), last_byte (a ∷ b ∷ c ∷ ys) h)

  pub verify_trailer_start_accepts :
      (ys : Bytes)
      → 1 ≤ length before
      → byte_at before (length before - 1) ≡ soh
      → verify_trailer_start (before ++ b'1' ∷ b'0' ∷ b'=' ∷ ys) (length before) ≡ ok tt
  unfolding verify_trailer_start equal
  verify_trailer_start_accepts ys h e =
      ground (arith, slice_here 3 (b'1' ∷ b'0' ∷ b'=' ∷ ys), last_byte (b'1' ∷ b'0' ∷ b'=' ∷ ys) h)

  pub verify_checksum-ok :
      (a b c x y z e : ℕ)
      → verify_checksum (before ++ a ∷ b ∷ c ∷ x ∷ y ∷ z ∷ e ∷ []) (length before) ≡ ok tt
      → IsChecked before x y z × (e ≡ soh)
  unfolding verify_checksum all
  verify_checksum-ok a b c x y z e h = ground (
    arith,
    slice_at 3 3 (a ∷ b ∷ c ∷ x ∷ y ∷ z ∷ e ∷ []),
    byte_at-append_add before (a ∷ b ∷ c ∷ x ∷ y ∷ z ∷ e ∷ []) 6,
    take-length before (a ∷ b ∷ c ∷ x ∷ y ∷ z ∷ e ∷ []) (length before) refl,
  )

  pub verify_checksum_accepts :
      (x y z : ℕ)
      → IsChecked before x y z
      → verify_checksum (before ++ trailer x y z) (length before) ≡ ok tt
  unfolding verify_checksum all
  verify_checksum_accepts x y z c = ground (
    arith,
    slice_at 3 3 (trailer x y z),
    byte_at-append_add before (trailer x y z) 6,
    take-length before (trailer x y z) (length before) refl,
  )

-- MsgType is the first field of the region that BodyLength measures.
abbrev pub msg_type_region : Bytes → Bytes → Bytes
msg_type_region msg_type fields = b'3' ∷ b'5' ∷ b'=' ∷ (msg_type ++ soh ∷ fields)

msg_type_end-ok :
    (bytes after_tag : Bytes) (o : Option ℕ) (msg_type : Bytes)
    → position is_soh after_tag ≡ o
    → msg_type_end bytes after_tag o ≡ ok msg_type
    → (fields : Bytes) × (after_tag ≡ msg_type ++ soh ∷ fields) × (position is_soh msg_type ≡ none)
unfolding msg_type_end
msg_type_end-ok bytes after_tag none msg_type found h = absurd (ground arith)
msg_type_end-ok bytes after_tag (some n) msg_type found h =
    let s = position-SplitsAt is_soh after_tag n found in
    let is = (==_iff s.found soh).0 s.passes in
    let splits : after_tag ≡ s.before ++ soh ∷ s.after = rw is at s.splits in
    let here : take n after_tag ≡ s.before =
      rw splits (take-length s.before (soh ∷ s.after) n (sym s.at)) in
    let same : s.before ≡ msg_type = ground (arith, here) in
    (s.after, rw same at splits, rw same at s.first)

msg_type_in-ok :
    (bytes region msg_type : Bytes)
    → msg_type_in bytes region ≡ ok msg_type
    → (fields : Bytes) × (region ≡ msg_type_region msg_type fields)
      × (position is_soh msg_type ≡ none)
unfolding msg_type_in
msg_type_in-ok bytes region msg_type h =
    elim (Bool-cases (starts_with region (b'3' ∷ b'5' ∷ b'=' ∷ []))) [
      | inr not_tag ↦ absurd (ground arith)
      | inl tag ↦
          let (fields, e, clear) =
            msg_type_end-ok bytes (drop 3 region) _ msg_type refl (ground arith) in
          let opens = starts_with-split region (b'3' ∷ b'5' ∷ b'=' ∷ []) tag in
          (fields, opens ∙ ap (λ t. b'3' ∷ b'5' ∷ b'=' ∷ t) e, clear)
    ]

msg_type_in_accepts :
    (bytes msg_type fields : Bytes)
    → position is_soh msg_type ≡ none
    → msg_type_in bytes (msg_type_region msg_type fields) ≡ ok msg_type
unfolding msg_type_in starts_with
msg_type_in_accepts bytes msg_type fields clear =
    rw (position-append is_soh msg_type soh fields clear refl)
      (ap ok (take-length msg_type (soh ∷ fields) (length msg_type) refl))

module _ (before region ys : Bytes) where
  region_at :
      slice (before ++ (region ++ ys)) (length before) (length before + length region) ≡ region
  region_at =
      slice_here before (length region) (region ++ ys) ∙ take-length region ys (length region) refl

  pub parse_msg_type-ok :
      (msg_type : Bytes)
      → parse_msg_type (before ++ (region ++ ys)) (length before) (length region) ≡ ok msg_type
      → (fields : Bytes) × (region ≡ msg_type_region msg_type fields)
        × (position is_soh msg_type ≡ none)
  unfolding parse_msg_type
  parse_msg_type-ok msg_type h =
      msg_type_in-ok (before ++ (region ++ ys)) region msg_type
        (sym (ap (msg_type_in (before ++ (region ++ ys))) region_at) ∙ h)

  pub parse_msg_type_accepts :
      (msg_type fields : Bytes)
      → region ≡ msg_type_region msg_type fields
      → position is_soh msg_type ≡ none
      → parse_msg_type (before ++ (region ++ ys)) (length before) (length region) ≡ ok msg_type
  unfolding parse_msg_type
  parse_msg_type_accepts msg_type fields e clear =
      ap (msg_type_in (before ++ (region ++ ys))) (region_at ∙ e)
      ∙ msg_type_in_accepts (before ++ (region ++ ys)) msg_type fields clear
