-- ===== src/Tokenizer/Covers.antt =====
-- tokenizer.rs, `Tokenizer::tokenize`: of a frame, the fields cover the whole, and every value ends
-- on a SOH.
use refix.Base.{
  ℕ, zero, suc, ◌+◌, ◌-◌, ◌≤◌, ◌≡◌, refl, sym, ap, ◌∙◌, subst, ◌≢◌, inl, inr, Option, none, some,
  List, [], ◌∷◌, ◌++◌, append-nil, arith, dec_lt, ◌==◌, Option-cases, length, get_elem?, drop,
  length-append, Bytes, slice, position,
}
use refix.Base.Appends.{get_elem?-drop, get_elem?-some_lt}
use refix.Base.Digits.{u32_max}
use refix.Base.Finds.{get_elem?-take}
use refix.Framing.{
  soh, missing_begin_string, malformed_begin_string, missing_body_length, malformed_body_length,
  body_length_mismatch, missing_msg_type, malformed_checksum, checksum_mismatch, frame_too_large,
  Frame, Outcome, Scanner, scan,
}
use refix.Framing.Shape.{IsBuffer, preamble, IsFrame}
use refix.Framing.Sound.{scan_sound}
use refix.Framing.Complete.{scan_complete}
use refix.Framing.Trailer.{trailer}
use refix.Tokenizer.Values.{IsValueEnd}
use refix.Tokenizer.Tiling.{IsField, tagged, untagged, Tiles, done, tile, tokenize_fields-Tiles}
use refix.Tokenizer.{
  Tokenizer, RawField, tag_end_in, find_tag_end, tokenize_fields, RawMessage, frame_error,
  check_frame, message, tokenize,
}

-- The fields follow one another from `pos` to the end of the bytes, each with a separator behind
-- its value.
pub data Covers (bytes : Bytes) (sep : ℕ) : ℕ → List RawField → Type 0 where
  covered : {pos : ℕ} → pos ≡ length bytes → Covers bytes sep pos []
  field :
      {pos : ℕ} {f : RawField} {fields : List RawField}
      → pos ≤ f.value_start
      → f.value_start ≤ f.value_end
      → get_elem? bytes f.value_end ≡ some sep
      → Covers bytes sep (f.value_end + 1) fields
      → Covers bytes sep pos (f ∷ fields)

tag_end_in-none :
    (at : ℕ) (bytes : Bytes) (sep k : ℕ)
    → tag_end_in at bytes sep ≡ none
    → get_elem? bytes k ≢ some sep
unfolding tag_end_in
tag_end_in-none at [] sep k h = λ e. cc
tag_end_in-none at (b ∷ bytes) sep zero h = λ e. absurd (ground arith)
tag_end_in-none at (b ∷ bytes) sep (suc k) h = tag_end_in-none (at + 1) bytes sep k (ground arith)

position-none :
    (sep : ℕ) (xs : Bytes) (k : ℕ) → position (λ b. b == sep) xs ≡ none → get_elem? xs k ≢ some sep
unfolding position
position-none sep [] k h = λ e. cc
position-none sep (x ∷ xs) zero h = λ e. absurd (ground arith)
position-none sep (x ∷ xs) (suc k) h = position-none sep xs k (ground arith)

-- Bytes that end in the separator, which is not `=`.
module _ (bytes : Bytes) (sep last : ℕ) (size : length bytes ≡ suc last)
    (ends : get_elem? bytes last ≡ some sep) (not_equals : sep ≢ b'=') where
  find_tag_end-covered :
      (pos : ℕ) → pos ≤ length bytes → find_tag_end bytes pos sep ≡ none → pos ≡ length bytes
  unfolding find_tag_end
  find_tag_end-covered pos h missing = elim (dec_lt pos (length bytes)) [
    | no past ↦ omega arith
    | yes before ↦
        let e : pos + (last - pos) ≡ last = omega arith in
        absurd (
          tag_end_in-none pos (drop pos bytes) sep (last - pos) (ground arith)
            (get_elem?-drop bytes pos (last - pos) ∙ ap (get_elem? bytes) e ∙ ends))
  ]

  -- The value of a tagged field does not run to the end.
  value_ends :
      {data_len : Option ℕ} {stop : ℕ} (delimiter : ℕ)
      → get_elem? bytes delimiter ≡ some b'='
      → IsValueEnd bytes (delimiter + 1) data_len sep stop
      → get_elem? bytes stop ≡ some sep
  value_ends {stop = stop} delimiter tag v = elim v.ends [
    | inl there ↦ there
    | inr (at_end, clear) ↦ absurd (
        let here = get_elem?-some_lt bytes delimiter _ tag in
        let apart : delimiter ≢ last = λ e.
          let same : some sep ≡ some b'=' = sym ends ∙ ap (get_elem? bytes) (sym e) ∙ tag in
          not_equals (ground (arith, same)) in
        let e : delimiter + 1 + (last - (delimiter + 1)) ≡ last = omega (arith, here, apart) in
        position-none sep (slice bytes (delimiter + 1) stop) (last - (delimiter + 1)) clear (
          get_elem?-take (stop - (delimiter + 1)) (drop (delimiter + 1) bytes)
            (last - (delimiter + 1)) (omega (arith, here, apart))
          ∙ get_elem?-drop bytes (delimiter + 1) (last - (delimiter + 1))
          ∙ ap (get_elem? bytes) e
          ∙ ends))
  ]

  field_ends :
      {pos : ℕ} {data_len : Option ℕ} {f : RawField} {next : ℕ}
      → IsField bytes sep pos data_len f next
      → (pos ≤ f.value_start)
        × (f.value_start ≤ f.value_end)
        × (get_elem? bytes f.value_end ≡ some sep)
        × (next ≡ f.value_end + 1)
  field_ends {f = f} (tagged delimiter after tag _ _ start v next) =
      (omega (arith, start), omega (arith, start, v.after), value_ends delimiter tag v, next)
  field_ends {f = f} (untagged _ start after there _ next) =
      (omega (arith, start), omega (arith, start, after), there, next)

  Tiles-Covers :
      {t : Tokenizer} {pos : ℕ} {data_len : Option ℕ} {fields : List RawField}
      → pos ≤ length bytes
      → Tiles t bytes sep pos data_len fields
      → Covers bytes sep pos fields
  Tiles-Covers h (done {pos = p} missing) = covered (find_tag_end-covered p h missing)
  Tiles-Covers h (tile {field = f} {fields = fs} next is_field rest) =
      let (after, ordered, there, e) = field_ends is_field in
      let inside = get_elem?-some_lt bytes f.value_end sep there in
      let tail = Tiles-Covers (omega (arith, e, inside)) rest in
      Covers.field after ordered there (subst (λ p. Covers bytes sep p fs) e tail)

frame_error-none :
    (bytes : Bytes) (o : Outcome)
    → frame_error bytes o ≡ none
    → (f : Frame) × (o ≡ Outcome.frame f) × (length f.bytes ≡ length bytes)
unfolding frame_error
frame_error-none bytes (Outcome.frame f) h = (f, refl, ground arith)
frame_error-none bytes Outcome.incomplete h = cc
frame_error-none bytes (Outcome.garbled frame_too_large skipped) h = cc
frame_error-none bytes (Outcome.garbled missing_begin_string skipped) h = cc
frame_error-none bytes (Outcome.garbled malformed_begin_string skipped) h = cc
frame_error-none bytes (Outcome.garbled missing_body_length skipped) h = cc
frame_error-none bytes (Outcome.garbled malformed_body_length skipped) h = cc
frame_error-none bytes (Outcome.garbled body_length_mismatch skipped) h = cc
frame_error-none bytes (Outcome.garbled missing_msg_type skipped) h = cc
frame_error-none bytes (Outcome.garbled malformed_checksum skipped) h = cc
frame_error-none bytes (Outcome.garbled checksum_mismatch skipped) h = cc

same_length-nil : (xs rest : Bytes) → length xs ≡ length (xs ++ rest) → rest ≡ []
same_length-nil [] [] h = refl
same_length-nil [] (x ∷ rest) h = absurd (omega arith)
same_length-nil (x ∷ xs) rest h = same_length-nil xs rest (omega arith)

abbrev pub index_scanner : Scanner
index_scanner = record { max_frame_size = u32_max }

-- What the tokenizer accepts is one frame.
check_frame-none :
    (bytes : Bytes)
    → IsBuffer bytes
    → check_frame bytes ≡ none
    → (f : Frame) × IsFrame index_scanner f × (f.bytes ≡ bytes)
unfolding check_frame
check_frame-none bytes b h =
    let (f, found, same) = frame_error-none bytes _ h in
    let (i, rest, splits) = scan_sound _ bytes f b found in
    let e = same_length-nil f.bytes rest (same ∙ ap length splits) in
    (f, i, sym (splits ∙ ap (λ r. f.bytes ++ r) e ∙ append-nil f.bytes))

get_elem?-append_last :
    (xs : Bytes) (a b c d e f g : ℕ)
    → get_elem? (xs ++ a ∷ b ∷ c ∷ d ∷ e ∷ f ∷ g ∷ []) (length xs + 6) ≡ some g
get_elem?-append_last [] a b c d e f g = refl
get_elem?-append_last (x ∷ xs) a b c d e f g =
    let there = get_elem?-append_last xs a b c d e f g in
    let n : length (x ∷ xs) + 6 ≡ suc (length xs + 6) = omega arith in rw n there

-- The fields of a frame cover it.
module _ (t : Tokenizer) (f : Frame) (i : IsFrame index_scanner f) where
  pub frame-Covers :
      (fields : List RawField) × (tokenize_fields t f.bytes soh ≡ some fields)
      × Covers f.bytes soh 0 fields
  frame-Covers =
      let before = preamble i.value i.digits ++ i.region in
      let size : length f.bytes ≡ suc (length before + 6) =
        rw i.bytes_are (omega (arith, length-append before (trailer i.x i.y i.z))) in
      let ends : get_elem? f.bytes (length before + 6) ≡ some soh =
        rw i.bytes_are (get_elem?-append_last before b'1' b'0' b'=' i.x i.y i.z soh) in
      let (fields, e, tiles) = tokenize_fields-Tiles t f.bytes soh (omega (arith, i.fits)) in
      let covers =
        Tiles-Covers f.bytes soh (length before + 6) size ends (omega arith) (omega arith) tiles in
      (fields, e, covers)

check_frame_accepts :
    (f : Frame) → IsBuffer f.bytes → IsFrame index_scanner f → check_frame f.bytes ≡ none
unfolding check_frame frame_error
check_frame_accepts f b i =
    let found : scan index_scanner f.bytes ≡ Outcome.frame f =
      ap (scan index_scanner) (sym (append-nil f.bytes))
      ∙ scan_complete index_scanner f [] i (rw (append-nil f.bytes) b) in
    rw found (ground arith)

-- Every frame by the description, of at most u32::MAX bytes, in a buffer of at most isize::MAX
-- bytes, is tokenized whatever the length tags are, and its fields cover the bytes to the last
-- one, each value ending on a SOH.
pub tokenize_accepts :
    (t : Tokenizer) (f : Frame)
    → IsBuffer f.bytes
    → IsFrame index_scanner f
    → (fields : List RawField) × (tokenize t f.bytes
        ≡ message (record { bytes = f.bytes; fields = fields }))
      × Covers f.bytes soh 0 fields
unfolding tokenize
tokenize_accepts t f b i =
    let (fields, e, covers) = frame-Covers t f i in
    (fields, rw (check_frame_accepts f b i, tokenize) (rw e refl), covers)

message-injective : {m m' : RawMessage} → message m ≡ message m' → m ≡ m'
message-injective h = cc

-- If bytes (at most isize::MAX of them) are tokenized, they are one frame by the description, the
-- message keeps them, and its fields cover them to the last byte.
pub tokenize_sound :
    (t : Tokenizer) (bytes : Bytes) (m : RawMessage)
    → IsBuffer bytes
    → tokenize t bytes ≡ message m
    → (f : Frame) × IsFrame index_scanner f
      × (f.bytes ≡ bytes)
      × (m.bytes ≡ bytes)
      × Covers bytes soh 0 m.fields
unfolding tokenize
tokenize_sound t bytes m b h = elim (Option-cases (check_frame bytes)) [
  | inr (e, refused) ↦ absurd (ground arith)
  | inl passed ↦
      let (f, i, same) = check_frame-none bytes b passed in
      let (fields, e, covers) = tokenize_accepts t f (rw same b) i in
      let made : tokenize t bytes ≡ message (record { bytes = bytes; fields = fields }) =
        rw (← same) e in
      let m_is : m ≡ record { bytes = bytes; fields = fields } = message-injective (sym h ∙ made) in
      (f, i, same, ap (λ u. u.bytes) m_is, rw m_is (rw (← same) covers))
]
