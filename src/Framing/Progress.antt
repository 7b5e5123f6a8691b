-- ===== src/Framing/Progress.antt =====
-- framing.rs: a garbled outcome always lets the caller advance, and never past the buffer.
use refix.Base.{
  ℕ, ◌+◌, ◌≤◌, min, ◌≡◌, refl, true, false, Option, none, some, arith, length, take, length-take,
  Bytes, starts_with,
}
use refix.Base.Result.{Result, ok, err, ◌>>=◌}
use refix.Framing.{
  begin_string_prefix, GarbledReason, Frame, Halt, Outcome, find_next_begin_string,
  parse_begin_string, body_length_value, body_length_end, parse_body_length, validated_frame_len,
  verify_trailer_start, verify_checksum, parse_msg_type, Scanner, scan_fields, try_scan, outcome_of,
  scan,
}
use refix.Base.Prefixes.{starts_with-length}
use refix.Framing.Resync.{find_next-le, find_next-pos, find_next-pos_long}

-- A skip that the caller can take.
abbrev IsSkip : Bytes → ℕ → Type 0
IsSkip buf n = (1 ≤ n) × (n ≤ length buf)

abbrev HaltsWell : {A : Type 0} → Bytes → Result Halt A → Type 0
HaltsWell buf (ok a) = Unit
HaltsWell buf (err Halt.incomplete) = Unit
HaltsWell buf (err (Halt.garbled reason skipped)) = IsSkip buf skipped

HaltsWell-bind :
    {A B : Type 0} (buf : Bytes) (m : Result Halt A) (f : A → Result Halt B)
    → HaltsWell buf m
    → ((a : A) → m ≡ ok a → HaltsWell buf (f a))
    → HaltsWell buf (m >>= f)
HaltsWell-bind buf (ok a) f h k = k a refl
HaltsWell-bind buf (err Halt.incomplete) f h k = tt
HaltsWell-bind buf (err (Halt.garbled r n)) f h k = h

resync-IsSkip :
    (buf : Bytes)
    → starts_with begin_string_prefix buf ≡ false
    → IsSkip buf (find_next_begin_string buf)
resync-IsSkip buf h = (find_next-pos buf h, find_next-le buf)

-- A buffer that opens with the whole prefix is no proper part of it unless it is the prefix.
module _ (buf : Bytes) (skip : IsSkip buf (find_next_begin_string buf)) where
  parse_begin_string-HaltsWell : HaltsWell buf (parse_begin_string buf)
  unfolding parse_begin_string
  parse_begin_string-HaltsWell = ground arith

  body_length_value-HaltsWell : (start rel : ℕ) → HaltsWell buf (body_length_value buf start rel)
  unfolding body_length_value
  body_length_value-HaltsWell start rel = ground arith

  body_length_end-HaltsWell :
      (start : ℕ) (o : Option ℕ) → HaltsWell buf (body_length_end buf start o)
  unfolding body_length_end
  body_length_end-HaltsWell start none = ground arith
  body_length_end-HaltsWell start (some rel) = body_length_value-HaltsWell start rel

  parse_body_length-HaltsWell : (start : ℕ) → HaltsWell buf (parse_body_length buf start)
  unfolding parse_body_length
  parse_body_length-HaltsWell start = grind (arith, body_length_end-HaltsWell)

  validated_frame_len-HaltsWell :
      (start body_length cap : ℕ) → HaltsWell buf (validated_frame_len buf start body_length cap)
  unfolding validated_frame_len
  validated_frame_len-HaltsWell start body_length cap = ground arith

  verify_trailer_start-HaltsWell : (start : ℕ) → HaltsWell buf (verify_trailer_start buf start)
  unfolding verify_trailer_start
  verify_trailer_start-HaltsWell start = ground arith

-- Behind the trailer the skip is the frame, which is not empty.
module _ (buf bytes : Bytes) (skip : IsSkip buf (length bytes)) where
  verify_checksum-HaltsWell : (start : ℕ) → HaltsWell buf (verify_checksum bytes start)
  unfolding verify_checksum
  verify_checksum-HaltsWell start = ground arith

  parse_msg_type-HaltsWell :
      (start body_length : ℕ) → HaltsWell buf (parse_msg_type bytes start body_length)
  unfolding parse_msg_type
  parse_msg_type-HaltsWell start body_length = ground arith

pub validated_frame_len-ok :
    (buf : Bytes) (start body_length cap n : ℕ)
    → validated_frame_len buf start body_length cap ≡ ok n
    → (n ≡ min (min (start + body_length) 18446744073709551615 + 7) 18446744073709551615)
      × (n ≤ cap)
      × (n ≤ length buf)
unfolding validated_frame_len
validated_frame_len-ok buf start body_length cap n h = ground arith

scan_fields-HaltsWell :
    (s : Scanner) (buf : Bytes)
    → starts_with buf begin_string_prefix ≡ true
    → HaltsWell buf (scan_fields s buf)
unfolding scan_fields
scan_fields-HaltsWell s buf h =
    let long = starts_with-length buf begin_string_prefix h in
    let skip : IsSkip buf (find_next_begin_string buf) =
      (find_next-pos_long buf long, find_next-le buf) in
    HaltsWell-bind buf (parse_begin_string buf) _ (parse_begin_string-HaltsWell buf skip) λ v _.
      HaltsWell-bind buf (parse_body_length buf v.1) _ (parse_body_length-HaltsWell buf skip v.1)
        λ w _.
          HaltsWell-bind buf (validated_frame_len buf w.1 w.0 s.max_frame_size) _
            (validated_frame_len-HaltsWell buf skip w.1 w.0 s.max_frame_size)
            λ n fits.
              let whole : IsSkip buf (length (take n buf)) = omega (
                arith,
                length-take n buf,
                validated_frame_len-ok buf w.1 w.0 s.max_frame_size n fits,
              ) in
              HaltsWell-bind buf (verify_trailer_start buf (w.1 + w.0)) _
                (verify_trailer_start-HaltsWell buf skip (w.1 + w.0))
                λ _ _.
                  HaltsWell-bind buf (verify_checksum (take n buf) (w.1 + w.0)) _
                    (verify_checksum-HaltsWell buf (take n buf) whole (w.1 + w.0))
                    λ _ _.
                      HaltsWell-bind buf (parse_msg_type (take n buf) w.1 w.0) _
                        (parse_msg_type-HaltsWell buf (take n buf) whole w.1 w.0) λ _ _. tt

try_scan-HaltsWell : (s : Scanner) (buf : Bytes) → HaltsWell buf (try_scan s buf)
unfolding try_scan
try_scan-HaltsWell s buf = ground (arith, scan_fields-HaltsWell s buf, resync-IsSkip buf)

outcome_of-HaltsWell :
    (buf : Bytes) (r : Result Halt Frame) (reason : GarbledReason) (skipped : ℕ)
    → HaltsWell buf r
    → outcome_of r ≡ Outcome.garbled reason skipped
    → IsSkip buf skipped
outcome_of-HaltsWell buf (ok f) reason skipped h e = cc
outcome_of-HaltsWell buf (err Halt.incomplete) reason skipped h e = cc
outcome_of-HaltsWell buf (err (Halt.garbled r n)) reason skipped h e = ground arith

-- A garbled outcome of the scanner skips at least one byte and no more bytes than the buffer
-- holds.
pub scan_progress :
    (s : Scanner) (buf : Bytes) (reason : GarbledReason) (skipped : ℕ)
    → scan s buf ≡ Outcome.garbled reason skipped
    → (1 ≤ skipped) × (skipped ≤ length buf)
unfolding scan
scan_progress s buf reason skipped =
    outcome_of-HaltsWell buf (try_scan s buf) reason skipped (try_scan-HaltsWell s buf)
