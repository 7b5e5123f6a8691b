-- ===== src/Framing/Complete.antt =====
-- framing.rs, `Scanner::scan`: every frame is found.
use refix.Base.{
  ℕ, ◌+◌, ◌≤◌, ◌≡◌, sym, ap, ◌∙◌, true, ◌∷◌, ◌++◌, append_assoc, arith, length, take, length-append,
  Bytes, starts_with,
}
use refix.Base.Appends.{take-append_add}
use refix.Base.Digits.{decimal}
use refix.Base.Prefixes.{starts_with-append_le, starts_with-length}
use refix.Base.Result.{ok}
use refix.Framing.{
  soh, begin_string_prefix, Frame, Outcome, decode_begin_string, parse_begin_string,
  parse_body_length, Scanner, scan,
}
use refix.Framing.Preamble.{IsValue, parse_begin_string_accepts}
use refix.Framing.Count.{IsCount, parse_body_length_accepts}
use refix.Framing.Trailer.{
  trailer, verify_trailer_start_accepts, verify_checksum_accepts, parse_msg_type_accepts,
}
use refix.Framing.Shape.{
  IsBuffer, preamble, fix, IsFrame, length-preamble, preamble-append, frame_len_accepts,
  last_of_region, past_value,
}
use refix.Framing.Steps.{Steps, Steps-scan}

-- The steps of `try_scan` over a text that is split as a frame is.
module _ (value digits region rest : Bytes) (x y z : ℕ) where
  abbrev pre : Bytes
  pre = preamble value digits

  abbrev text : Bytes
  text = (pre ++ region) ++ (trailer x y z ++ rest)

  text_is :
      text
      ≡ b'8'
        ∷ b'='
        ∷ (value ++ soh ∷ b'9' ∷ b'=' ∷ (digits ++ soh ∷ (region ++ (trailer x y z ++ rest))))
  text_is = append_assoc pre region (trailer x y z ++ rest) ∙ preamble-append value digits _

  text_opens : starts_with value fix ≡ true → starts_with text begin_string_prefix ≡ true
  unfolding starts_with
  text_opens h = rw text_is (starts_with-append_le value _ fix (starts_with-length value fix h) ∙ h)

  text_begin_string :
      IsValue value → parse_begin_string text ≡ ok (decode_begin_string value, length value + 3)
  text_begin_string v = rw text_is (parse_begin_string_accepts b'8' b'=' value _ v)

  text_body_length :
      IsCount digits
      → parse_body_length text (length value + 3)
        ≡ ok (decimal 0 digits, length value + 3 + 2 + length digits + 1)
  text_body_length c =
      parse_body_length_accepts text (length value + 3) digits (region ++ (trailer x y z ++ rest))
        (rw text_is (past_value value _)) c

  text-take :
      (n : ℕ) → n ≡ length (pre ++ region) + 7 → take n text ≡ (pre ++ region) ++ trailer x y z
  text-take n e = rw e (take-append_add (pre ++ region) (trailer x y z ++ rest) 7)

module _ (s : Scanner) (f : Frame) (rest : Bytes) (i : IsFrame s f) where
  open i use {value, digits, region, x, y, z}

  abbrev before : Bytes
  before = preamble value digits ++ region

  text_eq : f.bytes ++ rest ≡ before ++ (trailer x y z ++ rest)
  text_eq = ap (λ t. t ++ rest) i.bytes_are ∙ append_assoc before (trailer x y z) rest

  -- Where the region starts and ends.
  start_is : length value + 3 + 2 + length digits + 1 ≡ length (preamble value digits)
  start_is = omega (arith, length-preamble value digits)

  end_is : length value + 3 + 2 + length digits + 1 + f.body_length ≡ length before
  end_is = omega (
    arith,
    length-preamble value digits,
    length-append (preamble value digits) region,
    i.measured,
  )

  region_long : 1 ≤ length region
  region_long = rw i.region_is (omega arith)

  frame_size : length f.bytes ≡ length before + 7
  frame_size = rw i.bytes_are (omega (arith, length-append before (trailer x y z)))

  frame_Steps : IsBuffer (f.bytes ++ rest) → Steps s (f.bytes ++ rest) f
  frame_Steps b = record {
    opens = rw text_eq (text_opens value digits region rest x y z i.is_fix);
    body_length_start = length value + 3;
    body_start = length value + 3 + 2 + length digits + 1;
    frame_len = length value + 3 + 2 + length digits + 1 + f.body_length + 7;
    begin_string_step =
        rw (text_eq, i.decoded) (text_begin_string value digits region rest x y z i.is_value);
    body_length_step =
        rw (text_eq, i.counted) (text_body_length value digits region rest x y z i.is_count);
    frame_len_step =
        frame_len_accepts (f.bytes ++ rest) _ f.body_length s.max_frame_size b
          (omega (arith, end_is, frame_size, i.fits))
          (omega (arith, end_is, frame_size, length-append f.bytes rest));
    bytes_are =
        rw text_eq
          (i.bytes_are ∙ sym (text-take value digits region rest x y z _ (omega (arith, end_is))));
    trailer_step =
        rw (text_eq, end_is)
          (verify_trailer_start_accepts before (x ∷ y ∷ z ∷ soh ∷ rest)
            (omega (arith, region_long, length-append (preamble value digits) region))
            (last_of_region (preamble value digits) region region_long ∙ i.ends));
    checksum_step = rw (i.bytes_are, end_is) (verify_checksum_accepts before x y z i.checked);
    msg_type_step =
        rw (i.bytes_are, append_assoc, start_is, i.measured)
          (parse_msg_type_accepts (preamble value digits) region (trailer x y z) f.msg_type i.fields
            i.region_is i.clear);
  }

  -- Every frame is found, whatever bytes follow it.
  pub scan_complete : IsBuffer (f.bytes ++ rest) → scan s (f.bytes ++ rest) ≡ Outcome.frame f
  scan_complete b = Steps-scan s (f.bytes ++ rest) f (frame_Steps b)
