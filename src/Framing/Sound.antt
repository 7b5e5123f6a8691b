-- ===== src/Framing/Sound.antt =====
-- framing.rs, `Scanner::scan`: what it returns as a frame is one, and opens the buffer.
use refix.Base.{
  ℕ, ◌+◌, ◌-◌, ◌≤◌, ◌≡◌, refl, sym, ap, ◌∙◌, ◌↔◌, true, none, [], ◌∷◌, ◌++◌, append_assoc, arith,
  length, take, drop, length-append, length-take, length-drop, take-append-drop, Bytes, byte_at,
  starts_with, position,
}
use refix.Base.Appends.{take-append_add}
use refix.Base.Digits.{decimal}
use refix.Framing.{
  soh, begin_string_prefix, BeginString, Frame, Outcome, is_soh, decode_begin_string, Scanner, scan,
}
use refix.Framing.Preamble.{IsValue, BeginSplit, parse_begin_string-ok}
use refix.Framing.Count.{IsCount, CountSplit, parse_body_length-ok}
use refix.Framing.Shape.{
  IsBuffer, preamble, fix, IsFrame, length-preamble, preamble-append, frame_len-ok, last_of_region,
  past_value,
}
use refix.Framing.Steps.{Steps, scan-Steps}
use refix.Framing.Trailer.{
  trailer, IsChecked, verify_trailer_start-ok, verify_checksum-ok, msg_type_region,
  parse_msg_type-ok,
}
use refix.Framing.Complete.{scan_complete}

-- A text of seven bytes and more.
pub record Seven (t : Bytes) : Type 0 where
  pub a : ℕ
  pub b : ℕ
  pub c : ℕ
  pub x : ℕ
  pub y : ℕ
  pub z : ℕ
  pub e : ℕ
  pub rest : Bytes
  pub splits : t ≡ a ∷ b ∷ c ∷ x ∷ y ∷ z ∷ e ∷ rest

seven : (t : Bytes) → 7 ≤ length t → Seven t
seven (a ∷ b ∷ c ∷ x ∷ y ∷ z ∷ e ∷ rest) h = record {
  a = a;
  b = b;
  c = c;
  x = x;
  y = y;
  z = z;
  e = e;
  rest = rest;
  splits = refl;
}
seven _ h = absurd (omega arith)

-- A prefix without SOH lies before the first SOH.
starts_with-clear :
    (value after p : Bytes)
    → position is_soh p ≡ none
    → starts_with (value ++ soh ∷ after) p ≡ true
    → starts_with value p ≡ true
unfolding starts_with position
starts_with-clear value after [] clear h = refl
starts_with-clear [] after (q ∷ p) clear h = absurd (ground arith)
starts_with-clear (v ∷ value) after (q ∷ p) clear h =
    ground (arith, starts_with-clear value after p)

opens_twice :
    (buf : Bytes)
    → starts_with buf begin_string_prefix ≡ true
    → (buf ≡ b'8' ∷ b'=' ∷ drop 2 buf) × (starts_with (drop 2 buf) fix ≡ true)
unfolding starts_with
opens_twice [] h = absurd (ground arith)
opens_twice (u ∷ []) h = absurd (ground arith)
opens_twice (u ∷ v ∷ buf) h = ground arith

-- The preamble that the two first steps found.
module _ (buf : Bytes) (begin_string : BeginString) (i n j : ℕ)
    (opens : starts_with buf begin_string_prefix ≡ true) (o : BeginSplit buf begin_string i)
    (c : CountSplit buf i n j) where
  opening : buf ≡ b'8' ∷ b'=' ∷ (o.value ++ soh ∷ o.after)
  opening = (opens_twice buf opens).0 ∙ ap (λ t. b'8' ∷ b'=' ∷ t) o.splits

  behind : drop i buf ≡ o.after
  behind = rw (opening, o.next_is) (past_value o.value o.after)

  preamble_splits : buf ≡ preamble o.value c.digits ++ c.after
  preamble_splits =
      opening
      ∙ ap (λ t. b'8' ∷ b'=' ∷ (o.value ++ soh ∷ t)) (sym behind ∙ c.splits)
      ∙ sym (preamble-append o.value c.digits c.after)

  preamble_is_fix : starts_with o.value fix ≡ true
  unfolding position
  preamble_is_fix =
      starts_with-clear o.value o.after fix refl (rw o.splits at (opens_twice buf opens).1)

  preamble_ends : j ≡ length (preamble o.value c.digits)
  preamble_ends = omega (arith, length-preamble o.value c.digits, o.next_is, c.next_is)

-- The first bytes up to the end of the trailer.
cut :
    (before rest : Bytes) (t : Seven rest) (m : ℕ)
    → m ≡ length before + 7
    → take m (before ++ rest) ≡ before ++ t.a ∷ t.b ∷ t.c ∷ t.x ∷ t.y ∷ t.z ∷ t.e ∷ []
cut before rest t m e = rw e (take-append_add before rest 7 ∙ ap (λ u. before ++ take 7 u) t.splits)

-- The other steps, on a buffer whose preamble, region and trailer are split.
module _ (s : Scanner) (buf : Bytes) (f : Frame) (b : IsBuffer buf) (st : Steps s buf f)
    (pre region rest : Bytes) (t : Seven rest) (whole : buf ≡ (pre ++ region) ++ rest)
    (ends : st.body_start ≡ length pre) (measured : f.body_length ≡ length region) where
  open t use {a, b as b', c, x, y, z, e}

  abbrev before : Bytes
  before = pre ++ region

  end_is : st.body_start + f.body_length ≡ length before
  end_is = omega (arith, length-append pre region)

  size : (st.frame_len ≡ st.body_start + f.body_length + 7) × (st.frame_len ≤ s.max_frame_size)
  size =
      let (e, fits, _) =
        frame_len-ok buf st.body_start f.body_length s.max_frame_size st.frame_len b
          st.frame_len_step in
      (e, fits)

  bytes_are : f.bytes ≡ before ++ a ∷ b' ∷ c ∷ x ∷ y ∷ z ∷ e ∷ []
  bytes_are =
      st.bytes_are
      ∙ ap (take st.frame_len) whole
      ∙ cut before rest t st.frame_len (omega (arith, size, end_is))

  msg_type_found :
      (fields : Bytes) × (region ≡ msg_type_region f.msg_type fields)
      × (position is_soh f.msg_type ≡ none)
  msg_type_found =
      parse_msg_type-ok pre region (a ∷ b' ∷ c ∷ x ∷ y ∷ z ∷ e ∷ []) f.msg_type
        (rw (bytes_are, append_assoc, ends, measured) at st.msg_type_step)

  region_long : 1 ≤ length region
  region_long = let (_, r, _) = msg_type_found in rw r (omega arith)

  landing : (byte_at before (length before - 1) ≡ soh) × (a ≡ b'1') × (b' ≡ b'0') × (c ≡ b'=')
  landing =
      verify_trailer_start-ok before a b' c (x ∷ y ∷ z ∷ e ∷ t.rest)
        (omega (arith, region_long, length-append pre region))
        (rw (whole, end_is, t.splits) at st.trailer_step)

  summed : IsChecked before x y z × (e ≡ soh)
  summed = verify_checksum-ok before a b' c x y z e (rw (bytes_are, end_is) at st.checksum_step)

  trailer_is : a ∷ b' ∷ c ∷ x ∷ y ∷ z ∷ e ∷ [] ≡ trailer x y z
  trailer_is = cc (landing.1, landing.2, landing.3, summed.1)

  parts :
      (value digits : Bytes)
      → pre ≡ preamble value digits
      → IsValue value
      → starts_with value fix ≡ true
      → f.begin_string ≡ decode_begin_string value
      → IsCount digits
      → f.body_length ≡ decimal 0 digits
      → IsFrame s f
  parts value digits pre_is v x' d k n =
      let (fields, region_is, clear) = msg_type_found in
      record {
        value = value;
        digits = digits;
        region = region;
        fields = fields;
        x = x;
        y = y;
        z = z;
        bytes_are = rw (← pre_is) (bytes_are ∙ ap (λ u. before ++ u) trailer_is);
        region_is = region_is;
        is_value = v;
        is_fix = x';
        decoded = d;
        is_count = k;
        counted = n;
        measured = measured;
        clear = clear;
        ends = sym (last_of_region pre region region_long) ∙ landing.0;
        checked = rw (← pre_is) summed.0;
        fits =
            rw bytes_are
              (omega (arith, size, end_is, length-append before (a ∷ b' ∷ c ∷ x ∷ y ∷ z ∷ e ∷ [])));
      }

  opens_buffer : (after : Bytes) × (buf ≡ f.bytes ++ after)
  opens_buffer = (
    t.rest,
    rw bytes_are (whole ∙ ap (λ u. before ++ u) t.splits ∙ sym (append_assoc before _ t.rest)),
  )

module _ (s : Scanner) (buf : Bytes) (f : Frame) (b : IsBuffer buf) (st : Steps s buf f) where
  sound_parts :
      (o : BeginSplit buf f.begin_string st.body_length_start)
      (c : CountSplit buf st.body_length_start f.body_length st.body_start)
      → IsFrame s f × (rest : Bytes) × (buf ≡ f.bytes ++ rest)
  sound_parts o c =
      let pre = preamble o.value c.digits in
      let n = f.body_length in
      let front =
        preamble_splits buf f.begin_string st.body_length_start n st.body_start st.opens o c in
      let ends =
        preamble_ends buf f.begin_string st.body_length_start n st.body_start st.opens o c in
      let fit =
        frame_len-ok buf st.body_start n s.max_frame_size st.frame_len b st.frame_len_step in
      let long : n + 7 ≤ length c.after =
        omega (arith, fit, ap length front, length-append pre c.after) in
      let t = seven (drop n c.after) (omega (arith, length-drop n c.after)) in
      let measured : n ≡ length (take n c.after) = omega (arith, length-take n c.after) in
      let whole : buf ≡ (pre ++ take n c.after) ++ drop n c.after =
        front
        ∙ ap (λ u. pre ++ u) (sym (take-append-drop n c.after))
        ∙ sym (append_assoc pre (take n c.after) (drop n c.after)) in
      let (rest, splits) =
        opens_buffer s buf f b st pre (take n c.after) (drop n c.after) t whole ends measured in
      (
        parts s buf f b st pre (take n c.after) (drop n c.after) t whole ends measured o.value
            c.digits refl o.is_value
            (preamble_is_fix buf f.begin_string st.body_length_start n st.body_start st.opens o c)
            o.decoded c.is_count c.counted,
        rest,
        splits,
      )

-- In a buffer of at most isize::MAX bytes, what the scanner returns as a frame satisfies the
-- description of a frame, and the buffer opens with its bytes.
pub scan_sound :
    (s : Scanner) (buf : Bytes) (f : Frame)
    → IsBuffer buf
    → scan s buf ≡ Outcome.frame f
    → IsFrame s f × (rest : Bytes) × (buf ≡ f.bytes ++ rest)
scan_sound s buf f b h =
    let st = scan-Steps s buf f h in
    sound_parts s buf f b st
      (parse_begin_string-ok buf f.begin_string st.body_length_start st.begin_string_step)
      (parse_body_length-ok buf st.body_length_start f.body_length st.body_start
        st.body_length_step)

-- For any scanner and any bytes behind a candidate frame, in a buffer of at most isize::MAX bytes,
-- the scanner returns that frame at the start of the buffer exactly when it is one by a
-- description with no offsets: BeginString value, BodyLength digits that measure the region
-- between, the region opening with MsgType and closing with SOH, and a trailer that states the
-- byte sum modulo 256, within the cap.
pub scan-IsFrame :
    (s : Scanner) (f : Frame) (rest : Bytes)
    → IsBuffer (f.bytes ++ rest)
    → (scan s (f.bytes ++ rest) ≡ Outcome.frame f) ↔ IsFrame s f
scan-IsFrame s f rest b =
    (λ h. (scan_sound s (f.bytes ++ rest) f b h).0, λ i. scan_complete s f rest i b)

-- A frame that the scanner found stays found, unchanged, when more bytes arrive, as long as the
-- buffer has at most isize::MAX bytes.
pub scan_stable :
    (s : Scanner) (buf more : Bytes) (f : Frame)
    → IsBuffer (buf ++ more)
    → scan s buf ≡ Outcome.frame f
    → scan s (buf ++ more) ≡ Outcome.frame f
scan_stable s buf more f b h =
    let (i, rest, splits) = scan_sound s buf f (omega (arith, length-append buf more)) h in
    let e : buf ++ more ≡ f.bytes ++ (rest ++ more) = rw splits (append_assoc f.bytes rest more) in
    rw e (scan_complete s f (rest ++ more) i (rw e at b))
