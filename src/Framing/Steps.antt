-- ===== src/Framing/Steps.antt =====
-- framing.rs, `try_scan`: a frame is returned just where each of its six steps succeeds.
use refix.Base.{
  ℕ, ◌+◌, ◌≡◌, refl, ap, subst, inl, inr, true, arith, Bool-cases, take, Bytes, starts_with,
}
use refix.Base.Result.{Result, ok, err, bind-eq-ok}
use refix.Framing.{
  begin_string_prefix, BeginString, Frame, Halt, Outcome, parse_begin_string, parse_body_length,
  validated_frame_len, verify_trailer_start, verify_checksum, parse_msg_type, Scanner, scan_fields,
  try_scan, outcome_of, scan,
}

-- The steps of `try_scan` on `buf`, each with what it returns.
pub record Steps (s : Scanner) (buf : Bytes) (f : Frame) : Type 0 where
  pub opens : starts_with buf begin_string_prefix ≡ true
  pub body_length_start : ℕ
  pub body_start : ℕ
  pub frame_len : ℕ
  pub begin_string_step : parse_begin_string buf ≡ ok (f.begin_string, body_length_start)
  pub body_length_step : parse_body_length buf body_length_start ≡ ok (f.body_length, body_start)
  pub frame_len_step :
      validated_frame_len buf body_start f.body_length s.max_frame_size ≡ ok frame_len
  pub bytes_are : f.bytes ≡ take frame_len buf
  pub trailer_step : verify_trailer_start buf (body_start + f.body_length) ≡ ok tt
  pub checksum_step : verify_checksum f.bytes (body_start + f.body_length) ≡ ok tt
  pub msg_type_step : parse_msg_type f.bytes body_start f.body_length ≡ ok f.msg_type

-- The frame that `try_scan` builds at its end.
abbrev built : Bytes → BeginString × ℕ → ℕ × ℕ → ℕ → Bytes → Frame
built buf a b m t = record {
  bytes = take m buf;
  begin_string = a.0;
  body_length = b.0;
  msg_type = t;
}

built-Steps :
    (s : Scanner) (buf : Bytes) (a : BeginString × ℕ) (b : ℕ × ℕ) (m : ℕ) (t : Bytes)
    → starts_with buf begin_string_prefix ≡ true
    → parse_begin_string buf ≡ ok a
    → parse_body_length buf a.1 ≡ ok b
    → validated_frame_len buf b.1 b.0 s.max_frame_size ≡ ok m
    → verify_trailer_start buf (b.1 + b.0) ≡ ok tt
    → verify_checksum (take m buf) (b.1 + b.0) ≡ ok tt
    → parse_msg_type (take m buf) b.1 b.0 ≡ ok t
    → Steps s buf (built buf a b m t)
built-Steps s buf a b m t opens ea eb em eu ev et = record {
  opens = opens;
  body_length_start = a.1;
  body_start = b.1;
  frame_len = m;
  begin_string_step = ea;
  body_length_step = eb;
  frame_len_step = em;
  bytes_are = refl;
  trailer_step = eu;
  checksum_step = ev;
  msg_type_step = et;
}

ok-injective : {A : Type 0} {x y : A} → ◌≡◌ {A = Result Halt A} (ok x) (ok y) → x ≡ y
ok-injective h = cc

outcome_of-frame : (r : Result Halt Frame) (f : Frame) → outcome_of r ≡ Outcome.frame f → r ≡ ok f
outcome_of-frame (ok g) f h = cc
outcome_of-frame (err Halt.incomplete) f h = cc
outcome_of-frame (err (Halt.garbled r n)) f h = cc

scan_fields-Steps :
    (s : Scanner) (buf : Bytes) (f : Frame)
    → starts_with buf begin_string_prefix ≡ true
    → scan_fields s buf ≡ ok f
    → Steps s buf f
unfolding scan_fields
scan_fields-Steps s buf f opens h =
    let (a, ea, h1) = bind-eq-ok (parse_begin_string buf) _ h in
    let (b, eb, h2) = bind-eq-ok (parse_body_length buf a.1) _ h1 in
    let (m, em, h3) = bind-eq-ok (validated_frame_len buf b.1 b.0 s.max_frame_size) _ h2 in
    let (_, eu, h4) = bind-eq-ok (verify_trailer_start buf (b.1 + b.0)) _ h3 in
    let (_, ev, h5) = bind-eq-ok (verify_checksum (take m buf) (b.1 + b.0)) _ h4 in
    let (t, et, h6) = bind-eq-ok (parse_msg_type (take m buf) b.1 b.0) _ h5 in
    subst (Steps s buf) (ok-injective h6) (built-Steps s buf a b m t opens ea eb em eu ev et)

Steps-scan_fields :
    (s : Scanner) (buf : Bytes) (f : Frame) → Steps s buf f → scan_fields s buf ≡ ok f
unfolding scan_fields
Steps-scan_fields s buf f st = rw st.begin_string_step (
    rw st.body_length_step (
      rw st.frame_len_step (
        rw (← st.bytes_are) (rw st.trailer_step (rw st.checksum_step (rw st.msg_type_step refl))))))

pub scan-Steps :
    (s : Scanner) (buf : Bytes) (f : Frame) → scan s buf ≡ Outcome.frame f → Steps s buf f
unfolding scan try_scan
scan-Steps s buf f h = elim (Bool-cases (starts_with buf begin_string_prefix)) [
  | inl opens ↦
      scan_fields-Steps s buf f opens (outcome_of-frame (scan_fields s buf) f (ground arith))
  | inr not_open ↦ absurd (ground arith)
]

pub Steps-scan :
    (s : Scanner) (buf : Bytes) (f : Frame) → Steps s buf f → scan s buf ≡ Outcome.frame f
unfolding scan try_scan
Steps-scan s buf f st = rw st.opens (ap outcome_of (Steps-scan_fields s buf f st))
