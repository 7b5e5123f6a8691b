-- ===== src/Framing/Tests.antt =====
-- framing.rs on concrete bytes.
use refix.Base.{
  ◌≤◌, ◌≡◌, refl, ◌↔◌, ◌⊎◌, true, false, [], ◌∷◌, ◌++◌, arith, length, take, drop, Bytes, equal,
  starts_with, position, all,
}
use refix.Base.Digits.{fold_digits}
use refix.Framing.{
  soh, begin_string_prefix, checksum_mismatch, fix42, Frame, Outcome, window_position,
  partial_prefix, find_next_begin_string, decode_begin_string, begin_string_end, parse_begin_string,
  body_length_value, body_length_end, parse_body_length, validated_frame_len, verify_trailer_start,
  checksum, verify_checksum, msg_type_end, msg_type_in, parse_msg_type, default_scanner,
  scan_fields, try_scan, scan,
}
use refix.Framing.Shape.{IsFrame}
use refix.Framing.Sound.{scan_sound, scan-IsFrame, scan_stable}
use refix.Framing.Resync.{find_next_hit, find_next_first}
use refix.Framing.Progress.{scan_progress}

-- A heartbeat.
abbrev pub heartbeat_bytes : Bytes
heartbeat_bytes =
    b'8' ∷ b'=' ∷ b'F' ∷ b'I' ∷ b'X' ∷ b'.' ∷ b'4' ∷ b'.' ∷ b'2' ∷ soh ∷ b'9' ∷ b'=' ∷ b'5' ∷ soh
    ∷ b'3' ∷ b'5' ∷ b'=' ∷ b'0' ∷ soh ∷ b'1' ∷ b'0' ∷ b'=' ∷ b'1' ∷ b'6' ∷ b'1' ∷ soh ∷ []

abbrev pub heartbeat : Frame
heartbeat = record {
  bytes = heartbeat_bytes;
  begin_string = fix42;
  body_length = 5;
  msg_type = b'0' ∷ [];
}

pub heartbeat_scanned : scan default_scanner heartbeat_bytes ≡ Outcome.frame heartbeat
unfolding scan try_scan starts_with scan_fields parse_begin_string position parse_body_length equal
    body_length_end body_length_value all fold_digits validated_frame_len verify_trailer_start
    verify_checksum checksum parse_msg_type decode_begin_string begin_string_end
    find_next_begin_string msg_type_end msg_type_in partial_prefix window_position
heartbeat_scanned = refl

pub heartbeat_scanned_index :
    scan (record { max_frame_size = 4294967295 }) heartbeat_bytes ≡ Outcome.frame heartbeat
unfolding scan try_scan starts_with scan_fields parse_begin_string position parse_body_length equal
    body_length_end body_length_value all fold_digits validated_frame_len verify_trailer_start
    verify_checksum checksum parse_msg_type decode_begin_string begin_string_end
    find_next_begin_string msg_type_end msg_type_in partial_prefix window_position
heartbeat_scanned_index = refl

-- A heartbeat whose checksum is off by one, with a heartbeat behind it.
abbrev wrong_checksum : Bytes
wrong_checksum =
    take 19 heartbeat_bytes ++ b'1' ∷ b'0' ∷ b'=' ∷ b'1' ∷ b'6' ∷ b'2' ∷ soh ∷ heartbeat_bytes

wrong_checksum_scanned : scan default_scanner wrong_checksum ≡ Outcome.garbled checksum_mismatch 26
unfolding scan try_scan starts_with scan_fields parse_begin_string position parse_body_length equal
    body_length_end body_length_value all fold_digits validated_frame_len verify_trailer_start
    verify_checksum checksum parse_msg_type decode_begin_string begin_string_end
    find_next_begin_string msg_type_end msg_type_in partial_prefix window_position
wrong_checksum_scanned = refl

-- Noise before a message.
abbrev noise : Bytes
noise = b'8' ∷ b'=' ∷ b'8' ∷ heartbeat_bytes

noise_skipped : find_next_begin_string noise ≡ 3
unfolding scan try_scan starts_with scan_fields parse_begin_string position parse_body_length equal
    body_length_end body_length_value all fold_digits validated_frame_len verify_trailer_start
    verify_checksum checksum parse_msg_type decode_begin_string begin_string_end
    find_next_begin_string msg_type_end msg_type_in partial_prefix window_position
noise_skipped = refl

scan_sound_example :
    IsFrame default_scanner heartbeat × (rest : Bytes) × (heartbeat_bytes ≡ heartbeat.bytes ++ rest)
scan_sound_example =
    scan_sound default_scanner heartbeat_bytes heartbeat (omega arith) heartbeat_scanned

scan-IsFrame_example :
    (scan default_scanner (heartbeat.bytes ++ wrong_checksum) ≡ Outcome.frame heartbeat)
    ↔ IsFrame default_scanner heartbeat
scan-IsFrame_example = scan-IsFrame default_scanner heartbeat wrong_checksum (omega arith)

scan_stable_example :
    scan default_scanner (heartbeat_bytes ++ wrong_checksum) ≡ Outcome.frame heartbeat
scan_stable_example =
    scan_stable default_scanner heartbeat_bytes wrong_checksum heartbeat (omega arith)
      heartbeat_scanned

scan_progress_example : (1 ≤ 26) × (26 ≤ length wrong_checksum)
scan_progress_example =
    scan_progress default_scanner wrong_checksum checksum_mismatch 26 wrong_checksum_scanned

find_next_hit_example :
    (starts_with (drop (find_next_begin_string noise) noise) begin_string_prefix ≡ true)
    ⊎ (starts_with begin_string_prefix (drop (find_next_begin_string noise) noise) ≡ true)
find_next_hit_example = find_next_hit noise

find_next_first_example :
    starts_with (drop 2 (noise ++ heartbeat_bytes)) begin_string_prefix ≡ false
find_next_first_example =
    find_next_first noise heartbeat_bytes 2 (omega arith) (rw noise_skipped (omega arith))
