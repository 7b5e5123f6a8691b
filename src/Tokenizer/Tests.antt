-- ===== src/Tokenizer/Tests.antt =====
-- tokenizer.rs and tag.rs on concrete values.
use refix.Base.{◌≡◌, ◌↔◌, true, not, ◌&&◌, ◌||◌, none, some, List, [], ◌∷◌, arith, ◌==◌, Bytes}
use refix.Tags.{malformed, is_sorted_set, contains}
use refix.Framing.{soh, Frame}
use refix.Framing.Shape.{IsFrame}
use refix.Framing.Tests.{heartbeat_bytes, heartbeat, heartbeat_scanned_index}
use refix.Tokenizer.{
  standard_length_tags, Dialect, standard_dialect, with_extra_length_tags, new_tokenizer,
  default_tokenizer, RawField, parse_u32, is_length_tag, tokenize_fields, RawMessage, message,
  tokenize,
}
use refix.Tokenizer.Numbers.{
  IsNumber, parse_u32-IsNumber, new_tokenizer-is_sorted_set, is_length_tag_lem,
}
use refix.Tokenizer.Tiling.{Tiles, tokenize_fields-Tiles}
use refix.Tokenizer.Covers.{Covers, tokenize_accepts, tokenize_sound}
use refix.Framing.Sound.{scan_sound}

-- A data field whose value holds the separator, then a run without a tag.
abbrev data_text : Bytes
data_text =
    b'9' ∷ b'5' ∷ b'=' ∷ b'3' ∷ soh ∷ b'9' ∷ b'6' ∷ b'=' ∷ b'a' ∷ soh ∷ b'b' ∷ soh ∷ b'x' ∷ soh ∷ []

tokenize_fields-Tiles_example :
    (fields : List RawField) × (tokenize_fields default_tokenizer data_text soh ≡ some fields)
    × Tiles default_tokenizer data_text soh 0 none fields
tokenize_fields-Tiles_example = tokenize_fields-Tiles default_tokenizer data_text soh (omega arith)

heartbeat-IsFrame : IsFrame (record { max_frame_size = 4294967295 }) heartbeat
heartbeat-IsFrame =
    (scan_sound (record { max_frame_size = 4294967295 }) heartbeat_bytes heartbeat (omega arith)
      heartbeat_scanned_index).0

tokenize_accepts_example :
    (fields : List RawField) × (tokenize default_tokenizer heartbeat_bytes
      ≡ message (record { bytes = heartbeat_bytes; fields = fields }))
    × Covers heartbeat_bytes soh 0 fields
tokenize_accepts_example =
    tokenize_accepts default_tokenizer heartbeat (omega arith) heartbeat-IsFrame

abbrev heartbeat_message : RawMessage
heartbeat_message = record {
  bytes = heartbeat_bytes;
  fields = (tokenize_accepts default_tokenizer heartbeat (omega arith) heartbeat-IsFrame).0;
}

tokenize_sound_example :
    (f : Frame) × IsFrame (record { max_frame_size = 4294967295 }) f
    × (f.bytes ≡ heartbeat_bytes)
    × (heartbeat_message.bytes ≡ heartbeat_bytes)
    × Covers heartbeat_bytes soh 0 heartbeat_message.fields
tokenize_sound_example =
    tokenize_sound default_tokenizer heartbeat_bytes heartbeat_message (omega arith)
      (tokenize_accepts default_tokenizer heartbeat (omega arith) heartbeat-IsFrame).1

parse_u32-IsNumber_example :
    (parse_u32 (b'0' ∷ b'3' ∷ b'5' ∷ []) ≡ some 35) ↔ IsNumber (b'0' ∷ b'3' ∷ b'5' ∷ []) 35
parse_u32-IsNumber_example = parse_u32-IsNumber (b'0' ∷ b'3' ∷ b'5' ∷ []) 35

abbrev venue : Dialect
venue = with_extra_length_tags standard_dialect (5001 ∷ malformed ∷ 95 ∷ [])

new_tokenizer-is_sorted_set_example : is_sorted_set (new_tokenizer venue).length_tags ≡ true
new_tokenizer-is_sorted_set_example = new_tokenizer-is_sorted_set venue

is_length_tag_lem_example : is_length_tag (new_tokenizer venue) 5001 ≡ (
    contains standard_length_tags 5001
    || not (5001 == malformed) && contains venue.extra_length_tags 5001)
is_length_tag_lem_example = is_length_tag_lem venue 5001
