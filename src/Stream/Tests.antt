-- ===== src/Stream/Tests.antt =====
-- stream.rs on concrete bytes.
use refix.Base.{◌≡◌, ap, some, List, [], ◌∷◌, ◌++◌, arith, position, all}
use refix.Base.Digits.{fold_digits}
use refix.Framing.{default_scanner, begin_string_prefix as opening}
use refix.Framing.Tests.{heartbeat_bytes, heartbeat_scanned}
use refix.Tags.{search}
use refix.Tokenizer.{
  RawField, parse_u32, tag_end_in, find_tag_end, find_separator, data_value_end, find_value_end,
  field_at, next_field, is_length_tag, pending_data_len, fields_from, tokenize_fields, RawMessage,
}
use refix.Stream.{MessageStream, feed, Outcome, on_outcome, next_message}
use refix.Stream.Reads.{Reads, next_message-Reads, next_message_stable}
use refix.Stream.Runs.{
  Event, fed, read, stays, feeds, reads, fed_bytes, read_bytes, Run-keeps_bytes,
}

-- A stream that holds a heartbeat.
abbrev one_heartbeat : MessageStream
one_heartbeat = record {
  tokenizer = record { length_tags = 95 ∷ [] };
  scanner = default_scanner;
  buf = heartbeat_bytes;
}

abbrev heartbeat_fields : List RawField
heartbeat_fields =
    record { tag = 8; value_start = 2; value_end = 9 }
    ∷ record { tag = 9; value_start = 12; value_end = 13 }
    ∷ record { tag = 35; value_start = 17; value_end = 18 }
    ∷ record { tag = 10; value_start = 22; value_end = 25 }
    ∷ []

abbrev heartbeat_read : RawMessage
heartbeat_read = record { bytes = heartbeat_bytes; fields = heartbeat_fields }

abbrev empty_stream : MessageStream
empty_stream = record one_heartbeat { buf = [] }

heartbeat_is_read : next_message one_heartbeat ≡ some (Outcome.message heartbeat_read, empty_stream)
unfolding next_message on_outcome tokenize_fields fields_from next_field field_at find_tag_end
    tag_end_in parse_u32 fold_digits all find_value_end find_separator position data_value_end
    pending_data_len is_length_tag search
heartbeat_is_read = ap (on_outcome one_heartbeat) heartbeat_scanned

next_message-Reads_example :
    (o : Outcome) × (s' : MessageStream) × (next_message one_heartbeat ≡ some (o, s'))
    × Reads one_heartbeat o s'
next_message-Reads_example =
    next_message-Reads one_heartbeat (record { buffer = omega arith; indexable = omega arith })

next_message_stable_example :
    next_message (feed one_heartbeat opening)
    ≡ some (Outcome.message heartbeat_read, feed empty_stream opening)
next_message_stable_example =
    next_message_stable one_heartbeat opening heartbeat_read empty_stream
      (record { buffer = omega arith; indexable = omega arith }) heartbeat_is_read

-- Bytes arrive, a message is read, and more bytes arrive.
abbrev three_events : List Event
three_events = fed heartbeat_bytes ∷ read (Outcome.message heartbeat_read) ∷ fed opening ∷ []

Run-keeps_bytes_example : read_bytes three_events ++ opening ≡ [] ++ fed_bytes three_events
Run-keeps_bytes_example = Run-keeps_bytes empty_stream (feed empty_stream opening) three_events (
    feeds heartbeat_bytes
      (reads (Outcome.message heartbeat_read) empty_stream heartbeat_is_read (feeds opening stays)))
