-- ===== src/Stream.antt =====
-- crates/refix-message/src/stream.rs: a stream of messages from bytes that arrive in pieces.
--
-- A method that takes `&mut self` returns the new state. `none` would mean that the tokenizer's
-- loop ran out of fuel.
pub mod Tests
pub mod Reads
pub mod Runs
use refix.Base.{ℕ, Option, some, [], ◌++◌, length, take, drop, Bytes}
use refix.Base.Maybe.{◌>>=◌}
use refix.Framing.{soh, GarbledReason, Scanner, default_scanner, scan, Outcome as ScanOutcome}
use refix.Tokenizer.{Dialect, Tokenizer, new_tokenizer, tokenize_fields, RawMessage}

pub record MessageStream : Type 0 where
  pub tokenizer : Tokenizer
  pub scanner : Scanner
  pub buf : Bytes

-- `MessageStream::new`
abbrev pub new_stream : Dialect → MessageStream
new_stream d = record { tokenizer = new_tokenizer d; scanner = default_scanner; buf = [] }

abbrev pub feed : MessageStream → Bytes → MessageStream
feed s bytes = record s { buf = s.buf ++ bytes }

-- One step of reading the stream.
pub data Outcome : Type 0 where
  message : RawMessage → Outcome
  garbled : GarbledReason → Bytes → Outcome
  incomplete : Outcome

-- `self.buf.split_to(n)`, without what is split off.
abbrev pub advance : MessageStream → ℕ → MessageStream
advance s n = record s { buf = drop n s.buf }

-- The match of `next_message` on what the scanner found.
unfoldable pub on_outcome : MessageStream → ScanOutcome → Option (Outcome × MessageStream)
on_outcome s (ScanOutcome.frame f) =
    let len = length f.bytes in
    let bytes = take len s.buf in
    tokenize_fields s.tokenizer bytes soh >>= λ fields.
    some (message (record { bytes = bytes; fields = fields }), advance s len)
on_outcome s ScanOutcome.incomplete = some (incomplete, s)
on_outcome s (ScanOutcome.garbled reason skipped) =
    some (garbled reason (take skipped s.buf), advance s skipped)

unfoldable pub next_message : MessageStream → Option (Outcome × MessageStream)
unfolding on_outcome
next_message s = on_outcome s (scan s.scanner s.buf)
