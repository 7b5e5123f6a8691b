-- ===== src/Log/Reader.antt =====
-- crates/refix-message/src/log.rs, `LogReader`: the messages in a log that is fed in pieces.
--
-- Methods return the new state. `none` would mean that a slice panics or that a loop ran out of
-- fuel.
pub mod Reads
pub mod Messages
pub mod Splits
pub mod Keeps
use mathlib.Core.Option
use refix.Base.{
  ℕ, ◌-◌, Bool, true, false, Option, none, some, List, [], ◌∷◌, ◌++◌, map, leb, if◌then◌else◌,
  length, take, drop, Bytes,
}
use refix.Base.Maybe.{◌>>=◌}
use refix.Framing.{soh}
use refix.Tokenizer.{Dialect, Tokenizer, new_tokenizer, tokenize_fields, RawMessage}
use refix.Log.Start.{Separator, byte, caret_a, NextStart, found, pending, not_found, find_start}
use refix.Log.End.{End, find_end}
use refix.Log.CaretA.{copy_message}
use refix.Log.Diagnose.{LogDiagnostic, truncated, diagnose}

-- `MAX_PREFIX_LEN`
abbrev pub max_prefix_len : ℕ
max_prefix_len = 1048576

pub record LogReader : Type 0 where
  pub tokenizer : Tokenizer
  pub separator : Option ℕ
  pub buf : Bytes
  pub searched : ℕ
  pub prefix_truncated : Bool

pub record LogRecord : Type 0 where
  pub prefix : Bytes
  pub message : RawMessage
  pub diagnostics : List LogDiagnostic

-- `LogReader::new`
abbrev pub new_reader : Dialect → Option ℕ → LogReader
new_reader d sep = record {
  tokenizer = new_tokenizer d;
  separator = sep;
  buf = [];
  searched = 0;
  prefix_truncated = false;
}

abbrev pub feed : LogReader → Bytes → LogReader
feed r bytes = record r { buf = r.buf ++ bytes }

-- Drops the oldest bytes of a prefix of `len` bytes past the cap, and returns its length after.
unfoldable pub cap_prefix : LogReader → ℕ → ℕ × LogReader
cap_prefix r len = if leb len max_prefix_len then (len, r) else (
  max_prefix_len,
  record r { buf = drop (len - max_prefix_len) r.buf; prefix_truncated = true },
)

-- Where the prefix ends, before it is capped.
abbrev pub prefix_end : NextStart → ℕ → ℕ
prefix_end (NextStart.found s) size = s.at
prefix_end (NextStart.pending at) size = at
prefix_end NextStart.not_found size = size

-- The end of the message that starts `rest`, with the copy that has SOH restored, and what
-- separates its fields.
unfoldable pub end_of_message :
    Tokenizer → Bytes → Separator → Option ℕ → Bool → Option (Option (End × Option Bytes × ℕ))
end_of_message t rest (byte sep) override at_end =
    find_end t rest sep override at_end >>= λ found_end.
    some (Option.map (λ e. (e, none, sep)) found_end)
end_of_message t rest caret_a override at_end =
    copy_message t rest at_end >>= λ copied. some (Option.map (λ p. (p.0, some p.1, soh)) copied)

abbrev pub copy_or : Option Bytes → Bytes → Bytes
copy_or none logged = logged
copy_or (some copy) logged = copy

-- The record of a message whose end is known, split off the buffer; the prefix has `prefix_len`
-- bytes.
unfoldable pub split_record :
    LogReader → ℕ → End → Option Bytes → ℕ → Option (Option LogRecord × LogReader)
split_record r prefix_len e copy sep =
    let prefix = take prefix_len r.buf in
    let logged = take e.len (drop prefix_len r.buf) in
    let left = drop (e.consumed - e.len) (drop e.len (drop prefix_len r.buf)) in
    let bytes = copy_or copy logged in
    tokenize_fields r.tokenizer bytes sep >>= λ fields. some (
      some (record {
        prefix = prefix;
        message = record { bytes = bytes; fields = fields };
        diagnostics =
            (if r.prefix_truncated then LogDiagnostic.prefix_truncated ∷ [] else [])
            ++ diagnose bytes fields sep e.truncated;
      }),
      record r { buf = left; searched = 0; prefix_truncated = false },
    )

-- The part of `read` behind the search for the end; without one the reader waits.
abbrev pub on_end :
    LogReader → ℕ → Option (End × Option Bytes × ℕ) → Option (Option LogRecord × LogReader)
on_end r prefix_len none = some (none, r)
on_end r prefix_len (some (e, copy, sep)) = split_record r prefix_len e copy sep

-- The part of `read` behind the search for a start.
unfoldable pub on_start : LogReader → ℕ → NextStart → Bool → Option (Option LogRecord × LogReader)
unfolding end_of_message split_record
on_start r prefix_len (NextStart.found s) at_end =
    end_of_message r.tokenizer (drop prefix_len r.buf) s.separator r.separator at_end >>= λ e.
    on_end r prefix_len e
on_start r prefix_len (NextStart.pending at) at_end = some (none, r)
on_start r prefix_len NextStart.not_found at_end = some (none, r)

-- `read`, which `next_record` and `finish` call.
unfoldable pub read : LogReader → Bool → Option (Option LogRecord × LogReader)
unfolding on_start cap_prefix
read r at_end =
    let next = find_start r.buf r.searched (length r.buf) r.separator at_end in
    let (prefix_len, capped) = cap_prefix r (prefix_end next (length r.buf)) in
    on_start (record capped { searched = prefix_len }) prefix_len next at_end
