-- ===== src/Log/Tests.antt =====
-- log.rs and its children on concrete bytes.
use refix.Base.{◌≤◌, ◌≡◌, refl, false, none, [], ◌∷◌, ◌++◌, arith, length, take, drop, Bytes}
use refix.Framing.{soh}
use refix.Framing.Tests.{heartbeat_bytes}
use refix.Tokenizer.{Tokenizer}
use refix.Log.End.{End}
use refix.Log.End.Within.{IsStarted}
use refix.Log.CaretA.{restore_soh, original_offset}
use refix.Log.CaretA.Offsets.{original_offset-restores}
use refix.Log.Reader.{LogReader}

-- `9=^A`, with text around it.
abbrev caret_line : Bytes
caret_line = b'8' ∷ b'=' ∷ b'^' ∷ b'A' ∷ b'^' ∷ b'9' ∷ b'^' ∷ b'A' ∷ []

caret_copied : restore_soh caret_line ≡ b'8' ∷ b'=' ∷ soh ∷ b'^' ∷ b'9' ∷ soh ∷ []
unfolding restore_soh
caret_copied = refl

original_offset-restores_example :
    (original_offset caret_line (restore_soh caret_line) 4 ≤ length caret_line)
    × (restore_soh (take (original_offset caret_line (restore_soh caret_line) 4) caret_line)
        ≡ take 4 (restore_soh caret_line))
original_offset-restores_example = original_offset-restores caret_line 4

abbrev plain_tokenizer : Tokenizer
plain_tokenizer = record { length_tags = 95 ∷ [] }

abbrev heartbeat-IsStarted : IsStarted heartbeat_bytes soh
heartbeat-IsStarted = record {
  rest = drop 1 heartbeat_bytes;
  opens = refl;
  differs = λ e. absurd (omega (arith, e));
}

-- A heartbeat behind a line's timestamp, with a line break.
abbrev logged_reader : LogReader
logged_reader = record {
  tokenizer = plain_tokenizer;
  separator = none;
  buf = b'0' ∷ b'9' ∷ b':' ∷ b' ' ∷ (heartbeat_bytes ++ 10 ∷ []);
  searched = 0;
  prefix_truncated = false;
}
