-- ===== src/Log/Reader/Keeps.antt =====
-- log.rs, `LogReader::read`: it returns, and no byte disappears without a word.
use refix.Base.{ℕ, Bool, length}
use refix.Tokenizer.Tiling.{IsIndexable}
use refix.Log.Start.{Start}
use refix.Log.End.{End}
use refix.Log.Reader.{LogReader, prefix_end}
use refix.Log.Reader.Reads.{next_start}

module _ (r : LogReader) (at_end : Bool) (fits : IsIndexable r.buf) where
  abbrev found_len : ℕ
  found_len = prefix_end (next_start r at_end) (length r.buf)
