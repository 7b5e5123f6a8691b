-- ===== src/Stream/Reads.antt =====
-- stream.rs, `next_message`: no byte is lost, a read moves on, and more bytes do not change a
-- message that is there.
use mathlib.Core.Option
use refix.Base.{
  ◌≤◌, ◌≡◌, refl, sym, ap, ◌∙◌, Option, some, List, [], ◌++◌, arith, length, take, length-append,
  length-take, take-append-drop, take-append_le, drop-append_le, take-length, Bytes,
}
use refix.Framing.{soh, GarbledReason, Frame, scan, Outcome as ScanOutcome}
use refix.Framing.Shape.{IsBuffer, IsFrame, IsFrame-within}
use refix.Tokenizer.{RawField, tokenize_fields, RawMessage}
use refix.Tokenizer.Covers.{Covers, index_scanner, frame-Covers}
use refix.Stream.{MessageStream, feed, Outcome, advance, on_outcome, next_message}
use refix.Framing.Sound.{scan_sound, scan_stable}
use refix.Framing.Progress.{scan_progress}
use refix.Base.Maybe.{bind-eq-some}

-- A stream whose buffer Rust can hold, and whose frames the index of a message can address.
pub record IsStream (s : MessageStream) : Type 0 where
  pub buffer : IsBuffer s.buf
  pub indexable : s.scanner.max_frame_size ≤ 4294967295

-- The bytes that a read took.
abbrev pub taken : Outcome → Bytes
taken (Outcome.message m) = m.bytes
taken (Outcome.garbled reason bytes) = bytes
taken Outcome.incomplete = []

-- What a read means: a message is a frame that its fields cover, and a garble takes bytes; when the
-- stream waits it keeps its state.
pub data IsRead (s : MessageStream) : Outcome → MessageStream → Type 0 where
  is_message :
      {m : RawMessage} {s' : MessageStream} (f : Frame)
      → IsFrame s.scanner f
      → f.bytes ≡ m.bytes
      → Covers m.bytes soh 0 m.fields
      → IsRead s (Outcome.message m) s'
  is_garbled :
      {reason : GarbledReason} {bytes : Bytes} {s' : MessageStream}
      → 1 ≤ length bytes
      → IsRead s (Outcome.garbled reason bytes) s'
  is_incomplete : {s' : MessageStream} → s' ≡ s → IsRead s Outcome.incomplete s'

pub record Reads (s : MessageStream) (o : Outcome) (s' : MessageStream) : Type 0 where
  pub keeps : taken o ++ s'.buf ≡ s.buf
  pub same_scanner : s'.scanner ≡ s.scanner
  pub same_tokenizer : s'.tokenizer ≡ s.tokenizer
  pub is_read : IsRead s o s'

module _ (s : MessageStream) (is : IsStream s) where
  on_outcome-Reads :
      (x : ScanOutcome)
      → scan s.scanner s.buf ≡ x
      → (o : Outcome) × (s' : MessageStream) × (on_outcome s x ≡ some (o, s')) × Reads s o s'
  unfolding on_outcome
  on_outcome-Reads (ScanOutcome.frame f) found =
      let (i, rest, splits) = scan_sound s.scanner s.buf f is.buffer found in
      let indexable =
        IsFrame-within s.scanner index_scanner f i (omega (arith, i.fits, is.indexable)) in
      let (fields, e, covers) = frame-Covers s.tokenizer f indexable in
      let same : take (length f.bytes) s.buf ≡ f.bytes =
        rw splits (take-length f.bytes rest (length f.bytes) refl) in
      let m : RawMessage = record { bytes = take (length f.bytes) s.buf; fields = fields } in
      (
        Outcome.message m,
        advance s (length f.bytes),
        rw same (rw e refl),
        record {
          keeps = take-append-drop (length f.bytes) s.buf;
          same_scanner = refl;
          same_tokenizer = refl;
          is_read = is_message f i (sym same) (rw same covers);
        },
      )
  on_outcome-Reads ScanOutcome.incomplete found = (
    Outcome.incomplete,
    s,
    refl,
    record {
      keeps = refl;
      same_scanner = refl;
      same_tokenizer = refl;
      is_read = is_incomplete refl;
    },
  )
  on_outcome-Reads (ScanOutcome.garbled reason skipped) found =
      let moves = scan_progress s.scanner s.buf reason skipped found in
      (
        Outcome.garbled reason (take skipped s.buf),
        advance s skipped,
        refl,
        record {
          keeps = take-append-drop skipped s.buf;
          same_scanner = refl;
          same_tokenizer = refl;
          is_read = is_garbled (omega (arith, moves, length-take skipped s.buf));
        },
      )

-- On a buffer of at most isize::MAX bytes and with a cap that `u32` offsets can address,
-- next_message returns; it keeps the tokenizer and the scanner, loses no byte, and what it returns
-- is a frame that its fields cover, or a garble of at least one byte, or, with the state
-- unchanged, that more bytes are needed.
pub next_message-Reads :
    (s : MessageStream)
    → IsStream s
    → (o : Outcome) × (s' : MessageStream) × (next_message s ≡ some (o, s')) × Reads s o s'
unfolding next_message
next_message-Reads s is = on_outcome-Reads s is (scan s.scanner s.buf) refl

on_outcome-message :
    (s : MessageStream) (x : ScanOutcome) (m : RawMessage) (s' : MessageStream)
    → on_outcome s x ≡ some (Outcome.message m, s')
    → (f : Frame) × (x ≡ ScanOutcome.frame f)
unfolding on_outcome
on_outcome-message s (ScanOutcome.frame f) m s' h = (f, refl)
on_outcome-message s ScanOutcome.incomplete m s' h = cc
on_outcome-message s (ScanOutcome.garbled reason skipped) m s' h = cc

-- What is read of a frame when its fields are known.
abbrev pub of_fields : MessageStream → Frame → List RawField → Option (Outcome × MessageStream)
of_fields s f fields = some (
  Outcome.message (record { bytes = take (length f.bytes) s.buf; fields = fields }),
  advance s (length f.bytes),
)

abbrev pub fields_of : MessageStream → Frame → Option (List RawField)
fields_of s f = tokenize_fields s.tokenizer (take (length f.bytes) s.buf) soh

on_outcome-feed :
    (s : MessageStream) (more : Bytes) (f : Frame) (o : Outcome) (s' : MessageStream)
    → length f.bytes ≤ length s.buf
    → on_outcome s (ScanOutcome.frame f) ≡ some (o, s')
    → on_outcome (feed s more) (ScanOutcome.frame f) ≡ some (o, feed s' more)
unfolding on_outcome
on_outcome-feed s more f o s' h found =
    let (fields, e, made) = bind-eq-some (fields_of s f) (of_fields s f) found in
    rw (take-append_le (length f.bytes) s.buf more h, drop-append_le (length f.bytes) s.buf more h)
      (rw e (ap (Option.map (λ p. (p.0, feed p.1 more))) made))

-- A message that next_message would return is returned all the same after more bytes are fed, and
-- those bytes end the new buffer, while the buffer stays within isize::MAX bytes and the cap
-- within `u32`.
pub next_message_stable :
    (s : MessageStream) (more : Bytes) (m : RawMessage) (s' : MessageStream)
    → IsStream (feed s more)
    → next_message s ≡ some (Outcome.message m, s')
    → next_message (feed s more) ≡ some (Outcome.message m, feed s' more)
unfolding next_message
next_message_stable s more m s' is h =
    let (f, found) = on_outcome-message s (scan s.scanner s.buf) m s' h in
    let (i, rest, splits) =
      scan_sound s.scanner s.buf f (omega (arith, is.buffer, length-append s.buf more)) found in
    let here =
      on_outcome-feed s more f (Outcome.message m) s'
        (omega (arith, ap length splits, length-append f.bytes rest))
        (sym (ap (on_outcome s) found) ∙ h) in
    ap (on_outcome (feed s more)) (scan_stable s.scanner s.buf more f is.buffer found) ∙ here
