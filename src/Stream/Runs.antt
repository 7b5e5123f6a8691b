-- ===== src/Stream/Runs.antt =====
-- stream.rs: any sequence of feeds and reads keeps every byte.
use mathlib.Core.Option.{some-injective}
use refix.Base.{
  ◌≡◌, refl, sym, ap, ◌∙◌, subst, some, List, [], ◌∷◌, ◌++◌, append-nil, append_assoc, length,
  take-append-drop, Bytes,
}
use refix.Base.Maybe.{bind-eq-some}
use refix.Framing.{scan, Outcome as ScanOutcome}
use refix.Stream.{MessageStream, feed, Outcome, on_outcome, next_message}
use refix.Stream.Reads.{taken, of_fields, fields_of}

-- What happens to a stream: bytes arrive, or an outcome is read.
pub data Event : Type 0 where
  fed : Bytes → Event
  read : Outcome → Event

-- The events that lead from one state to another.
pub data Run : MessageStream → List Event → MessageStream → Type 0 where
  stays : {s : MessageStream} → Run s [] s
  feeds :
      {s s' : MessageStream} {events : List Event} (bytes : Bytes)
      → Run (feed s bytes) events s'
      → Run s (fed bytes ∷ events) s'
  reads :
      {s s' : MessageStream} {events : List Event} (o : Outcome) (next : MessageStream)
      → next_message s ≡ some (o, next)
      → Run next events s'
      → Run s (read o ∷ events) s'

unfoldable pub fed_bytes : List Event → Bytes
fed_bytes [] = []
fed_bytes (fed bytes ∷ events) = bytes ++ fed_bytes events
fed_bytes (read o ∷ events) = fed_bytes events

unfoldable pub read_bytes : List Event → Bytes
read_bytes [] = []
read_bytes (fed bytes ∷ events) = read_bytes events
read_bytes (read o ∷ events) = taken o ++ read_bytes events

keeps_read :
    (p : Outcome × MessageStream) (o : Outcome) (s' : MessageStream) (bytes : Bytes)
    → some p ≡ some (o, s')
    → taken p.0 ++ p.1.buf ≡ bytes
    → taken o ++ s'.buf ≡ bytes
keeps_read p o s' bytes h = subst (λ q. taken q.0 ++ q.1.buf ≡ bytes) (some-injective p (o, s') h)

keeps_bytes :
    (s : MessageStream) (x : ScanOutcome) (o : Outcome) (s' : MessageStream)
    → on_outcome s x ≡ some (o, s')
    → taken o ++ s'.buf ≡ s.buf
unfolding on_outcome
keeps_bytes s (ScanOutcome.frame f) o s' h =
    let (fields, e, made) = bind-eq-some (fields_of s f) (of_fields s f) h in
    keeps_read _ o s' s.buf made (take-append-drop (length f.bytes) s.buf)
keeps_bytes s ScanOutcome.incomplete o s' h = keeps_read _ o s' s.buf h refl
keeps_bytes s (ScanOutcome.garbled reason skipped) o s' h =
    keeps_read _ o s' s.buf h (take-append-drop skipped s.buf)

-- Through any sequence of feeds and reads of a stream, the bytes of the outcomes read, followed by
-- what is left in the buffer, are the bytes that the buffer held at first, followed by those fed.
pub Run-keeps_bytes :
    (s s' : MessageStream) (events : List Event)
    → Run s events s'
    → read_bytes events ++ s'.buf ≡ s.buf ++ fed_bytes events
unfolding fed_bytes read_bytes next_message
Run-keeps_bytes s s' [] stays = sym (append-nil s.buf)
Run-keeps_bytes s s' (fed _ ∷ events) (feeds bytes rest) =
    Run-keeps_bytes (feed s bytes) s' events rest ∙ append_assoc s.buf bytes (fed_bytes events)
Run-keeps_bytes s s' (read _ ∷ events) (reads o next h rest) =
    append_assoc (taken o) (read_bytes events) s'.buf
    ∙ ap (λ u. taken o ++ u) (Run-keeps_bytes next s' events rest)
    ∙ sym (append_assoc (taken o) next.buf (fed_bytes events))
    ∙ ap (λ u. u ++ fed_bytes events) (keeps_bytes s (scan s.scanner s.buf) o next h)
