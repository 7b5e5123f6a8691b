-- ===== src/Log/Reader/Messages.antt =====
-- log.rs, `LogReader::read`: the message at the end that it looks for.
use mathlib.Core.Option
use refix.Base.{ℕ, ◌≤◌, ◌≡◌, refl, Bool, false, Option, none, some, arith, length, take, Bytes}
use refix.Framing.{soh}
use refix.Tokenizer.{Tokenizer}
use refix.Log.Start.{Separator, byte, caret_a}
use refix.Log.Start.Found.{separator_byte, IsStart}
use refix.Log.End.{End}
use refix.Log.End.Within.{IsWithin, MayEnd, no_end, ends}
use refix.Log.End.Finds.{find_end-MayEnd}
use refix.Log.CaretA.Within.{MayCopy, no_copy, copy, length-restore_soh, copy_message-MayCopy}
use refix.Log.Reader.{end_of_message, copy_or}
use refix.Log.Reader.Reads.{as_message}

-- An end with what its message is read from.
pub data MayMessage (rest : Bytes) (separator : Separator) (at_end : Bool)
    : Option (End × Option Bytes × ℕ) → Type 0 where
  no_message : at_end ≡ false → MayMessage rest separator at_end none
  ends_message :
      {e : End} {copied : Option Bytes} {sep : ℕ}
      → IsWithin rest e
      → copy_or copied (take e.len rest) ≡ as_message separator (take e.len rest)
      → sep ≡ separator_byte separator
      → MayMessage rest separator at_end (some (e, copied, sep))

map-MayMessage :
    (rest : Bytes) (at_end : Bool) (b : ℕ) (o : Option End)
    → MayEnd rest at_end o
    → MayMessage rest (byte b) at_end (Option.map (λ e. (e, none, b)) o)
map-MayMessage rest at_end b none (no_end w) = no_message w
map-MayMessage rest at_end b (some e) (ends i) = ends_message i refl refl

copied-MayMessage :
    (rest : Bytes) (at_end : Bool) (o : Option (End × Bytes))
    → MayCopy rest at_end o
    → MayMessage rest caret_a at_end (Option.map (λ p. (p.0, some p.1, soh)) o)
copied-MayMessage rest at_end none (no_copy w) = no_message w
copied-MayMessage rest at_end (some (e, copied)) (copy i same) = ends_message i same refl

pub end_of_message-MayMessage :
    (t : Tokenizer) (rest : Bytes) (separator : Separator) (override : Option ℕ) (at_end : Bool)
    → IsStart rest separator
    → (o : Option (End × Option Bytes × ℕ)) × (end_of_message t rest separator override at_end
        ≡ some o)
      × MayMessage rest separator at_end o
unfolding end_of_message
end_of_message-MayMessage t rest (byte b) override at_end is =
    let (o, e, m) =
      find_end-MayEnd t rest b override at_end
        (record { rest = is.rest; opens = is.opens; differs = is.splits }) in
    (Option.map (λ e. (e, none, b)) o, rw e refl, map-MayMessage rest at_end b o m)
end_of_message-MayMessage t rest caret_a override at_end is =
    let (o, e, m) = copy_message-MayCopy t rest at_end (is.rest, is.opens) in
    (Option.map (λ p. (p.0, some p.1, soh)) o, rw e refl, copied-MayMessage rest at_end o m)

pub length-as_message :
    (separator : Separator) (logged : Bytes) → length (as_message separator logged) ≤ length logged
length-as_message (byte b) logged = omega arith
length-as_message caret_a logged = length-restore_soh logged
