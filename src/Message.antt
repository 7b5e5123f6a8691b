-- ===== src/Message.antt =====
-- crates/refix-message/src/message.rs: a message as its bytes and an index of fields, and a scope
-- of it.
--
-- A slot is a number. Where Rust panics on an index out of range, `tag_at` gives the malformed tag
-- and `value_at` nothing.
pub mod Values
pub mod Find
use refix.Base.{
  ℕ, ◌+◌, ◌&&◌, Option, none, some, List, [], map, leb, ◌==◌, if◌then◌else◌, length, get_elem?,
  Bytes, slice, position,
}
use refix.Base.Maybe.{◌>>=◌}
use refix.Tags.{Tag, malformed}
use refix.Tokenizer.{RawField, as_u32, value_of, RawMessage}

-- `Slot(u32)`, a field's position in a message's index.
abbrev pub Slot : Type 0
Slot = ℕ

-- `Slot::START`
abbrev pub start_slot : Slot
start_slot = 0

-- `Slot::next`
abbrev pub next_slot : Slot → Slot
next_slot slot = slot + 1

-- A bounded view of a message's fields.
pub record Scope : Type 0 where
  pub message : RawMessage
  pub start : Slot
  pub end : Slot

-- `RawMessage::scope`
abbrev pub scope : RawMessage → Scope
scope m = record { message = m; start = start_slot; end = as_u32 (length m.fields) }

unfoldable pub scope_between : RawMessage → Slot → Slot → Option Scope
scope_between m start end =
    if leb start end && leb end (length m.fields)
    then some (record { message = m; start = start; end = end })
    else none

abbrev pub narrow : Scope → Slot → Slot → Scope
narrow s start end = record { message = s.message; start = start; end = end }

-- `fields.get(from..end)`
abbrev pub fields_in : List RawField → ℕ → ℕ → Option (List RawField)
fields_in fields from end =
    if leb from end && leb end (length fields) then some (slice fields from end) else none

-- The value of an optional field.
abbrev pub value_or_nothing : RawMessage → Option RawField → Bytes
value_or_nothing m none = []
value_or_nothing m (some field) = value_of m.bytes field

-- `RawMessage::value`
abbrev pub value : RawMessage → Slot → Bytes
value m slot = value_or_nothing m (get_elem? m.fields slot)

abbrev pub tag_or_malformed : Option RawField → Tag
tag_or_malformed none = malformed
tag_or_malformed (some field) = field.tag

abbrev pub tag_at : Scope → Slot → Tag
tag_at s slot = tag_or_malformed (get_elem? s.message.fields slot)

abbrev pub value_at : Scope → Slot → Bytes
value_at s slot = value s.message slot

unfoldable pub find : Scope → Tag → Slot → Option (Slot × Bytes)
find s tag from = do
  fields ← fields_in s.message.fields from s.end
  offset ← position (λ field. field.tag == tag) fields
  let slot = as_u32 (from + offset)
  some (slot, value s.message slot)

-- `Scope::get`
unfoldable pub get : Scope → Tag → Option Bytes
unfolding find
get s tag = do (slot, v) ← find s tag s.start; some v

-- `RawMessage::entries`
unfoldable pub entries : RawMessage → List (Tag × Bytes)
entries m = map (λ field. (field.tag, value_of m.bytes field)) m.fields
