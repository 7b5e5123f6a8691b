-- ===== src/Tokenizer/Tiling.antt =====
-- tokenizer.rs, `next_field` and `tokenize_fields`: the loop ends, and its fields tile the bytes.
use refix.Base.{
  ℕ, zero, suc, ◌+◌, ◌-◌, ◌≤◌, ◌<◌, ◌≡◌, refl, sym, ◌∙◌, inl, inr, Bool, false, ◌||◌, Option, none,
  some, List, [], ◌∷◌, arith, ◌==◌, Bool-cases, Option-cases, length, get_elem?, take, drop, Bytes,
  slice, position,
}
use refix.Base.Appends.{get_elem?-drop, get_elem?-some_lt}
use refix.Tokenizer.Values.{IsValueEnd, find_value_end-IsValueEnd}
use refix.Tokenizer.{
  Tokenizer, RawField, as_u32, parse_u32, TagEnd, equals, separator, tag_end_in, find_tag_end,
  unwrap_or, find_value_end, field_at, next_field, pending_data_len, fields_from, tokenize_fields,
}
use refix.Tags.{malformed}

-- What ends a tag.
abbrev pub ends_tag : ℕ → ℕ → Bool
ends_tag sep b = b == b'=' || b == sep

-- Offset `n` is the first from `at` on that ends a tag, and holds `b`; the bytes begin at `at`.
record EndsAt (at : ℕ) (bytes : Bytes) (sep n b : ℕ) : Type 0 where
  k : ℕ
  at_is : n ≡ at + k
  holds : get_elem? bytes k ≡ some b
  clear : position (ends_tag sep) (take k bytes) ≡ none

EndsAt-next :
    {at sep n b : ℕ} (c : ℕ) (bytes : Bytes)
    → ends_tag sep c ≡ false
    → EndsAt (at + 1) bytes sep n b
    → EndsAt at (c ∷ bytes) sep n b
unfolding position
EndsAt-next c bytes passed e = record {
  k = suc e.k;
  at_is = omega (arith, e.at_is);
  holds = e.holds;
  clear = ground (arith, e.clear);
}

tag_end_in-equals :
    (at : ℕ) (bytes : Bytes) (sep n : ℕ)
    → tag_end_in at bytes sep ≡ some (equals n)
    → EndsAt at bytes sep n b'='
unfolding tag_end_in position
tag_end_in-equals at [] sep n h = cc
tag_end_in-equals at (c ∷ bytes) sep n h = elim (Bool-cases (c == b'=')) [
  | inl here ↦ record { k = 0; at_is = ground arith; holds = ground arith; clear = refl }
  | inr later ↦
      EndsAt-next c bytes (ground arith) (tag_end_in-equals (at + 1) bytes sep n (ground arith))
]

tag_end_in-separator :
    (at : ℕ) (bytes : Bytes) (sep n : ℕ)
    → tag_end_in at bytes sep ≡ some (separator n)
    → EndsAt at bytes sep n sep
unfolding tag_end_in position
tag_end_in-separator at [] sep n h = cc
tag_end_in-separator at (c ∷ bytes) sep n h = elim (Bool-cases (c == sep)) [
  | inl here ↦ record { k = 0; at_is = ground arith; holds = ground arith; clear = refl }
  | inr later ↦
      EndsAt-next c bytes (ground arith) (tag_end_in-separator (at + 1) bytes sep n (ground arith))
]

-- The field that starts at `pos`, with nothing left out between its start and `next`. Either it
-- has a tag, whose text runs up to its `=`, or it is a malformed run that ends at a separator.
pub data IsField (bytes : Bytes) (sep pos : ℕ) (data_len : Option ℕ) (field : RawField) (next : ℕ)
    : Type 0 where
  tagged :
      (delimiter : ℕ)
      → pos ≤ delimiter
      → get_elem? bytes delimiter ≡ some b'='
      → position (ends_tag sep) (slice bytes pos delimiter) ≡ none
      → field.tag ≡ unwrap_or (parse_u32 (slice bytes pos delimiter)) malformed
      → field.value_start ≡ delimiter + 1
      → IsValueEnd bytes (delimiter + 1) data_len sep field.value_end
      → next ≡ field.value_end + 1
      → IsField bytes sep pos data_len field next
  untagged :
      field.tag ≡ malformed
      → field.value_start ≡ pos
      → pos ≤ field.value_end
      → get_elem? bytes field.value_end ≡ some sep
      → position (ends_tag sep) (slice bytes pos field.value_end) ≡ none
      → next ≡ field.value_end + 1
      → IsField bytes sep pos data_len field next

-- The `u32` offsets of the index are the offsets.
abbrev pub IsIndexable : Bytes → Type 0
IsIndexable bytes = length bytes < 4294967296

record TagText (bytes : Bytes) (sep pos n b : ℕ) : Type 0 where
  after : pos ≤ n
  inside : n < length bytes
  holds : get_elem? bytes n ≡ some b
  clear : position (ends_tag sep) (slice bytes pos n) ≡ none

EndsAt-TagText :
    (bytes : Bytes) (sep pos n b : ℕ)
    → EndsAt pos (drop pos bytes) sep n b
    → TagText bytes sep pos n b
EndsAt-TagText bytes sep pos n b e =
    let there = sym (get_elem?-drop bytes pos e.k) ∙ e.holds in
    let size : n - pos ≡ e.k = omega (arith, e.at_is) in
    record {
      after = omega (arith, e.at_is);
      inside = omega (arith, e.at_is, get_elem?-some_lt bytes (pos + e.k) b there);
      holds = rw e.at_is there;
      clear = rw size e.clear;
    }

module _ (bytes : Bytes) (sep pos : ℕ) where
  find_tag_end-equals :
      (n : ℕ) → find_tag_end bytes pos sep ≡ some (equals n) → TagText bytes sep pos n b'='
  unfolding find_tag_end
  find_tag_end-equals n h =
      EndsAt-TagText bytes sep pos n b'='
        (tag_end_in-equals pos (drop pos bytes) sep n (ground arith))

  find_tag_end-separator :
      (n : ℕ) → find_tag_end bytes pos sep ≡ some (separator n) → TagText bytes sep pos n sep
  unfolding find_tag_end
  find_tag_end-separator n h =
      EndsAt-TagText bytes sep pos n sep
        (tag_end_in-separator pos (drop pos bytes) sep n (ground arith))

as_u32_small : (n : ℕ) → n < 4294967296 → as_u32 n ≡ n
as_u32_small n h = omega arith

module _ (bytes : Bytes) (sep pos : ℕ) (data_len : Option ℕ) (fits : IsIndexable bytes) where
  field_at-IsField :
      (o : Option TagEnd) (field : RawField) (next : ℕ)
      → find_tag_end bytes pos sep ≡ o
      → field_at bytes pos data_len sep o ≡ some (field, next)
      → IsField bytes sep pos data_len field next
  unfolding field_at
  field_at-IsField none field next found h = absurd (ground arith)
  field_at-IsField (some (equals delimiter)) field next found h =
      let t = find_tag_end-equals bytes sep pos delimiter found in
      let v =
        find_value_end-IsValueEnd bytes (delimiter + 1) data_len sep (omega (arith, t.inside)) in
      let stop = find_value_end bytes (delimiter + 1) data_len sep in
      let small = as_u32_small stop (omega (arith, v.within)) in
      let stop_is : field.value_end ≡ stop = ground (arith, small) in
      tagged delimiter t.after t.holds t.clear (ground arith)
        (ground (arith, as_u32_small (delimiter + 1), t.inside)) (rw stop_is v)
        (ground (arith, small))
  field_at-IsField (some (separator delimiter)) field next found h =
      let t = find_tag_end-separator bytes sep pos delimiter found in
      let small = as_u32_small delimiter (omega (arith, t.inside)) in
      let stop_is : field.value_end ≡ delimiter = ground (arith, small) in
      untagged (ground arith) (ground (arith, as_u32_small pos, t.after, t.inside))
        (omega (arith, t.after)) (rw stop_is t.holds) (rw stop_is t.clear) (ground (arith, small))

  pub next_field-IsField :
      (field : RawField) (next : ℕ)
      → next_field bytes pos data_len sep ≡ some (field, next)
      → IsField bytes sep pos data_len field next
  unfolding next_field
  next_field-IsField field next = field_at-IsField (find_tag_end bytes pos sep) field next refl

-- The fields from `pos` on, each of which begins where the one before ended and takes its length
-- from that one's value. Behind the last no `=` and no separator is left.
pub data Tiles (t : Tokenizer) (bytes : Bytes) (sep : ℕ)
    : ℕ → Option ℕ → List RawField → Type 0 where
  done :
      {pos : ℕ} {data_len : Option ℕ}
      → find_tag_end bytes pos sep ≡ none
      → Tiles t bytes sep pos data_len []
  tile :
      {pos : ℕ} {data_len : Option ℕ} {field : RawField} {fields : List RawField} (next : ℕ)
      → IsField bytes sep pos data_len field next
      → Tiles t bytes sep next (pending_data_len t bytes field) fields
      → Tiles t bytes sep pos data_len (field ∷ fields)

pub IsField-lt :
    {bytes : Bytes} {sep pos : ℕ} {data_len : Option ℕ} {field : RawField} {next : ℕ}
    → IsField bytes sep pos data_len field next
    → (pos < next) × (next ≤ length bytes + 1)
IsField-lt (tagged delimiter after _ _ _ _ v e) = omega (arith, v.after, v.within)
IsField-lt {bytes} {field = field} (untagged _ _ after holds _ e) =
    omega (arith, get_elem?-some_lt bytes field.value_end _ holds)

field_at-none :
    (bytes : Bytes) (pos : ℕ) (data_len : Option ℕ) (sep : ℕ) (o : Option TagEnd)
    → field_at bytes pos data_len sep o ≡ none
    → o ≡ none
unfolding field_at
field_at-none bytes pos data_len sep none h = refl
field_at-none bytes pos data_len sep (some (equals n)) h = cc
field_at-none bytes pos data_len sep (some (separator n)) h = cc

next_field-none :
    (bytes : Bytes) (pos : ℕ) (data_len : Option ℕ) (sep : ℕ)
    → next_field bytes pos data_len sep ≡ none
    → find_tag_end bytes pos sep ≡ none
unfolding next_field
next_field-none bytes pos data_len sep =
    field_at-none bytes pos data_len sep (find_tag_end bytes pos sep)

module _ (t : Tokenizer) (bytes : Bytes) (sep : ℕ) (fits : IsIndexable bytes) where
  fields_from-Tiles :
      (fuel pos : ℕ) (data_len : Option ℕ)
      → pos ≤ length bytes + 1
      → length bytes + 1 < fuel + pos
      → (fields : List RawField) × (fields_from t bytes sep fuel pos data_len ≡ some fields)
        × Tiles t bytes sep pos data_len fields
  unfolding fields_from
  fields_from-Tiles zero pos data_len lo hi = absurd (omega arith)
  fields_from-Tiles (suc fuel) pos data_len lo hi =
      elim (Option-cases (next_field bytes pos data_len sep)) [
        | inl last ↦
            ([], rw (last, fields_from), done (next_field-none bytes pos data_len sep last))
        | inr (p, found) ↦
            let f = next_field-IsField bytes sep pos data_len fits p.0 p.1 found in
            let step = IsField-lt f in
            let (rest, e, tiles) =
              fields_from-Tiles fuel p.1 (pending_data_len t bytes p.0) (omega (arith, step))
                (omega (arith, step)) in
            (p.0 ∷ rest, rw (found, fields_from) (rw e), tile p.1 f tiles)
      ]

-- On any bytes shorter than 2^32, with any separator, the tokenizing loop ends within its fuel,
-- and its fields tile the bytes: each starts where the one before ended and takes its extent from
-- that one when it is a length field, and behind the last no tag ends.
pub tokenize_fields-Tiles :
    (t : Tokenizer) (bytes : Bytes) (sep : ℕ)
    → IsIndexable bytes
    → (fields : List RawField) × (tokenize_fields t bytes sep ≡ some fields)
      × Tiles t bytes sep 0 none fields
unfolding tokenize_fields
tokenize_fields-Tiles t bytes sep fits =
    fields_from-Tiles t bytes sep fits (length bytes + 2) 0 none (omega arith) (omega arith)
