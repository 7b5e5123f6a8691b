-- ===== src/Log/End/Fields.antt =====
-- log/end.rs, `walk`: the next field, and where a round looks for a line break.
use mathlib.Core.Option
use mathlib.Core.Option.{some-injective}
use refix.Base.{
  ℕ, zero, suc, ◌+◌, ◌-◌, ◌≤◌, ◌<◌, max, ◌≡◌, refl, sym, ap, ◌∙◌, ◌≢◌, ◌⊎◌, inl, inr, true, Option,
  none, some, arith, ◌==◌, Bool-cases, Option-cases, length, get_elem?, drop, length-take, Bytes,
  slice, position,
}
use refix.Base.Appends.{get_elem?-some_lt}
use refix.Base.Positions.{position-lt}
use refix.Base.Finds.{position-get, get_elem?-slice}
use refix.Tokenizer.{RawField, unwrap_or, next_field}
use refix.Tokenizer.Tiling.{IsField, tagged, untagged, IsIndexable, next_field-IsField}
use refix.Log.End.{is_len, checked_end}

-- The next field of the capped bytes.
pub data NextWell (capped pos : ℕ) : Option (RawField × ℕ) → Type 0 where
  no_field : NextWell capped pos none
  a_field :
      {f : RawField} {after : ℕ}
      → pos < after
      → pos ≤ f.value_start
      → f.value_start ≤ f.value_end
      → 1 ≤ f.value_end
      → after ≡ f.value_end + 1
      → f.value_end ≤ capped
      → NextWell capped pos (some (f, after))

-- A run that starts with the separator is not at the start.
not_at_start :
    (bytes : Bytes) (sep at : ℕ)
    → get_elem? bytes 0 ≢ some sep
    → get_elem? bytes at ≡ some sep
    → 1 ≤ at
not_at_start bytes sep zero h e = absurd (h e)
not_at_start bytes sep (suc at) h e = omega arith

IsField-NextWell :
    {bytes : Bytes} {sep pos : ℕ} {data_len : Option ℕ} {f : RawField} {after : ℕ}
    → get_elem? bytes 0 ≢ some sep
    → IsField bytes sep pos data_len f after
    → NextWell (length bytes) pos (some (f, after))
IsField-NextWell {f = f} first (tagged d lo _ _ _ begin v e) =
    a_field (omega (arith, v.after)) (omega (arith, lo, begin)) (omega (arith, v.after, begin))
      (omega (arith, v.after)) e v.within
IsField-NextWell {bytes} {sep} {f = f} first (untagged _ begin lo there _ e) =
    a_field (omega arith) (omega arith) (omega arith)
      (not_at_start bytes sep f.value_end first there) e
      (omega (arith, get_elem?-some_lt bytes f.value_end _ there))

pub next_field-NextWell :
    (bytes : Bytes) (pos : ℕ) (data_len : Option ℕ) (sep : ℕ) (o : Option (RawField × ℕ))
    → IsIndexable bytes
    → get_elem? bytes 0 ≢ some sep
    → next_field bytes pos data_len sep ≡ o
    → NextWell (length bytes) pos o
next_field-NextWell bytes pos data_len sep none fits first e = no_field
next_field-NextWell bytes pos data_len sep (some (f, after)) fits first e =
    IsField-NextWell first (next_field-IsField bytes sep pos data_len fits f after e)

pub checked_end-le :
    (capped pos : ℕ) (next : Option (RawField × ℕ)) (data_len : Option ℕ)
    → NextWell capped pos next
    → checked_end next data_len capped ≤ capped
checked_end-le capped pos none data_len no_field = omega arith
checked_end-le capped pos (some (f, after)) data_len (a_field lo _ order _ e hi) =
    elim (Bool-cases (is_len data_len (f.value_end - f.value_start))) [
      | inl by_length ↦ rw by_length (omega arith)
      | inr searched ↦ rw searched hi
    ]

-- The slice that is searched for a line break does not end before it starts.
pub from-le :
    (capped pos : ℕ) (next : Option (RawField × ℕ)) (data_len : Option ℕ)
    → NextWell capped pos next
    → (1 ≤ pos) ⊎ (data_len ≡ none)
    → pos ≤ capped
    → 1 ≤ capped
    → max pos 1 ≤ checked_end next data_len capped
from-le capped pos none data_len no_field b le one = omega arith
from-le capped pos (some (f, after)) data_len (a_field lo begin order one e hi) b le _ =
    elim (Bool-cases (is_len data_len (f.value_end - f.value_start))) [
      | inr searched ↦ rw searched (omega arith)
      | inl by_length ↦ rw by_length (elim b [
        | inl moved ↦ omega arith
        | inr no_len ↦
            absurd (not_by_length data_len (f.value_end - f.value_start) no_len by_length)
      ])
    ]
  where
    not_by_length : (o : Option ℕ) (n : ℕ) → o ≡ none → is_len o n ≢ true
    not_by_length none n h e = cc
    not_by_length (some k) n h e = cc

pub line_break-get :
    (capped : Bytes) (from until at : ℕ)
    → Option.map (λ rel. from + rel) (position (λ b. b == 10) (slice capped from until)) ≡ some at
    → get_elem? capped at ≡ some 10
line_break-get capped from until at h =
    elim (Option-cases (position (λ b. b == 10) (slice capped from until))) [
      | inl missing ↦ absurd (ground arith)
      | inr (rel, there) ↦
          let (b, found_there, is_break) =
            position-get (λ b. b == 10) (slice capped from until) rel there in
          let lt = position-lt (λ b. b == 10) (slice capped from until) rel there in
          let e : at ≡ from + rel = ground arith in
          let is : b ≡ 10 = ground (arith, is_break) in
          ap (get_elem? capped) e
          ∙ sym (
              get_elem?-slice capped from until rel
                (omega (arith, lt, length-take (until - from) (drop from capped))))
          ∙ found_there
          ∙ ap some is
    ]

pub start_in_field :
    (capped : Bytes) (until : ℕ) (line_break : Option ℕ) (at : ℕ)
    → until ≤ length capped
    → ((n : ℕ) → line_break ≡ some n → get_elem? capped n ≡ some 10)
    → at < unwrap_or line_break until
    → at < length capped
start_in_field capped until none at h b lt = omega arith
start_in_field capped until (some n) at h b lt =
    omega (arith, get_elem?-some_lt capped n 10 (b n refl))
