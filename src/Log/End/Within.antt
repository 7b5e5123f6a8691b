-- ===== src/Log/End/Within.antt =====
-- log/end.rs: an end lies within the bytes, and a line break or nothing is behind its message.
use mathlib.Core.Option.{some-injective}
use refix.Base.{
  ℕ, zero, suc, ◌+◌, ◌-◌, ◌≤◌, ◌<◌, ◌≡◌, refl, sym, ap, ◌∙◌, ◌≢◌, inl, inr, Bool, true, false, not,
  ◌&&◌, Option, none, some, [], ◌∷◌, arith, ◌==◌, Bool-cases, length, get_elem?, take, drop, Bytes,
  byte_at,
}
use refix.Base.Appends.{get_elem?-drop, get_elem?-some_lt}
use refix.Log.End.{End, whole_message, after_in, after_message, at_line_break}
use refix.Log.End.Lines.{IsLineEnd, Opening, nothing_left, newline_left, both_left, byte_at-get}

-- The bytes open with `8`, as a message does, and that is not what separates its fields.
pub record IsStarted (bytes : Bytes) (sep : ℕ) : Type 0 where
  pub rest : Bytes
  pub opens : bytes ≡ b'8' ∷ rest
  pub differs : b'8' ≢ sep

-- The message has a byte, it and what its record takes lie within the bytes, and behind the message the record
-- takes a line break or nothing.
pub record IsWithin (bytes : Bytes) (e : End) : Type 0 where
  pub nonempty : 1 ≤ e.len
  pub ordered : e.len ≤ e.consumed
  pub inside : e.consumed ≤ length bytes
  pub line_end : IsLineEnd (take (e.consumed - e.len) (drop e.len bytes))

-- The same of an end; there is one where no more bytes can arrive.
pub data MayEnd (bytes : Bytes) (at_end : Bool) : Option End → Type 0 where
  no_end : at_end ≡ false → MayEnd bytes at_end none
  ends : {e : End} → IsWithin bytes e → MayEnd bytes at_end (some e)

-- A message whose record takes nothing more.
pub bare-IsWithin :
    (bytes : Bytes) (len : ℕ) (truncated : Bool)
    → 1 ≤ len
    → len ≤ length bytes
    → IsWithin bytes (record { len = len; consumed = len; truncated = truncated })
bare-IsWithin bytes len truncated one h = record {
  nonempty = one;
  ordered = omega arith;
  inside = h;
  line_end = nothing_left bytes len;
}

module _ (bytes : Bytes) (len : ℕ) (one : 1 ≤ len) where
  first : (b : ℕ) (rest : Bytes) → drop len bytes ≡ b ∷ rest → get_elem? bytes len ≡ some b
  first b rest e =
      let at : len + 0 ≡ len = omega arith in
      ap (get_elem? bytes) (sym at) ∙ sym (get_elem?-drop bytes len 0) ∙ ap (λ u. get_elem? u 0) e

  second :
      (b c : ℕ) (rest : Bytes) → drop len bytes ≡ b ∷ c ∷ rest → get_elem? bytes (suc len) ≡ some c
  second b c rest e =
      let at : len + 1 ≡ suc len = omega arith in
      ap (get_elem? bytes) (sym at) ∙ sym (get_elem?-drop bytes len 1) ∙ ap (λ u. get_elem? u 1) e

  newline-MayEnd :
      {at_end : Bool}
      → get_elem? bytes len ≡ some 10
      → MayEnd bytes at_end (whole_message len (len + 1))
  newline-MayEnd h = ends (record {
    nonempty = omega arith;
    ordered = omega arith;
    inside = omega (arith, get_elem?-some_lt bytes len 10 h);
    line_end = newline_left bytes len h;
  })

  both-MayEnd :
      {at_end : Bool}
      → get_elem? bytes len ≡ some 13
      → get_elem? bytes (suc len) ≡ some 10
      → MayEnd bytes at_end (whole_message len (len + 2))
  both-MayEnd h k = ends (record {
    nonempty = omega arith;
    ordered = omega arith;
    inside = omega (arith, get_elem?-some_lt bytes (suc len) 10 k);
    line_end = both_left bytes len h k;
  })

  bare-MayEnd : {at_end : Bool} → len ≤ length bytes → MayEnd bytes at_end (whole_message len len)
  bare-MayEnd h = ends (bare-IsWithin bytes len false one h)

  after_in-MayEnd :
      (rest : Bytes) (at_end : Bool)
      → drop len bytes ≡ rest
      → len ≤ length bytes
      → MayEnd bytes at_end (after_in rest len at_end)
  unfolding after_in
  after_in-MayEnd [] true e h = bare-MayEnd h
  after_in-MayEnd [] false e h = no_end refl
  after_in-MayEnd (b ∷ []) at_end e h =
      let here : get_elem? bytes len ≡ some b = first b [] e in
      elim (Bool-cases ((b == 13) && not at_end)) [
        | inl waits ↦ rw waits (no_end (ground (arith, waits)))
        | inr goes ↦ rw goes (elim (Bool-cases (b == 10)) [
          | inl line_feed ↦
              let is : b ≡ 10 = ground (arith, line_feed) in
              rw line_feed (newline-MayEnd (here ∙ ap some is))
          | inr other_byte ↦ rw other_byte (bare-MayEnd h)
        ])
      ]
  after_in-MayEnd (b ∷ c ∷ rest) at_end e h =
      let here : get_elem? bytes len ≡ some b = first b (c ∷ rest) e in
      elim (Bool-cases (b == 10)) [
        | inl line_feed ↦
            let is : b ≡ 10 = ground (arith, line_feed) in
            rw line_feed (newline-MayEnd (here ∙ ap some is))
        | inr not_line_feed ↦ rw not_line_feed (elim (Bool-cases ((b == 13) && (c == 10))) [
          | inl both ↦
              let is : b ≡ 13 = ground (arith, both) in
              let is_next : c ≡ 10 = ground (arith, both) in
              rw both (both-MayEnd (here ∙ ap some is) (second b c rest e ∙ ap some is_next))
          | inr other_byte ↦ rw other_byte (bare-MayEnd h)
        ])
      ]

pub after_message-MayEnd :
    (bytes : Bytes) (len : ℕ) (at_end : Bool)
    → 1 ≤ len
    → len ≤ length bytes
    → MayEnd bytes at_end (after_message bytes len at_end)
unfolding after_message
after_message-MayEnd bytes len at_end one h =
    after_in-MayEnd bytes len one (drop len bytes) at_end refl h

-- The two bytes of `\r\n` whose `\n` is at `at`.
crlf_left :
    (capped bytes : Bytes) (at : ℕ)
    → Opening capped bytes
    → get_elem? capped at ≡ some 10
    → byte_at capped (at - 1) ≡ 13
    → IsLineEnd (take (at + 1 - (at - 1)) (drop (at - 1) bytes))
crlf_left capped bytes zero opening h cr =
    let b = byte_at-get capped 0 (get_elem?-some_lt capped 0 10 h) in
    absurd (omega (arith, cr, some-injective (byte_at capped 0) 10 (sym b ∙ h)))
crlf_left capped bytes (suc at) opening h cr =
    let lt = get_elem?-some_lt capped (suc at) 10 h in
    let e : suc at - 1 ≡ at = omega arith in
    let k : suc at + 1 - at ≡ at + 2 - at = omega arith in
    let cr_at : byte_at capped at ≡ 13 = ap (byte_at capped) (sym e) ∙ cr in
    rw (e, k)
      (both_left bytes at
        (opening at (omega arith) ∙ byte_at-get capped at (omega arith) ∙ ap some cr_at)
        (opening (suc at) lt ∙ h))

-- A control character is not the first byte, which is `8`.
at_first :
    (capped : Bytes) (at b : ℕ)
    → get_elem? capped 0 ≡ some b'8'
    → get_elem? capped at ≡ some b
    → b < 48
    → 1 ≤ at
at_first capped zero b eight h lt =
    absurd (omega (arith, lt, some-injective b b'8' (sym h ∙ eight)))
at_first capped (suc at) b eight h lt = omega arith

-- A line break in the bytes that a message can hold is one of the bytes.
pub at_line_break-IsWithin :
    (capped bytes : Bytes) (at : ℕ) (truncated : Bool)
    → Opening capped bytes
    → get_elem? capped 0 ≡ some b'8'
    → get_elem? capped at ≡ some 10
    → IsWithin bytes (at_line_break capped at truncated)
unfolding at_line_break
at_line_break-IsWithin capped bytes at truncated opening eight h =
    let lt = get_elem?-some_lt capped at 10 h in
    let there : get_elem? bytes at ≡ some 10 = opening at lt ∙ h in
    let inside = get_elem?-some_lt bytes at 10 there in
    let one = at_first capped at 10 eight h (omega arith) in
    elim (Bool-cases (byte_at capped (at - 1) == 13)) [
      | inr plain ↦ rw plain (record {
        nonempty = one;
        ordered = omega arith;
        inside = omega (arith, inside);
        line_end = newline_left bytes at there;
      })
      | inl cr ↦
          let is : byte_at capped (at - 1) ≡ 13 = ground (arith, cr) in
          let return : get_elem? capped (at - 1) ≡ some 13 =
            byte_at-get capped (at - 1) (omega (arith, lt)) ∙ ap some is in
          let before = at_first capped (at - 1) 13 eight return (omega arith) in
          rw cr (record {
            nonempty = before;
            ordered = omega arith;
            inside = omega (arith, inside);
            line_end = crlf_left capped bytes at opening h is;
          })
    ]
