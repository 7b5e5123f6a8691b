-- ===== src/Log/End/Finds.antt =====
-- log/end.rs, `find_end`: it returns, and the end that it gives lies within the bytes.
use mathlib.Core.Option
use mathlib.Core.Option.{some-injective}
use refix.Base.{
  ℕ, ◌+◌, ◌-◌, ◌≤◌, ◌≡◌, refl, sym, ap, ◌∙◌, inl, inr, Bool, true, false, ◌||◌, Option, none, some,
  [], ◌∷◌, arith, ltb, ◌==◌, Bool-cases, Option-cases, length, get_elem?, take, drop, Bytes, slice,
  byte_at, equal, starts_with, position, count_while, is_digit,
}
use refix.Base.Appends.{get_elem?-drop, get_elem?-some_lt}
use refix.Base.Finds.{position-get}
use refix.Tokenizer.{Tokenizer, parse_u32}
use refix.Log.End.{
  End, BodyLengthEnd, cap, pending_unless, found_or_pending, value_ends, trailer_at, digits_end,
  behind, by_body_length, find_end,
}
use refix.Log.End.Lines.{Opening, byte_at-get}
use refix.Log.End.Within.{
  IsStarted, IsWithin, MayEnd, no_end, ends, bare-IsWithin, after_message-MayEnd,
  at_line_break-IsWithin,
}
use refix.Log.End.Caps.{cap-length, cap-waiting, cap-Opening, cap-first}
use refix.Framing.{max_body_length_digits}
use refix.Log.End.Walks.{walk-MayEnd}

-- What BodyLength may give.
data BodyWell (bytes : Bytes) (at_end : Bool) : BodyLengthEnd → Type 0 where
  well_found : {e : End} → IsWithin bytes e → BodyWell bytes at_end (BodyLengthEnd.found e)
  well_not_found : BodyWell bytes at_end BodyLengthEnd.not_found
  well_pending : at_end ≡ false → BodyWell bytes at_end BodyLengthEnd.pending

pending-BodyWell :
    (bytes : Bytes) (at_end final : Bool)
    → (final ≡ false → at_end ≡ false)
    → BodyWell bytes at_end (pending_unless final)
pending-BodyWell bytes at_end true waiting = well_not_found
pending-BodyWell bytes at_end false waiting = well_pending (waiting refl)

found-BodyWell :
    (bytes : Bytes) (at_end : Bool) (o : Option End)
    → MayEnd bytes at_end o
    → BodyWell bytes at_end (found_or_pending o)
found-BodyWell bytes at_end none (no_end w) = well_pending w
found-BodyWell bytes at_end (some e) (ends i) = well_found i

module _ (bytes capped : Bytes) (final : Bool) (sep : ℕ) (at_end : Bool)
    (inside : length capped ≤ length bytes) (opening : Opening capped bytes)
    (waiting : final ≡ false → at_end ≡ false) (eight : get_elem? capped 0 ≡ some b'8') where
  value_ends-BodyWell :
      (o : Option ℕ)
      → ((at : ℕ)
          → o ≡ some at
          → (b : ℕ) × (get_elem? capped at ≡ some b) × (((b == sep) || (b == 10)) ≡ true))
      → BodyWell bytes at_end (value_ends bytes capped final sep at_end o)
  unfolding value_ends
  value_ends-BodyWell (some at) h =
      let (b, there, ends_value) = h at refl in
      let lt = get_elem?-some_lt capped at b there in
      let is : byte_at capped at ≡ b =
        some-injective (byte_at capped at) b (sym (byte_at-get capped at lt) ∙ there) in
      elim (Bool-cases (byte_at capped at == sep)) [
        | inl closes ↦ rw closes (
            found-BodyWell bytes at_end _
              (after_message-MayEnd bytes (at + 1) at_end (omega arith) (omega (arith, lt))))
        | inr breaks ↦
            let is_break : b ≡ 10 = ground (arith, is, breaks, ends_value) in
            rw breaks (
              well_found (
                at_line_break-IsWithin capped bytes at false opening eight
                  (there ∙ ap some is_break)))
      ]
  value_ends-BodyWell none h = elim (Bool-cases final) [
    | inl last ↦ rw last (
        well_found (
          bare-IsWithin bytes (length capped) false
            (omega (arith, get_elem?-some_lt capped 0 b'8' eight)) inside))
    | inr more ↦ rw more (well_pending (waiting more))
  ]

  found_behind :
      (begin at : ℕ)
      → Option.map
          (λ rel. begin + rel)
          (position (λ b. (b == sep) || (b == 10)) (drop begin capped))
        ≡ some at
      → (b : ℕ) × (get_elem? capped at ≡ some b) × (((b == sep) || (b == 10)) ≡ true)
  found_behind begin at h =
      elim (Option-cases (position (λ b. (b == sep) || (b == 10)) (drop begin capped))) [
        | inl missing ↦ absurd (ground arith)
        | inr (rel, there) ↦
            let (b, found_there, ends_value) =
              position-get (λ b. (b == sep) || (b == 10)) (drop begin capped) rel there in
            let e : at ≡ begin + rel = ground arith in
            (
              b,
              ap (get_elem? capped) e ∙ sym (get_elem?-drop capped begin rel) ∙ found_there,
              ends_value,
            )
      ]

  trailer_at-BodyWell :
      (trailer_start : ℕ)
      → BodyWell bytes at_end (trailer_at bytes capped final sep at_end trailer_start)
  unfolding trailer_at
  trailer_at-BodyWell trailer_start = elim (Bool-cases (ltb (length capped) (trailer_start + 3))) [
    | inl short ↦ rw short (pending-BodyWell bytes at_end final waiting)
    | inr long ↦
        let trailer_bytes = slice capped (trailer_start - 1) (trailer_start + 3) in
        rw long (elim (Bool-cases (equal trailer_bytes (sep ∷ b'1' ∷ b'0' ∷ b'=' ∷ []))) [
          | inr differs ↦ rw differs well_not_found
          | inl same ↦ rw same (value_ends-BodyWell _ (found_behind (trailer_start + 3)))
        ])
  ]

  digits_end-BodyWell :
      (tag_start : ℕ) (digits : Bytes) (o : Option ℕ)
      → BodyWell bytes at_end (digits_end bytes capped final sep at_end tag_start digits o)
  unfolding digits_end
  digits_end-BodyWell tag_start digits none = pending-BodyWell bytes at_end final waiting
  digits_end-BodyWell tag_start digits (some b) = elim (Bool-cases (b == sep)) [
    | inr differs ↦ rw differs well_not_found
    | inl same ↦ rw same (elim (Option-cases (parse_u32 digits)) [
      | inl bad ↦ rw bad well_not_found
      | inr (n, e) ↦ rw e (trailer_at-BodyWell _)
    ])
  ]

by_body_length-BodyWell :
    (bytes : Bytes) (sep : ℕ) (at_end : Bool)
    → IsStarted bytes sep
    → BodyWell bytes at_end (by_body_length bytes sep at_end)
unfolding by_body_length
by_body_length-BodyWell bytes sep at_end is =
    let capped = (cap bytes at_end).0 in
    let final = (cap bytes at_end).1 in
    let tag_start = behind (position (λ b. b == sep) capped) (length capped) in
    let rest = drop 2 (drop tag_start capped) in
    let digits = count_while is_digit (take (max_body_length_digits + 1) rest) in
    elim (Bool-cases (starts_with (drop tag_start capped) (b'9' ∷ b'=' ∷ []))) [
      | inr missing ↦ rw missing well_not_found
      | inl there ↦ rw there (elim (Bool-cases (ltb max_body_length_digits digits)) [
        | inl long ↦ rw long well_not_found
        | inr short ↦ rw short (
            digits_end-BodyWell bytes capped final sep at_end (cap-length bytes at_end).0
              (cap-Opening bytes at_end) (cap-waiting bytes at_end) (cap-first bytes sep at_end is)
              tag_start (take digits rest) (get_elem? rest digits))
      ])
    ]

pub find_end-MayEnd :
    (t : Tokenizer) (bytes : Bytes) (sep : ℕ) (override : Option ℕ) (at_end : Bool)
    → IsStarted bytes sep
    → (o : Option End) × (find_end t bytes sep override at_end ≡ some o) × MayEnd bytes at_end o
unfolding find_end
find_end-MayEnd t bytes sep override at_end is =
    body_or_walk (by_body_length bytes sep at_end) refl
      (by_body_length-BodyWell bytes sep at_end is)
  where
    body_or_walk :
        (b : BodyLengthEnd)
        → by_body_length bytes sep at_end ≡ b
        → BodyWell bytes at_end b
        → (o : Option End) × (find_end t bytes sep override at_end ≡ some o) × MayEnd bytes at_end o
    body_or_walk (BodyLengthEnd.found e) h (well_found i) = (some e, rw (h, find_end) refl, ends i)
    body_or_walk BodyLengthEnd.not_found h w =
        let (o, e, m) = walk-MayEnd t bytes sep override at_end is in (o, rw (h, find_end) e, m)
    body_or_walk BodyLengthEnd.pending h (well_pending w) = (none, rw (h, find_end) refl, no_end w)
