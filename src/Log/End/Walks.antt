-- ===== src/Log/End/Walks.antt =====
-- log/end.rs, `walk`: it ends, and so does each end within the bytes.
use mathlib.Core.Option
use mathlib.Core.Option.{some-injective}
use refix.Base.{
  ℕ, zero, suc, ◌+◌, ◌≤◌, ◌<◌, max, ◌≡◌, refl, sym, ◌∙◌, ◌≢◌, ◌⊎◌, inl, inr, Bool, true, false, not,
  Option, none, some, arith, ltb, ◌==◌, Bool-cases, length, get_elem?, Bytes, slice, position,
}
use refix.Base.Appends.{get_elem?-some_lt}
use refix.Tokenizer.{Tokenizer, RawField, unwrap_or, next_field}
use refix.Tokenizer.Tiling.{IsIndexable}
use refix.Log.Start.{Start, NextStart}
use refix.Log.End.{
  checksum_tag, End, cap, WalkStep, panics, stop, go_on, may_run_on, checked_end, if_final,
  take_field, look_ahead, walk_step, walk_rounds, walk,
}
use refix.Log.End.Lines.{Opening}
use refix.Log.End.Within.{
  IsStarted, IsWithin, MayEnd, no_end, ends, bare-IsWithin, after_message-MayEnd,
  at_line_break-IsWithin,
}
use refix.Log.End.Caps.{cap-length, cap-waiting, cap-Opening, cap-first}
use refix.Log.End.Fields.{
  NextWell, no_field, a_field, next_field-NextWell, checked_end-le, from-le, line_break-get,
  start_in_field,
}
use refix.Log.Start.Ranges.{find_start-pending, find_start-lt}

-- A round stops within the bytes, or goes on further along.
data StepsWell (bytes : Bytes) (at_end : Bool) (capped pos : ℕ) : WalkStep → Type 0 where
  stops : {o : Option End} → MayEnd bytes at_end o → StepsWell bytes at_end capped pos (stop o)
  goes :
      {after : ℕ} (len : Option ℕ)
      → pos < after
      → after ≤ capped
      → StepsWell bytes at_end capped pos (go_on after len)

if_final-MayEnd :
    (bytes : Bytes) (at_end final : Bool) (e : End)
    → (final ≡ false → at_end ≡ false)
    → IsWithin bytes e
    → MayEnd bytes at_end (if_final final e)
if_final-MayEnd bytes at_end true e waiting i = ends i
if_final-MayEnd bytes at_end false e waiting i = no_end (waiting refl)

module _ (t : Tokenizer) (bytes capped : Bytes) (final : Bool) (at_end : Bool)
    (inside : length capped ≤ length bytes) (opening : Opening capped bytes)
    (waiting : final ≡ false → at_end ≡ false) (eight : get_elem? capped 0 ≡ some b'8') where
  some_capped : 1 ≤ length capped
  some_capped = omega (arith, get_elem?-some_lt capped 0 b'8' eight)

  take_field-StepsWell :
      (pos : ℕ) (next : Option (RawField × ℕ))
      → NextWell (length capped) pos next
      → StepsWell bytes at_end (length capped) pos (take_field t bytes capped final at_end next)
  unfolding take_field
  take_field-StepsWell pos none no_field = stops (
      if_final-MayEnd bytes at_end final _ waiting
        (bare-IsWithin bytes (length capped) true some_capped inside))
  take_field-StepsWell pos (some (f, after)) (a_field lo _ order _ e hi) =
      elim (Bool-cases (f.value_end == length capped)) [
        | inl to_end ↦ rw to_end (
            stops (
              if_final-MayEnd bytes at_end final _ waiting (
                bare-IsWithin bytes (length capped) (not (f.tag == checksum_tag)) some_capped
                  inside)))
        | inr short ↦
            let further : after ≤ length capped = ground (arith, e, hi) in
            rw short (elim (Bool-cases (f.tag == checksum_tag)) [
              | inl last ↦ rw last (
                  stops (after_message-MayEnd bytes after at_end (omega (arith, lo)) (omega arith)))
              | inr more ↦ rw more (goes _ lo further)
            ])
      ]

  look_ahead-StepsWell :
      (pos : ℕ) (next : Option (RawField × ℕ)) (line_break : Option ℕ) (next_start : NextStart)
      → NextWell (length capped) pos next
      → ((at : ℕ) → line_break ≡ some at → get_elem? capped at ≡ some 10)
      → ((s : Start) → next_start ≡ NextStart.found s → (1 ≤ s.at) × (s.at < length capped))
      → ((n : ℕ) → next_start ≡ NextStart.pending n → at_end ≡ false)
      → StepsWell bytes at_end
          (length capped)
          pos
          (look_ahead t bytes capped final at_end next line_break next_start)
  unfolding look_ahead
  look_ahead-StepsWell pos next line_break (NextStart.found s) w b f p =
      stops (ends (bare-IsWithin bytes s.at true (f s refl).0 (omega (arith, f s refl))))
  look_ahead-StepsWell pos next line_break (NextStart.pending n) w b f p = stops (no_end (p n refl))
  look_ahead-StepsWell pos next (some at) NextStart.not_found w b f p =
      stops (ends (at_line_break-IsWithin capped bytes at _ opening eight (b at refl)))
  look_ahead-StepsWell pos next none NextStart.not_found w b f p = take_field-StepsWell pos next w

WalkStep-cases :
    {bytes : Bytes} {at_end : Bool} {capped pos : ℕ} (st : WalkStep)
    → StepsWell bytes at_end capped pos st
    → ((o : Option End) × (st ≡ stop o)) ⊎ ((after : ℕ) × (len : Option ℕ) × (st ≡ go_on after len))
WalkStep-cases (stop o) (stops _) = inl (o, refl)
WalkStep-cases (go_on after len) (goes _ _ _) = inr (after, len, refl)
WalkStep-cases panics w = elim w [ ]

stop-MayEnd :
    {bytes : Bytes} {at_end : Bool} {capped pos : ℕ} (o : Option End)
    → StepsWell bytes at_end capped pos (stop o)
    → MayEnd bytes at_end o
stop-MayEnd o (stops m) = m

go_on-lt :
    {bytes : Bytes} {at_end : Bool} {capped pos : ℕ} (after : ℕ) (len : Option ℕ)
    → StepsWell bytes at_end capped pos (go_on after len)
    → (pos < after) × (after ≤ capped)
go_on-lt after len (goes _ lo hi) = (lo, hi)

module _ (t : Tokenizer) (bytes capped : Bytes) (final : Bool) (sep : ℕ) (override : Option ℕ)
    (at_end : Bool) (inside : length capped ≤ length bytes) (fits : IsIndexable capped)
    (one : 1 ≤ length capped) (opening : Opening capped bytes)
    (first : get_elem? capped 0 ≢ some sep) (waiting : final ≡ false → at_end ≡ false)
    (eight : get_elem? capped 0 ≡ some b'8') where
  runs_on :
      (next : Option (RawField × ℕ)) (data_len : Option ℕ)
      → may_run_on next data_len final (length capped) ≡ true
      → final ≡ false
  runs_on none data_len h = cc
  runs_on (some (f, after)) none h = cc
  runs_on (some (f, after)) (some len) h = ground (arith, h)

  walk_step-StepsWell :
      (pos : ℕ) (data_len : Option ℕ)
      → (1 ≤ pos) ⊎ (data_len ≡ none)
      → pos ≤ length capped
      → StepsWell bytes at_end
          (length capped)
          pos
          (walk_step t bytes capped final sep override at_end pos data_len)
  unfolding walk_step
  walk_step-StepsWell pos data_len begun le =
      let next = next_field capped pos data_len sep in
      let until = checked_end next data_len (length capped) in
      let from = max pos 1 in
      let line_break =
        Option.map (λ at. from + at) (position (λ b. b == 10) (slice capped from until)) in
      let w = next_field-NextWell capped pos data_len sep next fits first refl in
      let b = line_break-get capped from until in
      let ordered : ltb until from ≡ false =
        ground (arith, from-le (length capped) pos next data_len w begun le one) in
      elim (Bool-cases (may_run_on next data_len final (length capped))) [
        | inl waits ↦ rw waits (stops (no_end (waiting (runs_on next data_len waits))))
        | inr goes_on ↦
            rw (goes_on, ordered)
              (look_ahead-StepsWell t bytes capped final at_end inside opening waiting eight pos
                next line_break _ w b
                (λ s there.
                  (let (lo, hi) =
                      find_start-lt bytes from (unwrap_or line_break until) override at_end s
                        there in
                    (
                      omega (arith, lo),
                      start_in_field capped until line_break s.at
                          (checked_end-le (length capped) pos next data_len w) b hi,
                    )))
                (find_start-pending bytes from (unwrap_or line_break until) override at_end))
      ]

  walk_rounds-MayEnd :
      (fuel pos : ℕ) (data_len : Option ℕ)
      → length capped + 1 < fuel + pos
      → pos ≤ length capped
      → (1 ≤ pos) ⊎ (data_len ≡ none)
      → (o : Option End) × (walk_rounds fuel t bytes capped final sep override at_end pos data_len
          ≡ some o)
        × MayEnd bytes at_end o
  unfolding walk_rounds
  walk_rounds-MayEnd zero pos data_len h lo begun = absurd (omega arith)
  walk_rounds-MayEnd (suc fuel) pos data_len h lo begun =
      let step = walk_step-StepsWell pos data_len begun lo in
      elim (WalkStep-cases (walk_step t bytes capped final sep override at_end pos data_len) step) [
        | inl (o, e) ↦ (o, rw (e, walk_rounds) refl, stop-MayEnd o (rw e at step))
        | inr (after, len, e) ↦
            let moves = go_on-lt after len (rw e at step) in
            let (o, r, m) =
              walk_rounds-MayEnd fuel after len (omega (arith, moves)) moves.1
                (inl (omega (arith, moves.0))) in
            (o, rw (e, walk_rounds) r, m)
      ]

-- The search of the fields returns, within the bytes.
pub walk-MayEnd :
    (t : Tokenizer) (bytes : Bytes) (sep : ℕ) (override : Option ℕ) (at_end : Bool)
    → IsStarted bytes sep
    → (o : Option End) × (walk t bytes sep override at_end ≡ some o) × MayEnd bytes at_end o
unfolding walk
walk-MayEnd t bytes sep override at_end is =
    let capped = (cap bytes at_end).0 in
    let size = cap-length bytes at_end in
    let first = cap-first bytes sep at_end is in
    walk_rounds-MayEnd t bytes capped (cap bytes at_end).1 sep override at_end size.0
      (omega (arith, size)) (omega (arith, get_elem?-some_lt capped 0 b'8' first))
      (cap-Opening bytes at_end) (λ e. is.differs (some-injective b'8' sep (sym first ∙ e)))
      (cap-waiting bytes at_end) first (length capped + 2) 0 none (omega arith) (omega arith)
      (inr refl)
