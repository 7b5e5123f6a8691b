-- ===== src/Framing/Preamble.antt =====
-- framing.rs, `parse_begin_string`: what it accepts, and that it accepts every such text.
use refix.Base.{
  ℕ, ◌+◌, ◌-◌, ◌≤◌, ◌<◌, min, ◌≡◌, refl, ap, ◌∙◌, Option, none, some, ◌∷◌, ◌++◌, arith, ==_iff,
  length, take, drop, length-append, length-take, take-length, Bytes, position,
}
use refix.Base.Positions.{
  position-SplitsAt, position-append, position-lt, position-take, position-take_lt,
}
use refix.Base.Result.{ok}
use refix.Framing.{
  soh, max_begin_string_len, BeginString, is_soh, decode_begin_string, begin_string_end,
  parse_begin_string,
}

-- A BeginString value: short, and with no SOH.
pub record IsValue (value : Bytes) : Type 0 where
  pub clear : position is_soh value ≡ none
  pub short : length value ≤ 14

begin_string_end-some :
    (value after : Bytes) (x y : ℕ)
    → take (length value + 2 - 2) (value ++ soh ∷ after) ≡ value
    → begin_string_end (x ∷ y ∷ (value ++ soh ∷ after)) (some (length value))
      ≡ ok (decode_begin_string value, length value + 3)
unfolding begin_string_end
begin_string_end-some value after x y whole = rw whole (ground arith)

pub parse_begin_string_accepts :
    (x y : ℕ) (value after : Bytes)
    → IsValue value
    → parse_begin_string (x ∷ y ∷ (value ++ soh ∷ after))
      ≡ ok (decode_begin_string value, length value + 3)
unfolding parse_begin_string
parse_begin_string_accepts x y value after v =
    let buf : Bytes = x ∷ y ∷ (value ++ soh ∷ after) in
    let here = position-append is_soh value soh after v.clear refl in
    let room = min (length buf) (max_begin_string_len + 1) - 2 in
    let inside : length value < room = omega (arith, length-append value (soh ∷ after), v.short) in
    let found = position-take_lt is_soh room (value ++ soh ∷ after) (length value) here inside in
    let whole : take (length value + 2 - 2) (value ++ soh ∷ after) ≡ value =
      take-length value (soh ∷ after) _ (omega arith) in
    ap (begin_string_end buf) found ∙ begin_string_end-some value after x y whole

-- What an accepted BeginString field is.
pub record BeginSplit (buf : Bytes) (begin_string : BeginString) (next : ℕ) : Type 0 where
  pub value : Bytes
  pub after : Bytes
  pub splits : drop 2 buf ≡ value ++ soh ∷ after
  pub is_value : IsValue value
  pub decoded : begin_string ≡ decode_begin_string value
  pub next_is : next ≡ length value + 3

begin_string_end-ok :
    (buf : Bytes) (room : ℕ) (o : Option ℕ) (begin_string : BeginString) (next : ℕ)
    → room ≤ 15
    → position is_soh (take room (drop 2 buf)) ≡ o
    → begin_string_end buf o ≡ ok (begin_string, next)
    → BeginSplit buf begin_string next
unfolding begin_string_end
begin_string_end-ok buf room none begin_string next few found h = absurd (ground arith)
begin_string_end-ok buf room (some rel) begin_string next few found h =
    let inside = position-lt is_soh (take room (drop 2 buf)) rel found in
    let here = position-take is_soh room (drop 2 buf) rel found in
    let s = position-SplitsAt is_soh (drop 2 buf) rel here in
    let is = (==_iff s.found soh).0 s.passes in
    let splits : drop 2 buf ≡ s.before ++ soh ∷ s.after = rw is at s.splits in
    let value_is : take (rel + 2 - 2) (drop 2 buf) ≡ s.before =
      rw splits (take-length s.before (soh ∷ s.after) _ (omega (arith, s.at))) in
    record {
      value = s.before;
      after = s.after;
      splits = splits;
      is_value = record {
        clear = s.first;
        short = omega (arith, length-take room (drop 2 buf), s.at);
      };
      decoded = ground (arith, value_is);
      next_is = ground (arith, s.at);
    }

pub parse_begin_string-ok :
    (buf : Bytes) (begin_string : BeginString) (next : ℕ)
    → parse_begin_string buf ≡ ok (begin_string, next)
    → BeginSplit buf begin_string next
unfolding parse_begin_string
parse_begin_string-ok buf begin_string next =
    begin_string_end-ok buf (min (length buf) 17 - 2) _ begin_string next (omega arith) refl
