-- ===== src/Framing/Count.antt =====
-- framing.rs, `parse_body_length`: what it accepts, and that it accepts every such text.
use refix.Base.{
  ℕ, ◌+◌, ◌-◌, ◌≤◌, ◌<◌, min, ◌≡◌, refl, sym, ap, ◌∙◌, inl, inr, true, false, Option, none, some,
  [], ◌∷◌, ◌++◌, arith, ltb, ==_iff, Bool-cases, length, take, drop, length-append, length-take,
  length-drop, take-length, drop-drop, Bytes, slice, equal, position, all, is_digit, equal_iff,
}
use refix.Base.Appends.{all_digits-clear}
use refix.Base.Digits.{usize_max, fold_digits, decimal, fold_digits_fits, fold_digits-eq-some}
use refix.Base.Prefixes.{equal-take, starts_with-split}
use refix.Base.Positions.{
  position-SplitsAt, position-append, position-lt, position-take, position-take_lt,
}
use refix.Base.Result.{ok}
use refix.Framing.{soh, is_soh, body_length_value, body_length_end, parse_body_length}

-- A BodyLength value: from one to ten digits.
pub record IsCount (digits : Bytes) : Type 0 where
  pub digits_only : all is_digit digits ≡ true
  pub some_digits : 1 ≤ length digits
  pub few_digits : length digits ≤ 10
  pub fits : decimal 0 digits ≤ usize_max

body_length_value_accepts :
    (buf : Bytes) (start rel : ℕ) (digits : Bytes)
    → slice buf start (start + rel) ≡ digits
    → IsCount digits
    → body_length_value buf start rel ≡ ok (decimal 0 digits, start + rel + 1)
unfolding body_length_value
body_length_value_accepts buf start rel digits e c =
    rw e (ground (arith, fold_digits_fits usize_max 0 digits, c.digits_only, c.some_digits))

body_length_end_accepts :
    (buf : Bytes) (start rel : ℕ) (digits : Bytes)
    → slice buf start (start + rel) ≡ digits
    → IsCount digits
    → body_length_end buf start (some rel) ≡ ok (decimal 0 digits, start + rel + 1)
unfolding body_length_end
body_length_end_accepts = body_length_value_accepts

ltb_ge : (n : ℕ) → 2 ≤ n → ltb n 2 ≡ false
ltb_ge n h = ground arith

pub parse_body_length_accepts :
    (buf : Bytes) (start : ℕ) (digits after : Bytes)
    → drop start buf ≡ b'9' ∷ b'=' ∷ (digits ++ soh ∷ after)
    → IsCount digits
    → parse_body_length buf start ≡ ok (decimal 0 digits, start + 2 + length digits + 1)
unfolding parse_body_length
parse_body_length_accepts buf start digits after e c =
    let tail : drop (start + 2) buf ≡ digits ++ soh ∷ after =
      sym (drop-drop 2 start buf) ∙ ap (drop 2) e in
    let here =
      position-append is_soh digits soh after
        (all_digits-clear digits 1 (omega arith) c.digits_only) refl in
    let room = min (length buf) (start + 2 + 10 + 1) - (start + 2) in
    let size = ap length e in
    let inside : length digits < room =
      omega (arith, length-drop start buf, length-append digits (soh ∷ after), c.few_digits) in
    let found = position-take_lt is_soh room (digits ++ soh ∷ after) (length digits) here inside in
    let found' : position is_soh (take room (drop (start + 2) buf)) ≡ some (length digits) =
      rw tail found in
    let digits_are : take (start + 2 + length digits - (start + 2)) (drop (start + 2) buf)
        ≡ digits =
      rw tail (take-length digits (soh ∷ after) _ (omega arith)) in
    let nine : equal (take 2 (drop start buf)) (b'9' ∷ b'=' ∷ []) ≡ true =
      rw e ((equal_iff (b'9' ∷ b'=' ∷ []) (b'9' ∷ b'=' ∷ [])).1 refl) in
    let ends =
      ap (body_length_end buf (start + 2)) found'
      ∙ body_length_end_accepts buf (start + 2) (length digits) digits digits_are c in
    rw (nine, ltb_ge (length (drop start buf)) (omega arith)) ends

-- What an accepted BodyLength field is.
pub record CountSplit (buf : Bytes) (start body_length next : ℕ) : Type 0 where
  pub digits : Bytes
  pub after : Bytes
  pub splits : drop start buf ≡ b'9' ∷ b'=' ∷ (digits ++ soh ∷ after)
  pub is_count : IsCount digits
  pub counted : body_length ≡ decimal 0 digits
  pub next_is : next ≡ start + 2 + length digits + 1

body_length_value-ok :
    (buf : Bytes) (start rel n next : ℕ)
    → body_length_value buf start rel ≡ ok (n, next)
    → (all is_digit (slice buf start (start + rel)) ≡ true)
      × (1 ≤ length (slice buf start (start + rel)))
      × (fold_digits usize_max 0 (slice buf start (start + rel)) ≡ some n)
      × (next ≡ start + rel + 1)
unfolding body_length_value
body_length_value-ok buf start rel n next h = ground arith

two_bytes : (xs : Bytes) (x y : ℕ) → equal (take 2 xs) (x ∷ y ∷ []) ≡ true → xs ≡ x ∷ y ∷ drop 2 xs
two_bytes xs x y h = starts_with-split xs (x ∷ y ∷ []) (sym (equal-take xs (x ∷ y ∷ [])) ∙ h)

module _ (buf : Bytes) (start : ℕ) where
  body_length_end-ok :
      (room : ℕ) (o : Option ℕ) (n next : ℕ)
      → room ≤ 11
      → drop start buf ≡ b'9' ∷ b'=' ∷ drop (start + 2) buf
      → position is_soh (take room (drop (start + 2) buf)) ≡ o
      → body_length_end buf (start + 2) o ≡ ok (n, next)
      → CountSplit buf start n next
  unfolding body_length_end
  body_length_end-ok room none n next few opens found h = absurd (ground arith)
  body_length_end-ok room (some rel) n next few opens found h =
      let inside = position-lt is_soh (take room (drop (start + 2) buf)) rel found in
      let here = position-take is_soh room (drop (start + 2) buf) rel found in
      let s = position-SplitsAt is_soh (drop (start + 2) buf) rel here in
      let is = (==_iff s.found soh).0 s.passes in
      let splits : drop (start + 2) buf ≡ s.before ++ soh ∷ s.after = rw is at s.splits in
      let digits_are : slice buf (start + 2) (start + 2 + rel) ≡ s.before =
        rw splits (take-length s.before (soh ∷ s.after) _ (omega (arith, s.at))) in
      let (only, more, value, next_is) = body_length_value-ok buf (start + 2) rel n next h in
      let number =
        fold_digits-eq-some usize_max 0 s.before n (omega arith) (rw digits_are at value) in
      record {
        digits = s.before;
        after = s.after;
        splits = opens ∙ ap (λ t. b'9' ∷ b'=' ∷ t) splits;
        is_count = record {
          digits_only = rw digits_are at only;
          some_digits = rw digits_are at more;
          few_digits = omega (arith, length-take room (drop (start + 2) buf), s.at);
          fits = omega (arith, number);
        };
        counted = number.0;
        next_is = omega (arith, s.at);
      }

  pub parse_body_length-ok :
      (n next : ℕ) → parse_body_length buf start ≡ ok (n, next) → CountSplit buf start n next
  unfolding parse_body_length
  parse_body_length-ok n next h =
      elim (Bool-cases (equal (take 2 (drop start buf)) (b'9' ∷ b'=' ∷ []))) [
        | inr not_nine ↦ absurd (ground arith)
        | inl nine ↦
            let opens = two_bytes (drop start buf) b'9' b'=' nine in
            body_length_end-ok (min (length buf) (start + 2 + 10 + 1) - (start + 2)) _ n next
              (omega arith) (rw drop-drop at opens) refl (ground arith)
      ]
