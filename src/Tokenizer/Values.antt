-- ===== src/Tokenizer/Values.antt =====
-- tokenizer.rs: where a field's value ends.
use refix.Base.{
  ℕ, zero, suc, ◌+◌, ◌-◌, ◌≤◌, ◌≡◌, refl, sym, ap, ◌∙◌, ◌⊎◌, inl, inr, true, Option, none, some, [],
  ◌∷◌, arith, ◌==◌, Option-cases, length, get_elem?, take, drop, length-drop, take_all, Bytes,
  slice, position,
}
use refix.Base.Appends.{get_elem?-drop, get_elem?-some_lt}
use refix.Tokenizer.{find_separator, is_byte, data_value_end, unwrap_or, find_value_end}

-- The value from `start` to `stop` ends at a separator or with the bytes. It is as long as the
-- length field before it says, or else it holds no separator.
pub record IsValueEnd (bytes : Bytes) (start : ℕ) (data_len : Option ℕ) (sep stop : ℕ)
    : Type 0 where
  pub after : start ≤ stop
  pub within : stop ≤ length bytes
  pub ends :
      (get_elem? bytes stop ≡ some sep)
      ⊎ (stop ≡ length bytes) × (position (λ b. b == sep) (slice bytes start stop) ≡ none)
  pub extent :
      (data_len ≡ some (stop - start)) ⊎ (position (λ b. b == sep) (slice bytes start stop) ≡ none)

pub position-get_elem? :
    (sep : ℕ) (xs : Bytes) (n : ℕ)
    → position (λ b. b == sep) xs ≡ some n
    → get_elem? xs n ≡ some sep
unfolding position
position-get_elem? sep [] n h = cc
position-get_elem? sep (x ∷ xs) zero h = ground arith
position-get_elem? sep (x ∷ xs) (suc n) h = ground (arith, position-get_elem? sep xs n)

position-take-none :
    (sep : ℕ) (xs : Bytes) (n : ℕ)
    → position (λ b. b == sep) xs ≡ some n
    → position (λ b. b == sep) (take n xs) ≡ none
unfolding position
position-take-none sep [] n h = cc
position-take-none sep (x ∷ xs) zero h = refl
position-take-none sep (x ∷ xs) (suc n) h = ground (arith, position-take-none sep xs n)

is_byte-eq : (o : Option ℕ) (sep : ℕ) → is_byte o sep ≡ true → o ≡ some sep
is_byte-eq none sep h = cc
is_byte-eq (some b) sep h = ground arith

by_length :
    (bytes : Bytes) (start len sep stop : ℕ)
    → data_value_end bytes start len sep ≡ some stop
    → IsValueEnd bytes start (some len) sep stop
unfolding data_value_end
by_length bytes start len sep stop h =
    let is_stop : (stop ≡ start + len) × (is_byte (get_elem? bytes (start + len)) sep ≡ true) =
      (ground arith, ground arith) in
    let there = is_byte-eq (get_elem? bytes (start + len)) sep is_stop.1 in
    let inside = get_elem?-some_lt bytes (start + len) sep there in
    record {
      after = omega arith;
      within = omega (arith, inside);
      ends = inl (rw is_stop.0 there);
      extent = inl (ap some (omega arith));
    }

by_search :
    (bytes : Bytes) (start sep stop : ℕ) (data_len : Option ℕ)
    → find_separator bytes start sep ≡ some stop
    → IsValueEnd bytes start data_len sep stop
unfolding find_separator
by_search bytes start sep stop data_len h =
    elim (Option-cases (position (λ b. b == sep) (drop start bytes))) [
      | inl missing ↦ absurd (ground arith)
      | inr (rel, found) ↦
          let is_stop : (stop ≡ start + rel) = ground arith in
          let there = sym (get_elem?-drop bytes start rel) ∙ position-get_elem? sep _ rel found in
          record {
            after = omega arith;
            within = omega (arith, get_elem?-some_lt bytes (start + rel) sep there);
            ends = inl (rw is_stop there);
            extent =
                let e : stop - start ≡ rel = omega arith in
                inr (rw e (position-take-none sep (drop start bytes) rel found));
          }
    ]

to_the_end :
    (bytes : Bytes) (start sep : ℕ) (data_len : Option ℕ)
    → start ≤ length bytes
    → find_separator bytes start sep ≡ none
    → IsValueEnd bytes start data_len sep (length bytes)
unfolding find_separator
to_the_end bytes start sep data_len h missing =
    let clear : position (λ b. b == sep) (slice bytes start (length bytes)) ≡ none =
      rw
        (take_all (length bytes - start) (drop start bytes)
          (omega (arith, length-drop start bytes)))
        (elim (Option-cases (position (λ b. b == sep) (drop start bytes))) [
          | inl clear ↦ clear
          | inr (rel, found) ↦ absurd (ground arith)
        ]) in
    record { after = h; within = omega arith; ends = inr (refl, clear); extent = inr clear }

search_end :
    (bytes : Bytes) (start sep : ℕ) (data_len : Option ℕ)
    → start ≤ length bytes
    → IsValueEnd bytes start data_len sep
        (unwrap_or (find_separator bytes start sep) (length bytes))
search_end bytes start sep data_len h = elim (Option-cases (find_separator bytes start sep)) [
  | inl missing ↦ rw missing (to_the_end bytes start sep data_len h missing)
  | inr (stop, found) ↦ rw found (by_search bytes start sep stop data_len found)
]

pub find_value_end-IsValueEnd :
    (bytes : Bytes) (start : ℕ) (data_len : Option ℕ) (sep : ℕ)
    → start ≤ length bytes
    → IsValueEnd bytes start data_len sep (find_value_end bytes start data_len sep)
unfolding find_value_end
find_value_end-IsValueEnd bytes start none sep h = search_end bytes start sep none h
find_value_end-IsValueEnd bytes start (some len) sep h =
    elim (Option-cases (data_value_end bytes start len sep)) [
      | inl distrusted ↦ rw distrusted (search_end bytes start sep (some len) h)
      | inr (stop, found) ↦ rw found (by_length bytes start len sep stop found)
    ]
