-- ===== src/Framing/Resync.antt =====
-- framing.rs, `find_next_begin_string`: the resynchronisation passes over no start of a message,
-- whatever bytes arrive later, and stops where one may start.
use refix.Base.{
  ℕ, zero, suc, ◌+◌, ◌-◌, ◌≤◌, ◌<◌, min, ◌≡◌, refl, ap, ◌∙◌, ◌⊎◌, inl, inr, true, false, Option,
  none, some, [], ◌∷◌, ◌++◌, arith, dec_lt, Bool-cases, length, take, drop, length-drop, drop_all,
  drop-append_le, drop-drop, Bytes, equal, starts_with, equal_iff,
}
use refix.Base.Prefixes.{
  equal-take, starts_with-append_le, starts_with-append_lt, starts_with-take, starts_with-eq_take,
  starts_with-length,
}
use refix.Framing.{begin_string_prefix, window_position, partial_prefix, find_next_begin_string}

window_position-length :
    (p xs : Bytes) (n : ℕ) → window_position p xs ≡ some n → n + length p ≤ length xs
unfolding window_position
window_position-length p [] n h = cc
window_position-length p (x ∷ xs) zero h = elim (Bool-cases (equal (take (length p) (x ∷ xs)) p)) [
  | inl here ↦ omega (arith, starts_with-length (x ∷ xs) p (rw equal-take at here))
  | inr later ↦ absurd (ground arith)
]
window_position-length p (x ∷ xs) (suc n) h = ground (arith, window_position-length p xs n)

-- No window before the one found matches, and none at all if none is found.
window_position_first :
    (p xs : Bytes) (n j : ℕ)
    → window_position p xs ≡ some n
    → j < n
    → starts_with (drop j xs) p ≡ false
unfolding window_position
window_position_first p [] n j h lt = cc
window_position_first p (x ∷ xs) n zero h lt = ground (arith, equal-take (x ∷ xs) p)
window_position_first p (x ∷ xs) (suc n) (suc j) h lt =
    ground (arith, window_position_first p xs n j)
window_position_first p (x ∷ xs) zero (suc j) h lt = absurd (omega arith)

window_position-none :
    (p xs : Bytes) (j : ℕ)
    → window_position p xs ≡ none
    → j < length xs
    → starts_with (drop j xs) p ≡ false
unfolding window_position
window_position-none p [] j h lt = absurd (omega arith)
window_position-none p (x ∷ xs) zero h lt = ground (arith, equal-take (x ∷ xs) p)
window_position-none p (x ∷ xs) (suc j) h lt = ground (arith, window_position-none p xs j)

window_position_hit :
    (p xs : Bytes) (n : ℕ) → window_position p xs ≡ some n → starts_with (drop n xs) p ≡ true
unfolding window_position
window_position_hit p [] n h = cc
window_position_hit p (x ∷ xs) zero h = ground (arith, equal-take (x ∷ xs) p)
window_position_hit p (x ∷ xs) (suc n) h = ground (arith, window_position_hit p xs n)

partial_prefix-le : (k : ℕ) (buf : Bytes) → partial_prefix k buf ≤ length buf
unfolding partial_prefix
partial_prefix-le zero buf = omega arith
partial_prefix-le (suc k) buf = ground (arith, partial_prefix-le k buf)

-- Where the loop stops, what is left is the start of a prefix.
partial_prefix_hit :
    (k : ℕ) (buf : Bytes) → starts_with begin_string_prefix (drop (partial_prefix k buf) buf) ≡ true
unfolding partial_prefix
partial_prefix_hit zero buf =
    rw (drop_all (length buf) buf (omega arith)) (starts_with-take 0 begin_string_prefix)
partial_prefix_hit (suc k) buf =
    elim (Bool-cases (equal (drop (length buf - suc k) buf) (take (suc k) begin_string_prefix))) [
      | inl hit ↦ rw hit (
          rw ((equal_iff _ (take (suc k) begin_string_prefix)).0 hit)
            (starts_with-take (suc k) begin_string_prefix))
      | inr miss ↦ rw miss (partial_prefix_hit k buf)
    ]

-- What is left at an earlier place of the last `k` bytes is not the start of a prefix.
partial_prefix_first :
    (k : ℕ) (buf : Bytes) (j : ℕ)
    → k ≤ length buf
    → length buf - k ≤ j
    → j < partial_prefix k buf
    → starts_with begin_string_prefix (drop j buf) ≡ false
unfolding partial_prefix
partial_prefix_first zero buf j fits lo hi = absurd (omega arith)
partial_prefix_first (suc k) buf j fits lo hi =
    elim (Bool-cases (starts_with begin_string_prefix (drop j buf))) [
      | inr miss ↦ miss
      | inl hit ↦
          let left = starts_with-eq_take begin_string_prefix (drop j buf) hit in
          elim (Bool-cases
            (equal (drop (length buf - suc k) buf) (take (suc k) begin_string_prefix))) [
              | inl here ↦ absurd (ground arith)
              | inr gone ↦ elim (dec_lt (length buf - suc k) j) [
                | yes after ↦
                    partial_prefix_first k buf j (omega arith) (omega arith) (ground arith)
                | no not_after ↦ absurd (
                    ground (
                      arith,
                      left,
                      length-drop j buf,
                      equal_iff (drop j buf) (take (suc k) begin_string_prefix),
                    ))
              ]
            ]
    ]

abbrev max_partial : Bytes → ℕ
max_partial buf = min (length begin_string_prefix - 1) (length buf)

-- The two ways in which the search ends.
find_next-cases :
    (buf : Bytes)
    → ((skip : ℕ) × (window_position begin_string_prefix (drop 1 buf) ≡ some skip)
        × (find_next_begin_string buf ≡ 1 + skip))
      ⊎ (window_position begin_string_prefix (drop 1 buf) ≡ none)
        × (find_next_begin_string buf ≡ partial_prefix (max_partial buf) buf)
unfolding find_next_begin_string
find_next-cases buf = go (window_position begin_string_prefix (drop 1 buf)) refl
  where
    found : Option ℕ → ℕ
    found o = elim o [ some skip ↦ skip + 1 | none ↦ partial_prefix (max_partial buf) buf ]

    go :
        (o : Option ℕ)
        → window_position begin_string_prefix (drop 1 buf) ≡ o
        → ((skip : ℕ) × (window_position begin_string_prefix (drop 1 buf) ≡ some skip)
            × (found (window_position begin_string_prefix (drop 1 buf)) ≡ 1 + skip))
          ⊎ (window_position begin_string_prefix (drop 1 buf) ≡ none)
            × (found (window_position begin_string_prefix (drop 1 buf))
                ≡ partial_prefix (max_partial buf) buf)
    go none e = inr (e, ap found e)
    go (some skip) e = inl (skip, e, ap found e ∙ omega arith)

-- The skip stays within the buffer.
pub find_next-le : (buf : Bytes) → find_next_begin_string buf ≤ length buf
find_next-le buf = elim (find_next-cases buf) [
  | inl (skip, found, e) ↦
      omega (
        arith,
        window_position-length begin_string_prefix (drop 1 buf) skip found,
        length-drop 1 buf,
      )
  | inr (no_window, e) ↦ omega (arith, partial_prefix-le (max_partial buf) buf)
]

-- A skip of nothing happens only where the whole buffer may still become a prefix.
pub find_next-pos :
    (buf : Bytes) → starts_with begin_string_prefix buf ≡ false → 0 < find_next_begin_string buf
find_next-pos buf h = elim (find_next-cases buf) [
  | inl (skip, found, e) ↦ omega arith
  | inr (no_window, e) ↦ elim (dec_lt 0 (find_next_begin_string buf)) [
    | yes pos ↦ pos
    | no stuck ↦
        let at_zero : partial_prefix (max_partial buf) buf ≡ 0 = omega arith in
        let hit = partial_prefix_hit (max_partial buf) buf in absurd (cc (h, rw at_zero at hit))
  ]
]

-- Where the skip ends, the buffer continues with `8=FIX` or ends within a part of it.
pub find_next_hit :
    (buf : Bytes)
    → (starts_with (drop (find_next_begin_string buf) buf) begin_string_prefix ≡ true)
      ⊎ (starts_with begin_string_prefix (drop (find_next_begin_string buf) buf) ≡ true)
find_next_hit buf = elim (find_next-cases buf) [
  | inl (skip, found, e) ↦
      let hit = window_position_hit begin_string_prefix (drop 1 buf) skip found in
      rw e (inl (rw drop-drop at hit))
  | inr (no_window, e) ↦ rw e (inr (partial_prefix_hit (max_partial buf) buf))
]

-- No message starts at a place that the skip passes over.
find_next_first_within :
    (buf : Bytes) (j : ℕ)
    → 0 < j
    → j < find_next_begin_string buf
    → starts_with (drop j buf) begin_string_prefix ≡ false
find_next_first_within buf zero pos lt = absurd (omega arith)
find_next_first_within [] (suc j) pos lt = absurd (omega (arith, find_next-le []))
find_next_first_within (b ∷ buf) (suc j) pos lt = elim (find_next-cases (b ∷ buf)) [
  | inl (skip, found, e) ↦ window_position_first begin_string_prefix buf skip j found (omega arith)
  | inr (no_window, e) ↦
      window_position-none begin_string_prefix buf j no_window
        (omega (arith, find_next-le (b ∷ buf)))
]

-- Nor does one start there that the buffer holds only in part.
find_next_first_partial :
    (buf : Bytes) (j : ℕ)
    → length (drop j buf) < 5
    → j < find_next_begin_string buf
    → starts_with begin_string_prefix (drop j buf) ≡ false
find_next_first_partial buf j short lt = elim (find_next-cases buf) [
  | inl (skip, found, e) ↦ absurd (
      omega (
        arith,
        window_position-length begin_string_prefix (drop 1 buf) skip found,
        length-drop 1 buf,
        length-drop j buf,
      ))
  | inr (no_window, e) ↦
      partial_prefix_first (max_partial buf) buf j (omega arith) (omega (arith, length-drop j buf))
        (omega arith)
]

-- Resynchronising on a garbled buffer never skips a message start: at no position past the first
-- and before the end of the skip do the bytes begin with `8=FIX`, whatever bytes arrive behind the
-- buffer.
pub find_next_first :
    (buf more : Bytes) (j : ℕ)
    → 0 < j
    → j < find_next_begin_string buf
    → starts_with (drop j (buf ++ more)) begin_string_prefix ≡ false
find_next_first buf more j pos lt =
    rw (drop-append_le j buf more (omega (arith, find_next-le buf)))
      (elim (dec_lt (length (drop j buf)) 5) [
        | no long ↦
            rw (starts_with-append_le (drop j buf) more begin_string_prefix (omega arith))
              (find_next_first_within buf j pos lt)
        | yes short ↦ elim (Bool-cases (starts_with (drop j buf ++ more) begin_string_prefix)) [
          | inr miss ↦ miss
          | inl hit ↦ cc (
            find_next_first_partial buf j short lt,
            starts_with-append_lt (drop j buf) more begin_string_prefix (omega arith) hit,
          )
        ]
      ])

partial_prefix-ge : (k : ℕ) (buf : Bytes) → length buf - k ≤ partial_prefix k buf
unfolding partial_prefix
partial_prefix-ge zero buf = omega arith
partial_prefix-ge (suc k) buf = ground (arith, partial_prefix-ge k buf)

-- A buffer that holds a whole prefix is not resynchronised to its own start.
pub find_next-pos_long : (buf : Bytes) → 5 ≤ length buf → 0 < find_next_begin_string buf
find_next-pos_long buf long = elim (find_next-cases buf) [
  | inl (skip, found, e) ↦ omega arith
  | inr (no_window, e) ↦ omega (arith, partial_prefix-ge (max_partial buf) buf)
]
