-- ===== src/Log/Start/Found.antt =====
-- log/start.rs, `find_start`: the bytes and the separator at the start that it finds.
use mathlib.Core.Option.{some-injective}
use refix.Base.Appends.{get_elem?-drop}
use refix.Log.Start.{
  max_tag_digits, Separator, byte, caret_a, Start, NextStart, found, Check, start, not_start,
  is_value_byte, tag_ends, check_tag, caret_separator, detect, separator_len, check_behind,
  check_separator, check, passed_over, start_at, find_start_from, find_start,
}
use refix.Framing.{soh, max_begin_string_len, begin_string_prefix}
use refix.Base.{
  ℕ, zero, suc, ◌+◌, ◌-◌, ◌<◌, min, ◌≡◌, refl, sym, ap, ◌∙◌, subst, ◌≢◌, inl, inr, Bool, true,
  false, ◌&&◌, ◌||◌, Option, none, some, [], ◌∷◌, arith, ltb, ◌==◌, Bool-cases, length, get_elem?,
  take, drop, Bytes, byte_at, equal, count_while, is_digit,
}

-- The byte that separates the fields of the message, where `^A` stands for SOH.
abbrev pub separator_byte : Separator → ℕ
separator_byte (byte b) = b
separator_byte caret_a = soh

-- It is no byte of a BeginString's value, such as `8`.
abbrev pub SplitsValue : Separator → Type 0
SplitsValue separator = b'8' ≢ separator_byte separator

-- The bytes open with `8`, and the separator is another byte.
pub record IsStart (bytes : Bytes) (separator : Separator) : Type 0 where
  pub rest : Bytes
  pub opens : bytes ≡ b'8' ∷ rest
  pub splits : SplitsValue separator

start-injective : {a b : Separator} → start a ≡ start b → a ≡ b
start-injective e = cc

not_start-start : {s : Separator} → not_start ≢ start s
not_start-start e = cc

pending-start : {s : Separator} → Check.pending ≢ start s
pending-start e = cc

found-injective : {a b : Start} → found a ≡ found b → a ≡ b
found-injective e = cc

opened :
    (bytes : Bytes) (at : ℕ)
    → byte_at bytes at ≡ b'8'
    → (rest : Bytes) × (drop at bytes ≡ b'8' ∷ rest)
opened [] at h = absurd (omega (arith, h))
opened (b ∷ bytes) zero h = (bytes, ap (λ x. x ∷ bytes) h)
opened (b ∷ bytes) (suc at) h = opened bytes at h

-- The byte behind those of a value is none of them.
value_end-splits :
    (limit : ℕ) (bytes : Bytes) (b : ℕ)
    → get_elem? bytes (count_while is_value_byte (take limit bytes)) ≡ some b
    → count_while is_value_byte (take limit bytes) < limit
    → is_value_byte b ≡ false
unfolding count_while
value_end-splits zero bytes b h lt = absurd (omega (arith, lt))
value_end-splits (suc limit) [] b h lt = cc
value_end-splits (suc limit) (x ∷ bytes) b h lt = elim (Bool-cases (is_value_byte x)) [
  | inr no_value ↦
      let here : x ≡ b = some-injective x b (rw no_value at h) in
      ap is_value_byte (sym here) ∙ no_value
  | inl value ↦ value_end-splits limit bytes b (rw value at h) (
      let lt' : suc (count_while is_value_byte (take limit bytes)) < suc limit = rw value at lt in
      omega (arith, lt'))
]

no_value-splits : (b : ℕ) → is_value_byte b ≡ false → SplitsValue (byte b)
no_value-splits b h e = let h' : is_value_byte b'8' ≡ false = ap is_value_byte e ∙ h in cc

caret-splits :
    (next : Option ℕ) (separator : Separator)
    → caret_separator next ≡ start separator
    → SplitsValue separator
caret-splits none separator h = cc
caret-splits (some b) separator h = elim (Bool-cases (b == b'A')) [
  | inl is_a ↦ subst SplitsValue (start-injective (rw is_a at h)) (λ e. absurd (omega (arith, e)))
  | inr not_a ↦ subst SplitsValue (start-injective (rw not_a at h)) (λ e. absurd (omega (arith, e)))
]

detect-splits :
    (override : Option ℕ) (b : ℕ) (next : Option ℕ) (separator : Separator)
    → is_value_byte b ≡ false
    → detect override b next ≡ start separator
    → SplitsValue separator
unfolding detect
detect-splits (some wanted) b next separator v h = elim (Bool-cases (b == wanted)) [
  | inr differs ↦ absurd (not_start-start (rw differs at h))
  | inl same ↦
      let e : b ≡ wanted = ground (arith, same) in
      let taken : start (byte wanted) ≡ start separator = rw same at h in
      subst SplitsValue (ap byte e ∙ start-injective taken) (no_value-splits b v)
]
detect-splits none b next separator v h = elim (Bool-cases ((b == 10) || (b == 13))) [
  | inl line_end ↦ absurd (not_start-start (rw line_end at h))
  | inr inside ↦ elim (Bool-cases (b == b'^')) [
    | inl caret ↦ caret-splits next separator (rw (inside, caret) at h)
    | inr plain ↦
        subst SplitsValue (start-injective (rw (inside, plain) at h)) (no_value-splits b v)
  ]
]

check_tag-same :
    (separator found_separator : Separator) (tag : Bytes)
    → check_tag separator tag ≡ start found_separator
    → separator ≡ found_separator
unfolding check_tag
check_tag-same separator found_separator tag h =
    let digits = count_while is_digit (take (max_tag_digits + 1) tag) in
    elim (Bool-cases (ltb max_tag_digits digits)) [
      | inl long ↦ absurd (not_start-start (rw long at h))
      | inr short ↦ tag_ends-same (get_elem? tag digits) digits (rw short at h)
    ]
  where
    tag_ends-same :
        (o : Option ℕ) (digits : ℕ)
        → tag_ends separator digits o ≡ start found_separator
        → separator ≡ found_separator
    tag_ends-same none digits e = cc
    tag_ends-same (some b) digits e = elim (Bool-cases ((b == b'=') && ltb 0 digits)) [
      | inl is_tag ↦ start-injective (rw is_tag at e)
      | inr no_tag ↦ absurd (not_start-start (rw no_tag at e))
    ]

check_behind-same :
    (bytes : Bytes) (value_end : ℕ) (c : Check) (separator : Separator)
    → check_behind bytes value_end c ≡ start separator
    → c ≡ start separator
check_behind-same bytes value_end (start s) separator h =
    ap start (check_tag-same s separator (drop (value_end + separator_len s) bytes) h)
check_behind-same bytes value_end not_start separator h = cc
check_behind-same bytes value_end Check.pending separator h = cc

check_separator-splits :
    (bytes : Bytes) (override : Option ℕ) (value_end : ℕ) (o : Option ℕ) (separator : Separator)
    → ((b : ℕ) → o ≡ some b → is_value_byte b ≡ false)
    → check_separator bytes override value_end o ≡ start separator
    → SplitsValue separator
check_separator-splits bytes override value_end none separator v h = cc
check_separator-splits bytes override value_end (some b) separator v h =
    let next = get_elem? bytes (value_end + 1) in
    detect-splits override b next separator (v b refl)
      (check_behind-same bytes value_end (detect override b next) separator h)

check-splits :
    (bytes : Bytes) (override : Option ℕ) (separator : Separator)
    → check bytes override ≡ start separator
    → SplitsValue separator
unfolding check
check-splits bytes override separator h =
    let shared = min (length bytes) (length begin_string_prefix) in
    let count = count_while is_value_byte (take max_begin_string_len (drop 5 bytes)) in
    elim (Bool-cases (equal (take shared bytes) (take shared begin_string_prefix))) [
      | inr differs ↦ absurd (not_start-start (rw differs at h))
      | inl same ↦ elim (Bool-cases (ltb shared (length begin_string_prefix))) [
        | inl short ↦ absurd (pending-start (rw (same, short) at h))
        | inr whole ↦ elim (Bool-cases (ltb max_begin_string_len (5 + count))) [
          | inl long ↦ absurd (not_start-start (rw (same, whole, long) at h))
          | inr fits ↦
              check_separator-splits bytes override (5 + count) (get_elem? bytes (5 + count))
                separator
                (λ b there.
                  value_end-splits max_begin_string_len (drop 5 bytes) b
                    (get_elem?-drop bytes 5 count ∙ there) (ground (arith, fits)))
                (rw (same, whole, fits) at h)
        ]
      ]
    ]

start_at-IsStart :
    (bytes : Bytes) (at : ℕ) (at_end : Bool) (override : Option ℕ) (c : Check) (rest : NextStart)
    (s : Start)
    → check (drop at bytes) override ≡ c
    → byte_at bytes at ≡ b'8'
    → (rest ≡ found s → IsStart (drop s.at bytes) s.separator)
    → start_at bytes at at_end c rest ≡ found s
    → IsStart (drop s.at bytes) s.separator
unfolding start_at
start_at-IsStart bytes at at_end override (start separator) rest s e here later h =
    let (opens, o) = opened bytes at here in
    let same : record { at = at; separator = separator } ≡ s = found-injective h in
    subst (λ (x : Start). IsStart (drop x.at bytes) x.separator) same
      (record {
        rest = opens;
        opens = o;
        splits = check-splits (drop at bytes) override separator e;
      })
start_at-IsStart bytes at at_end override not_start rest s e here later h = later h
start_at-IsStart bytes at true override Check.pending rest s e here later h = later h
start_at-IsStart bytes at false override Check.pending rest s e here later h = cc

find_start_from-IsStart :
    (bytes : Bytes) (count at : ℕ) (override : Option ℕ) (at_end : Bool) (s : Start)
    → find_start_from bytes count at override at_end ≡ found s
    → IsStart (drop s.at bytes) s.separator
unfolding find_start_from
find_start_from-IsStart bytes zero at override at_end s h = cc
find_start_from-IsStart bytes (suc count) at override at_end s h =
    let further = find_start_from-IsStart bytes count (at + 1) override at_end s in
    elim (Bool-cases (passed_over bytes at)) [
      | inl passed ↦ further (rw passed at h)
      | inr looked ↦
          start_at-IsStart bytes at at_end override (check (drop at bytes) override) _ s refl
            (ground (arith, looked)) further (rw looked at h)
    ]

pub find_start-IsStart :
    (bytes : Bytes) (from to : ℕ) (override : Option ℕ) (at_end : Bool) (s : Start)
    → find_start bytes from to override at_end ≡ found s
    → IsStart (drop s.at bytes) s.separator
unfolding find_start
find_start-IsStart bytes from to override at_end s h =
    find_start_from-IsStart bytes (to - from) from override at_end s h
