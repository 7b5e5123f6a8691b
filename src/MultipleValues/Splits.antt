-- ===== src/MultipleValues/Splits.antt =====
-- multiple_values.rs: the values of a field are its words, and none of them is empty.
use refix.Base.{
  ℕ, ◌≡◌, refl, sym, subst, inl, inr, true, false, Option, none, some, List, [], ◌∷◌, ◌++◌, arith,
  ◌==◌, ==_iff, Bool-cases, Bytes,
}
use refix.Base.Result.{Result, ok, err, ◌>>=◌}
use refix.Tags.{Tag}
use refix.Message.{Scope}
use refix.Message.Values.{get_str}
use refix.MultipleValues.{
  into_first, split_spaces, has_empty, multiple_of, get_multiple_values, values_of,
}

-- A text with no space.
pub data IsWord : Bytes → Type 0 where
  no_byte : IsWord []
  byte : {b : ℕ} {v : Bytes} → (b == b' ') ≡ false → IsWord v → IsWord (b ∷ v)

-- The words are those of the text, with one space between each two.
pub data AreWords : List Bytes → Bytes → Type 0 where
  last : {v : Bytes} → IsWord v → AreWords (v ∷ []) v
  before :
      {v : Bytes} {words : List Bytes} {raw : Bytes}
      → IsWord v
      → AreWords words raw
      → AreWords (v ∷ words) (v ++ b' ' ∷ raw)

pub data AreFilled : List Bytes → Type 0 where
  filled_none : AreFilled []
  filled : {b : ℕ} {v : Bytes} {words : List Bytes} → AreFilled words → AreFilled ((b ∷ v) ∷ words)

pub data HasGap : List Bytes → Type 0 where
  gap_here : {words : List Bytes} → HasGap ([] ∷ words)
  gap_past : {v : Bytes} {words : List Bytes} → HasGap words → HasGap (v ∷ words)

into_first-AreWords :
    (b : ℕ) (words : List Bytes) (raw : Bytes)
    → (b == b' ') ≡ false
    → AreWords words raw
    → AreWords (into_first b words) (b ∷ raw)
into_first-AreWords b [] raw h words_of = elim words_of [ ]
into_first-AreWords b (v ∷ []) raw h (last w) = last (byte h w)
into_first-AreWords b (v ∷ words) raw h (before w rest) = before (byte h w) rest

split_spaces-AreWords : (raw : Bytes) → AreWords (split_spaces raw) raw
unfolding split_spaces
split_spaces-AreWords [] = last no_byte
split_spaces-AreWords (b ∷ raw) = elim (Bool-cases (b == b' ')) [
  | inr other ↦
      rw other (into_first-AreWords b (split_spaces raw) raw other (split_spaces-AreWords raw))
  | inl space ↦ rw space (
      subst (λ x. AreWords ([] ∷ split_spaces raw) (x ∷ raw)) (sym ((==_iff b 32).0 space))
        (before no_byte (split_spaces-AreWords raw)))
]

has_empty-AreFilled : (words : List Bytes) → has_empty words ≡ false → AreFilled words
unfolding has_empty
has_empty-AreFilled [] h = filled_none
has_empty-AreFilled ([] ∷ words) h = cc
has_empty-AreFilled ((b ∷ v) ∷ words) h = filled (has_empty-AreFilled words (ground arith))

has_empty-HasGap : (words : List Bytes) → has_empty words ≡ true → HasGap words
unfolding has_empty
has_empty-HasGap [] h = cc
has_empty-HasGap ([] ∷ words) h = gap_here
has_empty-HasGap ((b ∷ v) ∷ words) h = gap_past (has_empty-HasGap words (ground arith))

-- What the getter of a multiple-value field finds: nothing, the text, a field that is not text, or
-- a text of which a word is empty.
pub data IsMultiple (s : Scope) (tag : Tag) : Result Tag (Option Bytes) → Type 0 where
  absent : get_str s tag ≡ ok none → IsMultiple s tag (ok none)
  present :
      {raw : Bytes} (words : List Bytes)
      → get_str s tag ≡ ok (some raw)
      → AreWords words raw
      → AreFilled words
      → values_of raw ≡ words
      → IsMultiple s tag (ok (some raw))
  no_text : {t : Tag} → get_str s tag ≡ err t → IsMultiple s tag (err t)
  gap :
      {raw : Bytes} (words : List Bytes)
      → get_str s tag ≡ ok (some raw)
      → AreWords words raw
      → HasGap words
      → IsMultiple s tag (err tag)

multiple_of-IsMultiple :
    (s : Scope) (tag : Tag) (r : Result Tag (Option Bytes))
    → get_str s tag ≡ r
    → IsMultiple s tag (r >>= multiple_of tag)
multiple_of-IsMultiple s tag (err t) e = no_text e
multiple_of-IsMultiple s tag (ok none) e = absent e
multiple_of-IsMultiple s tag (ok (some raw)) e = elim (Bool-cases (has_empty (split_spaces raw))) [
  | inl empty ↦ rw empty (
      gap (split_spaces raw) e (split_spaces-AreWords raw)
        (has_empty-HasGap (split_spaces raw) empty))
  | inr full ↦ rw full (
      present (split_spaces raw) e (split_spaces-AreWords raw)
        (has_empty-AreFilled (split_spaces raw) full) refl)
]

-- For any scope and tag, get_multiple_values gives nothing where get_str gives nothing, and the
-- error of get_str where that fails; else the values are the words of the text, which are free of
-- spaces and which one space between each two makes the text again: the text is given where every
-- word has a byte, and the tag as an error where a word is empty.
pub get_multiple_values-IsMultiple :
    (s : Scope) (tag : Tag) → IsMultiple s tag (get_multiple_values s tag)
unfolding get_multiple_values
get_multiple_values-IsMultiple s tag = multiple_of-IsMultiple s tag (get_str s tag) refl
