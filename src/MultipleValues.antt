-- ===== src/MultipleValues.antt =====
-- crates/refix-message/src/multiple_values.rs: fields of several values, separated by spaces.
pub mod Splits
pub mod Tests
use refix.Base.{
  ℕ, Bool, false, ◌||◌, Option, none, some, List, [], ◌∷◌, leb, ◌==◌, if◌then◌else◌, length, Bytes,
}
use refix.Base.Result.{Result, ok, err, ◌>>=◌, ◌>>◌}
use refix.Tags.{Tag}
use refix.Message.{Scope}
use refix.Message.Values.{get_str}

abbrev pub into_first : ℕ → List Bytes → List Bytes
into_first b [] = (b ∷ []) ∷ []
into_first b (v ∷ values) = (b ∷ v) ∷ values

-- `raw.split(' ')`
unfoldable pub split_spaces : Bytes → List Bytes
split_spaces [] = [] ∷ []
split_spaces (b ∷ raw) =
    let rest = split_spaces raw in if b == b' ' then [] ∷ rest else into_first b rest

-- `any(str::is_empty)`
unfoldable pub has_empty : List Bytes → Bool
has_empty [] = false
has_empty (v ∷ values) = leb (length v) 0 || has_empty values

-- The values of a multiple-value field, or nothing when it is absent. A value of `MultipleValues` is
-- the text, which its iterator splits again.
abbrev pub multiple_of : Tag → Option Bytes → Result Tag (Option Bytes)
multiple_of tag none = ok none
multiple_of tag (some raw) = if has_empty (split_spaces raw) then err tag else ok (some raw)

-- `Scope::get_multiple_values`
unfoldable pub get_multiple_values : Scope → Tag → Result Tag (Option Bytes)
unfolding get_str split_spaces has_empty
get_multiple_values s tag = do raw ← get_str s tag; multiple_of tag raw

-- `MultipleValues::iter`
abbrev pub values_of : Bytes → List Bytes
values_of raw = split_spaces raw
