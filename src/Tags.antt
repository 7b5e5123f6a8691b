-- ===== src/Tags.antt =====
-- crates/refix-message/src/tag.rs, and the sorted tag sets that the crate searches: `is_sorted_set`
-- and `contains` of group.rs, and `sort`, `dedup` and `binary_search` of the standard library.
pub mod Search
pub mod Sets
pub mod Counts
use refix.Base.{
  ℕ, zero, suc, ◌/◌, Bool, true, false, not, ◌&&◌, ◌||◌, none, some, List, [], ◌∷◌, ltb, leb, ◌==◌,
  if◌then◌else◌, length, get_elem?, take, drop,
}

-- `Tag(u32)`
abbrev pub Tag : Type 0
Tag = ℕ

-- `Tag::MALFORMED`
abbrev pub malformed : Tag
malformed = 0

-- Whether `tags` is strictly increasing.
unfoldable pub is_sorted_set : List Tag → Bool
is_sorted_set [] = true
is_sorted_set (x ∷ []) = true
is_sorted_set (x ∷ y ∷ tags) = not (leb y x) && is_sorted_set (y ∷ tags)

-- Whether `tags` contains `tag`.
unfoldable pub contains : List Tag → Tag → Bool
contains [] tag = false
contains (x ∷ tags) tag = x == tag || contains tags tag

-- `tags.binary_search(&tag).is_ok()`: look at the middle, and go on in the half that remains.
unfoldable pub search : ℕ → List Tag → Tag → Bool
search zero tags tag = false
search (suc fuel) tags tag =
    let middle = length tags / 2 in
    let below = search fuel (take middle tags) tag in
    let above = search fuel (drop (suc middle) tags) tag in
    elim (get_elem? tags middle) [
      | none ↦ false
      | some x ↦ if ltb x tag then above else if ltb tag x then below else true
    ]

-- The rounds halve the slice, so as many rounds as tags are more than enough.
abbrev pub binary_search : List Tag → Tag → Bool
binary_search tags tag = search (length tags) tags tag

-- `sort_unstable`; equal tags cannot be told apart, so every sort gives this list.
unfoldable pub insert_tag : Tag → List Tag → List Tag
insert_tag x [] = x ∷ []
insert_tag x (y ∷ tags) = if leb x y then x ∷ y ∷ tags else y ∷ insert_tag x tags

unfoldable pub sort_tags : List Tag → List Tag
unfolding insert_tag
sort_tags [] = []
sort_tags (x ∷ tags) = insert_tag x (sort_tags tags)

-- `dedup`: of equal neighbours the first stays.
unfoldable pub dedup : List Tag → List Tag
dedup [] = []
dedup (x ∷ []) = x ∷ []
dedup (x ∷ y ∷ tags) = let rest = dedup (y ∷ tags) in if x == y then rest else x ∷ rest
