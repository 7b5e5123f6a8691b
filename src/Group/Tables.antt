-- ===== src/Group/Tables.antt =====
-- group.rs, `OwnedGroupTable::new`: what a table that was built guarantees the walk.
use mathlib.Core.Option.{some-injective}
use refix.Base.{
  ◌≡◌, sym, ap, ◌∙◌, inl, inr, true, none, some, List, arith, ◌==◌, Bool-cases, Option-cases,
}
use refix.Base.Result.{ok}
use refix.Tags.{Tag, is_sorted_set, contains}
use refix.Group.{
  GroupTable, table, GroupTables, no_tables, and_table, count_tag, is_member, counted_by,
  nested_counted_by, stray_nested, new_group_table,
}
use refix.Tags.Search.{binary_search-contains}

stray_nested-counted :
    (members : List Tag) (nested : GroupTables) (tag : Tag) (n : GroupTable)
    → stray_nested members nested ≡ none
    → counted_by tag nested ≡ some n
    → (count_tag n ≡ tag) × (contains members tag ≡ true)
unfolding stray_nested counted_by
stray_nested-counted members no_tables tag n h e = cc
stray_nested-counted members (and_table x rest) tag n h e = elim (Bool-cases (count_tag x == tag)) [
  | inl here ↦
      let is_tag : count_tag x ≡ tag = ground arith in
      let inside : contains members (count_tag x) ≡ true = ground arith in
      let same : x ≡ n = some-injective x n (rw here at e) in
      (ap count_tag (sym same) ∙ is_tag, rw (← is_tag) inside)
  | inr later ↦ stray_nested-counted members rest tag n (ground arith) (rw later at e)
]

pub new_group_table-parts :
    (c d : Tag) (members : List Tag) (nested : GroupTables) (t : GroupTable)
    → new_group_table c d members nested ≡ ok t
    → (is_sorted_set members ≡ true)
      × (contains members d ≡ true)
      × (stray_nested members nested ≡ none)
      × (t ≡ table c d members nested)
unfolding new_group_table
new_group_table-parts c d members nested t h = elim (Bool-cases (is_sorted_set members)) [
  | inr unsorted ↦ absurd (ground arith)
  | inl sorted ↦ elim (Bool-cases (contains members d)) [
    | inr missing ↦ absurd (ground arith)
    | inl inside ↦ elim (Option-cases (stray_nested members nested)) [
      | inr (x, stray) ↦ absurd (ground arith)
      | inl none_stray ↦ (sorted, inside, none_stray, ground arith)
    ]
  ]
]

-- In a table that OwnedGroupTable::new accepts, the delimiter is a member by the binary search
-- that the walk uses, and any nested table that is found for a tag is counted by it, and the tag
-- is a member.
pub new_group_table-nested :
    (c d : Tag) (members : List Tag) (nested : GroupTables) (t : GroupTable)
    → new_group_table c d members nested ≡ ok t
    → (is_member t d ≡ true)
      × ((tag : Tag) (n : GroupTable)
          → nested_counted_by t tag ≡ some n
          → (count_tag n ≡ tag) × (is_member t tag ≡ true))
unfolding nested_counted_by
new_group_table-nested c d members nested t h =
    let (sorted, inside, none_stray, e) = new_group_table-parts c d members nested t h in
    let is_in : (tag : Tag) → contains members tag ≡ true → is_member t tag ≡ true =
      λ tag k. rw e (binary_search-contains members tag sorted ∙ k) in
    (
      is_in d inside,
      λ tag n found.
          let (counted, k) = stray_nested-counted members nested tag n none_stray (rw e at found) in
          (counted, is_in tag k),
    )
