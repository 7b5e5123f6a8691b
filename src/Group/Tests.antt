-- ===== src/Group/Tests.antt =====
-- message.rs and group.rs on a concrete message: a group of two parties.
use refix.Base.{ℕ, ◌+◌, ◌≡◌, refl, ◌↔◌, true, some, [], ◌∷◌, arith, Bytes, position, all}
use refix.Base.Digits.{fold_digits}
use refix.Base.Result.{ok}
use refix.Tags.{Tag, is_sorted_set, contains, search}
use refix.Tokenizer.{RawField, RawMessage}
use refix.Message.{Scope, scope, narrow, find}
use refix.Message.Find.{IsScope, IsFirst, find-IsFirst}
use refix.Group.{
  GroupTable, table, no_tables, and_table, count_tag, is_member, counted_by, nested_counted_by,
  stray_nested, new_group_table, KnownTags, parse_digits, parse_count, take_member, kind_of,
  kind_at, walk_loop, finish_walk, walk, group, get_group,
}
use refix.Group.Groups.{IsGroupResult, get_group-IsGroupResult}
use refix.Group.Tables.{new_group_table-nested}

-- NumberOfPartyIds 2, then PartyId and PartyRole of each, then CheckSum.
abbrev party_bytes : Bytes
party_bytes = b'2' ∷ b'A' ∷ b'1' ∷ b'B' ∷ b'3' ∷ b'0' ∷ []

abbrev party_field : Tag → ℕ → RawField
party_field tag at = record { tag = tag; value_start = at; value_end = at + 1 }

abbrev party_message : RawMessage
party_message = record {
  bytes = party_bytes;
  fields =
      party_field 453 0
      ∷ party_field 448 1
      ∷ party_field 452 2
      ∷ party_field 448 3
      ∷ party_field 452 4
      ∷ party_field 10 5
      ∷ [];
}

abbrev party_scope : Scope
party_scope = scope party_message

abbrev parties : GroupTable
parties =
    table 453 448 (448 ∷ 452 ∷ 802 ∷ []) (and_table (table 802 523 (523 ∷ []) no_tables) no_tables)

abbrev party_tags : KnownTags
party_tags = record { tags = 10 ∷ 448 ∷ 452 ∷ 453 ∷ [] }

party_scope-IsScope : IsScope party_scope
party_scope-IsScope = record { ordered = omega arith; inside = omega arith; small = omega arith }

two_parties :
    get_group party_scope parties party_tags
    ≡ group (narrow party_scope 1 3 ∷ narrow party_scope 3 5 ∷ [])
unfolding get_group find position walk walk_loop finish_walk take_member kind_at kind_of parse_count
    parse_digits all fold_digits search contains nested_counted_by counted_by
two_parties = refl

find-IsFirst_example :
    (find party_scope 452 2 ≡ some (2, b'1' ∷ [])) ↔ IsFirst party_scope 452 2 2 (b'1' ∷ [])
find-IsFirst_example =
    find-IsFirst party_scope 452 2 2 (b'1' ∷ []) party_scope-IsScope (omega arith)

get_group-IsGroupResult_example :
    IsGroupResult party_scope parties party_tags (get_group party_scope parties party_tags)
get_group-IsGroupResult_example =
    get_group-IsGroupResult party_scope parties party_tags party_scope-IsScope

parties_built :
    new_group_table 453 448
      (448 ∷ 452 ∷ 802 ∷ [])
      (and_table (table 802 523 (523 ∷ []) no_tables) no_tables)
    ≡ ok parties
unfolding new_group_table is_sorted_set contains stray_nested
parties_built = refl

new_group_table-nested_example :
    (is_member parties 448 ≡ true)
    × ((tag : Tag) (n : GroupTable)
        → nested_counted_by parties tag ≡ some n
        → (count_tag n ≡ tag) × (is_member parties tag ≡ true))
new_group_table-nested_example =
    new_group_table-nested 453 448 (448 ∷ 452 ∷ 802 ∷ [])
      (and_table (table 802 523 (523 ∷ []) no_tables) no_tables) parties parties_built
