-- ===== src/Codegen/Tables/Built.antt =====
-- rust/groups.rs and groups.rs of crates/refix-codegen: the tables and tag lists that are generated
-- from resolved members.
use refix.Base.{ℕ, ◌≤◌, ◌≡◌, refl, ap, ◌∙◌, Bool, true, Option, none, List, ◌∷◌, arith, ==_refl}
use refix.Base.Result.{ok}
use refix.Tags.{Tag, is_sorted_set, contains, sort_tags}
use refix.Tags.Sets.{contains-sort_tags}
use refix.Tags.Counts.{count, IsDistinct, count-append, sort_tags-is_sorted_set}
use refix.Group.{
  GroupTable, table, GroupTables, no_tables, and_table, stray_nested, new_group_table,
}
use refix.Dictionary.Spec.{Name, Field, MemberContext}
use refix.Dictionary.Tags.{
  ResolvedMember, resolved_field, resolved_group, ResolvedMembers, no_resolved, and_resolved,
  first_field, tag_of,
}
use refix.Dictionary.Tags.Unique.{all_tags}
use refix.Dictionary.Resolver.Valid.{Starts, IsValid}
use refix.Codegen.Groups.{direct_tags, collect_tags, known_tags}
use refix.Codegen.Tables.{build_table, nested_tables}

pub collect_tags-all_tags :
    (fields : List Field) (members : ResolvedMembers)
    → collect_tags fields members ≡ all_tags fields members
unfolding collect_tags all_tags
collect_tags-all_tags fields no_resolved = refl
collect_tags-all_tags fields (and_resolved (resolved_field index required) members) =
    ap (◌∷◌ (tag_of fields index)) (collect_tags-all_tags fields members)
collect_tags-all_tags fields
      (and_resolved (resolved_group count d required declared c inner) members) =
    rw (collect_tags-all_tags fields inner, collect_tags-all_tags fields members) refl

-- The tags of the members themselves are some of those at any depth.
count-direct_tags :
    (fields : List Field) (members : ResolvedMembers) (tag : Tag)
    → count tag (direct_tags fields members) ≤ count tag (all_tags fields members)
unfolding count direct_tags all_tags
count-direct_tags fields no_resolved tag = omega arith
count-direct_tags fields (and_resolved (resolved_field index required) members) tag =
    ground (arith, count-direct_tags fields members tag)
count-direct_tags fields (and_resolved (resolved_group c d required declared k inner) members) tag =
    ground (
      arith,
      count-direct_tags fields members tag,
      count-append tag (all_tags fields inner) (all_tags fields members),
    )

direct_tags-Starts :
    (fields : List Field) (d : ℕ) (members : ResolvedMembers)
    → Starts d members
    → contains (direct_tags fields members) (tag_of fields d) ≡ true
unfolding contains direct_tags
direct_tags-Starts fields d no_resolved h = absurd h
direct_tags-Starts fields d (and_resolved m members) h = rw h (rw (==_refl (tag_of fields d)) refl)

-- The tags of every group's instances, at any depth, make a sorted set.
abbrev pub HasKnownTags : List Field → ResolvedMembers → Type 0
HasKnownTags fields no_resolved = Unit {0}
HasKnownTags fields (and_resolved (resolved_field index required) members) =
    HasKnownTags fields members
HasKnownTags fields (and_resolved (resolved_group count d required declared c inner) members) =
    (is_sorted_set (known_tags fields inner) ≡ true)
    × HasKnownTags fields inner
    × HasKnownTags fields members

known_tags-is_sorted_set :
    (fields : List Field) (members : ResolvedMembers)
    → IsDistinct (all_tags fields members)
    → is_sorted_set (known_tags fields members) ≡ true
unfolding known_tags
known_tags-is_sorted_set fields members d =
    sort_tags-is_sorted_set (collect_tags fields members)
      (rw (collect_tags-all_tags fields members) d)

-- What holds of members whose tags are all different: their groups' tables are built.
pub record AreBuilt (fields : List Field) (members : ResolvedMembers) : Type 0 where
  pub tables : GroupTables
  pub built : nested_tables fields members ≡ ok tables
  pub counted :
      (tags : List Tag)
      → ((tag : Tag) → contains (direct_tags fields members) tag ≡ true → contains tags tag ≡ true)
      → stray_nested tags tables ≡ none
  pub known : HasKnownTags fields members

IsDistinct-field :
    (fields : List Field) (index : ℕ) (required : Bool) (members : ResolvedMembers)
    → IsDistinct (all_tags fields (and_resolved (resolved_field index required) members))
    → IsDistinct (all_tags fields members)
unfolding count all_tags
IsDistinct-field fields index required members u tag = ground (arith, u tag)

IsDistinct-group :
    (fields : List Field) (c d : ℕ) (required : Bool) (declared : MemberContext) (k : Option Name)
    (inner members : ResolvedMembers)
    → IsDistinct
        (all_tags fields (and_resolved (resolved_group c d required declared k inner) members))
    → IsDistinct (all_tags fields inner) × IsDistinct (all_tags fields members)
unfolding count all_tags
IsDistinct-group fields c d required declared k inner members u = (
  λ tag. ground (arith, u tag, count-append tag (all_tags fields inner) (all_tags fields members)),
  λ tag. ground (arith, u tag, count-append tag (all_tags fields inner) (all_tags fields members)),
)

contains-direct_tags :
    (fields : List Field) (m : ResolvedMember) (members : ResolvedMembers) (tag : Tag)
    → contains (direct_tags fields members) tag ≡ true
    → contains (direct_tags fields (and_resolved m members)) tag ≡ true
unfolding contains direct_tags
contains-direct_tags fields m members tag h = ground (arith, h)

contains-direct_tags_first :
    (fields : List Field) (m : ResolvedMember) (members : ResolvedMembers)
    → contains (direct_tags fields (and_resolved m members)) (tag_of fields (first_field m)) ≡ true
unfolding contains direct_tags
contains-direct_tags_first fields m members = rw (==_refl (tag_of fields (first_field m))) refl

-- A table whose parts pass the checks.
build_table_ok :
    (fields : List Field) (c d : ℕ) (inner : ResolvedMembers) (nested : GroupTables)
    → IsDistinct (all_tags fields inner)
    → Starts d inner
    → ((tags : List Tag)
        → ((tag : Tag) → contains (direct_tags fields inner) tag ≡ true → contains tags tag ≡ true)
        → stray_nested tags nested ≡ none)
    → build_table fields c d inner nested
      ≡ ok (table (tag_of fields c) (tag_of fields d) (sort_tags (direct_tags fields inner)) nested)
unfolding new_group_table
build_table_ok fields c d inner nested u starts counted =
    let tags = direct_tags fields inner in
    let sorted : is_sorted_set (sort_tags tags) ≡ true =
      sort_tags-is_sorted_set tags
        (λ tag. omega (arith, count-direct_tags fields inner tag, u tag)) in
    let delimited : contains (sort_tags tags) (tag_of fields d) ≡ true =
      contains-sort_tags tags (tag_of fields d) ∙ direct_tags-Starts fields d inner starts in
    rw (sorted, delimited, counted (sort_tags tags) (λ tag h. contains-sort_tags tags tag ∙ h)) refl

stray_nested-cons :
    (tags members : List Tag) (c d : Tag) (nested rest : GroupTables)
    → contains tags c ≡ true
    → stray_nested tags rest ≡ none
    → stray_nested tags (and_table (table c d members nested) rest) ≡ none
unfolding stray_nested
stray_nested-cons tags members c d nested rest h e = rw h e

nested_tables-cons :
    (fields : List Field) (c d : ℕ) (required : Bool) (declared : MemberContext) (k : Option Name)
    (inner members : ResolvedMembers) (nested rest : GroupTables) (t : GroupTable)
    → nested_tables fields inner ≡ ok nested
    → build_table fields c d inner nested ≡ ok t
    → nested_tables fields members ≡ ok rest
    → nested_tables fields (and_resolved (resolved_group c d required declared k inner) members)
      ≡ ok (and_table t rest)
nested_tables-cons fields c d required declared k inner members nested rest t e f g =
    unfold nested_tables in rw e (rw f (rw g refl))

nested_tables_field :
    (fields : List Field) (index : ℕ) (required : Bool) (members : ResolvedMembers)
    → nested_tables fields (and_resolved (resolved_field index required) members)
      ≡ nested_tables fields members
unfolding nested_tables
nested_tables_field fields index required members = refl

pub nested_tables-AreBuilt :
    (fields : List Field) (n : ℕ) (members : ResolvedMembers)
    → IsValid n members
    → IsDistinct (all_tags fields members)
    → AreBuilt fields members
nested_tables-AreBuilt fields n no_resolved v u = record {
  tables = no_tables;
  built = unfold nested_tables in refl;
  counted = λ tags h. unfold stray_nested in refl;
  known = tt;
}
nested_tables-AreBuilt fields n (and_resolved (resolved_field index required) members) v u =
    let rest =
      nested_tables-AreBuilt fields n members v.1
        (IsDistinct-field fields index required members u) in
    record {
      tables = rest.tables;
      built = nested_tables_field fields index required members ∙ rest.built;
      counted = λ tags h. rest.counted tags (λ tag l.
          h tag (contains-direct_tags fields (resolved_field index required) members tag l));
      known = rest.known;
    }
nested_tables-AreBuilt fields n
      (and_resolved (resolved_group c d required declared k inner) members) v u =
    let parts = IsDistinct-group fields c d required declared k inner members u in
    let inside = nested_tables-AreBuilt fields n inner v.2 parts.0 in
    let rest = nested_tables-AreBuilt fields n members v.3 parts.1 in
    let g = resolved_group c d required declared k inner in
    record {
      tables = and_table _ rest.tables;
      built =
          nested_tables-cons fields c d required declared k inner members _ _ _ inside.built
            (build_table_ok fields c d inner inside.tables parts.0 v.1 inside.counted) rest.built;
      counted = λ tags h.
          stray_nested-cons tags _ _ _ _ rest.tables
            (h (tag_of fields c) (contains-direct_tags_first fields g members))
            (rest.counted tags (λ tag l. h tag (contains-direct_tags fields g members tag l)));
      known = (known_tags-is_sorted_set fields inner parts.0, inside.known, rest.known);
    }
