-- ===== src/Dictionary/Quickfix/Lengths.antt =====
-- quickfix.rs, `link_length_fields`: a data field takes the LENGTH field listed directly before it.
use refix.Base.{not, ◌||◌, none, some, List, [], ◌∷◌, ◌++◌, map, ◌==◌, if◌then◌else◌}
use refix.Base.Result.{Result, ok, err, ◌>>=◌}
use refix.Tags.{Tag}
use refix.Dictionary.Spec.{
  has_length_field, is_length, Field, Member, field, component, group, Members, no_members,
  and_member, Message, Component,
}
use refix.Dictionary.Checks.{lookup_tag}
use refix.Dictionary.Quickfix.Xml.{ReadError, conflicting_length_fields}

-- Why reading stops: an error of the source, or an index of a map that has no such key, which panics.
pub data ReadStop : Type 0 where
  read_error : ReadError → ReadStop
  panic : ReadStop

-- A map of fields by their tags: of two with one tag the later.
unfoldable pub by_tag : List (Tag × Field) → List Field → List (Tag × Field)
by_tag found [] = found
by_tag found (f ∷ fields) = by_tag ((f.tag, f) ∷ found) fields

-- `fields_by_tag[&tag]`
abbrev pub index : List (Tag × Field) → Tag → Result ReadStop Field
index fields_by_tag tag = elim (lookup_tag tag fields_by_tag) [ some f ↦ ok f | none ↦ err panic ]

-- The entry of a data field that follows its length field.
unfoldable pub enter_length :
    List (Tag × Field)
    → List (Tag × Tag)
    → Field
    → Tag
    → Field
    → Tag
    → Result ReadStop (List (Tag × Tag))
unfolding lookup_tag
enter_length fields_by_tag length_tags length_field length_tag data_field data_tag =
    elim (lookup_tag data_tag length_tags) [
      | none ↦ ok ((data_tag, length_tag) ∷ length_tags)
      | some first ↦
          if first == length_tag
          then ok length_tags
          else (index fields_by_tag first >>= λ first_field. err (
              read_error
                (conflicting_length_fields data_field.name first_field.name length_field.name)))
    ]

-- One pair of neighbours.
unfoldable pub link_pair :
    List (Tag × Field) → Member → Member → List (Tag × Tag) → Result ReadStop (List (Tag × Tag))
unfolding lookup_tag is_length has_length_field enter_length
link_pair fields_by_tag (field l) (field d) length_tags =
    index fields_by_tag l.tag >>= λ length_field. index fields_by_tag d.tag >>= λ data_field.
    if not (is_length length_field.data_type) || not (has_length_field data_field.data_type)
    then ok length_tags
    else enter_length fields_by_tag length_tags length_field l.tag data_field d.tag
link_pair fields_by_tag _ _ length_tags = ok length_tags

-- The loop over `members.windows(2)`.
unfoldable pub link_pairs :
    List (Tag × Field) → Members → List (Tag × Tag) → Result ReadStop (List (Tag × Tag))
unfolding link_pair
link_pairs fields_by_tag no_members length_tags = ok length_tags
link_pairs fields_by_tag (and_member m no_members) length_tags = ok length_tags
link_pairs fields_by_tag (and_member m (and_member n members)) length_tags =
    link_pair fields_by_tag m n length_tags >>= λ more.
    link_pairs fields_by_tag (and_member n members) more

-- The loop over the groups, each of which is collected like the members themselves.
unfoldable pub collect_in_groups :
    List (Tag × Field) → Members → List (Tag × Tag) → Result ReadStop (List (Tag × Tag))
unfolding link_pairs
collect_in_groups fields_by_tag no_members length_tags = ok length_tags
collect_in_groups fields_by_tag (and_member (field _) members) length_tags =
    collect_in_groups fields_by_tag members length_tags
collect_in_groups fields_by_tag (and_member (component _) members) length_tags =
    collect_in_groups fields_by_tag members length_tags
collect_in_groups fields_by_tag (and_member (group _ _ inner) members) length_tags =
    collect_in_groups fields_by_tag inner length_tags >>= λ nested.
    link_pairs fields_by_tag inner nested >>= λ linked.
    collect_in_groups fields_by_tag members linked

-- `collect_length_tags`
unfoldable pub collect_length_tags :
    List (Tag × Field) → Members → List (Tag × Tag) → Result ReadStop (List (Tag × Tag))
unfolding collect_in_groups link_pairs
collect_length_tags fields_by_tag members length_tags =
    collect_in_groups fields_by_tag members length_tags >>= link_pairs fields_by_tag members

-- The loop of `link_length_fields` over the member lists.
unfoldable pub collect_all :
    List (Tag × Field) → List Members → List (Tag × Tag) → Result ReadStop (List (Tag × Tag))
unfolding collect_length_tags
collect_all fields_by_tag [] length_tags = ok length_tags
collect_all fields_by_tag (members ∷ lists) length_tags =
    collect_length_tags fields_by_tag members length_tags >>= collect_all fields_by_tag lists

-- `Field { length_tag: length_tags.get(&field.tag).copied(), ..field }`
unfoldable pub with_lengths : List (Tag × Tag) → List Field → List Field
unfolding lookup_tag
with_lengths length_tags [] = []
with_lengths length_tags (f ∷ fields) =
    record f { length_tag = lookup_tag f.tag length_tags } ∷ with_lengths length_tags fields

-- The header, the trailer, and the members of messages and of components.
unfoldable pub member_lists : Members → Members → List Message → List Component → List Members
member_lists head tail messages components =
    head
    ∷ tail
    ∷ (map (λ (m : Message). m.members) messages ++ map (λ (c : Component). c.members) components)

unfoldable pub link_length_fields : List Field → List Members → Result ReadStop (List Field)
unfolding by_tag collect_all with_lengths
link_length_fields fields lists = do
  length_tags ← collect_all (by_tag [] fields) lists []
  ok (with_lengths length_tags fields)
