-- ===== src/Dictionary/Tags.antt =====
-- crates/refix-dictionary/src/dictionary.rs and dictionary/resolver.rs: resolved members, and the
-- rule that a tag appears once.
pub mod Unique
use refix.Base.{ℕ, Bool, true, ◌&&◌, Option, none, some, List, [], ◌∷◌, get_elem?}
use refix.Base.Result.{Result, ok, err, ◌>>=◌}
use refix.Tags.{Tag}
use refix.Dictionary.Spec.{Name, Field, group, MemberContext}
use refix.Dictionary.Checks.{Error, duplicate_field, lookup_tag}

-- A field is its index; a group has the indexes of its count field and of its delimiter.
mutual
  pub data ResolvedMember : Type 0 where
    resolved_field : ℕ → Bool → ResolvedMember
    resolved_group : ℕ → ℕ → Bool → MemberContext → Option Name → ResolvedMembers → ResolvedMember

  pub data ResolvedMembers : Type 0 where
    no_resolved : ResolvedMembers
    and_resolved : ResolvedMember → ResolvedMembers → ResolvedMembers

-- The field this member starts with on the wire, or a group's count field.
abbrev pub first_field : ResolvedMember → ℕ
first_field (resolved_field index required) = index
first_field (resolved_group count d required context c members) = count

-- Makes a member required in its scope.
abbrev pub require : ResolvedMember → ResolvedMember
require (resolved_field index required) = resolved_field index true
require (resolved_group count d required context c members) =
    resolved_group count d true context c members

abbrev pub require_first : ResolvedMembers → ResolvedMembers
require_first no_resolved = no_resolved
require_first (and_resolved m members) = and_resolved (require m) members

-- Keeps a member required only if `is_required` holds as well.
abbrev pub combine_required : Bool → ResolvedMember → ResolvedMember
combine_required is_required (resolved_field index required) =
    resolved_field index (required && is_required)
combine_required is_required (resolved_group count d required context c members) =
    resolved_group count d (required && is_required) context c members

-- The members that `extend_with_expansion` adds.
unfoldable pub combine_all : Bool → ResolvedMembers → ResolvedMembers
combine_all is_required no_resolved = no_resolved
combine_all is_required (and_resolved m members) =
    and_resolved (combine_required is_required m) (combine_all is_required members)

unfoldable pub join : ResolvedMembers → ResolvedMembers → ResolvedMembers
join no_resolved ys = ys
join (and_resolved m xs) ys = and_resolved m (join xs ys)

-- `MemberContext::group`
abbrev pub group_context : MemberContext → Name → MemberContext
group_context context name = MemberContext.group name context

abbrev pub tag_in : Option Field → Tag
tag_in none = 0
tag_in (some f) = f.tag

-- `fields[index].tag`; indexes come from the fields, so none is out of range.
abbrev pub tag_of : List Field → ℕ → Tag
tag_of fields index = tag_in (get_elem? fields index)

abbrev pub name_in : Option Field → Name
name_in none = []
name_in (some f) = f.name

-- `fields[index].name`
abbrev pub name_of : List Field → ℕ → Name
name_of fields index = name_in (get_elem? fields index)

-- Records where each tag in the members appears, descending into group instances. A tag may appear
-- only once in a message, at any depth.
unfoldable pub insert_unique_tags :
    List Field
    → MemberContext
    → List (Tag × MemberContext)
    → ResolvedMembers
    → Result Error (List (Tag × MemberContext))
insert_unique_tags fields context seen no_resolved = ok seen
insert_unique_tags fields context seen (and_resolved (resolved_field index required) members) =
    let tag = tag_of fields index in
    let rest = insert_unique_tags fields context ((tag, context) ∷ seen) members in
    elim (lookup_tag tag seen) [
      | some first ↦ err (duplicate_field tag first context)
      | none ↦ rest
    ]
insert_unique_tags fields context seen
      (and_resolved (resolved_group count d required declared c inner) members) =
    let tag = tag_of fields count in
    let instance_context = group_context context (name_of fields count) in
    let inside = insert_unique_tags fields instance_context ((tag, context) ∷ seen) inner in
    elim (lookup_tag tag seen) [
      | some first ↦ err (duplicate_field tag first context)
      | none ↦ inside >>= λ more. insert_unique_tags fields context more members
    ]
