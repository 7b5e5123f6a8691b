-- ===== src/Codegen/Groups.antt =====
-- crates/refix-codegen/src/groups.rs: the groups that get generated types, and the lists of tags in
-- the generated tables. A set of contexts is a list.
use refix.Base.{
  Bool, true, false, ◌&&◌, ◌||◌, Option, none, some, List, [], ◌∷◌, ◌++◌, if◌then◌else◌, equal,
}
use refix.Tags.{Tag, sort_tags}
use refix.Dictionary.Spec.{Field, MemberContext}
use refix.Dictionary.Tags.{
  resolved_field, resolved_group, ResolvedMembers, no_resolved, and_resolved, first_field,
  group_context, tag_of, name_of,
}
use refix.Dictionary.Resolver.{Dictionary}
use refix.Dictionary.Views.{
  Group, MemberView, of_field, of_group, MessageView, messages_of, fields_of,
}

-- `is_generated`, on where the group is declared: not directly in another group's instance.
abbrev pub is_generated : MemberContext → Bool
is_generated (MemberContext.group _ _) = false
is_generated _ = true

-- `instance_context`, which identifies a group's declaration.
abbrev pub instance_context : List Field → Group → MemberContext
instance_context fields g = group_context g.declared_in (name_of fields g.count_field)

-- `==` on contexts.
unfoldable pub same_context : MemberContext → MemberContext → Bool
unfolding equal
same_context (MemberContext.message a) (MemberContext.message b) = equal a b
same_context (MemberContext.component a) (MemberContext.component b) = equal a b
same_context MemberContext.header MemberContext.header = true
same_context MemberContext.trailer MemberContext.trailer = true
same_context (MemberContext.group a c) (MemberContext.group b d) = equal a b && same_context c d
same_context _ _ = false

unfoldable pub has_context : List MemberContext → MemberContext → Bool
unfolding same_context
has_context [] c = false
has_context (x ∷ seen) c = same_context x c || has_context seen c

-- The variables of `declared_groups`.
pub record Collected : Type 0 where
  pub groups : List Group
  pub seen : List MemberContext

-- `groups.push(group)`, with the group's context seen.
abbrev pub collect : MemberContext → Group → Collected → Collected
collect context g found = record { groups = found.groups ++ g ∷ []; seen = context ∷ found.seen }

unfoldable pub collect_declared : List Field → ResolvedMembers → Collected → Collected
unfolding has_context
collect_declared fields no_resolved found = found
collect_declared fields (and_resolved (resolved_field index required) members) found =
    collect_declared fields members found
collect_declared fields (and_resolved (resolved_group count d required declared c inner) members)
      found =
    let context = group_context declared (name_of fields count) in
    let g : Group = record {
      count_field = count;
      delimiter = d;
      is_required = required;
      declared_in = declared;
      component = c;
      members = inner;
    } in
    let entered = collect_declared fields inner (collect context g found) in
    collect_declared fields members (if has_context found.seen context then found else entered)

unfoldable pub collect_messages : List Field → List MessageView → Collected → Collected
unfolding collect_declared
collect_messages fields [] found = found
collect_messages fields (m ∷ messages) found =
    collect_messages fields messages (collect_declared fields m.members found)

-- Every group declaration that header, messages and trailer reach, each once.
unfoldable pub declared_groups : Dictionary → List Group
unfolding collect_declared collect_messages messages_of
declared_groups d =
    let fields = fields_of d in
    let in_header = collect_declared fields d.header (record { groups = []; seen = [] }) in
    let in_messages = collect_messages fields (messages_of d) in_header in
    (collect_declared fields d.trailer in_messages).groups

-- The tags that an instance directly contains.
unfoldable pub direct_tags : List Field → ResolvedMembers → List Tag
direct_tags fields no_resolved = []
direct_tags fields (and_resolved m members) =
    tag_of fields (first_field m) ∷ direct_tags fields members

unfoldable pub member_tags : List Field → Group → List Tag
unfolding direct_tags sort_tags
member_tags fields g = sort_tags (direct_tags fields g.members)

-- The tags of members at any depth, group count tags included.
unfoldable pub collect_tags : List Field → ResolvedMembers → List Tag
collect_tags fields no_resolved = []
collect_tags fields (and_resolved (resolved_field index required) members) =
    tag_of fields index ∷ collect_tags fields members
collect_tags fields (and_resolved (resolved_group count d required declared c inner) members) =
    tag_of fields count ∷ (collect_tags fields inner ++ collect_tags fields members)

unfoldable pub known_tags : List Field → ResolvedMembers → List Tag
unfolding collect_tags sort_tags
known_tags fields members = sort_tags (collect_tags fields members)

-- Every tag that a message can contain, its envelope's included.
unfoldable pub message_known_tags : List Field → MessageView → List Tag → List Tag
unfolding collect_tags sort_tags
message_known_tags fields m envelope = sort_tags (envelope ++ collect_tags fields m.members)

-- What a map of contexts has for `key`.
unfoldable pub lookup_context {ℓ} :
    {A : Type ℓ} → MemberContext → List (MemberContext × A) → Option A
unfolding same_context
lookup_context key [] = none
lookup_context key ((c, a) ∷ entries) =
    if same_context c key then some a else lookup_context key entries

-- The groups among members that are declared where `declared` says.
unfoldable pub groups_where : (MemberContext → Bool) → List MemberView → List Group
groups_where declared [] = []
groups_where declared (of_field _ _ ∷ members) = groups_where declared members
groups_where declared (of_group g ∷ members) =
    let rest = groups_where declared members in if declared g.declared_in then g ∷ rest else rest

abbrev pub in_message : MemberContext → Bool
in_message (MemberContext.message _) = true
in_message _ = false

abbrev pub in_component : MemberContext → Bool
in_component (MemberContext.component _) = true
in_component _ = false
