-- ===== src/Dictionary/Resolver.antt =====
-- crates/refix-dictionary/src/dictionary.rs and dictionary/resolver.rs: a declared dictionary is
-- resolved, its components expanded in place.
--
-- The resolver's state is passed along. Components that contain one another are entered at most once
-- each before the resolver reports a circle, and the depth of that recursion is its fuel.
pub mod Ends
pub mod Valid
pub mod Lists
pub mod Sections
pub mod Indexes
pub mod Sound
pub mod Stacks
pub mod Expand
use refix.Base.{
  ℕ, zero, suc, ◌+◌, Bool, true, false, ◌&&◌, ◌||◌, Option, none, some, List, [], ◌∷◌,
  if◌then◌else◌, is_none, length, get_elem?,
}
use refix.Base.Result.{Result, ok, err, ◌>>=◌}
use refix.Tags.{Tag, contains}
use refix.Dictionary.Spec.{
  Name, has_length_field, Field, FieldRef, field, component, group, Members, no_members, and_member,
  Message, Component, Spec, MemberContext,
}
use refix.Dictionary.Checks.{
  Error, missing_length_tag, unknown_field, unknown_component, circular_component, empty_group,
  lookup, lookup_tag, check_int_values, check_unique_codes, check_unique_msg_types, index_fields,
  index_components, check_length_tags,
}
use refix.Dictionary.Tags.{
  ResolvedMember, resolved_field, resolved_group, ResolvedMembers, no_resolved, and_resolved,
  first_field, require_first, combine_all, join, group_context, name_of, insert_unique_tags,
}

-- `Resolver`: the lookup tables.
pub record Resolver : Type 0 where
  pub fields : List Field
  pub components : List Component
  pub fields_by_tag : List (Tag × ℕ)
  pub components_by_name : List (Name × ℕ)

-- `Resolver`: what changes, the expansions so far and the components being expanded.
pub record Progress : Type 0 where
  pub expansions : List (Option ResolvedMembers)
  pub stack : List ℕ

-- Why resolving stops.
pub data Stop : Type 0 where
  error : Error → Stop
  out_of_fuel : Stop

-- The `?` operator on an error of the source.
abbrev pub raise : {A : Type 0} → Result Error A → Result Stop A
raise (ok a) = ok a
raise (err e) = err (error e)

-- `Resolver::new`
unfoldable pub new_resolver : Spec → Result Error Resolver
unfolding check_int_values check_unique_codes check_unique_msg_types index_fields check_length_tags
    index_components
new_resolver spec = check_int_values spec.fields >>= λ _. check_unique_codes spec.fields >>= λ _.
    check_unique_msg_types spec.messages >>= λ _. index_fields spec.fields >>= λ by_tag.
    check_length_tags spec.fields by_tag >>= λ _. index_components spec.components >>= λ by_name.
    ok (record {
      fields = spec.fields;
      components = spec.components;
      fields_by_tag = by_tag;
      components_by_name = by_name;
    })

-- `ok_or_else(UnknownField)`
abbrev pub known_index : Tag → MemberContext → Option ℕ → Result Error ℕ
known_index tag context none = err (unknown_field tag context)
known_index tag context (some index) = ok index

-- The definition `tag` refers to, where it is used in `context`.
abbrev pub field_index : Resolver → Tag → MemberContext → Result Error ℕ
field_index r tag context = known_index tag context (lookup_tag tag r.fields_by_tag)

-- A data field without its length tag cannot be read.
abbrev pub lacks_length : Option Field → Bool
lacks_length none = false
lacks_length (some f) = has_length_field f.data_type && is_none f.length_tag

unfoldable pub resolve_field_ref : Resolver → FieldRef → MemberContext → Result Error ResolvedMember
resolve_field_ref r field_ref context = field_index r field_ref.tag context >>= λ index.
    if lacks_length (get_elem? r.fields index)
    then err (missing_length_tag (name_of r.fields index) context)
    else ok (resolved_field index field_ref.is_required)

-- The end of `resolve_members`: the first member of an instance is required, and no tag appears twice.
unfoldable pub finish_members :
    Resolver → MemberContext → Bool → ResolvedMembers → Result Error ResolvedMembers
finish_members r context is_instance resolved =
    let members = if is_instance then require_first resolved else resolved in
    insert_unique_tags r.fields context [] members >>= λ _. ok members

-- The end of `resolve_group`, on the members of an instance.
unfoldable pub finish_group :
    ℕ → Bool → MemberContext → MemberContext → ResolvedMembers → Result Error ResolvedMember
finish_group count required context instance_context no_resolved =
    err (empty_group instance_context)
finish_group count required context instance_context (and_resolved first rest) =
    ok (resolved_group count (first_field first) required context none (and_resolved first rest))

-- The expansion of a component that has one.
abbrev pub expansion_of : Option (Option ResolvedMembers) → ResolvedMembers
expansion_of (some (some members)) = members
expansion_of _ = no_resolved

-- The loop of `resolve_members`, with the groups among the members; `expand` is `expand_component`,
-- and `is_first` whether the members left begin the list.
unfoldable pub resolve_list :
    (ℕ → Progress → Result Stop Progress)
    → Resolver
    → MemberContext
    → Bool
    → Bool
    → Members
    → Progress
    → Result Stop (ResolvedMembers × Progress)
unfolding resolve_field_ref finish_members finish_group
resolve_list expand r context is_instance is_first no_members p = ok (no_resolved, p)
resolve_list expand r context is_instance is_first (and_member (field field_ref) rest) p =
    raise (resolve_field_ref r field_ref context) >>= λ m.
    resolve_list expand r context is_instance false rest p >>= λ q. ok (and_resolved m q.0, q.1)
resolve_list expand r context is_instance is_first (and_member (component c) rest) p =
    raise (known_component c.name context (lookup c.name r.components_by_name)) >>= λ child.
    expand child p >>= λ expanded.
    resolve_list expand r context is_instance false rest expanded >>= λ q.
    let members = expansion_of (get_elem? expanded.expansions child) in
    ok (join (combine_all (c.is_required || (is_instance && is_first)) members) q.0, q.1)
  where
    known_component : Name → MemberContext → Option ℕ → Result Error ℕ
    known_component name context none = err (unknown_component name context)
    known_component name context (some child) = ok child
resolve_list expand r context is_instance is_first (and_member (group tag required members) rest)
      p =
    raise (field_index r tag context) >>= λ count.
    let inside = group_context context (name_of r.fields count) in
    resolve_list expand r inside true true members p >>= λ i.
    raise
      (finish_members r inside true i.0 >>= λ done. finish_group count required context inside done)
    >>= λ m. resolve_list expand r context is_instance false rest i.1 >>= λ q.
        ok (and_resolved m q.0, q.1)

unfoldable pub resolve_members :
    (ℕ → Progress → Result Stop Progress)
    → Resolver
    → MemberContext
    → Members
    → Progress
    → Result Stop (ResolvedMembers × Progress)
unfolding resolve_list
resolve_members expand r context members p =
    resolve_list expand r context false true members p >>= λ q.
    raise (finish_members r context false q.0) >>= λ resolved. ok (resolved, q.1)

-- `expansions[index] = Some(members)`
unfoldable pub set_expansion :
    ℕ → ResolvedMembers → List (Option ResolvedMembers) → List (Option ResolvedMembers)
set_expansion index members [] = []
set_expansion zero members (x ∷ expansions) = some members ∷ expansions
set_expansion (suc index) members (x ∷ expansions) = x ∷ set_expansion index members expansions

-- A component that is one group gives it its name.
unfoldable pub name_group : Name → Members → ResolvedMembers → ResolvedMembers
name_group name (and_member (group _ _ _) no_members)
      (and_resolved (resolved_group count d required context _ inner) no_resolved) =
    and_resolved (resolved_group count d required context (some name) inner) no_resolved
name_group name _ resolved = resolved

abbrev pub is_expanded : Option (Option ResolvedMembers) → Bool
is_expanded (some (some _)) = true
is_expanded _ = false

unfoldable pub expand_component : ℕ → Resolver → ℕ → Progress → Result Stop Progress
expand_component zero r index p = err out_of_fuel
expand_component (suc fuel) r index p =
    if is_expanded (get_elem? p.expansions index)
    then ok p
    else elim (get_elem? r.components index) [
      | none ↦ ok p
      | some c ↦
          if contains p.stack index
          then err (error (circular_component c.name))
          else (resolve_members (expand_component fuel r) r (MemberContext.component c.name)
                c.members (record p { stack = index ∷ p.stack })
              >>= λ q. ok (record {
                expansions = set_expansion index (name_group c.name c.members q.0) q.1.expansions;
                stack = p.stack;
              }))
    ]

-- The loop of `expand_components` over the `count` components from `index` on.
unfoldable pub expand_from : Resolver → ℕ → ℕ → Progress → Result Stop Progress
expand_from r zero index p = ok p
expand_from r (suc count) index p =
    expand_component (length r.components + 1) r index p >>= λ q. expand_from r count (index + 1) q

-- A component for each of them, none expanded.
unfoldable pub unexpanded : List Component → List (Option ResolvedMembers)
unexpanded [] = []
unexpanded (c ∷ components) = none ∷ unexpanded components

unfoldable pub expand_components : Resolver → Result Stop Progress
unfolding expand_from unexpanded
expand_components r =
    expand_from r (length r.components) 0
      (record { expansions = unexpanded r.components; stack = [] })

-- The sections share no tag: the loop of `resolve_message`.
unfoldable pub check_sections :
    List Field
    → MemberContext
    → ResolvedMembers
    → ResolvedMembers
    → ResolvedMembers
    → Result Error (List (Tag × MemberContext))
unfolding insert_unique_tags
check_sections fields context head members tail =
    insert_unique_tags fields MemberContext.header [] head >>= λ in_header.
    insert_unique_tags fields context in_header members >>= λ in_message.
    insert_unique_tags fields MemberContext.trailer in_message tail

-- Resolves a message's members, and checks that the header and trailer share none of their tags.
unfoldable pub resolve_message :
    Resolver
    → ResolvedMembers
    → ResolvedMembers
    → Message
    → Progress
    → Result Stop (ResolvedMembers × Progress)
unfolding resolve_members expand_component check_sections
resolve_message r head tail m p =
    let context = MemberContext.message m.name in
    resolve_members (expand_component (length r.components + 1) r) r context m.members p >>= λ q.
    raise (check_sections r.fields context head q.0 tail) >>= λ _. ok q

unfoldable pub resolve_messages :
    Resolver
    → ResolvedMembers
    → ResolvedMembers
    → List Message
    → Progress
    → Result Stop (List ResolvedMembers)
unfolding resolve_message
resolve_messages r head tail [] p = ok []
resolve_messages r head tail (m ∷ messages) p = resolve_message r head tail m p >>= λ q.
    resolve_messages r head tail messages q.1 >>= λ rest. ok (q.0 ∷ rest)

pub record Dictionary : Type 0 where
  pub spec : Spec
  pub header : ResolvedMembers
  pub messages : List ResolvedMembers
  pub trailer : ResolvedMembers

-- `Spec::resolve`
unfoldable pub resolve : Spec → Result Stop Dictionary
unfolding new_resolver expand_components resolve_members expand_component resolve_messages
resolve spec = raise (new_resolver spec) >>= λ r. expand_components r >>= λ p.
    let expand = expand_component (length r.components + 1) r in
    resolve_members expand r MemberContext.header spec.header p >>= λ head.
    resolve_members expand r MemberContext.trailer spec.trailer head.1 >>= λ tail.
    resolve_messages r head.0 tail.0 spec.messages tail.1 >>= λ messages.
    ok (record { spec = spec; header = head.0; messages = messages; trailer = tail.0 })
