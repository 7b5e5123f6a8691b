-- ===== src/Codegen/Python/Names.antt =====
-- crates/refix-codegen/src/python/names.rs: every name that the generated Python uses.
use refix.Codegen.Python.Reserved.{module_names, class_names, view_names, instance_class_names}
use refix.Base.{not, Option, none, some, List, [], ◌∷◌, ◌++◌, if◌then◌else◌}
use refix.Base.Result.{Result, ok, err, ◌>>=◌}
use refix.Tags.{Tag}
use refix.Dictionary.Spec.{Name, EnumValue, Field, MemberContext}
use refix.Dictionary.Resolver.{Dictionary}
use refix.Dictionary.Views.{
  Group, MemberView, of_field, of_group, members_of, MessageView, messages_of, fields_of,
}
use refix.Codegen.Groups.{
  is_generated, instance_context, same_context, declared_groups, lookup_context, groups_where,
  in_message, in_component,
}
use refix.Codegen.Conversion.{conversion_of, is_enum}
use refix.Codegen.Envelope.{
  Section, header_section, trailer_section, section_context, section_members,
}
use refix.Codegen.Naming.{group_source_name}
use refix.Codegen.Namespace.{
  Owner, owner_field, nanos, owner_message, owner_group, owner_value, Renamed, Namespace,
  empty_namespace, with_generated, claim, Claimed, claimed, clashes, stuck, claim_enum, claim_value,
}
use refix.Codegen.Python.Naming.{
  PythonError, name_clash, panic, property_name, has_nanos, nanos_property_name,
  group_property_name, member_name, numbered_member,
}

pub record EnumClass : Type 0 where
  pub class_name : Name
  pub members : List Name

pub record GroupNames : Type 0 where
  pub class_name : Name
  pub property : Name

-- `Names`; a map is the list of its entries, the last one inserted first.
pub record PythonNames : Type 0 where
  pub enums : List (Tag × EnumClass)
  pub properties : List (Tag × Name)
  pub nanos_properties : List (Tag × Name)
  pub groups : List (MemberContext × GroupNames)

abbrev pub no_names : PythonNames
no_names = record { enums = []; properties = []; nanos_properties = []; groups = [] }

-- `claim` with its error as one of the generator's.
abbrev pub claim_name : Namespace → Name → Owner → Result PythonError Namespace
claim_name n name owner = elim (claim n name owner) [
  | ok taken ↦ ok taken
  | err c ↦ err (name_clash c)
]

unfoldable pub claim_messages : List MessageView → Namespace → Result PythonError Namespace
unfolding claim
claim_messages [] n = ok n
claim_messages (m ∷ messages) n =
    claim_name n m.declared.name (owner_message m.declared.name) >>= claim_messages messages

-- `name_group`; the class is the group's name as the dictionary gives it.
unfoldable pub name_group : List Field → PythonNames → Group → PythonNames
unfolding group_source_name group_property_name
name_group fields names g = record names {
  groups =
      (
        instance_context fields g,
        record { class_name = group_source_name fields g; property = group_property_name fields g },
      )
      ∷ names.groups;
}

-- The loop over the groups: only a shared group's class is named in the module.
unfoldable pub name_groups :
    List Field → List Group → PythonNames → Namespace → Result PythonError (PythonNames × Namespace)
unfolding name_group claim group_source_name
name_groups fields [] names n = ok (names, n)
name_groups fields (g ∷ groups) names n =
    let skipped = name_groups fields groups names n in
    let noted = name_groups fields groups (name_group fields names g) in
    if not (is_generated g.declared_in)
    then skipped
    else if in_component g.declared_in
    then (claim_name n (group_source_name fields g) (owner_group (instance_context fields g))
        >>= noted)
    else noted n

abbrev pub known_group : Option GroupNames → Result PythonError GroupNames
known_group none = err panic
known_group (some names) = ok names

-- `group_class` and `group_property`
abbrev pub names_of : List Field → PythonNames → Group → Result PythonError GroupNames
names_of fields names g = known_group (lookup_context (instance_context fields g) names.groups)

-- The classes of the groups that a message or section declares itself.
unfoldable pub claim_classes :
    List Field → List Group → PythonNames → Namespace → Result PythonError Namespace
unfolding lookup_context claim
claim_classes fields [] names n = ok n
claim_classes fields (g ∷ groups) names n = names_of fields names g >>= λ found.
    claim_name n found.class_name (owner_group (instance_context fields g))
    >>= claim_classes fields groups names

-- The property of a field's nanoseconds, beside the one of its value.
unfoldable pub claim_nanos :
    Field → PythonNames → Namespace → Result PythonError (PythonNames × Namespace)
unfolding conversion_of nanos_property_name claim
claim_nanos f names n =
    let name = nanos_property_name f in
    if has_nanos (conversion_of f)
    then (claim_name n name (nanos f.name) >>= λ taken.
        ok (record names { nanos_properties = (f.tag, name) ∷ names.nanos_properties }, taken))
    else ok (names, n)

unfoldable pub name_properties :
    List Field → List MemberView → PythonNames → Namespace → Result PythonError PythonNames
unfolding property_name claim claim_nanos lookup_context
name_properties fields [] names n = ok names
name_properties fields (of_field f _ ∷ members) names n =
    let name = property_name f in
    claim_name n name (owner_field f.name) >>= λ taken.
    claim_nanos f (record names { properties = (f.tag, name) ∷ names.properties }) taken >>= λ r.
    name_properties fields members r.0 r.1
name_properties fields (of_group g ∷ members) names n =
    let skipped = name_properties fields members names n in
    let later = name_properties fields members names in
    if not (is_generated g.declared_in)
    then skipped
    else (names_of fields names g >>= λ found.
        claim_name n found.property (owner_group (instance_context fields g)) >>= later)

unfoldable pub name_section : Section → Dictionary → PythonNames → Result PythonError PythonNames
unfolding members_of groups_where claim_classes name_properties with_generated view_names
    same_context
name_section s d names =
    let fields = fields_of d in
    let members = members_of fields (section_members s d) in
    claim_classes fields (groups_where (same_context (section_context s)) members) names
      (with_generated view_names)
    >>= name_properties fields members names

-- What the loop of `name_enum` passes on: the names so far, the scope and the warnings.
pub record MemberNames : Type 0 where
  pub names : List Name
  pub scope : Namespace
  pub warnings : List Renamed

-- `stuck` stands for a loop of `claim_value` that finds no free number.
abbrev pub on_claimed : Claimed → Result PythonError (Name × List Renamed × Namespace)
on_claimed (claimed name warnings n) = ok (name, warnings, n)
on_claimed (clashes c) = err (name_clash c)
on_claimed stuck = err panic

unfoldable pub name_members : Field → List EnumValue → MemberNames → Result PythonError MemberNames
unfolding member_name claim_value numbered_member
name_members f [] v = ok v
name_members f (value ∷ values) v = member_name f value >>= λ name.
    let owner = owner_value f.name value.value value.description in
    on_claimed (claim_value v.scope name owner numbered_member v.warnings) >>= λ r.
    name_members f values (record { names = v.names ++ r.0 ∷ []; scope = r.2; warnings = r.1 })

-- `name_enum`
unfoldable pub name_enum :
    Field → Name → PythonNames → List Renamed → Result PythonError (PythonNames × List Renamed)
unfolding name_members
name_enum f class_name names warnings =
    name_members f f.values (record { names = []; scope = empty_namespace; warnings = warnings })
    >>= λ v. ok (
      record names {
        enums = (f.tag, record { class_name = class_name; members = v.names }) ∷ names.enums;
      },
      v.warnings,
    )

unfoldable pub name_enums :
    List Field
    → PythonNames
    → Namespace
    → List Renamed
    → Result PythonError (PythonNames × List Renamed)
unfolding conversion_of claim_enum name_enum
name_enums [] names n warnings = ok (names, warnings)
name_enums (f ∷ fields) names n warnings =
    let skipped = name_enums fields names n warnings in
    let later = name_enums fields in
    if not (is_enum (conversion_of f))
    then skipped
    else (on_claimed (claim_enum n f.name warnings) >>= λ c.
        name_enum f c.0 names c.1 >>= λ r. later r.0 c.2 r.1)

unfoldable pub name_messages :
    List Field → List MessageView → PythonNames → Result PythonError PythonNames
unfolding claim_classes groups_where name_properties with_generated class_names members_of
name_messages fields [] names = ok names
name_messages fields (m ∷ messages) names =
    let members = members_of fields m.members in
    claim_classes fields (groups_where in_message members) names (with_generated class_names)
    >>= λ n. name_properties fields members names n >>= name_messages fields messages

unfoldable pub name_instances :
    List Field → List Group → PythonNames → Result PythonError PythonNames
unfolding name_properties with_generated instance_class_names members_of
name_instances fields [] names = ok names
name_instances fields (g ∷ groups) names =
    let skipped = name_instances fields groups names in
    let later = name_instances fields groups in
    if not (is_generated g.declared_in)
    then skipped
    else (name_properties fields (members_of fields g.members) names
          (with_generated instance_class_names)
        >>= later)

-- `Names::new`
unfoldable pub new_names :
    Dictionary → List Renamed → Result PythonError (PythonNames × List Renamed)
unfolding with_generated module_names claim_messages messages_of name_groups declared_groups
    name_enums name_messages name_section name_instances
new_names d warnings =
    let fields = fields_of d in
    let messages = messages_of d in
    let groups = declared_groups d in
    claim_messages messages (with_generated module_names) >>= λ n.
    name_groups fields groups no_names n >>= λ g. name_enums fields g.0 g.1 warnings >>= λ e.
    name_messages fields messages e.0 >>= λ m. name_section header_section d m >>= λ h.
    name_section trailer_section d h >>= λ t.
    name_instances fields groups t >>= λ names. ok (names, e.1)
