-- ===== src/Codegen/Rust/Names.antt =====
-- crates/refix-codegen/src/rust/names.rs: every name that the generated Rust uses.
use refix.Codegen.Rust.Reserved.{root_names, message_names, instance_names, unrecognized}
use refix.Base.{not, List, [], ◌∷◌, ◌++◌, if◌then◌else◌}
use refix.Base.Result.{Result, ok, err, ◌>>=◌}
use refix.Tags.{Tag}
use refix.Dictionary.Spec.{Name, EnumValue, Field, Message, MemberContext}
use refix.Dictionary.Resolver.{Dictionary}
use refix.Dictionary.Views.{
  Group, MemberView, of_field, of_group, members_of, MessageView, messages_of, fields_of,
}
use refix.Codegen.Groups.{
  is_generated, instance_context, same_context, declared_groups, lookup_context, groups_where,
  in_message, in_component,
}
use refix.Codegen.Conversion.{conversion_of, is_enum}
use refix.Codegen.Envelope.{
  Section, header_section, trailer_section, section_context, section_members,
}
use refix.Codegen.Namespace.{
  Owner, owner_field, owner_message, owner_group, owner_value, Renamed, Namespace, empty_namespace,
  with_generated, claim, Claimed, claimed, clashes, stuck, claim_enum, claim_value,
}
use refix.Codegen.Rust.Naming.{
  RustError, name_clash, panic, or_error, method_name, group_name, message_module_name,
  variant_name, numbered_variant,
}

pub record EnumNames : Type 0 where
  pub type_name : Name
  pub variants : List Name

-- `Names`; a map is the list of its entries, the last one inserted first.
pub record RustNames : Type 0 where
  pub enums : List (Tag × EnumNames)
  pub accessors : List (Tag × Name)
  pub groups : List (MemberContext × Name)
  pub message_modules : List (Name × Name)

abbrev pub no_names : RustNames
no_names = record { enums = []; accessors = []; groups = []; message_modules = [] }

-- `claim` with its error as one of the generator's.
abbrev pub claim_name : Namespace → Name → Owner → Result RustError Namespace
claim_name n name owner = elim (claim n name owner) [
  | ok taken ↦ ok taken
  | err c ↦ err (name_clash c)
]

-- Takes a group's name in a scope of modules, and notes it.
unfoldable pub claim_group :
    List Field → RustNames → Namespace → Group → Result RustError (RustNames × Namespace)
unfolding group_name claim
claim_group fields names n g = do
  name ← group_name fields g
  taken ← claim_name n name (owner_group (instance_context fields g))
  ok (record names { groups = (instance_context fields g, name) ∷ names.groups }, taken)

unfoldable pub claim_groups :
    List Field → List Group → RustNames → Namespace → Result RustError (RustNames × Namespace)
unfolding claim_group
claim_groups fields [] names n = ok (names, n)
claim_groups fields (g ∷ groups) names n =
    claim_group fields names n g >>= λ r. claim_groups fields groups r.0 r.1

-- `name_message_module` on the groups that the message declares itself.
abbrev pub name_module :
    List Field
    → Message
    → List Group
    → RustNames
    → Namespace
    → Result RustError (RustNames × Namespace)
name_module fields m [] names root = ok (names, root)
name_module fields m (g ∷ groups) names root = message_module_name m.name >>= λ module_name.
    claim_name root module_name (owner_message m.name) >>= λ taken.
    claim_groups fields (g ∷ groups) names empty_namespace >>= λ r.
    ok (record r.0 { message_modules = (m.name, module_name) ∷ r.0.message_modules }, taken)

unfoldable pub name_message_module :
    List Field → MessageView → RustNames → Namespace → Result RustError (RustNames × Namespace)
unfolding message_module_name claim claim_groups groups_where members_of
name_message_module fields m names root =
    name_module fields m.declared (groups_where in_message (members_of fields m.members)) names root

-- Names the accessors of a message, a section or a group instance.
unfoldable pub name_accessors :
    List Field → List MemberView → RustNames → Namespace → Result RustError RustNames
unfolding method_name claim lookup_context
name_accessors fields [] names n = ok names
name_accessors fields (of_field f _ ∷ members) names n = method_name f >>= λ name.
    claim_name n name (owner_field f.name) >>= λ taken.
    name_accessors fields members (record names { accessors = (f.tag, name) ∷ names.accessors })
      taken
name_accessors fields (of_group g ∷ members) names n =
    let skipped = name_accessors fields members names n in
    let later = name_accessors fields members names in
    if not (is_generated g.declared_in)
    then skipped
    else (or_error panic (lookup_context (instance_context fields g) names.groups) >>= λ name.
        claim_name n name (owner_group (instance_context fields g)) >>= λ taken. later taken)

unfoldable pub name_section : Section → Dictionary → RustNames → Result RustError RustNames
unfolding members_of groups_where claim_groups name_accessors with_generated instance_names
    same_context
name_section s d names =
    let fields = fields_of d in
    let members = members_of fields (section_members s d) in
    claim_groups fields (groups_where (same_context (section_context s)) members) names
      empty_namespace
    >>= λ r. name_accessors fields members r.0 (with_generated instance_names)

-- What the loop of `name_enum` passes on: the names so far, the scope and the warnings.
pub record Variants : Type 0 where
  pub names : List Name
  pub scope : Namespace
  pub warnings : List Renamed

-- `stuck` stands for a loop of `claim_value` that finds no free number.
abbrev pub on_claimed : Claimed → Result RustError (Name × List Renamed × Namespace)
on_claimed (claimed name warnings n) = ok (name, warnings, n)
on_claimed (clashes c) = err (name_clash c)
on_claimed stuck = err panic

unfoldable pub name_variants : Field → List EnumValue → Variants → Result RustError Variants
unfolding variant_name claim_value numbered_variant
name_variants f [] v = ok v
name_variants f (value ∷ values) v = variant_name f value >>= λ name.
    let owner = owner_value f.name value.value value.description in
    on_claimed (claim_value v.scope name owner numbered_variant v.warnings) >>= λ r.
    name_variants f values (record { names = v.names ++ r.0 ∷ []; scope = r.2; warnings = r.1 })

-- `name_enum`
unfoldable pub name_enum :
    Field → Name → RustNames → List Renamed → Result RustError (RustNames × List Renamed)
unfolding name_variants with_generated
name_enum f type_name names warnings =
    name_variants f f.values
      (record { names = []; scope = with_generated unrecognized; warnings = warnings })
    >>= λ v. ok (
      record names {
        enums = (f.tag, record { type_name = type_name; variants = v.names }) ∷ names.enums;
      },
      v.warnings,
    )

-- The loops of `Names::new`.
unfoldable pub claim_messages :
    List MessageView → Namespace → Namespace → Result RustError Namespace
unfolding claim
claim_messages [] root variants = ok root
claim_messages (m ∷ messages) root variants =
    let owner = owner_message m.declared.name in
    claim_name root m.declared.name owner >>= λ taken.
    claim_name variants m.declared.name owner >>= λ more. claim_messages messages taken more

unfoldable pub name_message_modules :
    List Field → List MessageView → RustNames → Namespace → Result RustError (RustNames × Namespace)
unfolding name_message_module
name_message_modules fields [] names root = ok (names, root)
name_message_modules fields (m ∷ messages) names root =
    name_message_module fields m names root >>= λ r. name_message_modules fields messages r.0 r.1

unfoldable pub shared_groups : List Group → List Group
shared_groups [] = []
shared_groups (g ∷ groups) =
    let rest = shared_groups groups in if in_component g.declared_in then g ∷ rest else rest

unfoldable pub name_enums :
    List Field → RustNames → Namespace → List Renamed → Result RustError (RustNames × List Renamed)
unfolding conversion_of claim_enum name_enum
name_enums [] names root warnings = ok (names, warnings)
name_enums (f ∷ fields) names root warnings =
    let skipped = name_enums fields names root warnings in
    let later = name_enums fields in
    if not (is_enum (conversion_of f))
    then skipped
    else (on_claimed (claim_enum root f.name warnings) >>= λ c.
        name_enum f c.0 names c.1 >>= λ r. later r.0 c.2 r.1)

unfoldable pub name_messages :
    List Field → List MessageView → RustNames → Result RustError RustNames
unfolding name_accessors with_generated message_names members_of
name_messages fields [] names = ok names
name_messages fields (m ∷ messages) names =
    name_accessors fields (members_of fields m.members) names (with_generated message_names)
    >>= name_messages fields messages

unfoldable pub name_instances : List Field → List Group → RustNames → Result RustError RustNames
unfolding name_accessors with_generated instance_names members_of
name_instances fields [] names = ok names
name_instances fields (g ∷ groups) names =
    let skipped = name_instances fields groups names in
    let later = name_instances fields groups in
    if not (is_generated g.declared_in)
    then skipped
    else (name_accessors fields (members_of fields g.members) names (with_generated instance_names)
        >>= later)

-- `Names::new`
unfoldable pub new_names : Dictionary → List Renamed → Result RustError (RustNames × List Renamed)
unfolding with_generated root_names claim_messages messages_of name_message_modules claim_groups
    shared_groups declared_groups name_section name_enums name_messages name_instances
new_names d warnings =
    let fields = fields_of d in
    let messages = messages_of d in
    let groups = declared_groups d in
    claim_messages messages (with_generated root_names) (with_generated unrecognized) >>= λ root.
    name_message_modules fields messages no_names root >>= λ m.
    claim_groups fields (shared_groups groups) m.0 m.1 >>= λ g.
    name_section header_section d g.0 >>= λ h. name_section trailer_section d h >>= λ t.
    name_enums fields t g.1 warnings >>= λ e. name_messages fields messages e.0 >>= λ a.
    name_instances fields groups a >>= λ names. ok (names, e.1)
