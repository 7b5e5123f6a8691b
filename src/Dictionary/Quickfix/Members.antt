-- ===== src/Dictionary/Quickfix/Members.antt =====
-- quickfix.rs: members of sections, messages, components and groups. The warnings so far are passed
-- along.
use refix.Base.{Bool, Option, none, some, List, [], ◌∷◌, ◌++◌, if◌then◌else◌, equal}
use refix.Base.Text.{codes}
use refix.Base.Result.{Result, ok, err, ◌>>=◌}
use refix.Tags.{Tag}
use refix.Dictionary.Spec.{
  Name, FieldRef, ComponentRef, Member, field, component, group, Members, no_members, and_member,
  Message, Component, MemberContext,
}
use refix.Dictionary.Checks.{lookup}
use refix.Dictionary.Tags.{group_context}
use refix.Dictionary.Quickfix.Xml.{
  Node, element, other_node, Nodes, no_nodes, and_node, ReadError, unknown_name, Warning,
  unsupported_element, children, find_child, children_named, string_attribute, required_attribute,
  parse_category,
}

-- A map of the tags of fields by their names.
abbrev pub TagsByName : Type 0
TagsByName = List (Name × Tag)

abbrev pub ref_of :
    MemberContext → Name → Option Tag → Result ReadError Bool → Result ReadError FieldRef
ref_of context name none required = err (unknown_name context name)
ref_of context name (some tag) required =
    required >>= λ is_required. ok (record { tag = tag; is_required = is_required })

unfoldable pub parse_field_ref : Node → MemberContext → TagsByName → Result ReadError FieldRef
unfolding string_attribute lookup required_attribute
parse_field_ref node context tags_by_name = do
  name ← string_attribute node (codes "name")
  ref_of context name (lookup name tags_by_name) (required_attribute node)

unfoldable pub parse_component_ref : Node → Result ReadError ComponentRef
unfolding string_attribute required_attribute
parse_component_ref node = do
  name ← string_attribute node (codes "name")
  is_required ← required_attribute node
  ok (record { name = name; is_required = is_required })

-- A member in front of those read behind it.
abbrev pub in_front :
    Member → Result ReadError (Members × List Warning) → Result ReadError (Members × List Warning)
in_front m later = later >>= λ r. ok (and_member m r.0, r.1)

-- `parse_members`, on the children of a node, with `parse_group` written out.
unfoldable pub parse_members :
    MemberContext → TagsByName → Nodes → List Warning → Result ReadError (Members × List Warning)
unfolding equal parse_field_ref parse_component_ref string_attribute
parse_members context tags_by_name no_nodes warnings = ok (no_members, warnings)
parse_members context tags_by_name (and_node other_node nodes) warnings =
    parse_members context tags_by_name nodes warnings
parse_members context tags_by_name (and_node (element tag attributes inner) nodes) warnings =
    let child = element tag attributes inner in
    let later = parse_members context tags_by_name nodes in
    let in_group = λ (name : Name). parse_members (group_context context name) tags_by_name inner in
    if equal tag (codes "field")
    then (parse_field_ref child context tags_by_name >>= λ r. in_front (field r) (later warnings))
    else if equal tag (codes "component")
    then (parse_component_ref child >>= λ r. in_front (component r) (later warnings))
    else if equal tag (codes "group")
    then (parse_field_ref child context tags_by_name >>= λ count.
        string_attribute child (codes "name") >>= λ name. in_group name warnings >>= λ r.
        in_front (group count.tag count.is_required r.0) (later r.1))
    else later (warnings ++ unsupported_element context tag ∷ [])

unfoldable pub parse_section :
    Node
    → Name
    → MemberContext
    → TagsByName
    → List Warning
    → Result ReadError (Members × List Warning)
unfolding find_child parse_members
parse_section root name context tags_by_name warnings = elim (find_child name (children root)) [
  | none ↦ ok (no_members, warnings)
  | some section ↦ parse_members context tags_by_name (children section) warnings
]

unfoldable pub parse_component :
    TagsByName → Node → List Warning → Result ReadError (Component × List Warning)
unfolding string_attribute parse_members
parse_component tags_by_name node warnings = do
  name ← string_attribute node (codes "name")
  r ← parse_members (MemberContext.component name) tags_by_name (children node) warnings
  ok (record { name = name; members = r.0 }, r.1)

unfoldable pub parse_message :
    TagsByName → Node → List Warning → Result ReadError (Message × List Warning)
unfolding string_attribute parse_category parse_members
parse_message tags_by_name node warnings = do
  name ← string_attribute node (codes "name")
  category ← parse_category node
  r ← parse_members (MemberContext.message name) tags_by_name (children node) warnings
  msg_type ← string_attribute node (codes "msgtype")
  ok (record { name = name; msg_type = msg_type; members = r.0; category = category }, r.1)

-- `map` of a parser over nodes, and `collect`, which stops at the first error.
unfoldable pub parse_each :
    {A : Type 0}
    → (Node → List Warning → Result ReadError (A × List Warning))
    → List Node
    → List Warning
    → Result ReadError (List A × List Warning)
parse_each parse [] warnings = ok ([], warnings)
parse_each parse (n ∷ nodes) warnings = do
  first ← parse n warnings
  rest ← parse_each parse nodes first.1
  ok (first.0 ∷ rest.0, rest.1)

-- `parse_components` and `parse_messages`: what is parsed of each `item` in the section `name`.
unfoldable pub parse_items :
    {A : Type 0}
    → (Node → List Warning → Result ReadError (A × List Warning))
    → Name
    → Name
    → Node
    → List Warning
    → Result ReadError (List A × List Warning)
unfolding find_child children_named parse_each
parse_items parse name item root warnings = elim (find_child name (children root)) [
  | none ↦ ok ([], warnings)
  | some section ↦ parse_each parse (children_named item (children section)) warnings
]

abbrev pub parse_components :
    Node → TagsByName → List Warning → Result ReadError (List Component × List Warning)
parse_components root tags_by_name warnings =
    parse_items (parse_component tags_by_name) (codes "components") (codes "component") root
      warnings

abbrev pub parse_messages :
    Node → TagsByName → List Warning → Result ReadError (List Message × List Warning)
parse_messages root tags_by_name warnings =
    parse_items (parse_message tags_by_name) (codes "messages") (codes "message") root warnings
