-- ===== src/Codegen/Python/Classes.antt =====
-- python/names.rs, `Names::new`: the members of every class.
use refix.Codegen.Python.Reserved.{module_names, class_names, view_names, instance_class_names}
use refix.Codegen.Python.Names.{
  PythonNames, no_names, claim_messages, name_groups, claim_classes, name_properties, name_section,
  name_enums, name_messages, name_instances, new_names,
}
use refix.Codegen.Python.Properties.{
  GroupMap, AreClasses, AreProperties, claim_classes-TakesClasses, name_properties-TakesProperties,
}
use refix.Codegen.Namespace.{Renamed, with_generated}
use refix.Dictionary.Resolver.{Dictionary}
use refix.Dictionary.Spec.{Name, Field}
use refix.Codegen.Adds.{AddsAll, AddsAll-nil, AddsAll-cons}
use refix.Codegen.Groups.{is_generated, same_context, declared_groups, groups_where, in_message}
use refix.Codegen.Envelope.{
  Section, header_section, trailer_section, section_context, section_members,
}
use refix.Codegen.Namespace.Scopes.{AreSettled, with_generated-IsScope}
use refix.Dictionary.Views.{Group, MemberView, members_of, MessageView, messages_of, fields_of}
use refix.Base.Result.{ok, ◌>>=◌, bind-eq-ok, ok-injective}
use refix.Base.{
  ℕ, ◌≡◌, refl, sym, ap, ◌∙◌, subst, inl, inr, true, some, List, [], ◌∷◌, ◌++◌, Bool-cases,
  get_elem?,
}

-- A class for `members`, with the classes of the groups `declared` in it: all their names are
-- different, and none is one of the reserved ones.
pub record HasClass (fields : List Field) (reserved : List Name) (declared : List Group)
    (members : List MemberView) (groups : GroupMap) : Type 0 where
  pub classes : List Name
  pub properties : List Name
  pub classes_named : AreClasses fields groups declared classes
  pub properties_named : AreProperties fields groups members properties
  pub settled : AreSettled reserved (classes ++ properties)

abbrev groups_of : PythonNames → GroupMap
groups_of names = names.groups

-- A step that names a class, and leaves the groups' names as they are.
record AddsClass (fields : List Field) (reserved : List Name) (declared : List Group)
    (members : List MemberView) (names after : PythonNames) : Type 0 where
  kept : after.groups ≡ names.groups
  has : HasClass fields reserved declared members names.groups

class-AddsClass :
    (fields : List Field) (reserved : List Name) (declared : List Group) (members : List MemberView)
    (names after : PythonNames)
    → (claim_classes fields declared names (with_generated reserved)
        >>= name_properties fields members names)
      ≡ ok after
    → AddsClass fields reserved declared members names after
class-AddsClass fields reserved declared members names after e =
    let (n, e1, e2) =
      bind-eq-ok (claim_classes fields declared names (with_generated reserved)) _ e in
    let c =
      claim_classes-TakesClasses fields reserved [] declared names (with_generated reserved) n e1
        (with_generated-IsScope reserved) in
    let p =
      name_properties-TakesProperties fields reserved c.taken members names n after e2 c.is_scope in
    record {
      kept = p.kept;
      has = record {
        classes = c.taken;
        properties = p.taken;
        classes_named = c.classes;
        properties_named = p.properties;
        settled = p.settled;
      };
    }

abbrev MessageHas : List Field → MessageView → GroupMap → Type 0
MessageHas fields m groups =
    let members = members_of fields m.members in
    HasClass fields class_names (groups_where in_message members) members groups

abbrev InstanceHas : List Field → Group → GroupMap → Type 0
InstanceHas fields g groups =
    is_generated g.declared_in ≡ true
    → HasClass fields instance_class_names [] (members_of fields g.members) groups

abbrev SectionHas : Dictionary → Section → GroupMap → Type 0
SectionHas d s groups =
    let members = members_of (fields_of d) (section_members s d) in
    HasClass (fields_of d) view_names (groups_where (same_context (section_context s)) members)
      members groups

name_messages-AddsAll :
    (fields : List Field) (messages : List MessageView) (names after : PythonNames)
    → name_messages fields messages names ≡ ok after
    → AddsAll groups_of (MessageHas fields) messages names after
unfolding name_messages
name_messages-AddsAll fields [] names after e =
    AddsAll-nil groups_of (MessageHas fields) names after (ok-injective e)
name_messages-AddsAll fields (m ∷ messages) names after e =
    let members = members_of fields m.members in
    let (n, e1, e2) =
      bind-eq-ok
        (claim_classes fields (groups_where in_message members) names (with_generated class_names))
        _ e in
    let (mid, e3, e4) = bind-eq-ok (name_properties fields members names n) _ e2 in
    let a =
      class-AddsClass fields class_names (groups_where in_message members) members names mid
        (rw e1 e3) in
    AddsAll-cons groups_of (MessageHas fields) m messages names mid after a.kept a.has
      (name_messages-AddsAll fields messages mid after e4)

name_section-AddsClass :
    (s : Section) (d : Dictionary) (names after : PythonNames)
    → name_section s d names ≡ ok after
    → AddsClass
        (fields_of d)
        view_names
        (groups_where
          (same_context (section_context s))
          (members_of (fields_of d) (section_members s d)))
        (members_of (fields_of d) (section_members s d))
        names
        after
unfolding name_section
name_section-AddsClass s d names after =
    class-AddsClass (fields_of d) view_names
      (groups_where (same_context (section_context s))
        (members_of (fields_of d) (section_members s d)))
      (members_of (fields_of d) (section_members s d)) names after

name_instances-AddsAll :
    (fields : List Field) (groups : List Group) (names after : PythonNames)
    → name_instances fields groups names ≡ ok after
    → AddsAll groups_of (InstanceHas fields) groups names after
unfolding name_instances
name_instances-AddsAll fields [] names after e =
    AddsAll-nil groups_of (InstanceHas fields) names after (ok-injective e)
name_instances-AddsAll fields (g ∷ groups) names after e =
    elim (Bool-cases (is_generated g.declared_in)) [
      | inr left ↦
          AddsAll-cons groups_of (InstanceHas fields) g groups names names after refl
            (λ here. absurd (cc)) (name_instances-AddsAll fields groups names after (rw left at e))
      | inl here ↦
          let members = members_of fields g.members in
          let (mid, e1, e2) =
            bind-eq-ok (name_properties fields members names (with_generated instance_class_names))
              _ (rw here at e) in
          let a =
            class-AddsClass fields instance_class_names [] members names mid
              (unfold claim_classes in e1) in
          AddsAll-cons groups_of (InstanceHas fields) g groups names mid after a.kept (λ _. a.has)
            (name_instances-AddsAll fields groups mid after e2)
    ]

-- The classes of every message, of every group instance that gets one, and of header and trailer.
pub record HaveClasses (d : Dictionary) (names : PythonNames) : Type 0 where
  pub messages :
      (i : ℕ) (m : MessageView)
      → get_elem? (messages_of d) i ≡ some m
      → HasClass
          (fields_of d)
          class_names
          (groups_where in_message (members_of (fields_of d) m.members))
          (members_of (fields_of d) m.members)
          names.groups
  pub instances :
      (i : ℕ) (g : Group)
      → get_elem? (declared_groups d) i ≡ some g
      → is_generated g.declared_in ≡ true
      → HasClass
          (fields_of d)
          instance_class_names
          []
          (members_of (fields_of d) g.members)
          names.groups
  pub sections :
      (s : Section)
      → HasClass
          (fields_of d)
          view_names
          (groups_where
            (same_context (section_context s))
            (members_of (fields_of d) (section_members s d)))
          (members_of (fields_of d) (section_members s d))
          names.groups

abbrev AddsSection : Dictionary → Section → PythonNames → PythonNames → Type 0
AddsSection d s names after =
    let members = members_of (fields_of d) (section_members s d) in
    AddsClass (fields_of d) view_names (groups_where (same_context (section_context s)) members)
      members names after

HaveClasses-of :
    (d : Dictionary) (start m h t names : PythonNames)
    → AddsAll groups_of (MessageHas (fields_of d)) (messages_of d) start m
    → AddsSection d header_section m h
    → AddsSection d trailer_section h t
    → AddsAll groups_of (InstanceHas (fields_of d)) (declared_groups d) t names
    → HaveClasses d names
HaveClasses-of d start m h t names m_has in_header in_trailer g_has =
    let from_t : t.groups ≡ names.groups = sym g_has.kept in
    let from_h : h.groups ≡ names.groups = sym in_trailer.kept ∙ from_t in
    let from_m : m.groups ≡ names.groups = sym in_header.kept ∙ from_h in
    record {
      messages = λ i x there.
          subst (MessageHas (fields_of d) x) (sym m_has.kept ∙ from_m) (m_has.has i x there);
      instances = λ i x there. subst (InstanceHas (fields_of d) x) from_t (g_has.has i x there);
      sections = λ s. elim s as (λ k. SectionHas d k names.groups) [
        | header_section ↦ subst (SectionHas d header_section) from_m in_header.has
        | trailer_section ↦ subst (SectionHas d trailer_section) from_h in_trailer.has
      ];
    }

-- For every dictionary for which Names::new of the Python names gives names: in the class of each
-- message, of each instance of a declared group that gets a type, and of the views of header and
-- trailer, the classes of the groups declared there have the names in the map of groups, the
-- members have properties, a field by the rule of property_name, with one more for its nanoseconds
-- where it has them, a group that gets a type by its entry; all these names are different, and
-- none is one of those that every such class defines or relies on.
pub new_names-HaveClasses :
    (d : Dictionary) (warnings after : List Renamed) (names : PythonNames)
    → new_names d warnings ≡ ok (names, after)
    → HaveClasses d names
unfolding new_names
new_names-HaveClasses d warnings after names e =
    let (n, _, e1) =
      bind-eq-ok (claim_messages (messages_of d) (with_generated module_names)) _ e in
    let (g, _, e2) = bind-eq-ok (name_groups (fields_of d) (declared_groups d) no_names n) _ e1 in
    let (enums, _, e3) = bind-eq-ok (name_enums (fields_of d) g.0 g.1 warnings) _ e2 in
    let (m, messages, e4) = bind-eq-ok (name_messages (fields_of d) (messages_of d) enums.0) _ e3 in
    let (h, in_header, e5) = bind-eq-ok (name_section header_section d m) _ e4 in
    let (t, in_trailer, e6) = bind-eq-ok (name_section trailer_section d h) _ e5 in
    let (last, instances, e7) =
      bind-eq-ok (name_instances (fields_of d) (declared_groups d) t) _ e6 in
    let same : last ≡ names = ap (λ x. x.0) (ok-injective e7) in
    HaveClasses-of d enums.0 m h t names
      (name_messages-AddsAll (fields_of d) (messages_of d) enums.0 m messages)
      (name_section-AddsClass header_section d m h in_header)
      (name_section-AddsClass trailer_section d h t in_trailer)
      (name_instances-AddsAll (fields_of d) (declared_groups d) t names
        (subst (λ x. name_instances (fields_of d) (declared_groups d) t ≡ ok x) same instances))
