-- ===== src/Codegen/Rust/Keeps.antt =====
-- rust/names.rs: what the steps of `Names::new` leave as it is: the names of message modules and of
-- enums, and, where a step names groups, the accessors.
use refix.Codegen.Rust.Naming.{name_clash, panic, or_error, method_name, group_name}
use refix.Codegen.Rust.Reserved.{message_names, instance_names}
use refix.Codegen.Rust.Names.{
  RustNames, claim_name, claim_group, claim_groups, name_accessors, name_section, name_messages,
  name_instances,
}
use refix.Codegen.Groups.{
  is_generated, instance_context, same_context, lookup_context, groups_where,
}
use refix.Codegen.Envelope.{Section, section_context, section_members}
use refix.Codegen.Namespace.{
  Owner, owner_field, owner_group, Namespace, empty_namespace, with_generated,
}
use refix.Codegen.Namespace.Claims.{Takes, converted-Takes}
use refix.Dictionary.Spec.{Name, Field}
use refix.Dictionary.Resolver.{Dictionary}
use refix.Dictionary.Views.{
  Group, MemberView, of_field, of_group, members_of, MessageView, fields_of,
}
use refix.Base.Result.{ok, bind-eq-ok, ok-injective}
use refix.Base.{◌≡◌, sym, ap, ◌∙◌, inl, inr, List, [], ◌∷◌, Bool-cases}

abbrev pub Keeps : RustNames → RustNames → Type 0
Keeps names after = (after.message_modules ≡ names.message_modules) × (after.enums ≡ names.enums)

pub Keeps-trans : (a b c : RustNames) → Keeps a b → Keeps b c → Keeps a c
Keeps-trans a b c k l = (l.0 ∙ k.0, l.1 ∙ k.1)

Keeps-same : (a b : RustNames) → a ≡ b → Keeps a b
Keeps-same a b e = (ap (λ x. x.message_modules) (sym e), ap (λ x. x.enums) (sym e))

pub claim_name-Takes :
    (n : Namespace) (name : Name) (owner : Owner) (after : Namespace)
    → claim_name n name owner ≡ ok after
    → Takes n name owner after
claim_name-Takes n name owner after = converted-Takes name_clash n name owner after

pub claim_groups-Keeps :
    (fields : List Field) (groups : List Group) (names : RustNames) (n : Namespace)
    (r : RustNames × Namespace)
    → claim_groups fields groups names n ≡ ok r
    → Keeps names r.0
unfolding claim_groups claim_group
claim_groups-Keeps fields [] names n r e =
    let same : names ≡ r.0 = ap (λ x. x.0) (ok-injective e) in Keeps-same names r.0 same
claim_groups-Keeps fields (g ∷ groups) names n r e =
    let (mid, here, later) = bind-eq-ok (claim_group fields names n g) _ e in
    let (name, _, here1) = bind-eq-ok (group_name fields g) _ here in
    let (taken, _, here2) =
      bind-eq-ok (claim_name n name (owner_group (instance_context fields g))) _ here1 in
    Keeps-trans names mid.0 r.0 (Keeps-same _ mid.0 (ap (λ x. x.0) (ok-injective here2)))
      (claim_groups-Keeps fields groups mid.0 mid.1 r later)

pub name_accessors-Keeps :
    (fields : List Field) (members : List MemberView) (names : RustNames) (n : Namespace)
    (after : RustNames)
    → name_accessors fields members names n ≡ ok after
    → Keeps names after
unfolding name_accessors
name_accessors-Keeps fields [] names n after e = Keeps-same names after (ok-injective e)
name_accessors-Keeps fields (of_field f _ ∷ members) names n after e =
    let (name, _, e1) = bind-eq-ok (method_name f) _ e in
    let (taken, _, e2) = bind-eq-ok (claim_name n name (owner_field f.name)) _ e1 in
    name_accessors-Keeps fields members
      (record names { accessors = (f.tag, name) ∷ names.accessors }) taken after e2
name_accessors-Keeps fields (of_group g ∷ members) names n after e =
    elim (Bool-cases (is_generated g.declared_in)) [
      | inr left ↦ name_accessors-Keeps fields members names n after (rw left at e)
      | inl here ↦
          let (name, _, e1) =
            bind-eq-ok (or_error panic (lookup_context (instance_context fields g) names.groups)) _
              (rw here at e) in
          let (taken, _, e2) =
            bind-eq-ok (claim_name n name (owner_group (instance_context fields g))) _ e1 in
          name_accessors-Keeps fields members names taken after e2
    ]

pub name_section-Keeps :
    (s : Section) (d : Dictionary) (names after : RustNames)
    → name_section s d names ≡ ok after
    → Keeps names after
unfolding name_section
name_section-Keeps s d names after e =
    let members = members_of (fields_of d) (section_members s d) in
    let (r, e1, e2) =
      bind-eq-ok
        (claim_groups (fields_of d) (groups_where (same_context (section_context s)) members) names
          empty_namespace)
        _ e in
    Keeps-trans names r.0 after
      (claim_groups-Keeps (fields_of d) (groups_where (same_context (section_context s)) members)
        names empty_namespace r e1)
      (name_accessors-Keeps (fields_of d) members r.0 (with_generated instance_names) after e2)

pub name_messages-Keeps :
    (fields : List Field) (messages : List MessageView) (names after : RustNames)
    → name_messages fields messages names ≡ ok after
    → Keeps names after
unfolding name_messages
name_messages-Keeps fields [] names after e = Keeps-same names after (ok-injective e)
name_messages-Keeps fields (m ∷ messages) names after e =
    let (mid, e1, e2) =
      bind-eq-ok
        (name_accessors fields (members_of fields m.members) names (with_generated message_names)) _
        e in
    Keeps-trans names mid after
      (name_accessors-Keeps fields (members_of fields m.members) names
        (with_generated message_names) mid e1)
      (name_messages-Keeps fields messages mid after e2)

pub name_instances-Keeps :
    (fields : List Field) (groups : List Group) (names after : RustNames)
    → name_instances fields groups names ≡ ok after
    → Keeps names after
unfolding name_instances
name_instances-Keeps fields [] names after e = Keeps-same names after (ok-injective e)
name_instances-Keeps fields (g ∷ groups) names after e =
    elim (Bool-cases (is_generated g.declared_in)) [
      | inr left ↦ name_instances-Keeps fields groups names after (rw left at e)
      | inl here ↦
          let (mid, e1, e2) =
            bind-eq-ok
              (name_accessors fields (members_of fields g.members) names
                (with_generated instance_names))
              _ (rw here at e) in
          Keeps-trans names mid after
            (name_accessors-Keeps fields (members_of fields g.members) names
              (with_generated instance_names) mid e1)
            (name_instances-Keeps fields groups mid after e2)
    ]
