-- ===== src/Codegen/Rust/Methods.antt =====
-- rust/names.rs, `Names::new`: the methods of every message and of every group instance.
use refix.Codegen.Rust.Naming.{RustError}
use refix.Codegen.Rust.Reserved.{root_names, message_names, instance_names, unrecognized}
use refix.Codegen.Rust.Names.{
  RustNames, no_names, claim_groups, name_accessors, name_section, claim_messages,
  name_message_modules, shared_groups, name_enums, name_messages, name_instances, new_names,
}
use refix.Codegen.Rust.Accessors.{AreNamed, Accesses, accesses, stops, name_accessors-Accesses}
use refix.Codegen.Namespace.{Renamed, with_generated}
use refix.Codegen.Namespace.Scopes.{AreSettled, IsScope-AreSettled, with_generated-IsScope}
use refix.Dictionary.Spec.{Name, Field, MemberContext}
use refix.Dictionary.Views.{Group, MemberView, members_of, MessageView, messages_of, fields_of}
use refix.Base.Result.{Result, ok, err, bind-eq-ok, ok-injective}
use refix.Codegen.Adds.{AddsAll, AddsAll-nil, AddsAll-cons}
use refix.Base.{
  ℕ, ◌≡◌, refl, sym, ap, ◌∙◌, subst, inl, inr, true, some, List, [], ◌∷◌, Bool-cases, get_elem?,
}
use refix.Codegen.Groups.{is_generated, declared_groups}
use refix.Dictionary.Resolver.{Dictionary}
use refix.Codegen.Envelope.{header_section, trailer_section}

-- All methods of `members` have names: different ones, and none of the reserved ones.
pub record HasMethods (fields : List Field) (groups : List (MemberContext × Name))
    (reserved : List Name) (members : List MemberView) : Type 0 where
  pub methods : List Name
  pub named : AreNamed fields groups members methods
  pub settled : AreSettled reserved methods

-- The loop keeps the groups' names, and its members have methods.
record Adds (fields : List Field) (reserved : List Name) (members : List MemberView)
    (names after : RustNames) : Type 0 where
  kept : after.groups ≡ names.groups
  has : HasMethods fields names.groups reserved members

Accesses-Adds :
    (fields : List Field) (reserved : List Name) (members : List MemberView)
    (names after : RustNames) (r : Result RustError RustNames)
    → r ≡ ok after
    → Accesses fields reserved [] members names r
    → Adds fields reserved members names after
Accesses-Adds fields reserved members names after (ok got) e (accesses scope taken named s same) =
    let e' : got ≡ after = cc in
    record {
      kept = subst (λ a. a.groups ≡ names.groups) e' same;
      has = record {
        methods = taken;
        named = named;
        settled = IsScope-AreSettled reserved taken scope s;
      };
    }
Accesses-Adds fields reserved members names after (err _) e stops = absurd (cc)

name_accessors-Adds :
    (fields : List Field) (reserved : List Name) (members : List MemberView)
    (names after : RustNames)
    → name_accessors fields members names (with_generated reserved) ≡ ok after
    → Adds fields reserved members names after
name_accessors-Adds fields reserved members names after e =
    Accesses-Adds fields reserved members names after _ e (
      name_accessors-Accesses fields reserved [] members names (with_generated reserved)
        (with_generated-IsScope reserved))

abbrev groups_of : RustNames → List (MemberContext × Name)
groups_of names = names.groups

abbrev MessageHas : List Field → MessageView → List (MemberContext × Name) → Type 0
MessageHas fields m groups = HasMethods fields groups message_names (members_of fields m.members)

abbrev InstanceHas : List Field → Group → List (MemberContext × Name) → Type 0
InstanceHas fields g groups =
    is_generated g.declared_in ≡ true
    → HasMethods fields groups instance_names (members_of fields g.members)

name_messages-AddsAll :
    (fields : List Field) (messages : List MessageView) (names after : RustNames)
    → name_messages fields messages names ≡ ok after
    → AddsAll groups_of (MessageHas fields) messages names after
unfolding name_messages
name_messages-AddsAll fields [] names after e =
    AddsAll-nil groups_of (MessageHas fields) names after (ok-injective e)
name_messages-AddsAll fields (m ∷ messages) names after e =
    let members = members_of fields m.members in
    let (mid, e1, e2) =
      bind-eq-ok (name_accessors fields members names (with_generated message_names)) _ e in
    let a = name_accessors-Adds fields message_names members names mid e1 in
    AddsAll-cons groups_of (MessageHas fields) m messages names mid after a.kept a.has
      (name_messages-AddsAll fields messages mid after e2)

name_instances-AddsAll :
    (fields : List Field) (groups : List Group) (names after : RustNames)
    → name_instances fields groups names ≡ ok after
    → AddsAll groups_of (InstanceHas fields) groups names after
unfolding name_instances
name_instances-AddsAll fields [] names after e =
    AddsAll-nil groups_of (InstanceHas fields) names after (ok-injective e)
name_instances-AddsAll fields (g ∷ groups) names after e =
    elim (Bool-cases (is_generated g.declared_in)) [
      | inr left ↦
          AddsAll-cons groups_of (InstanceHas fields) g groups names names after refl
            (λ here. absurd (cc)) (name_instances-AddsAll fields groups names after (rw left at e))
      | inl here ↦
          let members = members_of fields g.members in
          let (mid, e1, e2) =
            bind-eq-ok (name_accessors fields members names (with_generated instance_names)) _
              (rw here at e) in
          let a = name_accessors-Adds fields instance_names members names mid e1 in
          AddsAll-cons groups_of (InstanceHas fields) g groups names mid after a.kept (λ _. a.has)
            (name_instances-AddsAll fields groups mid after e2)
    ]

-- The methods of every message and of every group instance that gets a type.
pub record HaveMethods (d : Dictionary) (names : RustNames) : Type 0 where
  pub in_message :
      (i : ℕ) (m : MessageView)
      → get_elem? (messages_of d) i ≡ some m
      → HasMethods (fields_of d) names.groups message_names (members_of (fields_of d) m.members)
  pub in_instance :
      (i : ℕ) (g : Group)
      → get_elem? (declared_groups d) i ≡ some g
      → is_generated g.declared_in ≡ true
      → HasMethods (fields_of d) names.groups instance_names (members_of (fields_of d) g.members)

HaveMethods-of :
    (d : Dictionary) (before mid names : RustNames)
    → AddsAll groups_of (MessageHas (fields_of d)) (messages_of d) before mid
    → AddsAll groups_of (InstanceHas (fields_of d)) (declared_groups d) mid names
    → HaveMethods d names
HaveMethods-of d before mid names m g = record {
  in_message =
      λ i x there. subst (MessageHas (fields_of d) x) (sym (g.kept ∙ m.kept)) (m.has i x there);
  in_instance = λ i x there. subst (InstanceHas (fields_of d) x) (sym g.kept) (g.has i x there);
}

-- For every dictionary for which Names::new of the Rust names gives names: in each message, and in
-- each instance of a declared group that gets a type, the methods of the members have names, a
-- field by the rule of method_name, a group that gets a type by its entry in the map of groups;
-- these names are all different, and none is one of those that every message, or every instance,
-- defines.
pub new_names-HaveMethods :
    (d : Dictionary) (warnings after : List Renamed) (names : RustNames)
    → new_names d warnings ≡ ok (names, after)
    → HaveMethods d names
unfolding new_names
new_names-HaveMethods d warnings after names e =
    let (_, _, e1) =
      bind-eq-ok
        (claim_messages (messages_of d) (with_generated root_names) (with_generated unrecognized)) _
        e in
    let (m, _, e2) =
      bind-eq-ok (name_message_modules (fields_of d) (messages_of d) no_names _) _ e1 in
    let (g, _, e3) =
      bind-eq-ok (claim_groups (fields_of d) (shared_groups (declared_groups d)) m.0 m.1) _ e2 in
    let (h, _, e4) = bind-eq-ok (name_section header_section d g.0) _ e3 in
    let (t, _, e5) = bind-eq-ok (name_section trailer_section d h) _ e4 in
    let (enums, _, e6) = bind-eq-ok (name_enums (fields_of d) t g.1 warnings) _ e5 in
    let (a, messages, e7) = bind-eq-ok (name_messages (fields_of d) (messages_of d) enums.0) _ e6 in
    let (last, instances, e8) =
      bind-eq-ok (name_instances (fields_of d) (declared_groups d) a) _ e7 in
    let e9 : last ≡ names = ap (λ x. x.0) (ok-injective e8) in
    HaveMethods-of d enums.0 a names
      (name_messages-AddsAll (fields_of d) (messages_of d) enums.0 a messages)
      (name_instances-AddsAll (fields_of d) (declared_groups d) a names
        (subst (λ x. name_instances (fields_of d) (declared_groups d) a ≡ ok x) e9 instances))
