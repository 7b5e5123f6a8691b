-- ===== src/Codegen/Rust/Root.antt =====
-- rust/names.rs, `Names::new`: the steps that name items at the root of the generated code.
use refix.Codegen.Rust.Naming.{group_name, message_module_name}
use refix.Codegen.Rust.Reserved.{root_names, unrecognized}
use refix.Codegen.Rust.Names.{
  EnumNames, RustNames, claim_name, claim_group, claim_groups, name_module, name_message_module,
  claim_messages, name_message_modules,
}
use refix.Codegen.Rust.Keeps.{Keeps, claim_name-Takes, claim_groups-Keeps}
use refix.Codegen.Namespace.{Owner, owner_message, owner_group, Namespace, empty_namespace}
use refix.Codegen.Namespace.Scopes.{
  count_name, count_name-append, append_one, IsScope, AreSettled, IsScope-AreSettled,
  IsScope-reordered, Takes-IsScope,
}
use refix.Dictionary.Spec.{Name, Field, Message}
use refix.Dictionary.Views.{Group, members_of, MessageView}
use refix.Tags.{Tag}
use refix.Codegen.Groups.{instance_context, groups_where, in_message}
use refix.Base.Result.{ok, bind-eq-ok, ok-injective}
use refix.Base.{◌+◌, ◌≡◌, refl, ap, subst, List, [], ◌∷◌, ◌++◌, map, append-nil, arith}

abbrev pub message_types : List MessageView → List Name
message_types messages = map (λ m. m.declared.name) messages

abbrev pub module_names : RustNames → List Name
module_names names = map (λ e. e.1) names.message_modules

abbrev pub enum_types : RustNames → List Name
enum_types names = map (λ e. e.1.type_name) names.enums

-- The items at the root: types of messages, modules of shared groups and of messages, and enums.
unfoldable pub root_items : List Name → List Name → RustNames → List Name
root_items types groups names = types ++ (groups ++ (module_names names ++ enum_types names))

-- Each group's name by the rule.
pub data AreGroupNames (fields : List Field) : List Group → List Name → Type 0 where
  no_groups : AreGroupNames fields [] []
  and_group :
      {g : Group} {groups : List Group} {name : Name} {names : List Name}
      → group_name fields g ≡ ok name
      → AreGroupNames fields groups names
      → AreGroupNames fields (g ∷ groups) (name ∷ names)

count-root_items :
    (x : Name) (types groups : List Name) (names : RustNames)
    → count_name x (root_items types groups names)
      ≡ count_name x types
        + (count_name x groups
            + (count_name x (module_names names) + count_name x (enum_types names)))
unfolding root_items
count-root_items x types groups names = omega (
  arith,
  count_name-append x types (groups ++ (module_names names ++ enum_types names)),
  count_name-append x groups (module_names names ++ enum_types names),
  count_name-append x (module_names names) (enum_types names),
)

count_name-cons :
    (x y : Name) (ys : List Name) → count_name x (y ∷ ys) ≡ count_name x (y ∷ []) + count_name x ys
unfolding count_name
count_name-cons x y ys = omega arith

pub root_items-Keeps :
    (types groups : List Name) (names after : RustNames)
    → Keeps names after
    → root_items types groups names ≡ root_items types groups after
unfolding root_items
root_items-Keeps types groups names after k = rw (k.0, k.1) refl

with_module :
    (types groups : List Name) (names mid : RustNames) (message_name name : Name)
    (scope : Namespace)
    → Keeps names mid
    → IsScope root_names (root_items types groups names ++ name ∷ []) scope
    → IsScope root_names
        (root_items types groups
          (record mid { message_modules = (message_name, name) ∷ mid.message_modules }))
        scope
with_module types groups names mid message_name name scope k s =
    let after = record mid { message_modules = (message_name, name) ∷ mid.message_modules } in
    IsScope-reordered root_names _ (root_items types groups after) scope
      (λ x. omega (
        arith,
        count-root_items x types groups after,
        count-root_items x types groups mid,
        count_name-append x (root_items types groups names) (name ∷ []),
        ap (count_name x) (root_items-Keeps types groups names mid k),
        count_name-cons x name (module_names mid),
      ))
      s

pub with_enum :
    (types groups : List Name) (names : RustNames) (tag : Tag) (enum : EnumNames)
    (scope : Namespace)
    → IsScope root_names (root_items types groups names ++ enum.type_name ∷ []) scope
    → IsScope root_names
        (root_items types groups (record names { enums = (tag, enum) ∷ names.enums }))
        scope
with_enum types groups names tag enum scope s =
    let after = record names { enums = (tag, enum) ∷ names.enums } in
    IsScope-reordered root_names _ (root_items types groups after) scope
      (λ x. omega (
        arith,
        count-root_items x types groups after,
        count-root_items x types groups names,
        count_name-append x (root_items types groups names) (enum.type_name ∷ []),
        count_name-cons x enum.type_name (enum_types names),
      ))
      s

pub with_groups :
    (types groups : List Name) (names mid : RustNames) (scope : Namespace)
    → Keeps names mid
    → IsScope root_names (root_items types [] names ++ groups) scope
    → IsScope root_names (root_items types groups mid) scope
unfolding count_name
with_groups types groups names mid scope k s =
    IsScope-reordered root_names _ (root_items types groups mid) scope
      (λ x. omega (
        arith,
        count-root_items x types groups mid,
        count-root_items x types [] mid,
        count_name-append x (root_items types [] names) groups,
        ap (count_name x) (root_items-Keeps types [] names mid k),
      ))
      s

-- A claim that took the name puts it behind the ones before.
claim_name-IsScope :
    (reserved before : List Name) (n : Namespace) (name : Name) (owner : Owner) (after : Namespace)
    → claim_name n name owner ≡ ok after
    → IsScope reserved before n
    → IsScope reserved (before ++ name ∷ []) after
claim_name-IsScope reserved before n name owner after e =
    Takes-IsScope reserved before n after name owner (claim_name-Takes n name owner after e)

pub claim_messages-IsScope :
    (before : List Name) (messages : List MessageView) (root variants after : Namespace)
    → claim_messages messages root variants ≡ ok after
    → IsScope root_names before root
    → IsScope unrecognized before variants
    → IsScope root_names (before ++ message_types messages) after
      × AreSettled unrecognized (before ++ message_types messages)
unfolding claim_messages
claim_messages-IsScope before [] root variants after e s v = rw (append-nil before) (
  subst (IsScope root_names before) (ok-injective e) s,
  IsScope-AreSettled unrecognized before variants v,
)
claim_messages-IsScope before (m ∷ messages) root variants after e s v =
    let name = m.declared.name in
    let (taken, e1, e2) = bind-eq-ok (claim_name root name (owner_message name)) _ e in
    let (more, e3, e4) = bind-eq-ok (claim_name variants name (owner_message name)) _ e2 in
    let later =
      claim_messages-IsScope (before ++ name ∷ []) messages taken more after e4
        (claim_name-IsScope root_names before root name (owner_message name) taken e1 s)
        (claim_name-IsScope unrecognized before variants name (owner_message name) more e3 v) in
    rw (append_one before name (message_types messages)) at later

name_module-IsScope :
    (types : List Name) (fields : List Field) (m : Message) (groups : List Group)
    (names : RustNames) (root : Namespace) (r : RustNames × Namespace)
    → name_module fields m groups names root ≡ ok r
    → IsScope root_names (root_items types [] names) root
    → IsScope root_names (root_items types [] r.0) r.1
name_module-IsScope types fields m [] names root r e s =
    subst (λ x. IsScope root_names (root_items types [] x.0) x.1) (ok-injective e) s
name_module-IsScope types fields m (g ∷ groups) names root r e s =
    let (name, _, e1) = bind-eq-ok (message_module_name m.name) _ e in
    let (taken, claimed_here, e2) = bind-eq-ok (claim_name root name (owner_message m.name)) _ e1 in
    let (mid, inner, e3) =
      bind-eq-ok (claim_groups fields (g ∷ groups) names empty_namespace) _ e2 in
    subst (λ x. IsScope root_names (root_items types [] x.0) x.1) (ok-injective e3)
      (with_module types [] names mid.0 m.name name taken
        (claim_groups-Keeps fields (g ∷ groups) names empty_namespace mid inner)
        (claim_name-IsScope root_names (root_items types [] names) root name (owner_message m.name)
          taken claimed_here s))

pub name_message_modules-IsScope :
    (types : List Name) (fields : List Field) (messages : List MessageView) (names : RustNames)
    (root : Namespace) (r : RustNames × Namespace)
    → name_message_modules fields messages names root ≡ ok r
    → IsScope root_names (root_items types [] names) root
    → IsScope root_names (root_items types [] r.0) r.1
unfolding name_message_modules name_message_module
name_message_modules-IsScope types fields [] names root r e s =
    subst (λ x. IsScope root_names (root_items types [] x.0) x.1) (ok-injective e) s
name_message_modules-IsScope types fields (m ∷ messages) names root r e s =
    let (mid, e1, e2) = bind-eq-ok (name_message_module fields m names root) _ e in
    name_message_modules-IsScope types fields messages mid.0 mid.1 r e2 (
      name_module-IsScope types fields m.declared
        (groups_where in_message (members_of fields m.members)) names root mid e1 s)

-- The groups that a loop named, in its scope.
pub record NamesGroups (fields : List Field) (reserved before : List Name) (groups : List Group)
    (scope : Namespace) : Type 0 where
  pub taken : List Name
  pub by_rule : AreGroupNames fields groups taken
  pub is_scope : IsScope reserved (before ++ taken) scope

pub claim_groups-NamesGroups :
    (fields : List Field) (reserved before : List Name) (groups : List Group) (names : RustNames)
    (n : Namespace) (r : RustNames × Namespace)
    → claim_groups fields groups names n ≡ ok r
    → IsScope reserved before n
    → NamesGroups fields reserved before groups r.1
unfolding claim_groups claim_group
claim_groups-NamesGroups fields reserved before [] names n r e s = record {
  taken = [];
  by_rule = no_groups;
  is_scope =
      rw (append-nil before) (subst (IsScope reserved before) (ap (λ x. x.1) (ok-injective e)) s);
}
claim_groups-NamesGroups fields reserved before (g ∷ groups) names n r e s =
    let owner = owner_group (instance_context fields g) in
    let (mid, here, later) = bind-eq-ok (claim_group fields names n g) _ e in
    let (name, named, here1) = bind-eq-ok (group_name fields g) _ here in
    let (after, claimed_here, here2) = bind-eq-ok (claim_name n name owner) _ here1 in
    let more =
      claim_groups-NamesGroups fields reserved (before ++ name ∷ []) groups mid.0 mid.1 r later (
        subst (IsScope reserved (before ++ name ∷ [])) (ap (λ x. x.1) (ok-injective here2))
          (claim_name-IsScope reserved before n name owner after claimed_here s)) in
    record {
      taken = name ∷ more.taken;
      by_rule = and_group named more.by_rule;
      is_scope =
          subst (λ l. IsScope reserved l r.1) (append_one before name more.taken) more.is_scope;
    }
