-- ===== src/Codegen/Rust/Items.antt =====
-- rust/names.rs, `Names::new`: the enums, and all items at the root.
use refix.Codegen.Conversion.{conversion_of, is_enum}
use refix.Codegen.Namespace.{
  owner_enum, Renamed, Namespace, with_generated, Claimed, claimed, clashes, stuck, claim_enum,
}
use refix.Codegen.Namespace.Claims.{Takes, IsEnumClaim, claim_enum-IsEnumClaim}
use refix.Dictionary.Spec.{Name, Field}
use refix.Dictionary.Resolver.{Dictionary}
use refix.Codegen.Rust.Root.{
  message_types, root_items, AreGroupNames, root_items-Keeps, with_enum, with_groups,
  claim_messages-IsScope, name_message_modules-IsScope, claim_groups-NamesGroups,
}
use refix.Codegen.Rust.Keeps.{
  Keeps-trans, claim_groups-Keeps, name_section-Keeps, name_messages-Keeps, name_instances-Keeps,
}
use refix.Codegen.Rust.Reserved.{root_names, unrecognized}
use refix.Codegen.Rust.Names.{
  EnumNames, RustNames, no_names, claim_groups, name_section, on_claimed, name_variants, name_enum,
  claim_messages, name_message_modules, shared_groups, name_enums, name_messages, name_instances,
  new_names,
}
use refix.Base.Result.{ok, bind-eq-ok, ok-injective}
use refix.Codegen.Namespace.Scopes.{
  IsScope, AreSettled, IsScope-AreSettled, Takes-IsScope, with_generated-IsScope,
}
use refix.Codegen.Envelope.{header_section, trailer_section}
use refix.Codegen.Groups.{declared_groups}
use refix.Dictionary.Views.{messages_of, fields_of}
use refix.Base.{◌≡◌, refl, sym, ap, subst, inl, inr, List, [], ◌∷◌, ◌++◌, append-nil, Bool-cases}
use refix.Tags.{Tag}

on_claimed-Takes :
    (n : Namespace) (field_name : Name) (warnings : List Renamed) (c : Claimed)
    (r : Name × List Renamed × Namespace)
    → IsEnumClaim n field_name warnings c
    → on_claimed c ≡ ok r
    → Takes n r.0 (owner_enum field_name) r.2
on_claimed-Takes n field_name warnings (claimed _ _ _) r (IsEnumClaim.own_name t) e =
    subst (λ x. Takes n x.0 (owner_enum field_name) x.2) (ok-injective e) t
on_claimed-Takes n field_name warnings (claimed _ _ _) r (IsEnumClaim.suffixed _ _ _ t) e =
    subst (λ x. Takes n x.0 (owner_enum field_name) x.2) (ok-injective e) t
on_claimed-Takes n field_name warnings (clashes _) r (IsEnumClaim.does_not_yield _ _ _) e =
    absurd (cc)
on_claimed-Takes n field_name warnings (clashes _) r (IsEnumClaim.both_taken _ _ _ _ _) e =
    absurd (cc)
on_claimed-Takes n field_name warnings stuck r no_claim e = elim no_claim [ ]

-- The enum that `name_enum` adds.
record AddsEnum (type_name : Name) (names after : RustNames) : Type 0 where
  tag : Tag
  enum : EnumNames
  named : enum.type_name ≡ type_name
  added : record names { enums = (tag, enum) ∷ names.enums } ≡ after

name_enum-AddsEnum :
    (f : Field) (type_name : Name) (names : RustNames) (warnings : List Renamed)
    (r : RustNames × List Renamed)
    → name_enum f type_name names warnings ≡ ok r
    → AddsEnum type_name names r.0
unfolding name_enum
name_enum-AddsEnum f type_name names warnings r e =
    let (v, _, e1) = bind-eq-ok (name_variants f f.values _) _ e in
    record {
      tag = f.tag;
      enum = record { type_name = type_name; variants = v.names };
      named = refl;
      added = ap (λ x. x.0) (ok-injective e1);
    }

name_enums-IsScope :
    (types groups : List Name) (fields : List Field) (names : RustNames) (root : Namespace)
    (warnings : List Renamed) (r : RustNames × List Renamed)
    → name_enums fields names root warnings ≡ ok r
    → IsScope root_names (root_items types groups names) root
    → (after : Namespace) × IsScope root_names (root_items types groups r.0) after
unfolding name_enums
name_enums-IsScope types groups [] names root warnings r e s =
    (root, subst (λ x. IsScope root_names (root_items types groups x.0) root) (ok-injective e) s)
name_enums-IsScope types groups (f ∷ fields) names root warnings r e s =
    elim (Bool-cases (is_enum (conversion_of f))) [
      | inr plain ↦ name_enums-IsScope types groups fields names root warnings r (rw plain at e) s
      | inl is_one ↦
          let (c, e1, e2) =
            bind-eq-ok (on_claimed (claim_enum root f.name warnings)) _ (rw is_one at e) in
          let (mid, e3, e4) = bind-eq-ok (name_enum f c.0 names c.1) _ e2 in
          let a = name_enum-AddsEnum f c.0 names c.1 mid e3 in
          let t =
            on_claimed-Takes root f.name warnings _ c (claim_enum-IsEnumClaim root f.name warnings)
              e1 in
          name_enums-IsScope types groups fields mid.0 c.2 mid.1 r e4 (
            subst (λ x. IsScope root_names (root_items types groups x) c.2) a.added
              (with_enum types groups names a.tag a.enum c.2 (
                subst (λ x. IsScope root_names (root_items types groups names ++ x ∷ []) c.2)
                  (sym a.named)
                  (Takes-IsScope root_names (root_items types groups names) root c.2 c.0
                    (owner_enum f.name) t s))))
    ]

-- The names at the root: different ones, and none that the root itself defines or relies on. A
-- message's variant is not `Unrecognized`.
pub record HasRoot (d : Dictionary) (names : RustNames) : Type 0 where
  pub groups : List Name
  pub by_rule : AreGroupNames (fields_of d) (shared_groups (declared_groups d)) groups
  pub settled : AreSettled root_names (root_items (message_types (messages_of d)) groups names)
  pub variants : AreSettled unrecognized (message_types (messages_of d))

empty_items : (types : List Name) → root_items types [] no_names ≡ types
unfolding root_items
empty_items types = append-nil types

-- For every dictionary for which Names::new of the Rust names gives names: the names at the root
-- of the generated code, which are the types of the messages, the modules of the shared groups,
-- each named by the rule of group_name, the modules of messages with groups of their own, and the
-- types of the enums, are all different, and none is one that the root itself defines or relies
-- on; and no two messages have the same variant, nor one Unrecognized.
pub new_names-HasRoot :
    (d : Dictionary) (warnings after : List Renamed) (names : RustNames)
    → new_names d warnings ≡ ok (names, after)
    → HasRoot d names
unfolding new_names
new_names-HasRoot d warnings after names e =
    let fields = fields_of d in
    let types = message_types (messages_of d) in
    let (root, c, e1) =
      bind-eq-ok
        (claim_messages (messages_of d) (with_generated root_names) (with_generated unrecognized)) _
        e in
    let (m, modules, e2) =
      bind-eq-ok (name_message_modules fields (messages_of d) no_names root) _ e1 in
    let (g, shared, e3) =
      bind-eq-ok (claim_groups fields (shared_groups (declared_groups d)) m.0 m.1) _ e2 in
    let (h, header_named, e4) = bind-eq-ok (name_section header_section d g.0) _ e3 in
    let (t, trailer_named, e5) = bind-eq-ok (name_section trailer_section d h) _ e4 in
    let (enums, named, e6) = bind-eq-ok (name_enums fields t g.1 warnings) _ e5 in
    let (a, messages, e7) = bind-eq-ok (name_messages fields (messages_of d) enums.0) _ e6 in
    let (last, instances, e8) = bind-eq-ok (name_instances fields (declared_groups d) a) _ e7 in
    let claimed_messages =
      claim_messages-IsScope [] (messages_of d) _ _ root c (with_generated-IsScope root_names)
        (with_generated-IsScope unrecognized) in
    let in_modules =
      name_message_modules-IsScope types fields (messages_of d) no_names root m modules
        (subst (λ l. IsScope root_names l root) (sym (empty_items types)) claimed_messages.0) in
    let n =
      claim_groups-NamesGroups fields root_names (root_items types [] m.0)
        (shared_groups (declared_groups d)) m.0 m.1 g shared in_modules in
    let in_groups =
      with_groups types n.taken m.0 g.0 g.1
        (claim_groups-Keeps fields (shared_groups (declared_groups d)) m.0 m.1 g shared)
        n.is_scope in
    let in_sections =
      subst (λ l. IsScope root_names l g.1)
        (root_items-Keeps types n.taken g.0 t (
          Keeps-trans g.0 h t (name_section-Keeps header_section d g.0 h header_named)
            (name_section-Keeps trailer_section d h t trailer_named)))
        in_groups in
    let (scope, all_in) =
      name_enums-IsScope types n.taken fields t g.1 warnings enums named in_sections in
    record {
      groups = n.taken;
      by_rule = n.by_rule;
      settled = IsScope-AreSettled root_names _ scope (
          subst (λ l. IsScope root_names l scope)
            (root_items-Keeps types n.taken enums.0 names (
              Keeps-trans enums.0 a names
                (name_messages-Keeps fields (messages_of d) enums.0 a messages)
                (name_instances-Keeps fields (declared_groups d) a names (
                  subst (λ x. name_instances fields (declared_groups d) a ≡ ok x)
                    (ap (λ x. x.0) (ok-injective e8)) instances))))
            all_in);
      variants = claimed_messages.1;
    }
