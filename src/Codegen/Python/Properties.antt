-- ===== src/Codegen/Python/Properties.antt =====
-- python/names.rs, `claim_classes` and `name_properties`: what is named in one class.
use refix.Codegen.Python.Naming.{name_clash, property_name, has_nanos, nanos_property_name}
use refix.Codegen.Python.Names.{
  GroupNames, PythonNames, claim_name, known_group, names_of, claim_classes, claim_nanos,
  name_properties,
}
use refix.Codegen.Groups.{is_generated, instance_context, lookup_context}
use refix.Codegen.Conversion.{conversion_of}
use refix.Codegen.Namespace.{Owner, owner_field, nanos, owner_group, Namespace}
use refix.Codegen.Namespace.Claims.{converted-Takes}
use refix.Codegen.Namespace.Scopes.{
  append_one, IsScope, AreSettled, IsScope-AreSettled, Takes-IsScope,
}
use refix.Dictionary.Spec.{Name, Field, MemberContext}
use refix.Dictionary.Views.{Group, MemberView, of_field, of_group}
use refix.Base.Result.{ok, bind-eq-ok, ok-injective}
use refix.Base.{
  ◌≡◌, sym, ap, ◌∙◌, subst, inl, inr, Bool, true, false, Option, none, some, List, [], ◌∷◌, ◌++◌,
  append-nil, Bool-cases,
}

abbrev pub GroupMap : Type 0
GroupMap = List (MemberContext × GroupNames)

-- The classes of groups that are declared here.
pub data AreClasses (fields : List Field) (groups : GroupMap)
    : List Group → List Name → Type 0 where
  no_classes : AreClasses fields groups [] []
  and_class :
      {g : Group} {declared : List Group} {found : GroupNames} {names : List Name}
      → lookup_context (instance_context fields g) groups ≡ some found
      → AreClasses fields groups declared names
      → AreClasses fields groups (g ∷ declared) (found.class_name ∷ names)

-- The properties of members: a field's, with one for its nanoseconds where it has them, and those of
-- the groups that get a class.
pub data AreProperties (fields : List Field) (groups : GroupMap)
    : List MemberView → List Name → Type 0 where
  no_properties : AreProperties fields groups [] []
  and_field :
      {f : Field} {required : Bool} {members : List MemberView} {names : List Name}
      → has_nanos (conversion_of f) ≡ false
      → AreProperties fields groups members names
      → AreProperties fields groups (of_field f required ∷ members) (property_name f ∷ names)
  and_nanos :
      {f : Field} {required : Bool} {members : List MemberView} {names : List Name}
      → has_nanos (conversion_of f) ≡ true
      → AreProperties fields groups members names
      → AreProperties fields groups
          (of_field f required ∷ members)
          (property_name f ∷ nanos_property_name f ∷ names)
  and_group :
      {g : Group} {members : List MemberView} {found : GroupNames} {names : List Name}
      → is_generated g.declared_in ≡ true
      → lookup_context (instance_context fields g) groups ≡ some found
      → AreProperties fields groups members names
      → AreProperties fields groups (of_group g ∷ members) (found.property ∷ names)
  without_group :
      {g : Group} {members : List MemberView} {names : List Name}
      → is_generated g.declared_in ≡ false
      → AreProperties fields groups members names
      → AreProperties fields groups (of_group g ∷ members) names

known_group-eq-ok :
    (o : Option GroupNames) (found : GroupNames) → known_group o ≡ ok found → o ≡ some found
known_group-eq-ok none found e = absurd (cc)
known_group-eq-ok (some names) found e = ap some (ok-injective e)

claim_name-IsScope :
    (reserved before : List Name) (n : Namespace) (name : Name) (owner : Owner) (after : Namespace)
    → claim_name n name owner ≡ ok after
    → IsScope reserved before n
    → IsScope reserved (before ++ name ∷ []) after
claim_name-IsScope reserved before n name owner after e =
    Takes-IsScope reserved before n after name owner
      (converted-Takes name_clash n name owner after e)

-- What the loop over groups names, in its scope.
pub record TakesClasses (fields : List Field) (reserved before : List Name) (groups : GroupMap)
    (declared : List Group) (scope : Namespace) : Type 0 where
  pub taken : List Name
  pub classes : AreClasses fields groups declared taken
  pub is_scope : IsScope reserved (before ++ taken) scope

pub claim_classes-TakesClasses :
    (fields : List Field) (reserved before : List Name) (declared : List Group)
    (names : PythonNames) (n after : Namespace)
    → claim_classes fields declared names n ≡ ok after
    → IsScope reserved before n
    → TakesClasses fields reserved before names.groups declared after
unfolding claim_classes
claim_classes-TakesClasses fields reserved before [] names n after e s = record {
  taken = [];
  classes = no_classes;
  is_scope = rw (append-nil before) (subst (IsScope reserved before) (ok-injective e) s);
}
claim_classes-TakesClasses fields reserved before (g ∷ declared) names n after e s =
    let owner = owner_group (instance_context fields g) in
    let (found, here, e1) = bind-eq-ok (names_of fields names g) _ e in
    let (taken, claimed_here, e2) = bind-eq-ok (claim_name n found.class_name owner) _ e1 in
    let more =
      claim_classes-TakesClasses fields reserved (before ++ found.class_name ∷ []) declared names
        taken after e2
        (claim_name-IsScope reserved before n found.class_name owner taken claimed_here s) in
    record {
      taken = found.class_name ∷ more.taken;
      classes = and_class (known_group-eq-ok _ found here) more.classes;
      is_scope =
          subst (λ l. IsScope reserved l after) (append_one before found.class_name more.taken)
            more.is_scope;
    }

-- What the loop over members names, with the groups' names as they were.
pub record TakesProperties (fields : List Field) (reserved before : List Name)
    (members : List MemberView) (names after : PythonNames) : Type 0 where
  pub taken : List Name
  pub properties : AreProperties fields names.groups members taken
  pub settled : AreSettled reserved (before ++ taken)
  pub kept : after.groups ≡ names.groups

pub name_properties-TakesProperties :
    (fields : List Field) (reserved before : List Name) (members : List MemberView)
    (names : PythonNames) (n : Namespace) (after : PythonNames)
    → name_properties fields members names n ≡ ok after
    → IsScope reserved before n
    → TakesProperties fields reserved before members names after
unfolding name_properties claim_nanos
name_properties-TakesProperties fields reserved before [] names n after e s = record {
  taken = [];
  properties = no_properties;
  settled = rw (append-nil before) (IsScope-AreSettled reserved before n s);
  kept = ap (λ x. x.groups) (sym (ok-injective e));
}
name_properties-TakesProperties fields reserved before (of_field f required ∷ members) names n after
      e s =
    let name = property_name f in
    let nanos_name = nanos_property_name f in
    let (taken, claimed_here, e1) = bind-eq-ok (claim_name n name (owner_field f.name)) _ e in
    let here =
      claim_name-IsScope reserved before n name (owner_field f.name) taken claimed_here s in
    elim (Bool-cases (has_nanos (conversion_of f))) [
      | inr plain ↦
          let more =
            name_properties-TakesProperties fields reserved (before ++ name ∷ []) members
              (record names { properties = (f.tag, name) ∷ names.properties }) taken after
              (rw plain at e1) here in
          record {
            taken = name ∷ more.taken;
            properties = and_field plain more.properties;
            settled = subst (AreSettled reserved) (append_one before name more.taken) more.settled;
            kept = more.kept;
          }
      | inl fine ↦
          let (mid, step, e2) =
            bind-eq-ok
              (claim_nanos f (record names { properties = (f.tag, name) ∷ names.properties }) taken)
              _ e1 in
          let (both, claimed_nanos, e3) =
            bind-eq-ok (claim_name taken nanos_name (nanos f.name)) _ (rw fine at step) in
          let same : names.groups ≡ mid.0.groups = ap (λ x. x.0.groups) (ok-injective e3) in
          let more =
            name_properties-TakesProperties fields reserved
              ((before ++ name ∷ []) ++ nanos_name ∷ []) members mid.0 mid.1 after e2
              (subst (IsScope reserved _) (ap (λ x. x.1) (ok-injective e3)) (
                claim_name-IsScope reserved (before ++ name ∷ []) taken nanos_name (nanos f.name)
                  both claimed_nanos here)) in
          record {
            taken = name ∷ nanos_name ∷ more.taken;
            properties =
                and_nanos fine (
                  subst (λ g. AreProperties fields g members more.taken) (sym same)
                    more.properties);
            settled =
                subst (AreSettled reserved)
                  (append_one (before ++ name ∷ []) nanos_name more.taken
                    ∙ append_one before name (nanos_name ∷ more.taken))
                  more.settled;
            kept = more.kept ∙ sym same;
          }
    ]
name_properties-TakesProperties fields reserved before (of_group g ∷ members) names n after e s =
    elim (Bool-cases (is_generated g.declared_in)) [
      | inr left ↦
          let more =
            name_properties-TakesProperties fields reserved before members names n after
              (rw left at e) s in
          record {
            taken = more.taken;
            properties = without_group left more.properties;
            settled = more.settled;
            kept = more.kept;
          }
      | inl made ↦
          let owner = owner_group (instance_context fields g) in
          let (found, known, e1) = bind-eq-ok (names_of fields names g) _ (rw made at e) in
          let (taken, claimed_here, e2) = bind-eq-ok (claim_name n found.property owner) _ e1 in
          let more =
            name_properties-TakesProperties fields reserved (before ++ found.property ∷ []) members
              names taken after e2
              (claim_name-IsScope reserved before n found.property owner taken claimed_here s) in
          record {
            taken = found.property ∷ more.taken;
            properties = and_group made (known_group-eq-ok _ found known) more.properties;
            settled =
                subst (AreSettled reserved) (append_one before found.property more.taken)
                  more.settled;
            kept = more.kept;
          }
    ]
