-- ===== src/Codegen/Rust/Accessors.antt =====
-- rust/names.rs, `name_accessors`: what its loop names in one scope.
use refix.Codegen.Rust.Naming.{RustError, name_clash, method_name}
use refix.Codegen.Rust.Names.{RustNames, name_accessors}
use refix.Codegen.Groups.{is_generated, instance_context, lookup_context}
use refix.Codegen.Namespace.{Owner, owner_field, owner_group, NameClash, Namespace}
use refix.Codegen.Namespace.Claims.{IsClaim, is_taken, is_clash, claim-IsClaim}
use refix.Codegen.Namespace.Scopes.{append_one, IsScope, Takes-IsScope}
use refix.Dictionary.Spec.{Name, Field, MemberContext}
use refix.Dictionary.Views.{Group, MemberView, of_field, of_group}
use refix.Tags.{Tag}
use refix.Base.Result.{Result, ok, err, ◌>>=◌, Result-cases}
use refix.Base.{
  ◌≡◌, refl, sym, subst, inl, inr, Bool, true, false, some, List, [], ◌∷◌, ◌++◌, append-nil,
  Bool-cases, Option-cases,
}

-- The names of the methods of `members`: a field's by its rule, and the names that the groups have
-- which get a type here.
pub data AreNamed (fields : List Field) (groups : List (MemberContext × Name))
    : List MemberView → List Name → Type 0 where
  nothing_named : AreNamed fields groups [] []
  field_named :
      {f : Field} {required : Bool} {members : List MemberView} {name : Name} {names : List Name}
      → method_name f ≡ ok name
      → AreNamed fields groups members names
      → AreNamed fields groups (of_field f required ∷ members) (name ∷ names)
  group_named :
      {g : Group} {members : List MemberView} {name : Name} {names : List Name}
      → is_generated g.declared_in ≡ true
      → lookup_context (instance_context fields g) groups ≡ some name
      → AreNamed fields groups members names
      → AreNamed fields groups (of_group g ∷ members) (name ∷ names)
  group_left :
      {g : Group} {members : List MemberView} {names : List Name}
      → is_generated g.declared_in ≡ false
      → AreNamed fields groups members names
      → AreNamed fields groups (of_group g ∷ members) names

-- What the loop over `members` gives, in the scope that holds the names `before`.
pub data Accesses (fields : List Field) (reserved before : List Name) (members : List MemberView)
    (names : RustNames) : Result RustError RustNames → Type 0 where
  accesses :
      {after : RustNames} (scope : Namespace) (taken : List Name)
      → AreNamed fields names.groups members taken
      → IsScope reserved (before ++ taken) scope
      → after.groups ≡ names.groups
      → Accesses fields reserved before members names (ok after)
  stops : {e : RustError} → Accesses fields reserved before members names (err e)

module _ (fields : List Field) (reserved : List Name) where
  Accesses-of_field :
      (before : List Name) (f : Field) (required : Bool) (members : List MemberView)
      (names : RustNames) (accessors : List (Tag × Name)) (name : Name)
      (r : Result RustError RustNames)
      → method_name f ≡ ok name
      → Accesses fields reserved
          (before ++ name ∷ [])
          members
          (record names { accessors = accessors })
          r
      → Accesses fields reserved before (of_field f required ∷ members) names r
  Accesses-of_field before f required members names accessors name (ok after) good
        (accesses scope taken named s same) =
      accesses scope (name ∷ taken) (field_named good named)
        (subst (λ l. IsScope reserved l scope) (append_one before name taken) s) same
  Accesses-of_field before f required members names accessors name (err e) good stops = stops

  Accesses-of_group :
      (before : List Name) (g : Group) (members : List MemberView) (names : RustNames) (name : Name)
      (r : Result RustError RustNames)
      → is_generated g.declared_in ≡ true
      → lookup_context (instance_context fields g) names.groups ≡ some name
      → Accesses fields reserved (before ++ name ∷ []) members names r
      → Accesses fields reserved before (of_group g ∷ members) names r
  Accesses-of_group before g members names name (ok after) here known
        (accesses scope taken named s same) =
      accesses scope (name ∷ taken) (group_named here known named)
        (subst (λ l. IsScope reserved l scope) (append_one before name taken) s) same
  Accesses-of_group before g members names name (err e) here known stops = stops

  Accesses-group_left :
      (before : List Name) (g : Group) (members : List MemberView) (names : RustNames)
      (r : Result RustError RustNames)
      → is_generated g.declared_in ≡ false
      → Accesses fields reserved before members names r
      → Accesses fields reserved before (of_group g ∷ members) names r
  Accesses-group_left before g members names (ok after) here (accesses scope taken named s same) =
      accesses scope taken (group_left here named) s same
  Accesses-group_left before g members names (err e) here stops = stops

  -- A claim, and what follows it when it took the name.
  claims :
      (before : List Name) (members : List MemberView) (names : RustNames) (n : Namespace)
      (name : Name) (owner : Owner) (c : Result NameClash Namespace)
      (k : Namespace → Result RustError RustNames)
      → IsScope reserved before n
      → IsClaim n name owner c
      → ((after : Namespace)
          → IsScope reserved (before ++ name ∷ []) after
          → Accesses fields reserved before members names (k after))
      → Accesses fields reserved before members names
          ((elim c [ ok taken ↦ ok taken | err x ↦ err (name_clash x) ]) >>= k)
  claims before members names n name owner (ok after) k s (is_taken t) next =
      next after (Takes-IsScope reserved before n after name owner t s)
  claims before members names n name owner (err x) k s (is_clash _ _) next = stops

  pub name_accessors-Accesses :
      (before : List Name) (members : List MemberView) (names : RustNames) (n : Namespace)
      → IsScope reserved before n
      → Accesses fields reserved before members names (name_accessors fields members names n)
  unfolding name_accessors
  name_accessors-Accesses before [] names n s =
      accesses n [] nothing_named (subst (λ l. IsScope reserved l n) (sym (append-nil before)) s)
        refl
  name_accessors-Accesses before (of_field f required ∷ members) names n s =
      elim (Result-cases (method_name f)) [
        | inr (e, bad) ↦ rw bad stops
        | inl (name, good) ↦ rw good (
            claims before (of_field f required ∷ members) names n name (owner_field f.name) _ _ s
              (claim-IsClaim n name (owner_field f.name))
              (λ after t.
                Accesses-of_field before f required members names ((f.tag, name) ∷ names.accessors)
                  name _ good
                  (name_accessors-Accesses (before ++ name ∷ []) members
                    (record names { accessors = (f.tag, name) ∷ names.accessors }) after t)))
      ]
  name_accessors-Accesses before (of_group g ∷ members) names n s =
      elim (Bool-cases (is_generated g.declared_in)) [
        | inr left ↦ rw left (
            Accesses-group_left before g members names _ left
              (name_accessors-Accesses before members names n s))
        | inl here ↦ elim (Option-cases (lookup_context (instance_context fields g) names.groups)) [
          | inl missing ↦ rw (here, missing) stops
          | inr (name, known) ↦
              rw (here, known)
                (claims before (of_group g ∷ members) names n name
                  (owner_group (instance_context fields g)) _ _ s
                  (claim-IsClaim n name (owner_group (instance_context fields g)))
                  (λ after t.
                    Accesses-of_group before g members names name _ here known
                      (name_accessors-Accesses (before ++ name ∷ []) members names after t)))
        ]
      ]
