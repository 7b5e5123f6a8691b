-- ===== src/Codegen/Namespace/Claims.antt =====
-- namespace.rs: names that are taken stay taken, and a numbered value gets a free name.
use refix.Base.{
  ◌+◌, ◌≡◌, refl, ◌∙◌, subst, inl, inr, true, false, none, some, List, [], ◌∷◌, ◌++◌, arith,
  Bool-cases, Option-cases, length, equal, equal_iff,
}
use refix.Base.Result.{Result, ok, err, ok-injective}
use refix.Dictionary.Spec.{Name}
use refix.Dictionary.Checks.{lookup}
use refix.Codegen.Namespace.{
  Owner, owner_enum, NameClash, Renamed, Namespace, claim, Claimed, claimed, clashes, yields,
  enum_suffix, second_claim, on_enum_claim, claim_enum,
}

-- The namespace `after` has the owners that `before` has, and `owner` under `name`, which was free.
pub record Takes (before : Namespace) (name : Name) (owner : Owner) (after : Namespace)
    : Type 0 where
  pub free : lookup name before.owners ≡ none
  pub taken : lookup name after.owners ≡ some owner
  pub keeps :
      (other_name : Name) (o : Owner)
      → lookup other_name before.owners ≡ some o
      → lookup other_name after.owners ≡ some o
  pub grows : length after.owners ≡ length before.owners + 1

equal_refl : (name : Name) → equal name name ≡ true
equal_refl name = (equal_iff name name).1 refl

lookup_past :
    (other_name name : Name) (owner : Owner) (owners : List (Name × Owner))
    → equal name other_name ≡ false
    → lookup other_name ((name, owner) ∷ owners) ≡ lookup other_name owners
unfolding lookup
lookup_past other_name name owner owners differs = rw (differs, lookup) refl

lookup-cons :
    (other_name name : Name) (owner o : Owner) (owners : List (Name × Owner))
    → lookup name owners ≡ none
    → lookup other_name owners ≡ some o
    → lookup other_name ((name, owner) ∷ owners) ≡ some o
lookup-cons other_name name owner o owners free there = elim (Bool-cases (equal name other_name)) [
  | inr differs ↦ lookup_past other_name name owner owners differs ∙ there
  | inl same ↦ let e : name ≡ other_name = (equal_iff name other_name).0 same in absurd (cc)
]

lookup_here :
    (name : Name) (owner : Owner) (owners : List (Name × Owner))
    → lookup name ((name, owner) ∷ owners) ≡ some owner
unfolding lookup
lookup_here name owner owners = rw (equal_refl name, lookup) refl

-- What a claim does: it takes a free name, or gives the owner that has it.
pub data IsClaim (n : Namespace) (name : Name) (owner : Owner)
    : Result NameClash Namespace → Type 0 where
  is_taken : {after : Namespace} → Takes n name owner after → IsClaim n name owner (ok after)
  is_clash :
      (first : Owner)
      → lookup name n.owners ≡ some first
      → IsClaim n name owner (err (record { name = name; first = first; second = owner }))

pub claim-IsClaim :
    (n : Namespace) (name : Name) (owner : Owner) → IsClaim n name owner (claim n name owner)
unfolding claim
claim-IsClaim n name owner = elim (Option-cases (lookup name n.owners)) [
  | inr (first, e) ↦ rw (e, claim) (is_clash first e)
  | inl free ↦
      rw (free, claim)
        (is_taken (record {
          free = free;
          taken = lookup_here name owner n.owners;
          keeps = λ other_name o. lookup-cons other_name name owner o n.owners free;
          grows = omega arith;
        }))
]

-- A claim whose error became one of a generator's.
pub converted-Takes :
    {E : Type 0} (convert : NameClash → E) (n : Namespace) (name : Name) (owner : Owner)
    (after : Namespace)
    → Path
        (Result E Namespace)
        (elim (claim n name owner) [ ok taken ↦ ok taken | err c ↦ err (convert c) ])
        (ok after)
    → Takes n name owner after
converted-Takes {E} convert n name owner after =
    taken (claim n name owner) (claim-IsClaim n name owner)
  where
    taken :
        (c : Result NameClash Namespace)
        → IsClaim n name owner c
        → Path
            (Result E Namespace)
            (elim c [ ok got ↦ ok got | err x ↦ err (convert x) ])
            (ok after)
        → Takes n name owner after
    taken (ok got) (is_taken t) same = subst (Takes n name owner) (ok-injective same) t
    taken (err c) (is_clash _ _) same = absurd (cc)

-- What claiming an enum's name does: the enum takes the field's name; where a message or group has
-- that one, the name with `Enum` behind it, with one more warning. It clashes only where another
-- owner has the field's name, or where the second name is taken too.
pub data IsEnumClaim (n : Namespace) (field_name : Name) (warnings : List Renamed)
    : Claimed → Type 0 where
  own_name :
      {after : Namespace}
      → Takes n field_name (owner_enum field_name) after
      → IsEnumClaim n field_name warnings (claimed field_name warnings after)
  suffixed :
      {after : Namespace} (clash : NameClash)
      → lookup field_name n.owners ≡ some clash.first
      → yields clash.first ≡ true
      → Takes n (field_name ++ enum_suffix) (owner_enum field_name) after
      → IsEnumClaim n field_name warnings (
          claimed
            (field_name ++ enum_suffix)
            (warnings ++ record { clash = clash; name = field_name ++ enum_suffix } ∷ [])
            after)
  does_not_yield :
      (first : Owner)
      → lookup field_name n.owners ≡ some first
      → yields first ≡ false
      → IsEnumClaim n field_name warnings
          (clashes (record { name = field_name; first = first; second = owner_enum field_name }))
  both_taken :
      (first second : Owner)
      → lookup field_name n.owners ≡ some first
      → yields first ≡ true
      → lookup (field_name ++ enum_suffix) n.owners ≡ some second
      → IsEnumClaim n field_name warnings (
          clashes (record {
            name = field_name ++ enum_suffix;
            first = second;
            second = owner_enum field_name;
          }))

second_claim-IsEnumClaim :
    (n : Namespace) (field_name : Name) (warnings : List Renamed) (clash : NameClash)
    (r : Result NameClash Namespace)
    → lookup field_name n.owners ≡ some clash.first
    → yields clash.first ≡ true
    → IsClaim n (field_name ++ enum_suffix) (owner_enum field_name) r
    → IsEnumClaim n field_name warnings (second_claim clash (field_name ++ enum_suffix) warnings r)
second_claim-IsEnumClaim n field_name warnings clash (ok after) e y (is_taken t) =
    suffixed clash e y t
second_claim-IsEnumClaim n field_name warnings clash (err again) e y (is_clash first there) =
    both_taken clash.first first e y there

on_enum_claim-IsEnumClaim :
    (n : Namespace) (field_name : Name) (warnings : List Renamed) (r : Result NameClash Namespace)
    → IsClaim n field_name (owner_enum field_name) r
    → IsEnumClaim n field_name warnings (on_enum_claim n field_name warnings r)
on_enum_claim-IsEnumClaim n field_name warnings (ok after) (is_taken t) = own_name t
on_enum_claim-IsEnumClaim n field_name warnings (err clash) (is_clash first there) =
    elim (Bool-cases (yields first)) [
      | inr stays ↦ rw stays (does_not_yield first there stays)
      | inl moves ↦ rw moves (
          second_claim-IsEnumClaim n field_name warnings clash _ there moves
            (claim-IsClaim n (field_name ++ enum_suffix) (owner_enum field_name)))
    ]

-- For any namespace, field name and warnings, claim_enum gives the enum its field's name where
-- that is free, or, where a message or group has it, the name with `Enum` behind it if that is
-- free, with one more warning; the name was free, it is the enum's afterwards, and no other owner
-- is lost. It clashes only where an owner that is no message or group has the field's name, or
-- where a message or group has it and the second name is taken too, and the clash names the owner
-- that has the name.
pub claim_enum-IsEnumClaim :
    (n : Namespace) (field_name : Name) (warnings : List Renamed)
    → IsEnumClaim n field_name warnings (claim_enum n field_name warnings)
unfolding claim_enum
claim_enum-IsEnumClaim n field_name warnings =
    on_enum_claim-IsEnumClaim n field_name warnings (claim n field_name (owner_enum field_name))
      (claim-IsClaim n field_name (owner_enum field_name))
