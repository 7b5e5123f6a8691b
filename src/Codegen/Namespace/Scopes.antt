-- ===== src/Codegen/Namespace/Scopes.antt =====
-- namespace.rs: the names taken one after another in one scope.
use refix.Base.{
  ℕ, ◌+◌, ◌≤◌, ◌<◌, ◌≡◌, refl, ◌∙◌, subst, inl, inr, true, false, none, List, [], ◌∷◌, ◌++◌,
  append_assoc, arith, dec_lt, if◌then◌else◌, Bool-cases, Option-cases, is_some, equal, equal_iff,
}
use refix.Dictionary.Spec.{Name}
use refix.Dictionary.Checks.{lookup}
use refix.Codegen.Namespace.{Owner, Namespace, with_generated}
use refix.Codegen.Namespace.Claims.{Takes}

unfoldable pub count_name : Name → List Name → ℕ
count_name name [] = 0
count_name name (x ∷ names) = (if equal x name then 1 else 0) + count_name name names

pub count_name-append :
    (name : Name) (xs ys : List Name)
    → count_name name (xs ++ ys) ≡ count_name name xs + count_name name ys
unfolding count_name
count_name-append name [] ys = omega arith
count_name-append name (x ∷ xs) ys = ground (arith, count_name-append name xs ys)

pub count_name-one : (name x : Name) → count_name name (x ∷ []) ≡ (if equal x name then 1 else 0)
unfolding count_name
count_name-one name x = omega arith

pub append_one :
    (before : List Name) (x : Name) (more : List Name)
    → (before ++ x ∷ []) ++ more ≡ before ++ x ∷ more
append_one before x more = append_assoc before (x ∷ []) more

-- `names` were taken in the scope behind the `reserved` ones.
pub record IsScope (reserved names : List Name) (scope : Namespace) : Type 0 where
  pub reserved_taken :
      (name : Name) → 0 < count_name name reserved → is_some (lookup name scope.owners) ≡ true
  pub taken : (name : Name) → 0 < count_name name names → is_some (lookup name scope.owners) ≡ true
  pub unreserved : (name : Name) → 0 < count_name name reserved → count_name name names ≡ 0
  pub distinct : (name : Name) → count_name name names ≤ 1

-- Different names, and none of the reserved ones.
pub record AreSettled (reserved names : List Name) : Type 0 where
  pub unreserved : (name : Name) → 0 < count_name name reserved → count_name name names ≡ 0
  pub distinct : (name : Name) → count_name name names ≤ 1

pub IsScope-AreSettled :
    (reserved names : List Name) (scope : Namespace)
    → IsScope reserved names scope
    → AreSettled reserved names
IsScope-AreSettled reserved names scope s = record {
  unreserved = s.unreserved;
  distinct = s.distinct;
}

-- The order of the names does not matter.
pub IsScope-reordered :
    (reserved xs ys : List Name) (scope : Namespace)
    → ((name : Name) → count_name name ys ≡ count_name name xs)
    → IsScope reserved xs scope
    → IsScope reserved ys scope
IsScope-reordered reserved xs ys scope same s = record {
  reserved_taken = s.reserved_taken;
  taken = λ name h. s.taken name (omega (arith, h, same name));
  unreserved = λ name h. same name ∙ s.unreserved name h;
  distinct = λ name. omega (arith, same name, s.distinct name);
}

keeps-some :
    (before after : Namespace) (new name : Name) (owner : Owner)
    → Takes before new owner after
    → is_some (lookup name before.owners) ≡ true
    → is_some (lookup name after.owners) ≡ true
keeps-some before after new name owner t h = elim (Option-cases (lookup name before.owners)) [
  | inl missing ↦ absurd (ground (arith, missing, h))
  | inr (o, there) ↦ rw (t.keeps name o there) refl
]

-- Whether a name is the new one, which was free.
new_or_old :
    (before : Namespace) (new name : Name)
    → lookup new before.owners ≡ none
    → is_some (lookup name before.owners) ≡ true
    → equal new name ≡ false
new_or_old before new name free there = elim (Bool-cases (equal new name)) [
  | inr other ↦ other
  | inl same ↦
      let e : new ≡ name = (equal_iff new name).0 same in absurd (ground (arith, e, free, there))
]

pub Takes-IsScope :
    (reserved names : List Name) (before after : Namespace) (new : Name) (owner : Owner)
    → Takes before new owner after
    → IsScope reserved names before
    → IsScope reserved (names ++ new ∷ []) after
Takes-IsScope reserved names before after new owner t s = record {
  reserved_taken = λ name h. keeps-some before after new name owner t (s.reserved_taken name h);
  taken = λ name h. elim (Bool-cases (equal new name)) [
    | inl same ↦
        let e : new ≡ name = (equal_iff new name).0 same in
        subst (λ x. is_some (lookup x after.owners) ≡ true) e (rw t.taken refl)
    | inr other ↦ keeps-some before after new name owner t (
        s.taken name
          (ground (arith, count_name-append name names (new ∷ []), count_name-one name new, other)))
  ];
  unreserved = λ name h.
      let other = new_or_old before new name t.free (s.reserved_taken name h) in
      ground (
        arith,
        count_name-append name names (new ∷ []),
        count_name-one name new,
        other,
        s.unreserved name h,
      );
  distinct = λ name. elim (Bool-cases (equal new name)) [
    | inr other ↦ ground (
      arith,
      count_name-append name names (new ∷ []),
      count_name-one name new,
      other,
      s.distinct name,
    )
    | inl same ↦
        let e : new ≡ name = (equal_iff new name).0 same in
        let none_yet : count_name name names ≡ 0 = absent name e in
        ground
          (arith, count_name-append name names (new ∷ []), count_name-one name new, same, none_yet)
  ];
}
  where
    absent : (name : Name) → new ≡ name → count_name name names ≡ 0
    absent name e = elim (dec_lt 0 (count_name name names)) [
      | no none_yet ↦ omega (arith, none_yet)
      | yes some_yet ↦
          let there = s.taken name some_yet in absurd (ground (arith, e, t.free, there))
    ]

with_generated-some :
    (names : List Name) (name : Name)
    → 0 < count_name name names
    → is_some (lookup name (with_generated names).owners) ≡ true
unfolding count_name with_generated lookup
with_generated-some [] name h = absurd (omega arith)
with_generated-some (x ∷ names) name h = ground (arith, with_generated-some names name)

pub with_generated-IsScope : (names : List Name) → IsScope names [] (with_generated names)
unfolding count_name
with_generated-IsScope names = record {
  reserved_taken = with_generated-some names;
  taken = λ name h. absurd (omega arith);
  unreserved = λ name h. refl;
  distinct = λ name. omega arith;
}
