-- ===== src/Codegen/Adds.antt =====
-- Loops over what is named, such as `name_messages` of rust/names.rs and python/names.rs: what each
-- step names is read with the groups' names, which no step changes.
use refix.Base.{ℕ, zero, suc, ◌≡◌, sym, ap, ◌∙◌, subst, some, List, [], ◌∷◌, arith, get_elem?}

pub record AddsAll {A S G : Type 0} (groups_of : S → G) (Has : A → G → Type 0) (xs : List A)
    (names after : S) : Type 0 where
  pub kept : groups_of after ≡ groups_of names
  pub has : (i : ℕ) (x : A) → get_elem? xs i ≡ some x → Has x (groups_of names)

pub AddsAll-nil :
    {A S G : Type 0} (groups_of : S → G) (Has : A → G → Type 0) (names after : S)
    → names ≡ after
    → AddsAll groups_of Has [] names after
AddsAll-nil groups_of Has names after e = record {
  kept = ap groups_of (sym e);
  has = λ i x there. absurd (cc);
}

pub AddsAll-cons :
    {A S G : Type 0} (groups_of : S → G) (Has : A → G → Type 0) (x : A) (xs : List A)
    (names mid after : S)
    → groups_of mid ≡ groups_of names
    → Has x (groups_of names)
    → AddsAll groups_of Has xs mid after
    → AddsAll groups_of Has (x ∷ xs) names after
AddsAll-cons {A} groups_of Has x xs names mid after same here later = record {
  kept = later.kept ∙ same;
  has = each;
}
  where
    each : (i : ℕ) (y : A) → get_elem? (x ∷ xs) i ≡ some y → Has y (groups_of names)
    each zero y there = let e : x ≡ y = cc in subst (λ z. Has z (groups_of names)) e here
    each (suc i) y there = subst (Has y) same (later.has i y (ground (arith, there)))
