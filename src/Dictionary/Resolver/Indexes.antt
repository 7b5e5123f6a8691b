-- ===== src/Dictionary/Resolver/Indexes.antt =====
-- resolver.rs, `Resolver::new`: the lookup tables lead to what is declared.
use refix.Base.{
  ℕ, ◌+◌, ◌<◌, ◌≡◌, refl, subst, inl, inr, some, List, [], ◌∷◌, arith, Bool-cases, is_some, length,
}
use refix.Dictionary.Resolver.Valid.{ok-injective}
use refix.Base.Result.{ok, bind-eq-ok}
use refix.Tags.{Tag}
use refix.Dictionary.Spec.{Name, Field, Component, Spec}
use refix.Dictionary.Checks.{
  lookup, lookup_tag, check_int_values, check_unique_codes, check_unique_msg_types, index_from,
  index_fields, index_components_from, index_components, check_length_tags,
}
use refix.Dictionary.Resolver.{Resolver, new_resolver}
use refix.Dictionary.Resolver.Lists.{IsIndexed}

index_from_lt :
    (index : ℕ) (by_tag found : List (Tag × ℕ)) (fields : List Field)
    → ((tag : Tag) (i : ℕ) → lookup_tag tag by_tag ≡ some i → i < index)
    → index_from index by_tag fields ≡ ok found
    → (tag : Tag) (i : ℕ) → lookup_tag tag found ≡ some i
    → i < index + length fields
unfolding index_from lookup_tag
index_from_lt index by_tag found [] below e tag i h =
    let same : by_tag ≡ found = cc in omega (arith, below tag i (rw same h))
index_from_lt index by_tag found (f ∷ fields) below e tag i h =
    elim (Bool-cases (is_some (lookup_tag f.tag by_tag))) [
      | inl twice ↦ absurd (ground (arith, twice, e))
      | inr new ↦ omega (
        arith,
        index_from_lt (index + 1) ((f.tag, index) ∷ by_tag) found fields
            (λ t j k. ground (arith, below t j, k)) (ground (arith, new, e)) tag i h,
      )
    ]

index_components_from_lt :
    (index : ℕ) (by_name found : List (Name × ℕ)) (components : List Component)
    → ((name : Name) (i : ℕ) → lookup name by_name ≡ some i → i < index)
    → index_components_from index by_name components ≡ ok found
    → (name : Name) (i : ℕ) → lookup name found ≡ some i
    → i < index + length components
unfolding index_components_from lookup
index_components_from_lt index by_name found [] below e name i h =
    let same : by_name ≡ found = cc in omega (arith, below name i (rw same h))
index_components_from_lt index by_name found (c ∷ components) below e name i h =
    elim (Bool-cases (is_some (lookup c.name by_name))) [
      | inl twice ↦ absurd (ground (arith, twice, e))
      | inr new ↦ omega (
        arith,
        index_components_from_lt (index + 1) ((c.name, index) ∷ by_name) found components
            (λ k j l. ground (arith, below k j, l)) (ground (arith, new, e)) name i h,
      )
    ]

-- The parts of a resolver.
pub record IsNew (spec : Spec) (r : Resolver) : Type 0 where
  pub same_fields : r.fields ≡ spec.fields
  pub same_components : r.components ≡ spec.components
  pub indexed : IsIndexed r

pub new_resolver-IsNew : (spec : Spec) (r : Resolver) → new_resolver spec ≡ ok r → IsNew spec r
unfolding new_resolver
new_resolver-IsNew spec r e =
    let (_, _, e1) = bind-eq-ok (check_int_values spec.fields) _ e in
    let (_, _, e2) = bind-eq-ok (check_unique_codes spec.fields) _ e1 in
    let (_, _, e3) = bind-eq-ok (check_unique_msg_types spec.messages) _ e2 in
    let (by_tag, tags, e4) = bind-eq-ok (index_fields spec.fields) _ e3 in
    let (_, _, e5) = bind-eq-ok (check_length_tags spec.fields by_tag) _ e4 in
    let (by_name, names, e6) = bind-eq-ok (index_components spec.components) _ e5 in
    subst (IsNew spec) (ok-injective _ r e6) (record {
      same_fields = refl;
      same_components = refl;
      indexed = record {
        fields_known =
            unfold index_fields lookup_tag in
            λ tag i h.
              omega (arith, index_from_lt 0 [] by_tag spec.fields (λ t j k. cc) tags tag i h);
        components_known =
            unfold index_components lookup in
            λ name i h. omega (
              arith,
              index_components_from_lt 0 [] by_name spec.components (λ t j k. cc) names name i h,
            );
      };
    })
