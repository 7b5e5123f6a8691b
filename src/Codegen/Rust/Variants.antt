-- ===== src/Codegen/Rust/Variants.antt =====
-- rust/names.rs, `name_enum`: the loop over the values of a field.
use refix.Base.{
  ℕ, suc, ◌+◌, ◌≤◌, ◌≡◌, refl, ◌≢◌, ◌⊎◌, inl, inr, List, [], ◌∷◌, ◌++◌, arith, Bool-cases, length,
  length-append,
}
use refix.Base.Result.{Result, ok, err, ◌>>=◌}
use refix.Dictionary.Spec.{Name, EnumValue, Field}
use refix.Codegen.Namespace.{
  Owner, owner_value, NameClash, Renamed, Namespace, with_generated, Claimed, claimed, clashes,
  stuck, claim_value,
}
use refix.Codegen.Namespace.Claims.{Takes}
use refix.Codegen.Namespace.Values.{IsValueClaim, claim_value-IsValueClaim}
use refix.Codegen.CaseConverter.{pascal_case}
use refix.Codegen.Namespace.Scopes.{
  IsScope, AreSettled, IsScope-AreSettled, Takes-IsScope, with_generated-IsScope,
}
use refix.Codegen.Numbers.{numbered_variant-AreDifferent}
use refix.Base.Decimals.{u32_end}
use refix.Codegen.Rust.Naming.{
  RustError, unrepresentable_value, name_clash, panic, before_digit, is_variant, variant_name,
  numbered_variant,
}
use refix.Codegen.Rust.Reserved.{unrecognized}
use refix.Codegen.Rust.Names.{RustNames, Variants, on_claimed, name_variants, name_enum}

-- A claim that took a name, or an error of the source.
data Took (n : Namespace) (owner : Owner)
    : Result RustError (Name × List Renamed × Namespace) → Type 0 where
  took :
      {name : Name} {warnings : List Renamed} {after : Namespace}
      → Takes n name owner after
      → Took n owner (ok (name, warnings, after))
  clashed : (c : NameClash) → Took n owner (err (name_clash c))

on_claimed-Took :
    (n : Namespace) (name : Name) (owner : Owner) (warnings : List Renamed) (c : Claimed)
    → IsValueClaim n name owner numbered_variant warnings c
    → Took n owner (on_claimed c)
on_claimed-Took n name owner warnings (claimed _ _ _) (IsValueClaim.own_name t) = took t
on_claimed-Took n name owner warnings (claimed _ _ _) (IsValueClaim.numbered_name _ _ _ _ f) =
    took f.takes
on_claimed-Took n name owner warnings (clashes c) (IsValueClaim.no_name _ _ _) = clashed c
on_claimed-Took n name owner warnings stuck no_claim = elim no_claim [ ]

-- Names for `count` more values, or an error of the source.
data Settles (v : Variants) (count : ℕ) : Result RustError Variants → Type 0 where
  settled :
      {w : Variants}
      → IsScope unrecognized w.names w.scope
      → length w.names ≡ length v.names + count
      → Settles v count (ok w)
  refused : {e : RustError} → e ≢ panic → Settles v count (err e)

pick_variant :
    (f : Field) (value : EnumValue)
    → ((name : Name) × (variant_name f value ≡ ok name))
      ⊎ (variant_name f value ≡ err (unrepresentable_value f.name value.description))
unfolding variant_name
pick_variant f value =
    elim (Bool-cases (is_variant (before_digit (pascal_case value.description)))) [
      | inl good ↦ inl (before_digit (pascal_case value.description), rw good refl)
      | inr bad ↦ inr (rw bad refl)
    ]

abbrev next_variants :
    Field → List EnumValue → Variants → Name × List Renamed × Namespace → Result RustError Variants
next_variants f values v r =
    name_variants f values (record { names = v.names ++ r.0 ∷ []; scope = r.2; warnings = r.1 })

Settles-bind :
    (f : Field) (values : List EnumValue) (v : Variants) (owner : Owner)
    (r : Result RustError (Name × List Renamed × Namespace))
    → Took v.scope owner r
    → ((name : Name) (warnings : List Renamed) (after : Namespace)
        → Takes v.scope name owner after
        → Settles
            (record { names = v.names ++ name ∷ []; scope = after; warnings = warnings })
            (length values)
            (next_variants f values v (name, warnings, after)))
    → Settles v (suc (length values)) (r >>= next_variants f values v)
Settles-bind f values v owner (err _) (clashed c) k = refused (λ e. cc)
Settles-bind f values v owner (ok (name, warnings, after)) (took t) k =
    counted _ (k name warnings after t)
  where
    counted :
        (q : Result RustError Variants)
        → Settles
            (record { names = v.names ++ name ∷ []; scope = after; warnings = warnings })
            (length values)
            q
        → Settles v (suc (length values)) q
    counted (ok w) (settled s c) = settled s (omega (arith, c, length-append v.names (name ∷ [])))
    counted (err e) (refused no_panic) = refused no_panic

name_variants-cons :
    (f : Field) (value : EnumValue) (values : List EnumValue) (v : Variants) (name : Name)
    → variant_name f value ≡ ok name
    → name_variants f (value ∷ values) v ≡ (
        on_claimed (
          claim_value v.scope name
            (owner_value f.name value.value value.description)
            numbered_variant
            v.warnings)
        >>= next_variants f values v)
unfolding name_variants
name_variants-cons f value values v name e = rw e refl

name_variants-nil : (f : Field) (v : Variants) → name_variants f [] v ≡ ok v
unfolding name_variants
name_variants-nil f v = refl

name_variants-unrepresentable :
    (f : Field) (value : EnumValue) (values : List EnumValue) (v : Variants) (e : RustError)
    → variant_name f value ≡ err e
    → name_variants f (value ∷ values) v ≡ err e
unfolding name_variants
name_variants-unrepresentable f value values v e bad = rw bad refl

name_variants-Settles :
    (f : Field) (values : List EnumValue) (v : Variants)
    → IsScope unrecognized v.names v.scope
    → length v.scope.owners + length values + 3 ≤ u32_end
    → Settles v (length values) (name_variants f values v)
name_variants-Settles f [] v s fits = rw (name_variants-nil f v) (settled s (omega arith))
name_variants-Settles f (value ∷ values) v s fits = elim (pick_variant f value) [
  | inr bad ↦ rw (name_variants-unrepresentable f value values v _ bad) (refused (λ e. cc))
  | inl (name, good) ↦
      let owner = owner_value f.name value.value value.description in
      rw (name_variants-cons f value values v name good) (
        Settles-bind f values v owner _
          (on_claimed-Took v.scope name owner v.warnings _ (
            claim_value-IsValueClaim v.scope name owner numbered_variant
              (numbered_variant-AreDifferent name (length v.scope.owners + 1) (omega arith))
              v.warnings))
          (λ x warnings after t.
            name_variants-Settles f values
              (record { names = v.names ++ x ∷ []; scope = after; warnings = warnings })
              (Takes-IsScope unrecognized v.names v.scope after x owner t s)
              (omega (arith, t.grows))))
]

-- The names of a field's enum: a variant for each of its values, all different and none
-- `Unrecognized`; or an error of the source.
pub data IsNamed (f : Field) (type_name : Name) (names : RustNames)
    : Result RustError (RustNames × List Renamed) → Type 0 where
  is_named :
      {warnings : List Renamed} (variants : List Name)
      → AreSettled unrecognized variants
      → length variants ≡ length f.values
      → IsNamed f type_name names (
          ok (
            record names {
              enums = (f.tag, record { type_name = type_name; variants = variants }) ∷ names.enums;
            },
            warnings,
          ))
  is_refused : {e : RustError} → e ≢ panic → IsNamed f type_name names (err e)

Settles-IsNamed :
    (f : Field) (type_name : Name) (names : RustNames) (warnings : List Renamed)
    (r : Result RustError Variants)
    → Settles
        (record { names = []; scope = with_generated unrecognized; warnings = warnings })
        (length f.values)
        r
    → IsNamed f type_name names (
        r >>= λ v. ok (
          record names {
            enums = (f.tag, record { type_name = type_name; variants = v.names }) ∷ names.enums;
          },
          v.warnings,
        ))
Settles-IsNamed f type_name names warnings (ok w) (settled s c) =
    is_named w.names (IsScope-AreSettled unrecognized w.names w.scope s) (omega (arith, c))
Settles-IsNamed f type_name names warnings (err e) (refused no_panic) = is_refused no_panic

owners-with_generated :
    (reserved : List Name) → length (with_generated reserved).owners ≡ length reserved
unfolding with_generated
owners-with_generated [] = refl
owners-with_generated (x ∷ reserved) = omega (arith, owners-with_generated reserved)

-- For a field with at most 2^32 - 4 values, whatever names and warnings there are before,
-- Names::name_enum of the Rust names ends: it gives the field an enum with one variant for each of
-- its values, all different and none of them Unrecognized, or it gives an error of the generator;
-- the search for a free number never runs out.
pub name_enum-IsNamed :
    (f : Field) (type_name : Name) (names : RustNames) (warnings : List Renamed)
    → length f.values + 4 ≤ u32_end
    → IsNamed f type_name names (name_enum f type_name names warnings)
unfolding name_enum
name_enum-IsNamed f type_name names warnings fits = Settles-IsNamed f type_name names warnings _ (
    name_variants-Settles f f.values
      (record { names = []; scope = with_generated unrecognized; warnings = warnings })
      (with_generated-IsScope unrecognized) (omega (arith, owners-with_generated unrecognized)))
