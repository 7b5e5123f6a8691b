-- ===== src/Dictionary/Resolver/Valid.antt =====
-- Resolved members whose indexes are of fields that exist, and whose groups start with their
-- delimiter.
use refix.Base.{
  ℕ, ◌<◌, ◌≡◌, refl, subst, inl, inr, Bool, true, false, some, [], arith, Bool-cases, Option-cases,
  get_elem?,
}
use refix.Base.Result.{Result, ok, err, ◌>>=◌}
use refix.Dictionary.Spec.{
  Name, FieldRef, field, component, group, Members, no_members, and_member, MemberContext,
}
use refix.Dictionary.Tags.{
  ResolvedMember, resolved_field, resolved_group, ResolvedMembers, no_resolved, and_resolved,
  first_field, require_first, combine_all, join, insert_unique_tags,
}
use refix.Dictionary.Resolver.{
  Resolver, lacks_length, resolve_field_ref, finish_members, finish_group, name_group,
}
use refix.Tags.{Tag}
use refix.Dictionary.Checks.{Error, lookup_tag}

-- The members begin with the field `index`.
abbrev pub Starts : ℕ → ResolvedMembers → Type 0
Starts index no_resolved = ⊥
Starts index (and_resolved m members) = first_field m ≡ index

-- `n` fields are declared.
abbrev pub IsValid : ℕ → ResolvedMembers → Type 0
IsValid n no_resolved = Unit {0}
IsValid n (and_resolved (resolved_field index required) members) = (index < n) × IsValid n members
IsValid n (and_resolved (resolved_group count d required declared c inner) members) =
    (count < n) × Starts d inner × IsValid n inner × IsValid n members

pub ok-injective : {E A : Type 0} (a b : A) → ◌≡◌ {A = Result E A} (ok a) (ok b) → a ≡ b
ok-injective a b e = cc

checked_ok : {E A B : Type 0} (m : Result E A) (b c : B) → (m >>= λ _. ok b) ≡ ok c → b ≡ c
checked_ok (ok a) b c e = cc
checked_ok (err x) b c e = cc

module _ (n : ℕ) where
  pub IsValid-cons :
      (m : ResolvedMember) (members : ResolvedMembers)
      → IsValid n (and_resolved m no_resolved)
      → IsValid n members
      → IsValid n (and_resolved m members)
  IsValid-cons (resolved_field index required) members h k = (h.0, k)
  IsValid-cons (resolved_group count d required declared c inner) members h k = (h.0, h.1, h.2, k)

  pub IsValid-join :
      (xs ys : ResolvedMembers) → IsValid n xs → IsValid n ys → IsValid n (join xs ys)
  unfolding join
  IsValid-join no_resolved ys h k = k
  IsValid-join (and_resolved (resolved_field index required) xs) ys h k =
      (h.0, IsValid-join xs ys h.1 k)
  IsValid-join (and_resolved (resolved_group count d required declared c inner) xs) ys h k =
      (h.0, h.1, h.2, IsValid-join xs ys h.3 k)

  pub IsValid-combine_all :
      (is_required : Bool) (members : ResolvedMembers)
      → IsValid n members
      → IsValid n (combine_all is_required members)
  unfolding combine_all
  IsValid-combine_all b no_resolved h = tt
  IsValid-combine_all b (and_resolved (resolved_field index required) members) h =
      (h.0, IsValid-combine_all b members h.1)
  IsValid-combine_all b (and_resolved (resolved_group count d required declared c inner) members)
        h =
      (h.0, h.1, h.2, IsValid-combine_all b members h.3)

  pub IsValid-require_first :
      (members : ResolvedMembers) → IsValid n members → IsValid n (require_first members)
  IsValid-require_first no_resolved h = tt
  IsValid-require_first (and_resolved (resolved_field index required) members) h = h
  IsValid-require_first (and_resolved (resolved_group count d required declared c inner) members)
        h =
      h

  pub IsValid-name_group :
      (name : Name) (declared : Members) (members : ResolvedMembers)
      → IsValid n members
      → IsValid n (name_group name declared members)
  unfolding name_group
  IsValid-name_group name no_members members h = h
  IsValid-name_group name (and_member (field _) rest) members h = h
  IsValid-name_group name (and_member (component _) rest) members h = h
  IsValid-name_group name (and_member (group _ _ _) (and_member _ _)) members h = h
  IsValid-name_group name (and_member (group _ _ _) no_members) no_resolved h = h
  IsValid-name_group name (and_member (group _ _ _) no_members)
        (and_resolved (resolved_field _ _) members) h =
      h
  IsValid-name_group name (and_member (group _ _ _) no_members)
        (and_resolved (resolved_group count d required declared c inner) no_resolved) h =
      h
  IsValid-name_group name (and_member (group _ _ _) no_members)
        (and_resolved (resolved_group count d required declared c inner) (and_resolved _ _)) h =
      h

  pub finish_members-IsValid :
      (r : Resolver) (context : MemberContext) (is_instance : Bool)
      (found members : ResolvedMembers)
      → IsValid n found
      → finish_members r context is_instance found ≡ ok members
      → IsValid n members
  unfolding finish_members
  finish_members-IsValid r context true found members h e =
      subst (IsValid n)
        (checked_ok (insert_unique_tags r.fields context [] (require_first found)) _ _ e)
        (IsValid-require_first found h)
  finish_members-IsValid r context false found members h e =
      subst (IsValid n) (checked_ok (insert_unique_tags r.fields context [] found) _ _ e) h

  pub finish_group-IsValid :
      (count : ℕ) (required : Bool) (context inside : MemberContext) (members : ResolvedMembers)
      (m : ResolvedMember)
      → count < n
      → IsValid n members
      → finish_group count required context inside members ≡ ok m
      → IsValid n (and_resolved m no_resolved)
  unfolding finish_group
  finish_group-IsValid count required context inside no_resolved m lt h e = cc
  finish_group-IsValid count required context inside (and_resolved first rest) m lt h e =
      subst (λ x. IsValid n (and_resolved x no_resolved)) (ok-injective _ _ e) (lt, refl, h, tt)

  pub resolve_field_ref-IsValid :
      (r : Resolver) (f : FieldRef) (context : MemberContext) (m : ResolvedMember)
      → ((tag : Tag) (i : ℕ) → lookup_tag tag r.fields_by_tag ≡ some i → i < n)
      → resolve_field_ref r f context ≡ ok m
      → IsValid n (and_resolved m no_resolved)
  unfolding resolve_field_ref
  resolve_field_ref-IsValid r f context m known e =
      elim (Option-cases (lookup_tag f.tag r.fields_by_tag)) [
        | inl missing ↦ absurd (ground (arith, missing))
        | inr (i, found) ↦ elim (Bool-cases (lacks_length (get_elem? r.fields i))) [
          | inl lacking ↦ absurd (ground (arith, found, lacking))
          | inr fine ↦
              let same : ◌≡◌ {A = Result Error ResolvedMember} (ok (resolved_field i f.is_required))
                  (ok m) =
                ground (arith, found, fine) in
              subst (λ x. IsValid n (and_resolved x no_resolved)) (ok-injective _ _ same)
                (known f.tag i found, tt)
        ]
      ]
