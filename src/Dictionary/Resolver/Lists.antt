-- ===== src/Dictionary/Resolver/Lists.antt =====
-- resolver.rs, `resolve_members`: it ends with valid members, if `expand_component` keeps what it
-- promises.
use refix.Base.{
  ℕ, ◌<◌, ◌≡◌, subst, inl, inr, Bool, true, false, some, List, arith, Option-cases, length,
  get_elem?,
}
use refix.Base.Result.{Result, ok, ◌>>=◌, bind-eq-ok}
use refix.Tags.{Tag}
use refix.Dictionary.Spec.{
  Name, field, component, group, Members, no_members, and_member, MemberContext,
}
use refix.Dictionary.Checks.{lookup, lookup_tag}
use refix.Dictionary.Tags.{
  ResolvedMember, ResolvedMembers, no_resolved, and_resolved, group_context, name_of,
}
use refix.Dictionary.Resolver.{
  Resolver, Progress, Stop, field_index, finish_members, finish_group, expansion_of, resolve_list,
  resolve_members,
}
use refix.Dictionary.Resolver.Ends.{Ends, ends, fails, Ends-bind, Ends-raise}
use refix.Dictionary.Resolver.Valid.{
  IsValid, IsValid-cons, IsValid-join, IsValid-combine_all, finish_members-IsValid,
  finish_group-IsValid, resolve_field_ref-IsValid,
}
use refix.Tags.Counts.{count}

-- The lookup tables lead to fields and components that are declared.
pub record IsIndexed (r : Resolver) : Type 0 where
  pub fields_known :
      (tag : Tag) (i : ℕ) → lookup_tag tag r.fields_by_tag ≡ some i → i < length r.fields
  pub components_known :
      (name : Name) (i : ℕ) → lookup name r.components_by_name ≡ some i → i < length r.components

-- Each component has a place for its expansion, and the expansions so far are valid.
pub record IsProgress (r : Resolver) (p : Progress) : Type 0 where
  pub sized : length p.expansions ≡ length r.components
  pub expanded :
      (i : ℕ) (members : ResolvedMembers)
      → get_elem? p.expansions i ≡ some (some members)
      → IsValid (length r.fields) members

-- What `expand_component` leaves: the stack is as before, and the component has an expansion.
pub record Expands (r : Resolver) (stack : List ℕ) (index : ℕ) (q : Progress) : Type 0 where
  pub progress : IsProgress r q
  pub same_stack : q.stack ≡ stack
  pub is_expanded :
      (members : ResolvedMembers) × (get_elem? q.expansions index ≡ some (some members))

-- What `resolve_members` leaves.
pub record Resolves (r : Resolver) (stack : List ℕ) (q : ResolvedMembers × Progress) : Type 0 where
  pub valid : IsValid (length r.fields) q.0
  pub progress : IsProgress r q.1
  pub same_stack : q.1.stack ≡ stack

module _ (r : Resolver) (indexed : IsIndexed r) (stack : List ℕ)
    (expand : ℕ → Progress → Result Stop Progress)
    (expands : (i : ℕ) (p : Progress)
      → i < length r.components
      → IsProgress r p
      → p.stack ≡ stack
      → Ends (Expands r stack i) (expand i p)) where
  field_index_lt :
      (tag : Tag) (context : MemberContext) (count : ℕ)
      → field_index r tag context ≡ ok count
      → count < length r.fields
  field_index_lt tag context count e = elim (Option-cases (lookup_tag tag r.fields_by_tag)) [
    | inl missing ↦ absurd (ground (arith, missing))
    | inr (i, found) ↦
        let same : i ≡ count = ground (arith, found) in
        subst (λ x. x < length r.fields) same (indexed.fields_known tag i found)
  ]

  finished_group-IsValid :
      (count : ℕ) (required : Bool) (context inside : MemberContext) (members : ResolvedMembers)
      → count < length r.fields
      → IsValid (length r.fields) members
      → (m : ResolvedMember)
      → (finish_members r inside true members >>= λ done.
          finish_group count required context inside done)
        ≡ ok m
      → IsValid (length r.fields) (and_resolved m no_resolved)
  finished_group-IsValid count required context inside members lt h m e =
      let (done, finished, grouped) =
        bind-eq-ok (finish_members r inside true members)
          (finish_group count required context inside) e in
      finish_group-IsValid (length r.fields) count required context inside done m lt
        (finish_members-IsValid (length r.fields) r inside true members done h finished) grouped

  expansion_of-IsValid :
      (i : ℕ) (q : Progress)
      → Expands r stack i q
      → IsValid (length r.fields) (expansion_of (get_elem? q.expansions i))
  expansion_of-IsValid i q e =
      let (members, here) = e.is_expanded in rw here (e.progress.expanded i members here)

  pub resolve_list-Ends :
      (context : MemberContext) (is_instance is_first : Bool) (members : Members) (p : Progress)
      → IsProgress r p
      → p.stack ≡ stack
      → Ends (Resolves r stack) (resolve_list expand r context is_instance is_first members p)
  unfolding resolve_list
  resolve_list-Ends context is_instance is_first no_members p h s =
      ends (record { valid = tt; progress = h; same_stack = s })
  resolve_list-Ends context is_instance is_first (and_member (field f) rest) p h s =
      Ends-bind _ _
        (Ends-raise {P = λ m. IsValid (length r.fields) (and_resolved m no_resolved)} _
          (λ m. resolve_field_ref-IsValid (length r.fields) r f context m indexed.fields_known))
        (λ m k. Ends-bind _ _ (resolve_list-Ends context is_instance false rest p h s) (λ q e.
          ends (record {
            valid = IsValid-cons (length r.fields) m q.0 k e.valid;
            progress = e.progress;
            same_stack = e.same_stack;
          })))
  resolve_list-Ends context is_instance is_first (and_member (component c) rest) p h s =
      elim (Option-cases (lookup c.name r.components_by_name)) [
        | inl unknown ↦ rw unknown (fails _)
        | inr (child, found) ↦ rw found (
            Ends-bind _ _ (expands child p (indexed.components_known c.name child found) h s)
              (λ x e.
                Ends-bind _ _
                  (resolve_list-Ends context is_instance false rest x e.progress e.same_stack)
                  (λ q k. ends (record {
                    valid =
                        IsValid-join (length r.fields) _ _
                          (IsValid-combine_all (length r.fields) _ _
                            (expansion_of-IsValid child x e))
                          k.valid;
                    progress = k.progress;
                    same_stack = k.same_stack;
                  }))))
      ]
  resolve_list-Ends context is_instance is_first (and_member (group tag required inner) rest) p h
        s =
      Ends-bind _ _
        (Ends-raise {P = λ count. count < length r.fields} _ (field_index_lt tag context))
        (λ count lt.
          let inside = group_context context (name_of r.fields count) in
          Ends-bind _ _ (resolve_list-Ends inside true true inner p h s) (λ i e.
            Ends-bind _ _
              (Ends-raise {P = λ m. IsValid (length r.fields) (and_resolved m no_resolved)} _
                (finished_group-IsValid count required context inside i.0 lt e.valid))
              (λ m k.
                Ends-bind _ _
                  (resolve_list-Ends context is_instance false rest i.1 e.progress e.same_stack)
                  (λ q f. ends (record {
                    valid = IsValid-cons (length r.fields) m q.0 k f.valid;
                    progress = f.progress;
                    same_stack = f.same_stack;
                  })))))

  pub resolve_members-Ends :
      (context : MemberContext) (members : Members) (p : Progress)
      → IsProgress r p
      → p.stack ≡ stack
      → Ends (Resolves r stack) (resolve_members expand r context members p)
  unfolding resolve_members
  resolve_members-Ends context members p h s =
      Ends-bind _ _ (resolve_list-Ends context false true members p h s) (λ q e.
        Ends-bind _ _
          (Ends-raise {P = IsValid (length r.fields)} _
            (λ found. finish_members-IsValid (length r.fields) r context false q.0 found e.valid))
          (λ found v.
            ends (record { valid = v; progress = e.progress; same_stack = e.same_stack })))
