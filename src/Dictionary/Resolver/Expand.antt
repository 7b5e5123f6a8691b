-- ===== src/Dictionary/Resolver/Expand.antt =====
-- resolver.rs, `expand_component`: its fuel, and the expansions that it notes.
use refix.Base.{
  ℕ, zero, suc, ◌+◌, ◌<◌, ◌≡◌, refl, ◌∙◌, subst, inl, inr, true, Option, none, some, List, [], ◌∷◌,
  arith, Bool-cases, length, get_elem?, get_elem?-lt, all,
}
use refix.Tags.{contains}
use refix.Dictionary.Spec.{MemberContext}
use refix.Dictionary.Checks.{circular_component}
use refix.Dictionary.Tags.{ResolvedMembers}
use refix.Dictionary.Resolver.{Resolver, Progress, set_expansion, is_expanded, expand_component}
use refix.Dictionary.Resolver.Ends.{Ends, ends, fails, Ends-bind}
use refix.Dictionary.Resolver.Valid.{IsValid, IsValid-name_group}
use refix.Dictionary.Resolver.Lists.{IsIndexed, IsProgress, Expands, resolve_members-Ends}
use refix.Dictionary.Resolver.Stacks.{IsStack, IsStack-length, IsStack-push}

length-set_expansion :
    (i : ℕ) (m : ResolvedMembers) (xs : List (Option ResolvedMembers))
    → length (set_expansion i m xs) ≡ length xs
unfolding set_expansion
length-set_expansion i m [] = refl
length-set_expansion zero m (x ∷ xs) = refl
length-set_expansion (suc i) m (x ∷ xs) = omega (arith, length-set_expansion i m xs)

get_elem?-set_expansion :
    (i : ℕ) (m : ResolvedMembers) (xs : List (Option ResolvedMembers))
    → i < length xs
    → get_elem? (set_expansion i m xs) i ≡ some (some m)
unfolding set_expansion
get_elem?-set_expansion i m [] h = absurd (omega arith)
get_elem?-set_expansion zero m (x ∷ xs) h = refl
get_elem?-set_expansion (suc i) m (x ∷ xs) h = get_elem?-set_expansion i m xs (omega arith)

set_expansion-keeps :
    (P : ResolvedMembers → Type 0) (i : ℕ) (m : ResolvedMembers)
    (xs : List (Option ResolvedMembers))
    → P m
    → ((j : ℕ) (v : ResolvedMembers) → get_elem? xs j ≡ some (some v) → P v)
    → (j : ℕ) (v : ResolvedMembers) → get_elem? (set_expansion i m xs) j ≡ some (some v)
    → P v
unfolding set_expansion
set_expansion-keeps P i m [] h all j v e = cc
set_expansion-keeps P zero m (x ∷ xs) h all zero v e =
    let same : m ≡ v = ground (arith, e) in subst P same h
set_expansion-keeps P zero m (x ∷ xs) h all (suc j) v e = all (suc j) v e
set_expansion-keeps P (suc i) m (x ∷ xs) h all zero v e = all zero v e
set_expansion-keeps P (suc i) m (x ∷ xs) h all (suc j) v e =
    set_expansion-keeps P i m xs h (λ k. all (suc k)) j v e

expanded_members :
    (o : Option (Option ResolvedMembers))
    → is_expanded o ≡ true
    → (members : ResolvedMembers) × (o ≡ some (some members))
expanded_members (some (some members)) e = (members, refl)
expanded_members (some none) e = cc
expanded_members none e = cc

module _ (r : Resolver) (indexed : IsIndexed r) where
  pub expand_component-Ends :
      (fuel index : ℕ) (p : Progress)
      → index < length r.components
      → IsProgress r p
      → IsStack (length r.components) p.stack
      → length r.components < fuel + length p.stack
      → Ends (Expands r p.stack index) (expand_component fuel r index p)
  unfolding expand_component
  expand_component-Ends zero index p lt h s enough = absurd (omega (arith, IsStack-length _ _ s))
  expand_component-Ends (suc fuel) index p lt h s enough =
      let (c, found) = get_elem?-lt r.components index lt in
      let stack = index ∷ p.stack in
      elim (Bool-cases (is_expanded (get_elem? p.expansions index))) [
        | inl done ↦ rw done (
            ends
              (record { progress = h; same_stack = refl; is_expanded = expanded_members _ done }))
        | inr not_yet ↦ elim (Bool-cases (contains p.stack index)) [
          | inl circular ↦ rw (not_yet, found, circular) (fails (circular_component c.name))
          | inr new ↦
              rw (not_yet, found, new)
                (Ends-bind _ _
                  (resolve_members-Ends r indexed stack (expand_component fuel r)
                    (λ i q lt' h' same.
                      subst (λ st. Ends (Expands r st i) (expand_component fuel r i q)) same
                        (expand_component-Ends fuel i q lt' h'
                          (rw same (IsStack-push _ index p.stack lt new s))
                          (rw same (omega arith))))
                    (MemberContext.component c.name) c.members (record p { stack = stack })
                    (record { sized = h.sized; expanded = h.expanded }) refl)
                  (λ q e.
                    let named = IsValid-name_group (length r.fields) c.name c.members q.0 e.valid in
                    ends (record {
                      progress = record {
                        sized = length-set_expansion index _ _ ∙ e.progress.sized;
                        expanded =
                            set_expansion-keeps (IsValid (length r.fields)) index _ _ named
                              e.progress.expanded;
                      };
                      same_stack = refl;
                      is_expanded = (_, get_elem?-set_expansion index _ _ (rw e.progress.sized lt));
                    })))
        ]
      ]
