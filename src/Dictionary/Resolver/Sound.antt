-- ===== src/Dictionary/Resolver/Sound.antt =====
-- resolver.rs, `Spec::resolve`: it returns, and what it returns is sound.
use refix.Base.{
  ℕ, zero, suc, ◌+◌, ◌≤◌, ◌<◌, ◌≡◌, refl, subst, ◌≢◌, none, some, List, [], ◌∷◌, arith, length,
  get_elem?,
}
use refix.Tags.Counts.{count, IsDistinct}
use refix.Dictionary.Spec.{Field, Members, Message, Component, Spec, MemberContext}
use refix.Dictionary.Tags.{ResolvedMembers}
use refix.Dictionary.Resolver.{
  Resolver, Progress, resolve_members, expand_component, expand_from, unexpanded, expand_components,
  resolve_message, resolve_messages, Dictionary, resolve,
}
use refix.Dictionary.Resolver.Ends.{Ends, ends, Ends-bind, Ends-raise}
use refix.Dictionary.Resolver.Valid.{IsValid}
use refix.Dictionary.Resolver.Lists.{IsIndexed, IsProgress, Expands, Resolves, resolve_members-Ends}
use refix.Dictionary.Resolver.Stacks.{IsStack-nil}
use refix.Dictionary.Resolver.Expand.{expand_component-Ends}
use refix.Dictionary.Resolver.Sections.{tags_between, check_sections-IsDistinct}
use refix.Dictionary.Resolver.Indexes.{IsNew, new_resolver-IsNew}

-- What holds of each message: its indexes are valid, and its tags and those of the sections are all
-- different.
pub record IsSoundMessage (fields : List Field) (head tail members : ResolvedMembers) : Type 0 where
  pub valid : IsValid (length fields) members
  pub distinct : IsDistinct (tags_between fields head members tail)

-- There are `n` messages, all sound.
pub record AreSound (fields : List Field) (head tail : ResolvedMembers) (n : ℕ)
    (messages : List ResolvedMembers) : Type 0 where
  pub one_for_each : length messages ≡ n
  pub sound :
      (i : ℕ) (members : ResolvedMembers)
      → get_elem? messages i ≡ some members
      → IsSoundMessage fields head tail members

pub record IsSound (spec : Spec) (d : Dictionary) : Type 0 where
  pub same_spec : d.spec ≡ spec
  pub head_valid : IsValid (length spec.fields) d.header
  pub tail_valid : IsValid (length spec.fields) d.trailer
  pub messages : AreSound spec.fields d.header d.trailer (length spec.messages) d.messages

AreSound-cons :
    (fields : List Field) (head tail : ResolvedMembers) (n : ℕ) (m : ResolvedMembers)
    (messages : List ResolvedMembers)
    → IsSoundMessage fields head tail m
    → AreSound fields head tail n messages
    → AreSound fields head tail (suc n) (m ∷ messages)
AreSound-cons fields head tail n m messages h k = record {
  one_for_each = omega (arith, k.one_for_each);
  sound = each;
}
  where
    each :
        (i : ℕ) (members : ResolvedMembers)
        → get_elem? (m ∷ messages) i ≡ some members
        → IsSoundMessage fields head tail members
    each zero members e =
        let same : m ≡ members = cc in subst (IsSoundMessage fields head tail) same h
    each (suc i) members e = k.sound i members e

-- The empty stack, and progress.
record IsIdle (r : Resolver) (p : Progress) : Type 0 where
  progress : IsProgress r p
  idle : p.stack ≡ []

module _ (r : Resolver) (indexed : IsIndexed r) where
  expand-Ends :
      (i : ℕ) (p : Progress)
      → i < length r.components
      → IsProgress r p
      → p.stack ≡ []
      → Ends (Expands r [] i) (expand_component (length r.components + 1) r i p)
  expand-Ends i p lt h s =
      subst (λ st. Ends (Expands r st i) (expand_component (length r.components + 1) r i p)) s
        (expand_component-Ends r indexed (length r.components + 1) i p lt h (rw s (IsStack-nil _))
          (omega arith))

  expand_from-Ends :
      (count index : ℕ) (p : Progress)
      → index + count ≤ length r.components
      → IsProgress r p
      → p.stack ≡ []
      → Ends (IsIdle r) (expand_from r count index p)
  unfolding expand_from
  expand_from-Ends zero index p le h s = ends (record { progress = h; idle = s })
  expand_from-Ends (suc count) index p le h s =
      Ends-bind _ _ (expand-Ends index p (omega arith) h s)
        (λ q e. expand_from-Ends count (index + 1) q (omega arith) e.progress e.same_stack)

  resolve_top-Ends :
      (context : MemberContext) (members : Members) (p : Progress)
      → IsProgress r p
      → p.stack ≡ []
      → Ends
          (Resolves r [])
          (resolve_members (expand_component (length r.components + 1) r) r context members p)
  resolve_top-Ends context members p h s =
      resolve_members-Ends r indexed [] (expand_component (length r.components + 1) r) expand-Ends
        context members p h s

  module _ (head tail : ResolvedMembers) where
    resolve_message-Ends :
        (m : Message) (p : Progress)
        → IsProgress r p
        → p.stack ≡ []
        → Ends
            (λ q. IsSoundMessage r.fields head tail q.0 × IsIdle r q.1)
            (resolve_message r head tail m p)
    unfolding resolve_message
    resolve_message-Ends m p h s =
        let context = MemberContext.message m.name in
        Ends-bind _ _ (resolve_top-Ends context m.members p h s) (λ q e.
          Ends-bind _ _
            (Ends-raise {P = λ _. IsDistinct (tags_between r.fields head q.0 tail)} _
              (λ more. check_sections-IsDistinct r.fields context head q.0 tail more))
            (λ more new. ends (
              record { valid = e.valid; distinct = new },
              record { progress = e.progress; idle = e.same_stack },
            )))

    resolve_messages-Ends :
        (messages : List Message) (p : Progress)
        → IsProgress r p
        → p.stack ≡ []
        → Ends
            (AreSound r.fields head tail (length messages))
            (resolve_messages r head tail messages p)
    unfolding resolve_messages
    resolve_messages-Ends [] p h s =
        ends (record { one_for_each = refl; sound = λ i members e. cc })
    resolve_messages-Ends (m ∷ messages) p h s =
        Ends-bind _ _ (resolve_message-Ends m p h s) (λ q e.
          Ends-bind _ _ (resolve_messages-Ends messages q.1 e.1.progress e.1.idle)
            (λ rest k. ends (AreSound-cons r.fields head tail (length messages) q.0 rest e.0 k)))

unexpanded_lem :
    (components : List Component)
    → (length (unexpanded components) ≡ length components)
      × ((i : ℕ) (members : ResolvedMembers)
          → get_elem? (unexpanded components) i ≢ some (some members))
unfolding unexpanded
unexpanded_lem [] = (refl, λ i members e. cc)
unexpanded_lem (c ∷ components) =
    let (sized, none_yet) = unexpanded_lem components in (omega (arith, sized), each none_yet)
  where
    each :
        ((i : ℕ) (members : ResolvedMembers)
          → get_elem? (unexpanded components) i ≢ some (some members))
        → (i : ℕ) (members : ResolvedMembers)
        → get_elem? (none ∷ unexpanded components) i ≢ some (some members)
    each h zero members e = cc
    each h (suc i) members e = h i members e

expand_components-Ends : (r : Resolver) → IsIndexed r → Ends (IsIdle r) (expand_components r)
unfolding expand_components
expand_components-Ends r indexed =
    let (sized, none_yet) = unexpanded_lem r.components in
    expand_from-Ends r indexed (length r.components) 0 _ (omega arith)
      (record { sized = sized; expanded = λ i members e. absurd (none_yet i members e) }) refl

-- For every specification, Spec::resolve returns: the fuel of the model is never used up. Where it
-- gives a dictionary, that keeps the specification and has one member list for each message; every
-- field index in header, trailer and messages is of a declared field, every group is not empty and
-- starts with its delimiter, and the tags of header, message and trailer, at any depth, are all
-- different.
pub resolve-Ends : (spec : Spec) → Ends (IsSound spec) (resolve spec)
unfolding resolve
resolve-Ends spec =
    Ends-bind _ _ (Ends-raise {P = IsNew spec} _ (new_resolver-IsNew spec)) (λ r new.
      Ends-bind _ _ (expand_components-Ends r new.indexed) (λ p idle.
        Ends-bind _ _
          (resolve_top-Ends r new.indexed MemberContext.header spec.header p idle.progress
            idle.idle)
          (λ head h.
            Ends-bind _ _
              (resolve_top-Ends r new.indexed MemberContext.trailer spec.trailer head.1 h.progress
                h.same_stack)
              (λ tail t.
                Ends-bind _ _
                  (resolve_messages-Ends r new.indexed head.0 tail.0 spec.messages tail.1 t.progress
                    t.same_stack)
                  (λ messages m. ends (record {
                    same_spec = refl;
                    head_valid = rw (← new.same_fields) h.valid;
                    tail_valid = rw (← new.same_fields) t.valid;
                    messages = rw (← new.same_fields) m;
                  }))))))
