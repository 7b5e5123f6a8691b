-- ===== src/Dictionary/Tags/Unique.antt =====
-- dictionary/resolver.rs, `insert_unique_tags`: it succeeds where the tags of the members, at any
-- depth, are all different.
use refix.Base.{
  ◌≡◌, refl, sym, ap, ◌∙◌, inl, inr, Bool, true, false, not, ◌&&◌, none, some, List, [], ◌∷◌, ◌++◌,
  arith, Bool-cases, Option-cases, is_some,
}
use refix.Base.Result.{Result, ok, err, ◌>>=◌}
use refix.Tags.{Tag, contains}
use refix.Dictionary.Spec.{Field, MemberContext}
use refix.Dictionary.Checks.{Error, duplicate_field, lookup_tag}
use refix.Dictionary.Tags.{
  resolved_field, resolved_group, ResolvedMembers, no_resolved, and_resolved, group_context, tag_of,
  name_of, insert_unique_tags,
}

-- The tags of members and of the members of their groups, in order.
unfoldable pub all_tags : List Field → ResolvedMembers → List Tag
all_tags fields no_resolved = []
all_tags fields (and_resolved (resolved_field index required) members) =
    tag_of fields index ∷ all_tags fields members
all_tags fields (and_resolved (resolved_group count d required declared c inner) members) =
    tag_of fields count ∷ (all_tags fields inner ++ all_tags fields members)

-- The keys of a map.
unfoldable pub keys : List (Tag × MemberContext) → List Tag
keys [] = []
keys ((tag, _) ∷ seen) = tag ∷ keys seen

-- Whether the tags are different from one another and from those seen before.
unfoldable pub all_new : List Tag → List Tag → Bool
all_new seen [] = true
all_new seen (tag ∷ tags) = not (contains seen tag) && all_new (tag ∷ seen) tags

-- The tags, the last one first, before those seen.
unfoldable pub after_all : List Tag → List Tag → List Tag
after_all seen [] = seen
after_all seen (tag ∷ tags) = after_all (tag ∷ seen) tags

abbrev pub is_ok : {E A : Type 0} → Result E A → Bool
is_ok (ok _) = true
is_ok (err _) = false

lookup_tag-contains :
    (tag : Tag) (seen : List (Tag × MemberContext))
    → is_some (lookup_tag tag seen) ≡ contains (keys seen) tag
unfolding lookup_tag contains keys
lookup_tag-contains tag [] = refl
lookup_tag-contains tag ((k, c) ∷ seen) = ground (arith, lookup_tag-contains tag seen)

all_new-append :
    (seen xs ys : List Tag)
    → all_new seen (xs ++ ys) ≡ (all_new seen xs && all_new (after_all seen xs) ys)
unfolding all_new after_all
all_new-append seen [] ys = refl
all_new-append seen (x ∷ xs) ys = elim (Bool-cases (contains seen x)) [
  | inl old ↦ rw old refl
  | inr new ↦ rw new (all_new-append (x ∷ seen) xs ys)
]

after_all-append :
    (seen xs ys : List Tag) → after_all seen (xs ++ ys) ≡ after_all (after_all seen xs) ys
unfolding after_all
after_all-append seen [] ys = refl
after_all-append seen (x ∷ xs) ys = after_all-append (x ∷ seen) xs ys

-- The result for tags that are new or not: the map with the tags, or an error.
pub data Inserts (seen : List (Tag × MemberContext)) (tags : List Tag)
    : Result Error (List (Tag × MemberContext)) → Type 0 where
  inserted :
      {more : List (Tag × MemberContext)}
      → all_new (keys seen) tags ≡ true
      → keys more ≡ after_all (keys seen) tags
      → Inserts seen tags (ok more)
  repeated :
      {tag : Tag} {first second : MemberContext}
      → all_new (keys seen) tags ≡ false
      → Inserts seen tags (err (duplicate_field tag first second))

Inserts-cons :
    (seen : List (Tag × MemberContext)) (tag : Tag) (context : MemberContext) (tags : List Tag)
    (r : Result Error (List (Tag × MemberContext)))
    → lookup_tag tag seen ≡ none
    → Inserts ((tag, context) ∷ seen) tags r
    → Inserts seen (tag ∷ tags) r
unfolding all_new after_all keys
Inserts-cons seen tag context tags (ok more) e (inserted new k) =
    inserted (ground (arith, lookup_tag-contains tag seen, e)) k
Inserts-cons seen tag context tags (err _) e (repeated old) =
    repeated (ground (arith, lookup_tag-contains tag seen, e))

Inserts-seen :
    (seen : List (Tag × MemberContext)) (tag : Tag) (first second : MemberContext) (tags : List Tag)
    → lookup_tag tag seen ≡ some first
    → Inserts seen (tag ∷ tags) (err (duplicate_field tag first second))
unfolding all_new
Inserts-seen seen tag first second tags e =
    repeated (ground (arith, lookup_tag-contains tag seen, e))

pub Inserts-append :
    (seen : List (Tag × MemberContext)) (xs ys : List Tag)
    (r : Result Error (List (Tag × MemberContext)))
    (f : List (Tag × MemberContext) → Result Error (List (Tag × MemberContext)))
    → Inserts seen xs r
    → ((more : List (Tag × MemberContext)) → Inserts more ys (f more))
    → Inserts seen (xs ++ ys) (r >>= f)
Inserts-append seen xs ys (ok more) f (inserted new k) rest = behind (f more) (rest more)
  where
    behind :
        (r : Result Error (List (Tag × MemberContext)))
        → Inserts more ys r
        → Inserts seen (xs ++ ys) r
    behind (ok all_more) (inserted new_too l) =
        inserted (ground (arith, all_new-append (keys seen) xs ys, new, k, new_too))
          (l ∙ ap (λ u. after_all u ys) k ∙ sym (after_all-append (keys seen) xs ys))
    behind (err _) (repeated old) =
        repeated (ground (arith, all_new-append (keys seen) xs ys, new, k, old))
Inserts-append seen xs ys (err _) f (repeated old) rest =
    repeated (ground (arith, all_new-append (keys seen) xs ys, old))

pub insert_unique_tags-Inserts :
    (fields : List Field) (context : MemberContext) (seen : List (Tag × MemberContext))
    (members : ResolvedMembers)
    → Inserts seen (all_tags fields members) (insert_unique_tags fields context seen members)
unfolding insert_unique_tags all_tags
insert_unique_tags-Inserts fields context seen no_resolved =
    unfold all_new after_all in inserted refl refl
insert_unique_tags-Inserts fields context seen
      (and_resolved (resolved_field index required) members) =
    let tag = tag_of fields index in
    elim (Option-cases (lookup_tag tag seen)) [
      | inr (first, e) ↦ rw (e, insert_unique_tags) (Inserts-seen seen tag first context _ e)
      | inl e ↦
          rw (e, insert_unique_tags)
            (Inserts-cons seen tag context _ _ e
              (insert_unique_tags-Inserts fields context ((tag, context) ∷ seen) members))
    ]
insert_unique_tags-Inserts fields context seen
      (and_resolved (resolved_group count d required declared c inner) members) =
    let tag = tag_of fields count in
    let inside = group_context context (name_of fields count) in
    elim (Option-cases (lookup_tag tag seen)) [
      | inr (first, e) ↦ rw (e, insert_unique_tags) (Inserts-seen seen tag first context _ e)
      | inl e ↦
          rw (e, insert_unique_tags)
            (Inserts-cons seen tag context _ _ e (
              Inserts-append ((tag, context) ∷ seen) (all_tags fields inner)
                (all_tags fields members) _ _
                (insert_unique_tags-Inserts fields inside ((tag, context) ∷ seen) inner)
                (λ more. insert_unique_tags-Inserts fields context more members)))
    ]

-- For any fields, members and tags seen before, insert_unique_tags succeeds exactly where the tags
-- of the members and of the members of their groups, at any depth, are different from one another
-- and from those seen before.
pub insert_unique_tags-all_new :
    (fields : List Field) (context : MemberContext) (seen : List (Tag × MemberContext))
    (members : ResolvedMembers)
    → is_ok (insert_unique_tags fields context seen members)
      ≡ all_new (keys seen) (all_tags fields members)
insert_unique_tags-all_new fields context seen members =
    answer (insert_unique_tags fields context seen members)
      (insert_unique_tags-Inserts fields context seen members)
  where
    answer :
        (r : Result Error (List (Tag × MemberContext)))
        → Inserts seen (all_tags fields members) r
        → is_ok r ≡ all_new (keys seen) (all_tags fields members)
    answer (ok more) (inserted new k) = sym new
    answer (err _) (repeated old) = sym old
