-- ===== src/Tags/Sets.antt =====
-- Sorting and removing duplicates gives a sorted set with the same tags.
use refix.Base.{
  ◌≡◌, refl, ap, ◌∙◌, inl, inr, Bool, true, ◌&&◌, ◌||◌, List, [], ◌∷◌, arith, leb, ◌==◌, Bool-cases,
}
use refix.Tags.{Tag, is_sorted_set, contains, insert_tag, sort_tags, dedup}

contains-insert_tag :
    (x : Tag) (tags : List Tag) (tag : Tag)
    → contains (insert_tag x tags) tag ≡ (x == tag || contains tags tag)
unfolding contains insert_tag
contains-insert_tag x [] tag = refl
contains-insert_tag x (y ∷ tags) tag = ground (arith, contains-insert_tag x tags tag)

pub contains-sort_tags :
    (tags : List Tag) (tag : Tag) → contains (sort_tags tags) tag ≡ contains tags tag
unfolding contains sort_tags
contains-sort_tags [] tag = refl
contains-sort_tags (x ∷ tags) tag =
    contains-insert_tag x (sort_tags tags) tag
    ∙ ap (λ b. x == tag || b) (contains-sort_tags tags tag)

pub contains-dedup : (tags : List Tag) (tag : Tag) → contains (dedup tags) tag ≡ contains tags tag
unfolding contains dedup
contains-dedup [] tag = refl
contains-dedup (x ∷ []) tag = refl
contains-dedup (x ∷ y ∷ tags) tag = ground (arith, contains-dedup (y ∷ tags) tag)

-- Increasing, with repetitions.
unfoldable pub is_sorted : List Tag → Bool
is_sorted [] = true
is_sorted (x ∷ []) = true
is_sorted (x ∷ y ∷ tags) = leb x y && is_sorted (y ∷ tags)

insert_tag-is_sorted :
    (x : Tag) (tags : List Tag) → is_sorted tags ≡ true → is_sorted (insert_tag x tags) ≡ true
unfolding is_sorted insert_tag
insert_tag-is_sorted x [] h = refl
insert_tag-is_sorted x (y ∷ []) h = ground arith
insert_tag-is_sorted x (y ∷ z ∷ tags) h = ground (arith, insert_tag-is_sorted x (z ∷ tags))

pub sort_tags-is_sorted : (tags : List Tag) → is_sorted (sort_tags tags) ≡ true
unfolding sort_tags
sort_tags-is_sorted [] = unfold is_sorted in refl
sort_tags-is_sorted (x ∷ tags) = insert_tag-is_sorted x (sort_tags tags) (sort_tags-is_sorted tags)

dedup_from :
    (x : Tag) (tags : List Tag)
    → is_sorted (x ∷ tags) ≡ true
    → (rest : List Tag) × (dedup (x ∷ tags) ≡ x ∷ rest) × (is_sorted_set (x ∷ rest) ≡ true)
unfolding dedup is_sorted is_sorted_set
dedup_from x [] h = ([], refl, refl)
dedup_from x (y ∷ tags) h =
    let (rest, e, s) = dedup_from y tags (ground arith) in
    elim (Bool-cases (x == y)) [
      | inl same ↦ (rest, ground (arith, e), ground (arith, s))
      | inr new ↦ (y ∷ rest, ground (arith, e), ground (arith, s))
    ]

pub dedup-is_sorted_set :
    (tags : List Tag) → is_sorted tags ≡ true → is_sorted_set (dedup tags) ≡ true
dedup-is_sorted_set [] h = unfold dedup is_sorted_set in refl
dedup-is_sorted_set (x ∷ tags) h = let (rest, e, s) = dedup_from x tags h in rw e s
