-- ===== src/Tags/Counts.antt =====
-- How often a tag is in a list; a list where none is twice sorts into a set.
use refix.Base.{ℕ, ◌+◌, ◌≤◌, ◌≡◌, refl, true, List, [], ◌∷◌, ◌++◌, arith, ltb, ◌==◌, if◌then◌else◌}
use refix.Tags.{Tag, is_sorted_set, contains, insert_tag, sort_tags}
use refix.Tags.Sets.{is_sorted, sort_tags-is_sorted}

unfoldable pub count : Tag → List Tag → ℕ
count tag [] = 0
count tag (x ∷ tags) = (if x == tag then 1 else 0) + count tag tags

-- No tag is twice in the list.
abbrev pub IsDistinct : List Tag → Type 0
IsDistinct tags = (tag : Tag) → count tag tags ≤ 1

pub count-append :
    (tag : Tag) (xs ys : List Tag) → count tag (xs ++ ys) ≡ count tag xs + count tag ys
unfolding count
count-append tag [] ys = omega arith
count-append tag (x ∷ xs) ys = ground (arith, count-append tag xs ys)

count-insert_tag :
    (tag x : Tag) (tags : List Tag)
    → count tag (insert_tag x tags) ≡ (if x == tag then 1 else 0) + count tag tags
unfolding count insert_tag
count-insert_tag tag x [] = refl
count-insert_tag tag x (y ∷ tags) = ground (arith, count-insert_tag tag x tags)

pub count-sort_tags : (tag : Tag) (tags : List Tag) → count tag (sort_tags tags) ≡ count tag tags
unfolding count sort_tags
count-sort_tags tag [] = refl
count-sort_tags tag (x ∷ tags) =
    ground (arith, count-insert_tag tag x (sort_tags tags), count-sort_tags tag tags)

pub count-contains : (tag : Tag) (tags : List Tag) → contains tags tag ≡ ltb 0 (count tag tags)
unfolding count contains
count-contains tag [] = refl
count-contains tag (x ∷ tags) = ground (arith, count-contains tag tags)

sorted-is_sorted_set :
    (tags : List Tag) → is_sorted tags ≡ true → IsDistinct tags → is_sorted_set tags ≡ true
unfolding is_sorted is_sorted_set count
sorted-is_sorted_set [] s d = refl
sorted-is_sorted_set (x ∷ []) s d = refl
sorted-is_sorted_set (x ∷ y ∷ tags) s d =
    let behind : is_sorted_set (y ∷ tags) ≡ true =
      sorted-is_sorted_set (y ∷ tags) (ground arith) (λ tag. ground (arith, d tag)) in
    ground (arith, d x, behind)

pub sort_tags-is_sorted_set :
    (tags : List Tag) → IsDistinct tags → is_sorted_set (sort_tags tags) ≡ true
sort_tags-is_sorted_set tags d =
    sorted-is_sorted_set (sort_tags tags) (sort_tags-is_sorted tags)
      (λ tag. rw (count-sort_tags tag tags) (d tag))
