-- ===== src/Tags/Search.antt =====
-- Binary search on a sorted set finds exactly the tags that the linear search finds.
use refix.Base.{
  ℕ, zero, suc, ◌/◌, ◌≤◌, ◌<◌, ◌≡◌, refl, sym, ap, ◌∙◌, Bool, true, false, ◌||◌, Option, none, some,
  List, [], ◌∷◌, ◌++◌, arith, ltb, if◌then◌else◌, length, get_elem?, take, drop, length-take,
  length-drop, get_elem?-lt,
}
use refix.Tags.{Tag, is_sorted_set, contains, search, binary_search}

contains-append :
    (xs ys : List Tag) (tag : Tag) → contains (xs ++ ys) tag ≡ (contains xs tag || contains ys tag)
unfolding contains
contains-append [] ys tag = refl
contains-append (x ∷ xs) ys tag = ground (arith, contains-append xs ys tag)

-- No tag of a sorted set that begins behind `tag` is `tag`.
contains_behind :
    (x : Tag) (tags : List Tag) (tag : Tag)
    → is_sorted_set (x ∷ tags) ≡ true
    → tag < x
    → contains (x ∷ tags) tag ≡ false
unfolding contains is_sorted_set
contains_behind x [] tag s lt = ground arith
contains_behind x (y ∷ tags) tag s lt = ground (arith, contains_behind y tags tag)

first_lt :
    (w : Tag) (xs : List Tag) (x : Tag) (ys : List Tag)
    → is_sorted_set (w ∷ (xs ++ x ∷ ys)) ≡ true
    → w < x
unfolding is_sorted_set
first_lt w [] x ys s = ground arith
first_lt w (v ∷ xs) x ys s = ground (arith, first_lt v xs x ys)

-- Nor does one that ends before `tag` hold it.
contains_before :
    (xs : List Tag) (x : Tag) (ys : List Tag) (tag : Tag)
    → is_sorted_set (xs ++ x ∷ ys) ≡ true
    → x < tag
    → contains xs tag ≡ false
unfolding contains is_sorted_set
contains_before [] x ys tag s lt = refl
contains_before (w ∷ []) x ys tag s lt = ground arith
contains_before (w ∷ v ∷ xs) x ys tag s lt =
    ground (arith, contains_before (v ∷ xs) x ys tag, first_lt w (v ∷ xs) x ys s)

is_sorted_set-append :
    (xs ys : List Tag)
    → is_sorted_set (xs ++ ys) ≡ true
    → (is_sorted_set xs ≡ true) × (is_sorted_set ys ≡ true)
unfolding is_sorted_set
is_sorted_set-append [] ys s = (refl, s)
is_sorted_set-append (x ∷ []) [] s = (refl, refl)
is_sorted_set-append (x ∷ []) (y ∷ ys) s = ground arith
is_sorted_set-append (x ∷ w ∷ xs) ys s = ground (arith, is_sorted_set-append (w ∷ xs) ys)

is_sorted_set-tail :
    (x : Tag) (tags : List Tag) → is_sorted_set (x ∷ tags) ≡ true → is_sorted_set tags ≡ true
unfolding is_sorted_set
is_sorted_set-tail x [] s = refl
is_sorted_set-tail x (y ∷ tags) s = ground arith

-- The list around the place of an element.
get_elem?-splits :
    (tags : List Tag) (n : ℕ) (x : Tag)
    → get_elem? tags n ≡ some x
    → tags ≡ take n tags ++ x ∷ drop (suc n) tags
get_elem?-splits [] n x h = cc
get_elem?-splits (y ∷ tags) zero x h = ground arith
get_elem?-splits (y ∷ tags) (suc n) x h = ap (◌∷◌ y) (get_elem?-splits tags n x h)

search_at : ℕ → List Tag → Tag → Option Tag → Bool
search_at fuel tags tag o = elim o [
  | none ↦ false
  | some x ↦
      if ltb x tag
      then search fuel (drop (suc (length tags / 2)) tags) tag
      else if ltb tag x
      then search fuel (take (length tags / 2) tags) tag
      else true
]

search-suc :
    (fuel : ℕ) (tags : List Tag) (tag : Tag)
    → search (suc fuel) tags tag ≡ search_at fuel tags tag (get_elem? tags (length tags / 2))
unfolding search search_at
search-suc fuel tags tag = refl

-- One round, where the middle tag splits the set.
search_at-contains :
    (fuel : ℕ) (tags : List Tag) (tag x : Tag)
    → is_sorted_set tags ≡ true
    → get_elem? tags (length tags / 2) ≡ some x
    → search fuel (take (length tags / 2) tags) tag ≡ contains (take (length tags / 2) tags) tag
    → search fuel (drop (suc (length tags / 2)) tags) tag
      ≡ contains (drop (suc (length tags / 2)) tags) tag
    → search_at fuel tags tag (some x) ≡ contains tags tag
unfolding search_at contains
search_at-contains fuel tags tag x s found below above =
    let low = take (length tags / 2) tags in
    let high = drop (suc (length tags / 2)) tags in
    let splits = get_elem?-splits tags (length tags / 2) x found in
    let sorted : is_sorted_set (low ++ x ∷ high) ≡ true = ap is_sorted_set (sym splits) ∙ s in
    let parts = ap (λ t. contains t tag) splits ∙ contains-append low (x ∷ high) tag in
    ground (
      arith,
      parts,
      contains_before low x high tag sorted,
      contains_behind x high tag (is_sorted_set-append low (x ∷ high) sorted).1,
    )

-- With a round for each tag the search ends, and agrees with the linear search.
search-contains :
    (fuel : ℕ) (tags : List Tag) (tag : Tag)
    → length tags ≤ fuel
    → is_sorted_set tags ≡ true
    → search fuel tags tag ≡ contains tags tag
search-contains zero [] tag h s = unfold search contains in refl
search-contains zero (x ∷ tags) tag h s = absurd (omega arith)
search-contains (suc fuel) [] tag h s = unfold search contains in refl
search-contains (suc fuel) (w ∷ rest) tag h s =
    let tags = w ∷ rest in
    let m = length tags / 2 in
    let (x, found) = get_elem?-lt tags m (omega arith) in
    let sorted : is_sorted_set (take m tags ++ x ∷ drop (suc m) tags) ≡ true =
      ap is_sorted_set (sym (get_elem?-splits tags m x found)) ∙ s in
    let (low, high) = is_sorted_set-append (take m tags) (x ∷ drop (suc m) tags) sorted in
    search-suc fuel tags tag
    ∙ ap (search_at fuel tags tag) found
    ∙ search_at-contains fuel tags tag x s found
        (search-contains fuel (take m tags) tag (omega (arith, length-take m tags)) low)
        (search-contains fuel (drop (suc m) tags) tag (omega (arith, length-drop (suc m) tags))
          (is_sorted_set-tail x (drop (suc m) tags) high))

-- On a strictly increasing list, binary search answers whether the tag is in it.
pub binary_search-contains :
    (tags : List Tag) (tag : Tag)
    → is_sorted_set tags ≡ true
    → binary_search tags tag ≡ contains tags tag
binary_search-contains tags tag s = search-contains (length tags) tags tag (omega arith) s
