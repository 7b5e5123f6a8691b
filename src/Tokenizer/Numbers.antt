-- ===== src/Tokenizer/Numbers.antt =====
-- tokenizer.rs, `parse_u32`, `Tokenizer::new` and `is_length_tag`: exactly which texts are numbers,
-- and which tags are length tags.
use refix.Base.{
  ℕ, ◌≤◌, ◌≡◌, refl, ap, ◌∙◌, ◌↔◌, true, not, ◌&&◌, ◌||◌, some, List, [], ◌∷◌, ◌++◌, arith, leb,
  ◌==◌, length, Bytes, all, is_digit,
}
use refix.Base.Digits.{u32_max, decimal, fold_digits_fits, fold_digits-eq-some}
use refix.Tags.{Tag, malformed, is_sorted_set, contains}
use refix.Tags.Search.{binary_search-contains}
use refix.Tags.Sets.{contains-sort_tags, contains-dedup, sort_tags-is_sorted, dedup-is_sorted_set}
use refix.Tokenizer.{
  standard_length_tags, Dialect, real_tags, new_tokenizer, parse_u32, from_first, is_length_tag,
}

-- The decimal texts that a `u32` can hold.
pub record IsNumber (digits : Bytes) (n : ℕ) : Type 0 where
  pub not_empty : 1 ≤ length digits
  pub digits_only : all is_digit digits ≡ true
  pub denotes : n ≡ decimal 0 digits
  pub fits : n ≤ u32_max

-- Parse_u32 returns a number exactly for the non-empty all-digit texts that denote it in decimal
-- and fit 32 bits.
pub parse_u32-IsNumber : (digits : Bytes) (n : ℕ) → (parse_u32 digits ≡ some n) ↔ IsNumber digits n
unfolding parse_u32
parse_u32-IsNumber digits n = (
  (λ h. ground (arith, fold_digits-eq-some u32_max 0 digits n)),
  (λ i. ground (arith, fold_digits_fits u32_max 0 digits, i.not_empty, i.digits_only)),
)

contains-append :
    (xs ys : List Tag) (tag : Tag) → contains (xs ++ ys) tag ≡ (contains xs tag || contains ys tag)
unfolding contains
contains-append [] ys tag = refl
contains-append (x ∷ xs) ys tag = ground (arith, contains-append xs ys tag)

contains-real_tags :
    (tags : List Tag) (tag : Tag)
    → contains (real_tags tags) tag ≡ (not (tag == malformed) && contains tags tag)
unfolding contains real_tags
contains-real_tags [] tag = ground arith
contains-real_tags (x ∷ tags) tag = ground (arith, contains-real_tags tags tag)

from_first-contains :
    (x : Tag) (tags : List Tag) (tag : Tag)
    → is_sorted_set (x ∷ tags) ≡ true
    → contains (x ∷ tags) tag ≡ true
    → leb x tag ≡ true
unfolding contains is_sorted_set
from_first-contains x [] tag s h = ground arith
from_first-contains x (y ∷ tags) tag s h = ground (arith, from_first-contains y tags tag)

first_test :
    (tags : List Tag) (tag : Tag)
    → is_sorted_set tags ≡ true
    → (from_first tags tag && contains tags tag) ≡ contains tags tag
first_test [] tag s = unfold contains in refl
first_test (x ∷ tags) tag s = ground (arith, from_first-contains x tags tag s)

-- The tokenizer's tags are a sorted set, as its binary search wants.
pub new_tokenizer-is_sorted_set : (d : Dialect) → is_sorted_set (new_tokenizer d).length_tags ≡ true
unfolding new_tokenizer
new_tokenizer-is_sorted_set d = dedup-is_sorted_set _ (sort_tags-is_sorted _)

-- For any dialect, a tag is a length tag exactly when it is a standard one, or one of the
-- dialect's extras other than the tag that marks malformed fields.
pub is_length_tag_lem :
    (d : Dialect) (tag : Tag)
    → is_length_tag (new_tokenizer d) tag ≡ (
        contains standard_length_tags tag
        || not (tag == malformed) && contains d.extra_length_tags tag)
unfolding is_length_tag
is_length_tag_lem d tag =
    let s = new_tokenizer-is_sorted_set d in
    let tags = (new_tokenizer d).length_tags in
    ap (λ b. from_first tags tag && b) (binary_search-contains tags tag s)
    ∙ first_test tags tag s
    ∙ unfold new_tokenizer in
      contains-dedup _ tag
      ∙ contains-sort_tags _ tag
      ∙ contains-append standard_length_tags (real_tags d.extra_length_tags) tag
      ∙ ap (λ b. contains standard_length_tags tag || b)
          (contains-real_tags d.extra_length_tags tag)
