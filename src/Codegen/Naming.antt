-- ===== src/Codegen/Naming.antt =====
-- crates/refix-codegen/src/naming.rs: names before they are escaped for a language.
use refix.Base.{
  ℕ, Bool, false, ◌&&◌, ◌||◌, Option, none, some, List, [], ◌∷◌, ◌++◌, ◌==◌, if◌then◌else◌, equal,
  is_digit,
}
use refix.Base.Text.{codes}
use refix.Dictionary.Spec.{Name, Field}
use refix.Dictionary.Tags.{name_of}
use refix.Dictionary.Views.{Group}
use refix.Codegen.CaseConverter.{is_upper, is_lower, some_and, peek, snake_case}
use refix.Codegen.Conversion.{conversion_of, is_raw}

-- A field of a type that the generator does not interpret takes the suffix `_raw`.
unfoldable pub field_base_name : Field → Name
unfolding snake_case conversion_of
field_base_name f =
    if is_raw (conversion_of f) then snake_case f.name ++ codes "_raw" else snake_case f.name

-- Strips a `No` that starts a word.
abbrev pub without_no_prefix : Name → Option Name
without_no_prefix [] = none
without_no_prefix (a ∷ []) = none
without_no_prefix (a ∷ b ∷ rest) =
    if (a == b'N') && (b == b'o') && some_and is_upper (peek rest) then some rest else none

abbrev pub name_or : Name → Option Name → Name
name_or name none = name
name_or name (some other) = other

-- A group's name as the dictionary gives it: of its component, else of its count field.
unfoldable pub group_source_name : List Field → Group → Name
group_source_name fields g =
    let count_name = name_of fields g.count_field in
    name_or (name_or count_name (without_no_prefix count_name)) g.component

unfoldable pub group_base_name : List Field → Group → Name
unfolding group_source_name snake_case
group_base_name fields g = snake_case (group_source_name fields g)

-- `contains` on a list of names.
unfoldable pub has_name : List Name → Name → Bool
unfolding equal
has_name [] name = false
has_name (x ∷ names) name = equal x name || has_name names name

abbrev pub is_alphabetic : ℕ → Bool
is_alphabetic c = is_upper c || is_lower c

abbrev pub is_alphanumeric : ℕ → Bool
is_alphanumeric c = is_alphabetic c || is_digit c
