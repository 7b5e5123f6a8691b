-- ===== src/Codegen/CaseConverter.antt =====
-- crates/refix-codegen/src/case_converter.rs: the identifiers made of FIX names. A character is its
-- number.
use refix.Base.{
  ℕ, ◌+◌, ◌-◌, Bool, true, false, not, ◌&&◌, ◌||◌, Option, none, some, List, [], ◌∷◌, leb, ◌==◌,
  if◌then◌else◌, is_digit,
}

abbrev pub Text : Type 0
Text = List ℕ

abbrev pub is_upper : ℕ → Bool
is_upper c = leb b'A' c && leb c b'Z'

abbrev pub is_lower : ℕ → Bool
is_lower c = leb b'a' c && leb c b'z'

abbrev pub to_lower : ℕ → ℕ
to_lower c = if is_upper c then c + 32 else c

abbrev pub to_upper : ℕ → ℕ
to_upper c = if is_lower c then c - 32 else c

-- `is_some_and`
abbrev pub some_and : (ℕ → Bool) → Option ℕ → Bool
some_and p none = false
some_and p (some c) = p c

-- `chars.peek()`
abbrev pub peek : Text → Option ℕ
peek [] = none
peek (c ∷ rest) = some c

-- Whether the rest of a name opens with a lone `s`.
unfoldable pub pluralizes : Text → Bool
pluralizes [] = false
pluralizes (c ∷ rest) = (c == b's') && not (some_and is_lower (peek rest))

-- Whether an underscore stands before the capital that `rest` follows.
unfoldable pub starts_word : Option ℕ → Text → Bool
unfolding pluralizes
starts_word previous rest =
    some_and (λ p. is_lower p || is_digit p) previous
    || (some_and is_upper previous && some_and is_lower (peek rest) && not (pluralizes rest))

-- The loop of `snake_case`, on its variable `previous`.
unfoldable pub snake_from : Option ℕ → Text → Text
unfolding starts_word
snake_from previous [] = []
snake_from previous (c ∷ rest) =
    let converted = snake_from (some c) rest in
    if not (is_upper c)
    then c ∷ converted
    else if starts_word previous rest
    then b'_' ∷ to_lower c ∷ converted
    else to_lower c ∷ converted

unfoldable pub snake_case : Text → Text
unfolding snake_from
snake_case name = snake_from none name

-- `pascal_case`: the segments between underscores, each with its first character in upper case and
-- the others in lower case; `is_first` says whether a segment begins.
unfoldable pub pascal_from : Bool → Text → Text
pascal_from is_first [] = []
pascal_from is_first (c ∷ rest) =
    let begun = pascal_from true rest in
    let inside = pascal_from false rest in
    if c == b'_' then begun else (if is_first then to_upper c else to_lower c) ∷ inside

unfoldable pub pascal_case : Text → Text
unfolding pascal_from
pascal_case name = pascal_from true name
