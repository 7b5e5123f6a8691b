-- ===== src/Codegen/Python/Naming.antt =====
-- crates/refix-codegen/src/python/naming.rs: identifiers of Python.
use refix.Base.{
  ℕ, Bool, true, false, ◌&&◌, ◌||◌, List, [], ◌∷◌, ◌++◌, map, ◌==◌, if◌then◌else◌, Bytes, all,
  is_digit,
}
use refix.Base.Int.{pos}
use refix.Base.Text.{codes}
use refix.Base.Result.{Result, ok, err}
use refix.Dictionary.Spec.{Name, EnumValue, Field}
use refix.Base.Decimals.{to_string}
use refix.Dictionary.Views.{Group}
use refix.Codegen.CaseConverter.{to_upper, some_and, peek}
use refix.Codegen.Conversion.{Conversion}
use refix.Codegen.Naming.{
  field_base_name, group_base_name, has_name, is_alphabetic, is_alphanumeric,
}
use refix.Codegen.Namespace.{NameClash}

-- `python::Error`, and `panic` for an index of a map that has no such key.
pub data PythonError : Type 0 where
  unrepresentable_value : Name → Bytes → PythonError
  name_clash : NameClash → PythonError
  panic : PythonError

-- Python's lower-case keywords.
unfoldable pub keywords : List Name
keywords =
    codes "and"
    ∷ codes "as"
    ∷ codes "assert"
    ∷ codes "async"
    ∷ codes "await"
    ∷ codes "break"
    ∷ codes "class"
    ∷ codes "continue"
    ∷ codes "def"
    ∷ codes "del"
    ∷ codes "elif"
    ∷ codes "else"
    ∷ codes "except"
    ∷ codes "finally"
    ∷ codes "for"
    ∷ codes "from"
    ∷ codes "global"
    ∷ codes "if"
    ∷ codes "import"
    ∷ codes "in"
    ∷ codes "is"
    ∷ codes "lambda"
    ∷ codes "nonlocal"
    ∷ codes "not"
    ∷ codes "or"
    ∷ codes "pass"
    ∷ codes "raise"
    ∷ codes "return"
    ∷ codes "try"
    ∷ codes "while"
    ∷ codes "with"
    ∷ codes "yield"
    ∷ []

-- Escapes a keyword with a trailing underscore.
unfoldable pub escaped : Name → Name
unfolding has_name keywords
escaped name = if has_name keywords name then name ++ codes "_" else name

unfoldable pub property_name : Field → Name
unfolding escaped field_base_name
property_name f = escaped (field_base_name f)

-- `nanos_getter(field).is_some()`: whether Python holds the value only to the microsecond.
abbrev pub has_nanos : Conversion → Bool
has_nanos Conversion.time = true
has_nanos Conversion.utc_timestamp = true
has_nanos _ = false

unfoldable pub nanos_property_name : Field → Name
unfolding field_base_name
nanos_property_name f = field_base_name f ++ codes "_ns"

unfoldable pub group_property_name : List Field → Group → Name
unfolding escaped group_base_name
group_property_name fields g = escaped (group_base_name fields g)

-- `trim_start_matches('_')`
unfoldable pub trim_underscores : Name → Name
trim_underscores [] = []
trim_underscores (c ∷ name) = if c == b'_' then trim_underscores name else c ∷ name

-- A name cannot start with a digit, so `5YR` becomes `N_5YR`.
abbrev pub behind_n : Name → Name
behind_n name = if some_and is_digit (peek name) then codes "N_" ++ name else name

abbrev pub is_word : Name → Bool
is_word name =
    some_and is_alphabetic (peek name) && all (λ c. is_alphanumeric c || (c == b'_')) name

unfoldable pub member_name : Field → EnumValue → Result PythonError Name
unfolding trim_underscores all
member_name f value =
    let name = behind_n (map to_upper (trim_underscores value.description)) in
    if is_word name then ok name else err (unrepresentable_value f.name value.description)

-- `format!("{name}_{number}")`
unfoldable pub numbered_member : Name → ℕ → Name
unfolding to_string
numbered_member name number = name ++ b'_' ∷ to_string (pos number)
