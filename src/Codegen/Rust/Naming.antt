-- ===== src/Codegen/Rust/Naming.antt =====
-- crates/refix-codegen/src/rust/naming.rs: identifiers of Rust.
use refix.Base.{
  ℕ, Bool, not, ◌&&◌, Option, none, some, List, [], ◌∷◌, ◌++◌, if◌then◌else◌, Bytes, equal, all,
  is_digit,
}
use refix.Base.Int.{pos}
use refix.Base.Text.{codes}
use refix.Base.Result.{Result, ok, err}
use refix.Dictionary.Spec.{Name, EnumValue, Field, MemberContext}
use refix.Base.Decimals.{to_string}
use refix.Dictionary.Views.{Group}
use refix.Codegen.CaseConverter.{some_and, peek, snake_case, pascal_case}
use refix.Codegen.Groups.{instance_context}
use refix.Codegen.Naming.{
  field_base_name, group_base_name, has_name, is_alphabetic, is_alphanumeric,
}
use refix.Codegen.Namespace.{NameClash}

-- `rust::Error`, and `panic` for an index of a map that has no such key.
pub data RustError : Type 0 where
  unrepresentable_name : Name → RustError
  unrepresentable_value : Name → Bytes → RustError
  unrepresentable_group_name : MemberContext → RustError
  unrepresentable_message_name : Name → RustError
  name_clash : NameClash → RustError
  panic : RustError

-- Rust's strict and reserved keywords.
unfoldable pub reserved_words : List Name
reserved_words =
    codes "abstract"
    ∷ codes "as"
    ∷ codes "async"
    ∷ codes "await"
    ∷ codes "become"
    ∷ codes "box"
    ∷ codes "break"
    ∷ codes "const"
    ∷ codes "continue"
    ∷ codes "do"
    ∷ codes "dyn"
    ∷ codes "else"
    ∷ codes "enum"
    ∷ codes "extern"
    ∷ codes "false"
    ∷ codes "final"
    ∷ codes "fn"
    ∷ codes "for"
    ∷ codes "gen"
    ∷ codes "if"
    ∷ codes "impl"
    ∷ codes "in"
    ∷ codes "let"
    ∷ codes "loop"
    ∷ codes "macro"
    ∷ codes "match"
    ∷ codes "mod"
    ∷ codes "move"
    ∷ codes "mut"
    ∷ codes "override"
    ∷ codes "priv"
    ∷ codes "pub"
    ∷ codes "ref"
    ∷ codes "return"
    ∷ codes "static"
    ∷ codes "struct"
    ∷ codes "trait"
    ∷ codes "true"
    ∷ codes "try"
    ∷ codes "type"
    ∷ codes "typeof"
    ∷ codes "unsafe"
    ∷ codes "unsized"
    ∷ codes "use"
    ∷ codes "virtual"
    ∷ codes "where"
    ∷ codes "while"
    ∷ codes "yield"
    ∷ []

-- The keywords that cannot be escaped.
abbrev pub path_words : List Name
path_words = codes "self" ∷ codes "super" ∷ codes "crate" ∷ []

-- Escapes a keyword as a raw identifier, or `none` for a keyword that cannot be escaped.
unfoldable pub identifier : Name → Option Name
unfolding has_name reserved_words
identifier name =
    if has_name path_words name
    then none
    else if has_name reserved_words name
    then some (codes "r#" ++ name)
    else some name

-- `ok_or_else`
abbrev pub or_error : {A : Type 0} → RustError → Option A → Result RustError A
or_error e none = err e
or_error e (some a) = ok a

unfoldable pub method_name : Field → Result RustError Name
unfolding identifier field_base_name
method_name f = or_error (unrepresentable_name f.name) (identifier (field_base_name f))

unfoldable pub group_name : List Field → Group → Result RustError Name
unfolding identifier group_base_name
group_name fields g =
    or_error (unrepresentable_group_name (instance_context fields g))
      (identifier (group_base_name fields g))

unfoldable pub message_module_name : Name → Result RustError Name
unfolding identifier snake_case
message_module_name name =
    or_error (unrepresentable_message_name name) (identifier (snake_case name))

-- A name cannot start with a digit, so `5YR` becomes `N5yr`.
abbrev pub before_digit : Name → Name
before_digit name = if some_and is_digit (peek name) then b'N' ∷ name else name

abbrev pub is_variant : Name → Bool
is_variant name =
    some_and is_alphabetic (peek name)
    && all is_alphanumeric name
    && not (equal name (codes "Self"))

unfoldable pub variant_name : Field → EnumValue → Result RustError Name
unfolding pascal_case all equal
variant_name f value =
    let name = before_digit (pascal_case value.description) in
    if is_variant name then ok name else err (unrepresentable_value f.name value.description)

-- `format!("{name}{number}")`
unfoldable pub numbered_variant : Name → ℕ → Name
unfolding to_string
numbered_variant name number = name ++ to_string (pos number)
