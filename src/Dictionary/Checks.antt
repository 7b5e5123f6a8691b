-- ===== src/Dictionary/Checks.antt =====
-- crates/refix-dictionary/src/dictionary/resolver.rs: the checks before a dictionary is resolved. A
-- `HashMap` is a list of its entries.
use refix.Base.{
  ℕ, ◌+◌, Bool, not, ◌&&◌, Option, none, some, List, [], ◌∷◌, leb, ◌==◌, if◌then◌else◌, is_some,
  length, get_elem?, Bytes, equal, all, is_digit,
}
use refix.Base.Result.{Result, ok, err, ◌>>=◌, ◌>>◌}
use refix.Tags.{Tag}
use refix.Message.Values.{parse_i64}
use refix.Dictionary.Spec.{
  Name, is_int_based, has_length_field, is_length, canonical_code, EnumValue, Field, Message,
  Component, MemberContext,
}

pub data Error : Type 0 where
  duplicate_tag : Tag → Error
  non_integer_value : Name → Bytes → Error
  repeated_code : Name → Bytes → Bytes → Error
  duplicate_component : Name → Error
  duplicate_msg_type : Bytes → Name → Name → Error
  unexpected_length_tag : Name → Tag → Error
  unknown_length_tag : Name → Tag → Error
  non_length_field : Name → Name → Error
  shared_length_field : Name → Name → Name → Error
  missing_length_tag : Name → MemberContext → Error
  duplicate_field : Tag → MemberContext → MemberContext → Error
  unknown_field : Tag → MemberContext → Error
  unknown_component : Name → MemberContext → Error
  circular_component : Name → Error
  empty_group : MemberContext → Error

-- What a map of names has for `key`.
unfoldable pub lookup {ℓ} : {A : Type ℓ} → Bytes → List (Bytes × A) → Option A
lookup key [] = none
lookup key ((k, a) ∷ entries) = if equal k key then some a else lookup key entries

-- What a map of tags has for `key`.
unfoldable pub lookup_tag {ℓ} : {A : Type ℓ} → Tag → List (Tag × A) → Option A
lookup_tag key [] = none
lookup_tag key ((k, a) ∷ entries) = if k == key then some a else lookup_tag key entries

-- `strip_prefix('-')`
abbrev pub without_minus : Bytes → Bytes
without_minus [] = []
without_minus (b ∷ value) = if b == b'-' then value else b ∷ value

unfoldable pub is_integer : Bytes → Bool
is_integer value =
    let digits = without_minus value in
    not (leb (length digits) 0) && all is_digit digits && is_some (parse_i64 value)

-- The first value that is no FIX integer.
unfoldable pub non_integer : List EnumValue → Option EnumValue
unfolding is_integer
non_integer [] = none
non_integer (v ∷ values) = if not (is_integer v.value) then some v else non_integer values

-- Checks that every value listed for an int-based field is a FIX integer.
unfoldable pub check_int_values : List Field → Result Error Unit
check_int_values [] = ok tt
check_int_values (f ∷ fields) =
    let rest = check_int_values fields in
    if not (is_int_based f.data_type) then rest else elim (non_integer f.values) [
      | some v ↦ err (non_integer_value f.name v.value)
      | none ↦ rest
    ]

-- The loop over a field's values, on the codes so far.
unfoldable pub check_codes : Field → List (Bytes × Bytes) → List EnumValue → Result Error Unit
check_codes f codes [] = ok tt
check_codes f codes (v ∷ values) =
    let code = canonical_code f.data_type v.value in
    let rest = check_codes f ((code, v.value) ∷ codes) values in
    elim (lookup code codes) [ some first ↦ err (repeated_code f.name first v.value) | none ↦ rest ]

-- Checks that no field lists two values under one code.
unfoldable pub check_unique_codes : List Field → Result Error Unit
unfolding check_codes
check_unique_codes [] = ok tt
check_unique_codes (f ∷ fields) = do check_codes f [] f.values; check_unique_codes fields

-- The loop of `check_unique_msg_types`, on the names so far.
unfoldable pub check_msg_types : List (Bytes × Name) → List Message → Result Error Unit
check_msg_types names [] = ok tt
check_msg_types names (m ∷ messages) =
    let rest = check_msg_types ((m.msg_type, m.name) ∷ names) messages in
    elim (lookup m.msg_type names) [
      | some first ↦ err (duplicate_msg_type m.msg_type first m.name)
      | none ↦ rest
    ]

-- Checks that no two messages declare the same MsgType.
unfoldable pub check_unique_msg_types : List Message → Result Error Unit
unfolding check_msg_types
check_unique_msg_types messages = check_msg_types [] messages

-- The loop of `index_fields`, on the index of the first of `fields` and the map so far.
unfoldable pub index_from : ℕ → List (Tag × ℕ) → List Field → Result Error (List (Tag × ℕ))
index_from index by_tag [] = ok by_tag
index_from index by_tag (f ∷ fields) =
    let rest = index_from (index + 1) ((f.tag, index) ∷ by_tag) fields in
    if is_some (lookup_tag f.tag by_tag) then err (duplicate_tag f.tag) else rest

unfoldable pub index_fields : List Field → Result Error (List (Tag × ℕ))
unfolding index_from
index_fields fields = index_from 0 [] fields

unfoldable pub index_components_from :
    ℕ → List (Name × ℕ) → List Component → Result Error (List (Name × ℕ))
index_components_from index by_name [] = ok by_name
index_components_from index by_name (c ∷ components) =
    let rest = index_components_from (index + 1) ((c.name, index) ∷ by_name) components in
    if is_some (lookup c.name by_name) then err (duplicate_component c.name) else rest

unfoldable pub index_components : List Component → Result Error (List (Name × ℕ))
unfolding index_components_from
index_components components = index_components_from 0 [] components

-- The checks of a data field's length tag whose field is known, on the length fields so far.
unfoldable pub check_length_field :
    Field → Tag → Field → List (Tag × Name) → Result Error (List (Tag × Name))
check_length_field f tag length_field by_length_tag =
    if not (is_length length_field.data_type)
    then err (non_length_field f.name length_field.name)
    else elim (lookup_tag tag by_length_tag) [
      | some first ↦ err (shared_length_field length_field.name first f.name)
      | none ↦ ok ((tag, f.name) ∷ by_length_tag)
    ]

-- The field that a tag's index leads to.
abbrev pub field_of : List Field → Option ℕ → Option Field
field_of fields none = none
field_of fields (some index) = get_elem? fields index

-- One round of `check_length_tags`.
unfoldable pub check_length_tag :
    List Field
    → List (Tag × ℕ)
    → Field
    → Option Tag
    → List (Tag × Name)
    → Result Error (List (Tag × Name))
unfolding check_length_field
check_length_tag all_fields fields_by_tag f none by_length_tag = ok by_length_tag
check_length_tag all_fields fields_by_tag f (some tag) by_length_tag =
    if not (has_length_field f.data_type)
    then err (unexpected_length_tag f.name tag)
    else elim (field_of all_fields (lookup_tag tag fields_by_tag)) [
      | none ↦ err (unknown_length_tag f.name tag)
      | some length_field ↦ check_length_field f tag length_field by_length_tag
    ]

-- The loop of `check_length_tags`, on the fields that are left and the length fields so far.
unfoldable pub check_lengths_from :
    List Field → List (Tag × ℕ) → List Field → List (Tag × Name) → Result Error Unit
unfolding check_length_tag
check_lengths_from all_fields fields_by_tag [] by_length_tag = ok tt
check_lengths_from all_fields fields_by_tag (f ∷ fields) by_length_tag =
    check_length_tag all_fields fields_by_tag f f.length_tag by_length_tag >>= λ more.
    check_lengths_from all_fields fields_by_tag fields more

-- Checks that only data fields take a length, each from a LENGTH field of its own.
unfoldable pub check_length_tags : List Field → List (Tag × ℕ) → Result Error Unit
unfolding check_lengths_from
check_length_tags fields fields_by_tag = check_lengths_from fields fields_by_tag fields []
