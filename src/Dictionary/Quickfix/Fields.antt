-- ===== src/Dictionary/Quickfix/Fields.antt =====
-- quickfix.rs: the section of fields, their types and values.
use refix.Base.{Option, none, some, List, [], ◌∷◌, ◌++◌, if◌then◌else◌, is_some, Bytes, equal}
use refix.Base.Digits.{u32_max}
use refix.Base.Text.{codes}
use refix.Base.Result.{Result, ok, err, ◌>>=◌}
use refix.Tags.{Tag}
use refix.Dictionary.Spec.{
  Name, DataType, length_type, num_in_group, seq_num, tag_num, day_of_month, float, qty, price,
  price_offset, amt, percentage, char, boolean, multiple_char_value, multiple_string_value,
  currency, exchange, country, language, xid, xid_ref, utc_timestamp, utc_time_only, utc_date_only,
  local_mkt_date, local_mkt_time, month_year, tz_timestamp, tz_time_only, data_type, xml_data,
  other_type, canonical_code, EnumValue, Field,
}
use refix.Dictionary.Checks.{lookup}
use refix.Dictionary.Quickfix.Xml.{
  Node, ReadError, duplicate_name, Warning, repeated_value, children, find_child, children_named,
  string_attribute, int_attribute,
}

-- The names of types that the reader knows.
abbrev pub known_types : List (Bytes × DataType)
known_types =
    (codes "STRING", DataType.string)
    ∷ (codes "INT", DataType.int)
    ∷ (codes "LENGTH", length_type)
    ∷ (codes "NUMINGROUP", num_in_group)
    ∷ (codes "SEQNUM", seq_num)
    ∷ (codes "TAGNUM", tag_num)
    ∷ (codes "DAYOFMONTH", day_of_month)
    ∷ (codes "FLOAT", float)
    ∷ (codes "QTY", qty)
    ∷ (codes "PRICE", price)
    ∷ (codes "PRICEOFFSET", price_offset)
    ∷ (codes "AMT", amt)
    ∷ (codes "PERCENTAGE", percentage)
    ∷ (codes "CHAR", char)
    ∷ (codes "BOOLEAN", boolean)
    ∷ (codes "MULTIPLECHARVALUE", multiple_char_value)
    ∷ (codes "MULTIPLESTRINGVALUE", multiple_string_value)
    ∷ (codes "MULTIPLEVALUESTRING", multiple_string_value)
    ∷ (codes "CURRENCY", currency)
    ∷ (codes "EXCHANGE", exchange)
    ∷ (codes "COUNTRY", country)
    ∷ (codes "LANGUAGE", language)
    ∷ (codes "XID", xid)
    ∷ (codes "XIDREF", xid_ref)
    ∷ (codes "UTCTIMESTAMP", utc_timestamp)
    ∷ (codes "TIME", utc_timestamp)
    ∷ (codes "UTCTIMEONLY", utc_time_only)
    ∷ (codes "UTCDATEONLY", utc_date_only)
    ∷ (codes "UTCDATE", utc_date_only)
    ∷ (codes "LOCALMKTDATE", local_mkt_date)
    ∷ (codes "DATE", local_mkt_date)
    ∷ (codes "LOCALMKTTIME", local_mkt_time)
    ∷ (codes "MONTHYEAR", month_year)
    ∷ (codes "TZTIMESTAMP", tz_timestamp)
    ∷ (codes "TZTIMEONLY", tz_time_only)
    ∷ (codes "DATA", data_type)
    ∷ (codes "XMLDATA", xml_data)
    ∷ []

abbrev pub type_or_other : Name → Option DataType → DataType
type_or_other name (some d) = d
type_or_other name none = other_type name

unfoldable pub parse_data_type : Name → DataType
unfolding lookup equal
parse_data_type name = type_or_other name (lookup name known_types)

-- The loop of `drop_repeated_codes`: the values kept so far, each under its code, and the warnings.
-- The map leads from a code to the value kept for it, where the source has that value's index.
unfoldable pub drop_from :
    Name
    → DataType
    → List (Bytes × EnumValue)
    → List EnumValue
    → List EnumValue
    → List Warning
    → List EnumValue × List Warning
unfolding lookup
drop_from name d by_code kept [] warnings = (kept, warnings)
drop_from name d by_code kept (v ∷ values) warnings =
    let code = canonical_code d v.value in
    let keep = drop_from name d ((code, v) ∷ by_code) (kept ++ v ∷ []) values warnings in
    elim (lookup code by_code) [
      | some first ↦
          drop_from name d by_code kept values (warnings ++ repeated_value name first v ∷ [])
      | none ↦ keep
    ]

-- Keeps the first value listed for each code, warning of the rest.
unfoldable pub drop_repeated_codes :
    Name → DataType → List EnumValue → List Warning → List EnumValue × List Warning
unfolding drop_from
drop_repeated_codes name d values warnings = drop_from name d [] [] values warnings

unfoldable pub parse_value : Node → Result ReadError EnumValue
unfolding string_attribute
parse_value node = do
  value ← string_attribute node (codes "enum")
  description ← string_attribute node (codes "description")
  ok (record { value = value; description = description })

unfoldable pub parse_values : List Node → Result ReadError (List EnumValue)
unfolding parse_value
parse_values [] = ok []
parse_values (n ∷ nodes) = do v ← parse_value n; values ← parse_values nodes; ok (v ∷ values)

-- The end of `parse_field`.
abbrev pub finish_field :
    Name → Tag → DataType → List EnumValue × List Warning → Field × List Warning
finish_field name tag d (values, warnings) =
    (record { name = name; tag = tag; data_type = d; length_tag = none; values = values }, warnings)

unfoldable pub parse_field : Node → List Warning → Result ReadError (Field × List Warning)
unfolding string_attribute children_named parse_values int_attribute parse_data_type
    drop_repeated_codes
parse_field node warnings = do
  name ← string_attribute node (codes "name")
  values ← parse_values (children_named (codes "value") (children node))
  tag ← int_attribute u32_max node (codes "number")
  d ← string_attribute node (codes "type")
  let kind = parse_data_type d
  ok (finish_field name tag kind (drop_repeated_codes name kind values warnings))

unfoldable pub parse_field_list :
    List Node → List Warning → Result ReadError (List Field × List Warning)
unfolding parse_field
parse_field_list [] warnings = ok ([], warnings)
parse_field_list (n ∷ nodes) warnings = do
  first ← parse_field n warnings
  rest ← parse_field_list nodes first.1
  ok (first.0 ∷ rest.0, rest.1)

-- The loop over the names of the fields, on those seen.
unfoldable pub check_names : List (Name × Unit {0}) → List Field → Result ReadError (Unit {0})
unfolding lookup
check_names seen [] = ok tt
check_names seen (f ∷ fields) =
    let rest = check_names ((f.name, tt) ∷ seen) fields in
    if is_some (lookup f.name seen) then err (duplicate_name f.name) else rest

unfoldable pub parse_fields : Node → List Warning → Result ReadError (List Field × List Warning)
unfolding find_child children_named parse_field_list check_names
parse_fields root warnings = elim (find_child (codes "fields") (children root)) [
  | none ↦ ok ([], warnings)
  | some section ↦
      parse_field_list (children_named (codes "field") (children section)) warnings >>= λ r.
      check_names [] r.0 >>= λ _. ok r
]
