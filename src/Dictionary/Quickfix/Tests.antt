-- ===== src/Dictionary/Quickfix/Tests.antt =====
-- quickfix.rs on a small document.
use refix.Base.{◌≡◌, refl, Bool, true, false, none, some, List, [], ◌∷◌, Bytes, all}
use refix.Base.Digits.{fold_digits}
use refix.Base.Text.{codes}
use refix.Base.Result.{Result, ok, err}
use refix.Dictionary.Spec.{
  Name, fix, DataType, length_type, data_type, is_int_based, canonical_code, Field, field,
  no_members, and_member,
}
use refix.Base.Decimals.{to_string}
use refix.Dictionary.Checks.{non_integer, check_unique_codes}
use refix.Dictionary.Quickfix.Xml.{
  Node, element, other_node, Nodes, no_nodes, and_node, repeated_value,
}
use refix.Dictionary.Quickfix.Lengths.{ReadStop, with_lengths, member_lists, link_length_fields}
use refix.Dictionary.Quickfix.Parse.{Parsed, Sections, read_sections, lists_of, parse}
use refix.Dictionary.Quickfix.Gives.{Gives}
use refix.Dictionary.Quickfix.Sound.{IsParsed, parse-IsParsed}
use refix.Dictionary.Quickfix.Codes.{read_sections-check_unique_codes}
use refix.Message.Values.{parse_i64}

abbrev named : Bytes → List (Name × Bytes)
named name = (codes "name", name) ∷ []

abbrev field_node : Bytes → Bytes → Bytes → Nodes → Node
field_node name number kind values =
    element (codes "field") ((codes "number", number) ∷ (codes "type", kind) ∷ named name) values

abbrev field_ref : Bytes → Node
field_ref name = element (codes "field") (named name) no_nodes

abbrev value_node : Bytes → Bytes → Node
value_node value description =
    element (codes "value") ((codes "enum", value) ∷ (codes "description", description) ∷ [])
      no_nodes

-- RawDataLength and RawData in a header, and a field with two values of one code.
abbrev raw_document : Node
raw_document =
    element (codes "fix") ((codes "major", codes "4") ∷ (codes "minor", codes "4") ∷ []) (
      and_node
        (element (codes "header") [] (
          and_node (field_ref (codes "L"))
            (and_node other_node (and_node (field_ref (codes "D")) no_nodes))))
        (and_node
          (element (codes "fields") [] (
            and_node (field_node (codes "L") (codes "95") (codes "LENGTH") no_nodes) (
              and_node (field_node (codes "D") (codes "96") (codes "DATA") no_nodes) (
                and_node
                  (field_node (codes "S") (codes "54") (codes "INT") (
                    and_node (value_node (codes "1") (codes "BUY"))
                      (and_node (value_node (codes "01") (codes "AGAIN")) no_nodes)))
                  no_nodes))))
          no_nodes))

abbrev raw_fields : List Field
raw_fields =
    record { name = codes "L"; tag = 95; data_type = length_type; length_tag = none; values = [] }
    ∷ record { name = codes "D"; tag = 96; data_type = data_type; length_tag = none; values = [] }
    ∷ record {
      name = codes "S";
      tag = 54;
      data_type = DataType.int;
      length_tag = none;
      values = record { value = codes "1"; description = codes "BUY" } ∷ [];
    }
    ∷ []

abbrev raw_sections : Sections
raw_sections = record {
  version = record { protocol = fix; major = 4; minor = 4; service_pack = 0 };
  fields = raw_fields;
  header =
      and_member (field (record { tag = 95; is_required = false }))
        (and_member (field (record { tag = 96; is_required = false })) no_members);
  components = [];
  messages = [];
  trailer = no_members;
  warnings =
      repeated_value (codes "S") (record { value = codes "1"; description = codes "BUY" })
        (record { value = codes "01"; description = codes "AGAIN" })
      ∷ [];
}

raw_document_read : read_sections raw_document ≡ ok raw_sections
unfolding read_sections all fold_digits canonical_code is_int_based parse_i64 to_string
raw_document_read = refl

abbrev linked_fields : List Field
linked_fields = with_lengths ((96, 95) ∷ []) raw_fields

raw_document_linked :
    link_length_fields raw_sections.fields (lists_of raw_sections) ≡ ok linked_fields
unfolding link_length_fields member_lists
raw_document_linked = refl

parse-IsParsed_example :
    Gives (IsParsed (λ _. some raw_document) []) (parse (λ _. some raw_document) [])
parse-IsParsed_example = parse-IsParsed (λ _. some raw_document) []

read_sections-check_unique_codes_example : check_unique_codes linked_fields ≡ ok tt
read_sections-check_unique_codes_example =
    read_sections-check_unique_codes raw_document raw_sections (lists_of raw_sections) linked_fields
      raw_document_read raw_document_linked

abbrev is_parsed : Result ReadStop Parsed → Bool
is_parsed (ok _) = true
is_parsed (err _) = false

raw_document_parses : is_parsed (parse (λ _. some raw_document) []) ≡ true
unfolding parse all fold_digits canonical_code is_int_based parse_i64 to_string non_integer
raw_document_parses = refl
