-- ===== src/Dictionary/Quickfix/Parse.antt =====
-- quickfix.rs, `parse`: the whole reader.
use refix.Base.{not, Option, none, some, List, [], ◌∷◌, if◌then◌else◌, Bytes}
use refix.Base.Text.{codes}
use refix.Base.Result.{Result, ok, err, ◌>>=◌}
use refix.Dictionary.Spec.{Version, Field, Members, Message, Component, Spec, MemberContext}
use refix.Dictionary.Resolver.{Stop, error, out_of_fuel, Dictionary, resolve}
use refix.Dictionary.Quickfix.Xml.{
  Node, ReadError, xml, unexpected_root, invalid, Warning, has_tag_name, tag_name, parse_version,
}
use refix.Dictionary.Quickfix.Fields.{parse_fields}
use refix.Dictionary.Quickfix.Members.{
  TagsByName, parse_section, parse_component, parse_message, parse_items, parse_components,
  parse_messages,
}
use refix.Dictionary.Quickfix.Lengths.{
  ReadStop, read_error, panic, member_lists, link_length_fields,
}

pub record Parsed : Type 0 where
  pub dictionary : Dictionary
  pub warnings : List Warning

-- `tags_by_name`: of two fields with one name the later.
unfoldable pub by_name : TagsByName → List Field → TagsByName
by_name found [] = found
by_name found (f ∷ fields) = by_name ((f.name, f.tag) ∷ found) fields

-- The `?` operator on an error of the reader.
abbrev pub lift : {A : Type 0} → Result ReadError A → Result ReadStop A
lift (ok a) = ok a
lift (err e) = err (read_error e)

-- `spec.resolve().map_err(Error::Invalid)`
abbrev pub resolved : Result Stop Dictionary → Result ReadStop Dictionary
resolved (ok d) = ok d
resolved (err (error e)) = err (read_error (invalid e))
resolved (err out_of_fuel) = err panic

-- What the sections of a document declare, before data fields have their length fields.
pub record Sections : Type 0 where
  pub version : Version
  pub fields : List Field
  pub header : Members
  pub components : List Component
  pub messages : List Message
  pub trailer : Members
  pub warnings : List Warning

unfoldable pub read_sections : Node → Result ReadError Sections
unfolding has_tag_name parse_version parse_fields by_name parse_section parse_component
    parse_message parse_items
read_sections root =
    if not (has_tag_name (codes "fix") root)
    then err (unexpected_root (tag_name root))
    else (parse_version root >>= λ version. parse_fields root [] >>= λ fields.
        let tags_by_name = by_name [] fields.0 in
        parse_section root (codes "header") MemberContext.header tags_by_name fields.1 >>= λ head.
        parse_components root tags_by_name head.1 >>= λ components.
        parse_messages root tags_by_name components.1 >>= λ messages.
        parse_section root (codes "trailer") MemberContext.trailer tags_by_name messages.1
        >>= λ tail. ok (record {
          version = version;
          fields = fields.0;
          header = head.0;
          components = components.0;
          messages = messages.0;
          trailer = tail.0;
          warnings = tail.1;
        }))

abbrev pub lists_of : Sections → List Members
lists_of s = member_lists s.header s.trailer s.messages s.components

abbrev pub spec_of : Sections → List Field → Spec
spec_of s fields = record {
  version = s.version;
  header = s.header;
  messages = s.messages;
  trailer = s.trailer;
  fields = fields;
  components = s.components;
}

-- `parse`, on the root of the document that `document` makes of the text, if it is well formed.
unfoldable pub parse : (Bytes → Option Node) → Bytes → Result ReadStop Parsed
unfolding read_sections link_length_fields member_lists resolve
parse document text = elim (document text) [
  | none ↦ err (read_error xml)
  | some root ↦ lift (read_sections root) >>= λ s.
      link_length_fields s.fields (lists_of s) >>= λ fields.
      resolved (resolve (spec_of s fields)) >>= λ d.
      ok (record { dictionary = d; warnings = s.warnings })
]
