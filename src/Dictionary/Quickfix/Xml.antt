-- ===== src/Dictionary/Quickfix/Xml.antt =====
-- quickfix.rs: the nodes of a document, what reading stops at, and the attributes.
--
-- The crate roxmltree parses the text. Of its document the reader uses the tree: the elements with
-- their names, attributes and children, and other nodes, which it skips.
use refix.Base.{
  ℕ, Bool, true, false, Option, none, some, List, [], ◌∷◌, ◌==◌, if◌then◌else◌, Bytes, equal,
}
use refix.Base.Text.{codes}
use refix.Base.Result.{Result, ok, err, ◌>>=◌}
use refix.Message.Values.{magnitude}
use refix.Dictionary.Spec.{
  Name, Protocol, fix, fixt, Version, Category, admin, app, EnumValue, MemberContext,
}
use refix.Dictionary.Checks.{Error, lookup}

mutual
  pub data Node : Type 0 where
    element : Name → List (Name × Bytes) → Nodes → Node
    other_node : Node

  pub data Nodes : Type 0 where
    no_nodes : Nodes
    and_node : Node → Nodes → Nodes

-- `quickfix::Error`
pub data ReadError : Type 0 where
  xml : ReadError
  unexpected_root : Name → ReadError
  unknown_protocol : Bytes → ReadError
  missing_attribute : Name → Name → ReadError
  invalid_number : Name → Name → Bytes → ReadError
  unknown_name : MemberContext → Name → ReadError
  duplicate_name : Name → ReadError
  invalid_attribute : Name → Name → Bytes → ReadError
  conflicting_length_fields : Name → Name → Name → ReadError
  invalid : Error → ReadError

-- `quickfix::Warning`
pub data Warning : Type 0 where
  unsupported_element : MemberContext → Name → Warning
  repeated_value : Name → EnumValue → EnumValue → Warning

-- `Node::has_tag_name`
unfoldable pub has_tag_name : Name → Node → Bool
unfolding equal
has_tag_name name (element tag attributes nodes) = equal tag name
has_tag_name name other_node = false

-- `Node::tag_name().name()`
abbrev pub tag_name : Node → Name
tag_name (element tag attributes nodes) = tag
tag_name other_node = []

abbrev pub children : Node → Nodes
children (element tag attributes nodes) = nodes
children other_node = no_nodes

-- `Node::attribute`
unfoldable pub attribute : Node → Name → Option Bytes
unfolding lookup equal
attribute (element tag attributes nodes) name = lookup name attributes
attribute other_node name = none

-- `children().find(has_tag_name)`
unfoldable pub find_child : Name → Nodes → Option Node
unfolding has_tag_name
find_child name no_nodes = none
find_child name (and_node n nodes) = if has_tag_name name n then some n else find_child name nodes

-- `children().filter(has_tag_name)`
unfoldable pub children_named : Name → Nodes → List Node
unfolding has_tag_name
children_named name no_nodes = []
children_named name (and_node n nodes) =
    let rest = children_named name nodes in if has_tag_name name n then n ∷ rest else rest

abbrev pub present : Node → Name → Option Bytes → Result ReadError Bytes
present node name (some value) = ok value
present node name none = err (missing_attribute (tag_name node) name)

unfoldable pub string_attribute : Node → Name → Result ReadError Bytes
unfolding attribute
string_attribute node name = present node name (attribute node name)

-- `from_str` of an unsigned type whose largest value is `limit`: digits, behind a `+` or not.
unfoldable pub parse_unsigned : ℕ → Bytes → Option ℕ
unfolding magnitude
parse_unsigned limit [] = none
parse_unsigned limit (b ∷ rest) =
    if b == b'+' then magnitude limit rest else magnitude limit (b ∷ rest)

abbrev pub unsigned_value : ℕ → Node → Name → Bytes → Result ReadError ℕ
unsigned_value limit node name value = elim (parse_unsigned limit value) [
  | some n ↦ ok n
  | none ↦ err (invalid_number (tag_name node) name value)
]

unfoldable pub int_attribute : ℕ → Node → Name → Result ReadError ℕ
unfolding attribute parse_unsigned
int_attribute limit node name =
    present node name (attribute node name) >>= unsigned_value limit node name

unfoldable pub int_attribute_or : ℕ → Node → Name → ℕ → Result ReadError ℕ
unfolding int_attribute attribute
int_attribute_or limit node name default = elim (attribute node name) [
  | some _ ↦ int_attribute limit node name
  | none ↦ ok default
]

-- The value of the attribute `required`.
abbrev pub required_value : Node → Option Bytes → Result ReadError Bool
required_value node none = ok false
required_value node (some value) =
    if equal value (codes "Y")
    then ok true
    else if equal value (codes "N")
    then ok false
    else err (invalid_attribute (tag_name node) (codes "required") value)

unfoldable pub required_attribute : Node → Result ReadError Bool
unfolding attribute equal
required_attribute node = required_value node (attribute node (codes "required"))

abbrev pub category_value : Node → Option Bytes → Result ReadError Category
category_value node none = err (missing_attribute (tag_name node) (codes "msgcat"))
category_value node (some value) =
    if equal value (codes "admin")
    then ok admin
    else if equal value (codes "app")
    then ok app
    else err (invalid_attribute (tag_name node) (codes "msgcat") value)

unfoldable pub parse_category : Node → Result ReadError Category
unfolding attribute equal
parse_category node = category_value node (attribute node (codes "msgcat"))

abbrev pub protocol_value : Option Bytes → Result ReadError Protocol
protocol_value none = ok fix
protocol_value (some value) =
    if equal value (codes "FIX")
    then ok fix
    else if equal value (codes "FIXT")
    then ok fixt
    else err (unknown_protocol value)

abbrev pub u8_max : ℕ
u8_max = 255

unfoldable pub parse_version : Node → Result ReadError Version
unfolding attribute equal int_attribute int_attribute_or
parse_version root = do
  protocol ← protocol_value (attribute root (codes "type"))
  major ← int_attribute u8_max root (codes "major")
  minor ← int_attribute u8_max root (codes "minor")
  service_pack ← int_attribute_or u8_max root (codes "servicepack") 0
  ok (record { protocol = protocol; major = major; minor = minor; service_pack = service_pack })
