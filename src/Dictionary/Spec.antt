-- ===== src/Dictionary/Spec.antt =====
-- crates/refix-dictionary/src/spec.rs: a data dictionary as it is declared. A string is its bytes.
use refix.Base.Decimals.{to_string}
use refix.Base.{ℕ, Bool, true, false, Option, none, some, List, if◌then◌else◌, Bytes}
use refix.Base.Int.{ℤ}
use refix.Tags.{Tag}
use refix.Message.Values.{parse_i64}

abbrev pub Name : Type 0
Name = Bytes

pub data Protocol : Type 0 where
  fix : Protocol
  fixt : Protocol

pub record Version : Type 0 where
  pub protocol : Protocol
  pub major : ℕ
  pub minor : ℕ
  pub service_pack : ℕ

pub data Category : Type 0 where
  admin : Category
  app : Category

pub data DataType : Type 0 where
  string : DataType
  int : DataType
  length_type : DataType
  num_in_group : DataType
  seq_num : DataType
  tag_num : DataType
  day_of_month : DataType
  float : DataType
  qty : DataType
  price : DataType
  price_offset : DataType
  amt : DataType
  percentage : DataType
  char : DataType
  boolean : DataType
  multiple_char_value : DataType
  multiple_string_value : DataType
  currency : DataType
  exchange : DataType
  country : DataType
  language : DataType
  xid : DataType
  xid_ref : DataType
  utc_timestamp : DataType
  utc_time_only : DataType
  utc_date_only : DataType
  local_mkt_date : DataType
  local_mkt_time : DataType
  month_year : DataType
  tz_timestamp : DataType
  tz_time_only : DataType
  data_type : DataType
  xml_data : DataType
  other_type : Name → DataType

unfoldable pub is_int_based : DataType → Bool
is_int_based int = true
is_int_based length_type = true
is_int_based num_in_group = true
is_int_based seq_num = true
is_int_based tag_num = true
is_int_based day_of_month = true
is_int_based _ = false

unfoldable pub is_float_based : DataType → Bool
is_float_based float = true
is_float_based qty = true
is_float_based price = true
is_float_based price_offset = true
is_float_based amt = true
is_float_based percentage = true
is_float_based _ = false

unfoldable pub is_multiple_value : DataType → Bool
is_multiple_value multiple_char_value = true
is_multiple_value multiple_string_value = true
is_multiple_value _ = false

unfoldable pub has_length_field : DataType → Bool
has_length_field data_type = true
has_length_field xml_data = true
has_length_field _ = false

-- `data_type != DataType::Length`
unfoldable pub is_length : DataType → Bool
is_length length_type = true
is_length _ = false

abbrev pub canonical_of : Bytes → Option ℤ → Bytes
canonical_of code none = code
canonical_of code (some n) = to_string n

-- The code that a value's text stands for: integers are compared as numbers.
unfoldable pub canonical_code : DataType → Bytes → Bytes
canonical_code d code = if is_int_based d then canonical_of code (parse_i64 code) else code

pub record EnumValue : Type 0 where
  pub value : Bytes
  pub description : Bytes

pub record Field : Type 0 where
  pub name : Name
  pub tag : Tag
  pub data_type : DataType
  pub length_tag : Option Tag
  pub values : List EnumValue

pub record FieldRef : Type 0 where
  pub tag : Tag
  pub is_required : Bool

pub record ComponentRef : Type 0 where
  pub name : Name
  pub is_required : Bool

mutual
  pub data Member : Type 0 where
    field : FieldRef → Member
    component : ComponentRef → Member
    group : Tag → Bool → Members → Member

  pub data Members : Type 0 where
    no_members : Members
    and_member : Member → Members → Members

pub record Message : Type 0 where
  pub name : Name
  pub msg_type : Bytes
  pub members : Members
  pub category : Category

pub record Component : Type 0 where
  pub name : Name
  pub members : Members

pub record Spec : Type 0 where
  pub version : Version
  pub header : Members
  pub messages : List Message
  pub trailer : Members
  pub fields : List Field
  pub components : List Component

-- Where a member stands.
pub data MemberContext : Type 0 where
  message : Name → MemberContext
  component : Name → MemberContext
  header : MemberContext
  trailer : MemberContext
  group : Name → MemberContext → MemberContext
