-- ===== src/Codegen/Conversion.antt =====
-- crates/refix-codegen/src/conversion.rs: how generated code reads a field, and which fields it reads.
use refix.Base.{Bool, true, false, not, ◌&&◌, ◌||◌, List, [], ◌∷◌, ◌==◌, if◌then◌else◌}
use refix.Dictionary.Spec.{
  Name, DataType, is_int_based, is_float_based, is_multiple_value, EnumValue, Field,
}
use refix.Dictionary.Tags.{
  resolved_field, resolved_group, ResolvedMembers, no_resolved, and_resolved, join,
}
use refix.Dictionary.Resolver.{Dictionary}
use refix.Dictionary.Views.{get_field, MessageView, messages_of, fields_of}
use refix.Codegen.Groups.{is_generated}

pub data Conversion : Type 0 where
  str : Conversion
  int : Conversion
  bool : Conversion
  decimal : Conversion
  date : Conversion
  month_year : Conversion
  time : Conversion
  utc_timestamp : Conversion
  str_enum : Conversion
  int_enum : Conversion
  multiple_values : Conversion
  multiple_str : Conversion
  bytes : Conversion
  raw : Conversion

abbrev pub is_boolean : DataType → Bool
is_boolean DataType.boolean = true
is_boolean _ = false

-- The `match` of `Conversion::of`, whose guards stand for the int-based, float-based and
-- multiple-value types.
abbrev pub of_type : DataType → Conversion
of_type DataType.string = str
of_type DataType.char = str
of_type DataType.currency = str
of_type DataType.exchange = str
of_type DataType.country = str
of_type DataType.language = str
of_type DataType.xid = str
of_type DataType.xid_ref = str
of_type d =
    if is_multiple_value d
    then multiple_str
    else if is_int_based d
    then int
    else if is_boolean d
    then bool
    else if is_float_based d
    then decimal
    else of_time d
  where
    of_time : DataType → Conversion
    of_time DataType.utc_date_only = date
    of_time DataType.local_mkt_date = date
    of_time DataType.month_year = month_year
    of_time DataType.utc_time_only = time
    of_time DataType.local_mkt_time = time
    of_time DataType.utc_timestamp = utc_timestamp
    of_time DataType.data_type = bytes
    of_time DataType.xml_data = bytes
    of_time _ = raw

abbrev pub is_empty : List EnumValue → Bool
is_empty [] = true
is_empty (_ ∷ _) = false

-- `Conversion::of`
unfoldable pub conversion_of : Field → Conversion
unfolding is_multiple_value is_int_based is_float_based
conversion_of f =
    if not (is_empty f.values) && not (is_boolean f.data_type)
    then if is_multiple_value f.data_type
      then multiple_values
      else if is_int_based f.data_type
      then int_enum
      else str_enum
    else of_type f.data_type

-- `Conversion::is_enum`
abbrev pub is_enum : Conversion → Bool
is_enum str_enum = true
is_enum int_enum = true
is_enum multiple_values = true
is_enum _ = false

abbrev pub is_raw : Conversion → Bool
is_raw raw = true
is_raw _ = false

-- Whether an accessor generated for `members` reads a wanted field, inside group instances too.
unfoldable pub reads_in : List Field → (Field → Bool) → ResolvedMembers → Bool
reads_in fields wanted no_resolved = false
reads_in fields wanted (and_resolved (resolved_field index required) members) =
    wanted (get_field fields index) || reads_in fields wanted members
reads_in fields wanted (and_resolved (resolved_group count d required declared c inner) members) =
    (is_generated declared && reads_in fields wanted inner) || reads_in fields wanted members

unfoldable pub reads_any : List Field → (Field → Bool) → List MessageView → Bool
unfolding reads_in
reads_any fields wanted [] = false
reads_any fields wanted (m ∷ messages) =
    reads_in fields wanted m.members || reads_any fields wanted messages

unfoldable pub reads : Dictionary → (Field → Bool) → Bool
unfolding reads_any messages_of reads_in
reads d wanted =
    reads_in (fields_of d) wanted (join d.header d.trailer)
    || reads_any (fields_of d) wanted (messages_of d)

-- Whether an accessor reads a field whose conversion is wanted.
unfoldable pub uses : Dictionary → (Conversion → Bool) → Bool
unfolding reads conversion_of
uses d wanted = reads d (λ f. wanted (conversion_of f))

-- `Warning::UnclaimedType`
pub record UnclaimedType : Type 0 where
  pub field : Name
  pub data_type : DataType

abbrev pub is_unclaimed : Dictionary → Field → Bool
is_unclaimed d f = is_raw (conversion_of f) && reads d (λ other. other.tag == f.tag)

unfoldable pub unclaimed_in : Dictionary → List Field → List UnclaimedType
unfolding reads conversion_of
unclaimed_in d [] = []
unclaimed_in d (f ∷ fields) =
    let rest = unclaimed_in d fields in
    if is_unclaimed d f then record { field = f.name; data_type = f.data_type } ∷ rest else rest

-- A warning for each field that an accessor reads raw, in the dictionary's order.
unfoldable pub unclaimed_types : Dictionary → List UnclaimedType
unfolding unclaimed_in
unclaimed_types d = unclaimed_in d (fields_of d)
