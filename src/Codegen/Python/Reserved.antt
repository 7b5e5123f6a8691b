-- ===== src/Codegen/Python/Reserved.antt =====
-- crates/refix-codegen/src/python/names.rs: the names that generated code defines itself.
use refix.Dictionary.Spec.{Name}
use refix.Base.Text.{codes}
use refix.Base.{List, [], ◌∷◌}

-- Names that the generated module defines or relies on.
unfoldable pub module_names : List Name
module_names =
    codes "CODEC"
    ∷ codes "ClassVar"
    ∷ codes "Codec"
    ∷ codes "DIALECT"
    ∷ codes "Decimal"
    ∷ codes "Dialect"
    ∷ codes "GroupTable"
    ∷ codes "Header"
    ∷ codes "KnownTags"
    ∷ codes "Message"
    ∷ codes "MonthYear"
    ∷ codes "RawMessage"
    ∷ codes "Trailer"
    ∷ codes "Unrecognized"
    ∷ codes "_MESSAGES"
    ∷ codes "annotations"
    ∷ codes "bool"
    ∷ codes "bytes"
    ∷ codes "cached_property"
    ∷ codes "date"
    ∷ codes "datetime"
    ∷ codes "dict"
    ∷ codes "enum"
    ∷ codes "from_raw"
    ∷ codes "from_value"
    ∷ codes "int"
    ∷ codes "property"
    ∷ codes "refix"
    ∷ codes "str"
    ∷ codes "time"
    ∷ codes "tuple"
    ∷ codes "type"
    ∷ []

-- The members that every message class defines, and the decorators that its body looks up.
unfoldable pub class_names : List Name
class_names =
    codes "KNOWN_TAGS"
    ∷ codes "MSG_TYPE"
    ∷ codes "__init__"
    ∷ codes "_raw"
    ∷ codes "cached_property"
    ∷ codes "header"
    ∷ codes "property"
    ∷ codes "raw"
    ∷ codes "trailer"
    ∷ []

-- The same of every view of a section.
unfoldable pub view_names : List Name
view_names =
    codes "KNOWN_TAGS"
    ∷ codes "__init__"
    ∷ codes "_known_tags"
    ∷ codes "_raw"
    ∷ codes "cached_property"
    ∷ codes "property"
    ∷ codes "raw"
    ∷ []

-- The same of every class of group instances.
unfoldable pub instance_class_names : List Name
instance_class_names =
    codes "__init__"
    ∷ codes "_scope"
    ∷ codes "cached_property"
    ∷ codes "property"
    ∷ codes "raw"
    ∷ []
