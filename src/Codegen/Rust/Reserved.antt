-- ===== src/Codegen/Rust/Reserved.antt =====
-- crates/refix-codegen/src/rust/names.rs: the names that generated code defines itself.
use refix.Dictionary.Spec.{Name}
use refix.Base.Text.{codes}
use refix.Base.{List, [], ◌∷◌}

-- Names that the generated root defines or relies on.
unfoldable pub root_names : List Name
root_names =
    codes "DIALECT"
    ∷ codes "Date"
    ∷ codes "Decimal"
    ∷ codes "Dialect"
    ∷ codes "From"
    ∷ codes "GroupTable"
    ∷ codes "Header"
    ∷ codes "Instance"
    ∷ codes "Instances"
    ∷ codes "InvalidValue"
    ∷ codes "KnownTags"
    ∷ codes "Message"
    ∷ codes "MonthYear"
    ∷ codes "MultipleValues"
    ∷ codes "Ok"
    ∷ codes "Option"
    ∷ codes "RawMessage"
    ∷ codes "Result"
    ∷ codes "Some"
    ∷ codes "Tag"
    ∷ codes "Time"
    ∷ codes "Trailer"
    ∷ codes "UtcTimestamp"
    ∷ codes "bool"
    ∷ codes "header"
    ∷ codes "i64"
    ∷ codes "refix_message"
    ∷ codes "str"
    ∷ codes "trailer"
    ∷ codes "u8"
    ∷ []

-- The constants and methods that every message defines.
unfoldable pub message_names : List Name
message_names =
    codes "KNOWN_TAGS"
    ∷ codes "MSG_TYPE"
    ∷ codes "from_raw"
    ∷ codes "header"
    ∷ codes "raw"
    ∷ codes "trailer"
    ∷ []

-- The methods that every group instance and every view of a section defines.
unfoldable pub instance_names : List Name
instance_names = codes "raw" ∷ []

abbrev pub unrecognized : List Name
unrecognized = codes "Unrecognized" ∷ []
