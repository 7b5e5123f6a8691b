-- ===== src/Dictionary/Views.antt =====
-- crates/refix-dictionary/src/dictionary.rs: the read views of a resolved dictionary. A view is what
-- it refers to; where it borrows the field definitions too, they are an argument.
use refix.Base.{ℕ, Bool, Option, none, some, List, [], ◌∷◌, get_elem?}
use refix.Dictionary.Spec.{Name, string, Field, Message, MemberContext}
use refix.Dictionary.Tags.{
  ResolvedMember, resolved_field, resolved_group, ResolvedMembers, no_resolved, and_resolved,
}
use refix.Dictionary.Resolver.{Dictionary}

abbrev pub no_field : Field
no_field = record { name = []; tag = 0; data_type = string; length_tag = none; values = [] }

abbrev pub field_in : Option Field → Field
field_in none = no_field
field_in (some f) = f

-- `&fields[index]`; indexes come from the fields, so none is out of range.
abbrev pub get_field : List Field → ℕ → Field
get_field fields index = field_in (get_elem? fields index)

-- `ResolvedGroup`, as a `Group` refers to it.
pub record Group : Type 0 where
  pub count_field : ℕ
  pub delimiter : ℕ
  pub is_required : Bool
  pub declared_in : MemberContext
  pub component : Option Name
  pub members : ResolvedMembers

-- `Member`
pub data MemberView : Type 0 where
  of_field : Field → Bool → MemberView
  of_group : Group → MemberView

abbrev pub view : List Field → ResolvedMember → MemberView
view fields (resolved_field index required) = of_field (get_field fields index) required
view fields (resolved_group count d required declared c inner) = of_group (record {
  count_field = count;
  delimiter = d;
  is_required = required;
  declared_in = declared;
  component = c;
  members = inner;
})

unfoldable pub members_of : List Field → ResolvedMembers → List MemberView
members_of fields no_resolved = []
members_of fields (and_resolved m members) = view fields m ∷ members_of fields members

-- A `Message` view.
pub record MessageView : Type 0 where
  pub declared : Message
  pub members : ResolvedMembers

unfoldable pub zip_messages : List Message → List ResolvedMembers → List MessageView
zip_messages [] resolved = []
zip_messages (m ∷ messages) [] = []
zip_messages (m ∷ messages) (members ∷ resolved) =
    record { declared = m; members = members } ∷ zip_messages messages resolved

-- `Dictionary::messages`
unfoldable pub messages_of : Dictionary → List MessageView
unfolding zip_messages
messages_of d = zip_messages d.spec.messages d.messages

-- `Dictionary::fields`
abbrev pub fields_of : Dictionary → List Field
fields_of d = d.spec.fields
