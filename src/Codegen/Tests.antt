-- ===== src/Codegen/Tests.antt =====
-- Runs of crates/refix-codegen on small inputs.
use refix.Base.Result.{ok}
use refix.Tags.{is_sorted_set, contains, insert_tag}
use refix.Dictionary.Checks.{lookup, lookup_tag, non_integer}
use refix.Dictionary.Tags.{resolved_field, no_resolved, and_resolved, combine_all, join}
use refix.Dictionary.Resolver.{set_expansion, name_group, Dictionary, resolve}
use refix.Dictionary.Views.{MessageView, messages_of}
use refix.Dictionary.Tests.{
  parties_name, order_name, party_spec, party_members, party_dictionary, party_spec_resolves,
}
use refix.Codegen.Groups.{collect_tags}
use refix.Codegen.Envelope.{envelope_of}
use refix.Codegen.Tables.Accepted.{IsAccepted, resolve-IsAccepted}
use refix.Codegen.Namespace.Values.{IsValueClaim, claim_value-IsValueClaim}
use refix.Codegen.Numbers.{numbered_variant-AreDifferent}
use refix.Codegen.Rust.Naming.{numbered_variant}
use refix.Codegen.Rust.Names.{RustNames, no_names, name_enum, new_names}
use refix.Codegen.Rust.Variants.{IsNamed, name_enum-IsNamed}
use refix.Base.Text.{codes}
use refix.Dictionary.Spec.{
  Name, app, char, is_int_based, has_length_field, EnumValue, Field, field, component, no_members,
  and_member, Spec, MemberContext,
}
use refix.Codegen.Namespace.{
  owner_enum, owner_message, owner_value, Renamed, Namespace, claimed, enum_suffix, claim_enum,
  claim_value,
}
use refix.Base.{◌≡◌, refl, true, false, none, some, [], ◌∷◌, ◌++◌, arith, get_elem?, equal}
use refix.Codegen.Namespace.Claims.{IsEnumClaim, claim_enum-IsEnumClaim}
use refix.Codegen.Rust.Items.{HasRoot, new_names-HasRoot}
use refix.Codegen.Rust.Methods.{HaveMethods, new_names-HaveMethods}

abbrev side : Name
side = b'S' ∷ b'i' ∷ b'd' ∷ b'e' ∷ []

abbrev with_side : Namespace
with_side = record { owners = (side, owner_message side) ∷ [] }

claim_enum-of_message :
    claim_enum with_side side []
    ≡ claimed
        (side ++ enum_suffix)
        (record {
          clash = record { name = side; first = owner_message side; second = owner_enum side };
          name = side ++ enum_suffix;
        }
          ∷ [])
        (record { owners = (side ++ enum_suffix, owner_enum side) ∷ with_side.owners })
unfolding claim_enum lookup equal
claim_enum-of_message = refl

claim_enum-IsEnumClaim_example : IsEnumClaim with_side side [] (claim_enum with_side side [])
claim_enum-IsEnumClaim_example = claim_enum-IsEnumClaim with_side side []

abbrev parties_view : MessageView
parties_view = record {
  declared = record {
    name = order_name;
    msg_type = b'D' ∷ [];
    members =
        and_member (component (record { name = parties_name; is_required = true })) no_members;
    category = app;
  };
  members = party_members;
}

first_message : get_elem? (messages_of party_dictionary) 0 ≡ some parties_view
unfolding messages_of
first_message = refl

resolve-IsAccepted_example : IsAccepted party_dictionary parties_view
resolve-IsAccepted_example =
    resolve-IsAccepted party_spec party_dictionary 0 parties_view party_spec_resolves first_message

-- A dictionary with no messages, whose header and trailer hold the same field.
abbrev empty_spec : Spec
empty_spec = record party_spec {
  messages = [];
  trailer = and_member (field (record { tag = 8; is_required = true })) no_members;
}

abbrev empty_dictionary : Dictionary
empty_dictionary = record {
  spec = empty_spec;
  header = and_resolved (resolved_field 2 true) no_resolved;
  messages = [];
  trailer = and_resolved (resolved_field 2 true) no_resolved;
}

empty_spec_resolves : resolve empty_spec ≡ ok empty_dictionary
unfolding resolve is_int_based non_integer lookup lookup_tag contains has_length_field equal
    set_expansion join combine_all name_group
empty_spec_resolves = refl

empty_envelope : is_sorted_set (envelope_of empty_dictionary).tags ≡ false
unfolding envelope_of is_sorted_set collect_tags join insert_tag
empty_envelope = refl

-- Two values with the description that `Side` has in common.
abbrev buy : EnumValue
buy = record { value = codes "1"; description = codes "BUY" }

abbrev bought : EnumValue
bought = record { value = codes "B"; description = codes "Buy" }

abbrev side_field : Field
side_field = record {
  tag = 54;
  name = side;
  data_type = char;
  values = buy ∷ bought ∷ [];
  length_tag = none;
}

abbrev side_enum : RustNames
side_enum = record no_names {
  enums = (54, record { type_name = side; variants = codes "Buy" ∷ codes "Buy2" ∷ [] }) ∷ [];
}

abbrev buy_again : Renamed
buy_again = record {
  clash = record {
    name = codes "Buy";
    first = owner_value side (codes "1") (codes "BUY");
    second = owner_value side (codes "B") (codes "Buy");
  };
  name = codes "Buy2";
}

name_enum-of_side : name_enum side_field side no_names [] ≡ ok (side_enum, buy_again ∷ [])
unfolding name_enum lookup
name_enum-of_side = refl

name_enum-IsNamed_example : IsNamed side_field side no_names (name_enum side_field side no_names [])
name_enum-IsNamed_example = name_enum-IsNamed side_field side no_names [] (omega arith)

abbrev with_buy : Namespace
with_buy = record { owners = (codes "Buy", owner_value side (codes "1") (codes "BUY")) ∷ [] }

claim_value-IsValueClaim_example :
    IsValueClaim with_buy
      (codes "Buy")
      (owner_value side (codes "B") (codes "Buy"))
      numbered_variant
      []
      (claim_value with_buy
        (codes "Buy")
        (owner_value side (codes "B") (codes "Buy"))
        numbered_variant
        [])
claim_value-IsValueClaim_example =
    claim_value-IsValueClaim with_buy (codes "Buy") (owner_value side (codes "B") (codes "Buy"))
      numbered_variant (numbered_variant-AreDifferent (codes "Buy") 2 (omega arith)) []

abbrev party_names : RustNames
party_names = record no_names {
  accessors = (448, codes "b") ∷ (10, codes "d") ∷ (8, codes "c") ∷ [];
  groups = (MemberContext.group (codes "A") (MemberContext.component parties_name), codes "p") ∷ [];
}

new_names-of_parties : new_names party_dictionary [] ≡ ok (party_names, [])
unfolding new_names lookup
new_names-of_parties = refl

new_names-HaveMethods_example : HaveMethods party_dictionary party_names
new_names-HaveMethods_example =
    new_names-HaveMethods party_dictionary [] [] party_names new_names-of_parties

new_names-HasRoot_example : HasRoot party_dictionary party_names
new_names-HasRoot_example =
    new_names-HasRoot party_dictionary [] [] party_names new_names-of_parties
