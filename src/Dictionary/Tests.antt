-- ===== src/Dictionary/Tests.antt =====
-- dictionary/resolver.rs on a small dictionary.
use refix.Base.{ℕ, ◌≡◌, refl, true, false, none, some, List, [], ◌∷◌, equal}
use refix.Dictionary.Resolver.{set_expansion, name_group, Dictionary, resolve}
use refix.Dictionary.Resolver.Ends.{Ends}
use refix.Dictionary.Resolver.Sound.{IsSound, resolve-Ends}
use refix.Base.Result.{ok}
use refix.Tags.{contains}
use refix.Dictionary.Spec.{
  Name, fix, app, DataType, string, int, num_in_group, is_int_based, has_length_field, Field, field,
  component, group, no_members, and_member, Spec, MemberContext, header,
}
use refix.Dictionary.Tags.{
  resolved_field, resolved_group, ResolvedMembers, no_resolved, and_resolved, combine_all, join,
  insert_unique_tags,
}
use refix.Dictionary.Tags.Unique.{all_tags, keys, all_new, is_ok, insert_unique_tags-all_new}
use refix.Dictionary.Checks.{lookup, lookup_tag, non_integer}

abbrev pub plain_field : Name → ℕ → DataType → Field
plain_field name tag kind = record {
  name = name;
  tag = tag;
  data_type = kind;
  length_tag = none;
  values = [];
}

abbrev three_fields : List Field
three_fields =
    plain_field (b'A' ∷ []) 453 num_in_group
    ∷ plain_field (b'B' ∷ []) 448 string
    ∷ plain_field (b'C' ∷ []) 452 int
    ∷ []

-- A group of parties, and behind it a field of the party again.
abbrev repeated_party : ResolvedMembers
repeated_party =
    and_resolved
      (resolved_group 0 1 true header none
        (and_resolved (resolved_field 1 true) (and_resolved (resolved_field 2 false) no_resolved)))
      (and_resolved (resolved_field 1 false) no_resolved)

party_repeats : all_new [] (all_tags three_fields repeated_party) ≡ false
unfolding all_new all_tags contains
party_repeats = refl

insert_unique_tags-all_new_example :
    is_ok (insert_unique_tags three_fields header [] repeated_party)
    ≡ all_new (keys []) (all_tags three_fields repeated_party)
insert_unique_tags-all_new_example =
    insert_unique_tags-all_new three_fields header [] repeated_party

-- `Parties` as a component that is one group, used in the message `Order`.
abbrev pub parties_name : Name
parties_name = b'P' ∷ []

abbrev pub order_name : Name
order_name = b'O' ∷ []

abbrev pub party_fields : List Field
party_fields =
    plain_field (b'A' ∷ []) 453 num_in_group
    ∷ plain_field (b'B' ∷ []) 448 string
    ∷ plain_field (b'C' ∷ []) 8 string
    ∷ plain_field (b'D' ∷ []) 10 string
    ∷ []

abbrev pub party_spec : Spec
party_spec = record {
  version = record { protocol = fix; major = 4; minor = 4; service_pack = 0 };
  header = and_member (field (record { tag = 8; is_required = true })) no_members;
  messages =
      record {
        name = order_name;
        msg_type = b'D' ∷ [];
        members =
            and_member (component (record { name = parties_name; is_required = true })) no_members;
        category = app;
      }
      ∷ [];
  trailer = and_member (field (record { tag = 10; is_required = true })) no_members;
  fields = party_fields;
  components =
      record {
        name = parties_name;
        members =
            and_member
              (group 453 false
                (and_member (field (record { tag = 448; is_required = false })) no_members))
              no_members;
      }
      ∷ [];
}

abbrev pub party_members : ResolvedMembers
party_members =
    and_resolved
      (resolved_group 0 1 false (MemberContext.component parties_name) (some parties_name)
        (and_resolved (resolved_field 1 true) no_resolved))
      no_resolved

abbrev pub party_dictionary : Dictionary
party_dictionary = record {
  spec = party_spec;
  header = and_resolved (resolved_field 2 true) no_resolved;
  messages = party_members ∷ [];
  trailer = and_resolved (resolved_field 3 true) no_resolved;
}

pub party_spec_resolves : resolve party_spec ≡ ok party_dictionary
unfolding resolve is_int_based non_integer lookup lookup_tag contains has_length_field equal
    set_expansion join combine_all name_group
party_spec_resolves = refl

resolve-Ends_example : Ends (IsSound party_spec) (resolve party_spec)
resolve-Ends_example = resolve-Ends party_spec
