-- ===== src/Group.antt =====
-- crates/refix-message/src/group.rs: repeating groups.
--
-- `GroupTable` and `OwnedGroupTable` differ in who owns the tags only, and are one type here.
-- The loop of `walk`, with the nested walks, runs on fuel; `none` would mean that it ran out.
pub mod Tests
pub mod Walks
pub mod Follow
pub mod Rounds
pub mod Tables
pub mod Groups
pub mod Members
use refix.Base.{
  ℕ, zero, suc, ◌+◌, Bool, not, ◌||◌, Option, none, some, List, [], ◌∷◌, ◌++◌, ltb, leb, ◌==◌,
  if◌then◌else◌, is_none, length, Bytes, all, is_digit,
}
use refix.Base.Digits.{usize_max, fold_digits}
use refix.Base.Maybe.{◌>>=◌}
use refix.Base.Result.{Result, ok, err}
use refix.Tags.{Tag, is_sorted_set, contains, binary_search}
use refix.Message.{Slot, next_slot, Scope, narrow, tag_at, value_at, find}

-- `CHECK_SUM`
abbrev pub check_sum : Tag
check_sum = 10

-- The structure of a repeating group: its count tag, delimiter, members and nested groups.
mutual
  pub data GroupTable : Type 0 where
    table : Tag → Tag → List Tag → GroupTables → GroupTable

  pub data GroupTables : Type 0 where
    no_tables : GroupTables
    and_table : GroupTable → GroupTables → GroupTables

abbrev pub count_tag : GroupTable → Tag
count_tag (table c d members nested) = c

abbrev pub delimiter : GroupTable → Tag
delimiter (table c d members nested) = d

abbrev pub is_member : GroupTable → Tag → Bool
is_member (table c d members nested) tag = binary_search members tag

-- `nested.iter().find(|nested| nested.count_tag == tag)`
unfoldable pub counted_by : Tag → GroupTables → Option GroupTable
counted_by tag no_tables = none
counted_by tag (and_table t rest) = if count_tag t == tag then some t else counted_by tag rest

unfoldable pub nested_counted_by : GroupTable → Tag → Option GroupTable
unfolding counted_by
nested_counted_by (table c d members nested) tag = counted_by tag nested

pub data GroupTableError : Type 0 where
  unsorted_members : GroupTableError
  delimiter_not_member : Tag → GroupTableError
  nested_count_not_member : Tag → GroupTableError

-- The first nested group whose count tag is no member.
unfoldable pub stray_nested : List Tag → GroupTables → Option GroupTable
stray_nested members no_tables = none
stray_nested members (and_table t rest) =
    if not (contains members (count_tag t)) then some t else stray_nested members rest

-- `OwnedGroupTable::new`
unfoldable pub new_group_table :
    Tag → Tag → List Tag → GroupTables → Result GroupTableError GroupTable
new_group_table c d members nested =
    if not (is_sorted_set members)
    then err unsorted_members
    else if not (contains members d)
    then err (delimiter_not_member d)
    else elim (stray_nested members nested) [
      | some t ↦ err (nested_count_not_member (count_tag t))
      | none ↦ ok (table c d members nested)
    ]

-- `KnownTags`
pub record KnownTags : Type 0 where
  pub tags : List Tag

-- `KnownTags::contains`
abbrev pub knows : KnownTags → Tag → Bool
knows known tag = binary_search known.tags tag

pub data Anomaly : Type 0 where
  invalid_count : Anomaly
  missing_delimiter : Tag → Anomaly
  count_mismatch : ℕ → ℕ → Anomaly

-- What the walker found for one group.
pub record Walk : Type 0 where
  pub declared_count : Option ℕ
  pub instances : List Scope
  pub anomalies : List Anomaly

-- `parse::<usize>` on bytes: digits, behind a `+` or not.
unfoldable pub parse_digits : Bytes → Option ℕ
parse_digits digits =
    if leb (length digits) 0 || not (all is_digit digits)
    then none
    else fold_digits usize_max 0 digits

-- A number of the standard library's `usize::from_str`. Bytes that are no UTF-8 hold a byte that
-- is neither a digit nor a sign, so they give `none` all the same.
unfoldable pub parse_count : Bytes → Option ℕ
unfolding parse_digits
parse_count [] = none
parse_count (b ∷ bytes) = if b == b'+' then parse_digits bytes else parse_digits (b ∷ bytes)

-- The variables of the loop in `walk`.
pub record Walking : Type 0 where
  pub anomalies : List Anomaly
  pub instances : List Scope
  pub instance_start : Option Slot
  pub seen : List Tag
  pub slot : Slot

-- `if let Some(start) = instance_start { instances.push(scope.narrow(start, slot)) }`
abbrev pub closed : Scope → Option Slot → Slot → List Scope → List Scope
closed s none slot instances = instances
closed s (some start) slot instances = instances ++ narrow s start slot ∷ []

-- The body of `if instance_start.is_none() || seen.contains(&tag)`.
abbrev pub open_instance : Scope → GroupTable → Tag → Walking → Walking
open_instance s t tag w = record {
  anomalies =
      if not (tag == delimiter t) then w.anomalies ++ missing_delimiter tag ∷ [] else w.anomalies;
  instances = closed s w.instance_start w.slot w.instances;
  instance_start = some w.slot;
  seen = [];
  slot = w.slot;
}

-- A member's field, but for the move to the next slot.
unfoldable pub take_member : Scope → GroupTable → Tag → Walking → Walking
take_member s t tag w =
    let opened =
      if is_none w.instance_start || contains w.seen tag then open_instance s t tag w else w in
    record opened { seen = opened.seen ++ tag ∷ [] }

-- What the loop does with a field.
pub data Kind : Type 0 where
  member : Kind
  ends_group : Kind
  unknown : Kind

unfoldable pub kind_of : GroupTable → KnownTags → Tag → Kind
kind_of t known tag =
    if tag == check_sum
    then ends_group
    else if is_member t tag
    then member
    else if knows known tag
    then ends_group
    else unknown

-- The same at slot `slot`, where the loop ends when the scope does.
unfoldable pub kind_at : Scope → GroupTable → KnownTags → Slot → Kind
unfolding kind_of
kind_at s t known slot =
    if not (ltb slot s.end) then ends_group else kind_of t known (tag_at s slot)

-- The loop's variables before the first field behind the count.
abbrev pub start_walking : Slot → List Anomaly → Walking
start_walking count_slot anomalies = record {
  anomalies = anomalies;
  instances = [];
  instance_start = none;
  seen = [];
  slot = next_slot count_slot;
}

-- The loop of `walk`. Of a nested walk the outer one takes the slot where it ends and nothing else.
unfoldable pub walk_loop : ℕ → Scope → GroupTable → KnownTags → Walking → Option Walking
walk_loop zero s t known w = none
walk_loop (suc fuel) s t known w =
    let tag = tag_at s w.slot in
    elim (kind_at s t known w.slot) [
      | ends_group ↦ some w
      | unknown ↦ walk_loop fuel s t known (record w { slot = next_slot w.slot })
      | member ↦
          let taken = take_member s t tag w in
          elim (nested_counted_by t tag) [
            | none ↦ walk_loop fuel s t known (record taken { slot = next_slot w.slot })
            | some nested ↦ walk_loop fuel s nested known (start_walking w.slot []) >>= λ inner.
                walk_loop fuel s t known (record taken { slot = inner.slot })
          ]
    ]

abbrev pub invalid_count_of : Option ℕ → List Anomaly
invalid_count_of none = invalid_count ∷ []
invalid_count_of (some n) = []

abbrev pub count_mismatch_of : Option ℕ → ℕ → List Anomaly
count_mismatch_of none found = []
count_mismatch_of (some declared) found =
    if not (declared == found) then count_mismatch declared found ∷ [] else []

-- What `walk` returns when its loop has ended.
unfoldable pub finish_walk : Scope → Option ℕ → Walking → Walk × Slot
finish_walk s declared w =
    let instances = closed s w.instance_start w.slot w.instances in
    (
      record {
        declared_count = declared;
        instances = instances;
        anomalies = w.anomalies ++ count_mismatch_of declared (length instances);
      },
      w.slot,
    )

-- Each round and each nested walk moves on by a slot at least.
unfoldable pub walk : Scope → Slot → GroupTable → KnownTags → Option (Walk × Slot)
unfolding finish_walk walk_loop
walk s count_slot t known =
    let declared = parse_count (value_at s count_slot) in
    walk_loop (s.end + 1) s t known (start_walking count_slot (invalid_count_of declared)) >>= λ w.
    some (finish_walk s declared w)

-- What `get_group` returns, or that the fuel ran out.
pub data GroupResult : Type 0 where
  absent : GroupResult
  group : List Scope → GroupResult
  invalid_value : Tag → GroupResult
  stuck : GroupResult

-- `get_group` on what the walk found.
abbrev pub judged : GroupTable → Walk → GroupResult
judged t found =
    if not (leb (length found.anomalies) 0)
    then invalid_value (count_tag t)
    else group found.instances

abbrev pub judged_walk : GroupTable → Option (Walk × Slot) → GroupResult
judged_walk t none = stuck
judged_walk t (some (found, slot)) = judged t found

-- `Scope::get_group`, with `walk_group` written out.
unfoldable pub get_group : Scope → GroupTable → KnownTags → GroupResult
unfolding find walk
get_group s t known = elim (find s (count_tag t) s.start) [
  | none ↦ absent
  | some (count_slot, _) ↦ judged_walk t (walk s count_slot t known)
]
