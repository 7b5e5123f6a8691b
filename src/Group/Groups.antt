-- ===== src/Group/Groups.antt =====
-- group.rs, `get_group`: it always returns, and what it returns.
use refix.Base.{
  ℕ, ◌+◌, ◌≤◌, ◌<◌, ◌≡◌, refl, inl, inr, true, Option, none, some, List, [], ◌∷◌, ◌++◌, arith, leb,
  leb→le, Bool-cases, length, Bytes, all,
}
use refix.Message.{Slot, Scope}
use refix.Message.Find.{IsScope, IsFirst, IsAbsent, find-cases}
use refix.Group.{
  GroupTable, count_tag, KnownTags, Anomaly, parse_count, Walking, closed, ends_group, kind_at,
  invalid_count_of, count_mismatch_of, finish_walk, walk, GroupResult, absent, group, invalid_value,
  judged, judged_walk, get_group,
}
use refix.Group.Follow.{Follow, begins, closed-begins, closed-begins-split}
use refix.Group.Members.{IsSplit, Opens-IsSplit}
use refix.Group.Walks.{Walked, Kept-closed, start-Walked, walk_loop-Walked}

-- What the walk finds behind the count field in slot `count`: instances that follow one another up
-- to slot `to`, where the scope ends or a field that belongs to no group. A new one starts just
-- where a member repeats a tag that the instance before has, outside its nested groups.
pub record IsFound (s : Scope) (t : GroupTable) (known : KnownTags) (count : Slot)
    (instances : List Scope) : Type 0 where
  pub first : Slot
  pub to : Slot
  pub behind : count < first
  pub within : to ≤ s.end
  pub follow : Follow s.message first instances to
  pub ends : kind_at s t known to ≡ ends_group
  pub split : IsSplit s t known count instances to

-- The count is the number of instances, and each starts with the delimiter.
abbrev pub IsWellFormed : Scope → GroupTable → Bytes → List Scope → Type 0
IsWellFormed s t v instances =
    (parse_count v ≡ some (length instances)) × (all (begins s t) instances ≡ true)

-- What `get_group` returns. The instances stand behind the first field with the count tag, whose
-- value is `v`; they are returned where they are well formed.
pub data IsGroupResult (s : Scope) (t : GroupTable) (known : KnownTags) : GroupResult → Type 0 where
  is_absent : IsAbsent s (count_tag t) s.start → IsGroupResult s t known absent
  is_group :
      {instances : List Scope} (count : Slot) (v : Bytes)
      → IsFirst s (count_tag t) s.start count v
      → IsFound s t known count instances
      → IsWellFormed s t v instances
      → IsGroupResult s t known (group instances)
  is_invalid :
      (instances : List Scope) (count : Slot) (v : Bytes)
      → IsFirst s (count_tag t) s.start count v
      → IsFound s t known count instances
      → ¬ IsWellFormed s t v instances
      → IsGroupResult s t known (invalid_value (count_tag t))

append-nil_split : (xs ys : List Anomaly) → xs ++ ys ≡ [] → (xs ≡ []) × (ys ≡ [])
append-nil_split [] ys h = (refl, h)
append-nil_split (x ∷ xs) ys h = cc

length-zero : (xs : List Anomaly) → length xs ≤ 0 → xs ≡ []
length-zero [] h = refl
length-zero (x ∷ xs) h = absurd (omega arith)

no_mismatch :
    (declared : Option ℕ) (found : ℕ)
    → invalid_count_of declared ≡ []
    → count_mismatch_of declared found ≡ []
    → declared ≡ some found
no_mismatch none found h k = cc
no_mismatch (some n) found h k = ground arith

matches :
    (declared : Option ℕ) (found : ℕ)
    → declared ≡ some found
    → (invalid_count_of declared ≡ []) × (count_mismatch_of declared found ≡ [])
matches none found h = cc
matches (some n) found h = ground arith

module _ (s : Scope) (t : GroupTable) (known : KnownTags) (is : IsScope s) where
  judged-IsGroupResult :
      (count : Slot) (v : Bytes) (w : Walking)
      → IsFirst s (count_tag t) s.start count v
      → Walked s t known count (invalid_count_of (parse_count v)) w
      → kind_at s t known w.slot ≡ ends_group
      → IsGroupResult s t known (judged t (finish_walk s (parse_count v) w).0)
  unfolding finish_walk
  judged-IsGroupResult count v w i walked stop =
      let declared = parse_count v in
      let instances = closed s w.instance_start w.slot w.instances in
      let anomalies = w.anomalies ++ count_mismatch_of declared (length instances) in
      let (first, lo, f) =
        Kept-closed s w.instance_start w.instances w.slot walked.kept walked.low in
      let found : IsFound s t known count instances = record {
        first = first;
        to = w.slot;
        behind = lo;
        within = walked.high;
        follow = f;
        ends = stop;
        split = Opens-IsSplit w.instance_start w.seen w.instances w.slot walked.opens;
      } in
      elim (Bool-cases (leb (length anomalies) 0)) [
        | inr some_found ↦ rw some_found (
            is_invalid instances count v i found (λ well.
              let (valid, counted) = matches declared (length instances) well.0 in
              let parts = closed-begins-split s t w.instance_start w.slot w.instances well.1 in
              absurd (ground (arith, walked.clean valid parts, counted))))
        | inl clean ↦
            let none_found = length-zero anomalies (leb→le (length anomalies) 0 clean) in
            let parts =
              append-nil_split w.anomalies (count_mismatch_of declared (length instances))
                none_found in
            let counted =
              no_mismatch declared (length instances) (walked.reported parts.0) parts.1 in
            rw clean (
              is_group count v i found (
                counted,
                closed-begins s t w.instance_start w.slot w.instances (walked.delimited parts.0),
              ))
      ]

  -- The walk from the count field ends, and so it is judged.
  walked-IsGroupResult :
      (count : Slot) (v : Bytes)
      → IsFirst s (count_tag t) s.start count v
      → IsGroupResult s t known (judged_walk t (walk s count t known))
  unfolding walk
  walked-IsGroupResult count v i =
      let begun = invalid_count_of (parse_count v) in
      let (w, e, walked, stop) =
        walk_loop-Walked (s.end + 1) s t known count begun _
          (start-Walked s t known count begun i.before) (omega arith) in
      rw (← i.valued) (rw e (judged-IsGroupResult count v w i walked stop))

-- On a scope within its message of fewer than 2^32 fields, get_group returns for every table. It
-- is absent where no field of the scope has the count tag. Else the fields behind the first one
-- with the count tag, up to where the scope ends or a field that ends the group, are unknown
-- fields and then instances that follow one another without gap: each starts with a member's
-- field, has no member's tag twice outside nested groups, which are followed to their ends, and a
-- new one starts just where the next member repeats a tag of the one before. They are returned
-- where each starts with the delimiter and they are as many as the count says, and where that does
-- not hold the result is an error that names the count tag.
pub get_group-IsGroupResult :
    (s : Scope) (t : GroupTable) (known : KnownTags)
    → IsScope s
    → IsGroupResult s t known (get_group s t known)
unfolding get_group
get_group-IsGroupResult s t known is = elim (find-cases s is (count_tag t) s.start is.ordered) [
  | inl (missing, nowhere) ↦ rw (missing, get_group) (is_absent nowhere)
  | inr (count, v, found, i) ↦ rw (found, get_group) (walked-IsGroupResult s t known is count v i)
]
