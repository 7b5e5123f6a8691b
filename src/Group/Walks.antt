-- ===== src/Group/Walks.antt =====
-- group.rs, `walk`: the walk ends, and the instances that it finds follow one another.
use refix.Base.{
  ℕ, zero, suc, ◌+◌, ◌≤◌, ◌<◌, ◌≡◌, refl, ◌∙◌, ◌⊎◌, inl, inr, ◌||◌, Option, none, some, List, [],
  ◌∷◌, ◌++◌, arith, ◌==◌, Bool-cases, Option-cases, is_none, all,
}
use refix.Tokenizer.{RawMessage}
use refix.Tags.{Tag, contains}
use refix.Message.{Slot, next_slot, Scope, narrow, tag_at}
use refix.Group.{
  GroupTable, delimiter, nested_counted_by, KnownTags, Anomaly, missing_delimiter, Walking, closed,
  open_instance, take_member, Kind, member, ends_group, unknown, kind_at, start_walking, walk_loop,
}
use refix.Group.Follow.{
  Follow, no_more, Follow-append, Kept, none_yet, one_open, AllDelimited, closed-begins,
  closed-begins-split, append-not_nil,
}
use refix.Group.Members.{
  Members, no_members, passes, takes, takes_nested, Members-append, Opens, none_open, Opens-later,
  Opens-new, Opens-more,
}
use refix.Group.Rounds.{round_ends, round_unknown, round_member, round_nested, kind_at-lt}

-- What holds of the loop's variables at each round.
pub record Walked (s : Scope) (t : GroupTable) (known : KnownTags) (count : Slot)
    (begun : List Anomaly) (w : Walking) : Type 0 where
  pub low : count < w.slot
  pub high : w.slot ≤ s.end
  pub kept : Kept s.message count w.instance_start w.instances w.slot
  pub reported : w.anomalies ≡ [] → begun ≡ []
  pub delimited : w.anomalies ≡ [] → AllDelimited s t w.instances w.instance_start
  pub clean : begun ≡ [] → AllDelimited s t w.instances w.instance_start → w.anomalies ≡ []
  pub opens : Opens s t known count w.instance_start w.seen w.instances w.slot
  pub followed : (fields : List Slot) × Members s known t (next_slot count) fields w.slot

Kept-later :
    {m : RawMessage} {count : Slot} (start : Option Slot) (instances : List Scope) (a b : Slot)
    → a ≤ b
    → Kept m count start instances a
    → Kept m count start instances b
Kept-later none [] a b h none_yet = none_yet
Kept-later none (_ ∷ _) a b h k = elim k [ ]
Kept-later (some start) instances a b h (one_open first start' lo f lt) =
    one_open first start' lo f (omega (arith, lt))

pub Kept-closed :
    (s : Scope) {count : Slot} (start : Option Slot) (instances : List Scope) (slot : Slot)
    → Kept s.message count start instances slot
    → count < slot
    → (first : Slot) × (count < first) × Follow s.message first (closed s start slot instances) slot
Kept-closed s none [] slot none_yet lo = (slot, lo, no_more refl)
Kept-closed s none (_ ∷ _) slot k lo = elim k [ ]
Kept-closed s (some start) instances slot (one_open first start' lo f lt) _ =
    (first, lo, Follow-append instances (narrow s start slot) f refl refl lt)

module _ (s : Scope) (t : GroupTable) (known : KnownTags) where
  -- The variables behind a member's field.
  taken-Kept :
      {begun : List Anomaly} (count : Slot) (tag : Tag) (w : Walking) (next : Slot)
      → Walked s t known count begun w
      → w.slot < next
      → Kept s.message count
          (take_member s t tag w).instance_start
          (take_member s t tag w).instances
          next
  unfolding take_member
  taken-Kept count tag w next i lt =
      elim (Bool-cases (is_none w.instance_start || contains w.seen tag)) [
        | inl opens ↦
            let (first, lo, f) = Kept-closed s w.instance_start w.instances w.slot i.kept i.low in
            rw opens (one_open first w.slot lo f lt)
        | inr stays ↦
            rw stays (Kept-later w.instance_start w.instances w.slot next (omega arith) i.kept)
      ]

  opened-delimited :
      {begun : List Anomaly} (count : Slot) (w : Walking)
      → Walked s t known count begun w
      → (open_instance s t (tag_at s w.slot) w).anomalies ≡ []
      → AllDelimited s t (closed s w.instance_start w.slot w.instances) (some w.slot)
  opened-delimited count w i none_found = elim (Bool-cases (tag_at s w.slot == delimiter t)) [
    | inl same ↦
        let clean : w.anomalies ≡ [] = rw same at none_found in
        (closed-begins s t w.instance_start w.slot w.instances (i.delimited clean), same)
    | inr differs ↦ absurd (
        append-not_nil w.anomalies (missing_delimiter (tag_at s w.slot)) (rw differs at none_found))
  ]

  taken-delimited :
      {begun : List Anomaly} (count : Slot) (w : Walking)
      → Walked s t known count begun w
      → (take_member s t (tag_at s w.slot) w).anomalies ≡ []
      → AllDelimited s t
          (take_member s t (tag_at s w.slot) w).instances
          (take_member s t (tag_at s w.slot) w).instance_start
  unfolding take_member
  taken-delimited count w i =
      elim (Bool-cases (is_none w.instance_start || contains w.seen (tag_at s w.slot))) [
        | inl opens ↦ rw opens (opened-delimited count w i)
        | inr stays ↦ rw stays i.delimited
      ]

  opened_clean :
      (count : Slot) {begun : List Anomaly} (w : Walking)
      → Walked s t known count begun w
      → begun ≡ []
      → AllDelimited s t (closed s w.instance_start w.slot w.instances) (some w.slot)
      → (open_instance s t (tag_at s w.slot) w).anomalies ≡ []
  opened_clean count w i e h =
      rw h.1 (i.clean e (closed-begins-split s t w.instance_start w.slot w.instances h.0))

  taken_clean :
      (count : Slot) {begun : List Anomaly} (w : Walking)
      → Walked s t known count begun w
      → begun ≡ []
      → AllDelimited s t
          (take_member s t (tag_at s w.slot) w).instances
          (take_member s t (tag_at s w.slot) w).instance_start
      → (take_member s t (tag_at s w.slot) w).anomalies ≡ []
  unfolding take_member
  taken_clean count w i =
      elim (Bool-cases (is_none w.instance_start || contains w.seen (tag_at s w.slot))) [
        | inl opens ↦ rw opens (opened_clean count w i)
        | inr stays ↦ rw stays i.clean
      ]

  opened-anomalies :
      (w : Walking) → (open_instance s t (tag_at s w.slot) w).anomalies ≡ [] → w.anomalies ≡ []
  opened-anomalies w e = elim (Bool-cases (tag_at s w.slot == delimiter t)) [
    | inl same ↦ rw same at e
    | inr differs ↦
        absurd (append-not_nil w.anomalies (missing_delimiter (tag_at s w.slot)) (rw differs at e))
  ]

  taken-anomalies :
      (w : Walking) → (take_member s t (tag_at s w.slot) w).anomalies ≡ [] → w.anomalies ≡ []
  unfolding take_member
  taken-anomalies w =
      elim (Bool-cases (is_none w.instance_start || contains w.seen (tag_at s w.slot))) [
        | inl opens ↦ rw opens (opened-anomalies w)
        | inr stays ↦ rw stays (λ e. e)
      ]

  taken-Opens :
      {begun : List Anomaly} (count : Slot) (w : Walking) (next : Slot)
      → Walked s t known count begun w
      → kind_at s t known w.slot ≡ member
      → Members s known t w.slot (w.slot ∷ []) next
      → Opens s t known count
          (take_member s t (tag_at s w.slot) w).instance_start
          (take_member s t (tag_at s w.slot) w).seen
          (take_member s t (tag_at s w.slot) w).instances
          next
  unfolding take_member
  taken-Opens count w next i k p =
      elim (Bool-cases (is_none w.instance_start || contains w.seen (tag_at s w.slot))) [
        | inl opens ↦
            rw opens (Opens-new w.instance_start w.seen w.instances w.slot next k opens p i.opens)
        | inr stays ↦
            rw stays (Opens-more w.instance_start w.seen w.instances w.slot next stays p i.opens)
      ]

  member-Walked :
      {begun : List Anomaly} (count : Slot) (w : Walking) (next : Slot)
      → Walked s t known count begun w
      → w.slot < next
      → next ≤ s.end
      → kind_at s t known w.slot ≡ member
      → Members s known t w.slot (w.slot ∷ []) next
      → Walked s t known count begun (record (take_member s t (tag_at s w.slot) w) { slot = next })
  member-Walked count w next i lt high k p = record {
    low = omega (arith, i.low);
    high = high;
    kept = taken-Kept count (tag_at s w.slot) w next i lt;
    reported = λ e. i.reported (taken-anomalies w e);
    delimited = taken-delimited count w i;
    clean = taken_clean count w i;
    opens = taken-Opens count w next i k p;
    followed =
        (i.followed.0 ++ w.slot ∷ [], Members-append i.followed.0 (w.slot ∷ []) i.followed.1 p);
  }

Kind-cases : (k : Kind) → (k ≡ ends_group) ⊎ ((k ≡ unknown) ⊎ (k ≡ member))
Kind-cases ends_group = inl refl
Kind-cases unknown = inr (inl refl)
Kind-cases member = inr (inr refl)

-- The loop began at `w` and ended.
abbrev pub Ends : ℕ → Scope → GroupTable → KnownTags → Slot → List Anomaly → Walking → Type 0
Ends fuel s t known count begun w =
    (w' : Walking) × (walk_loop fuel s t known w ≡ some w')
    × Walked s t known count begun w'
    × (kind_at s t known w'.slot ≡ ends_group)

pub start-Walked :
    (s : Scope) (t : GroupTable) (known : KnownTags) (count : Slot) (anomalies : List Anomaly)
    → count < s.end
    → Walked s t known count anomalies (start_walking count anomalies)
start-Walked s t known count anomalies h = record {
  low = omega arith;
  high = omega arith;
  kept = none_yet;
  reported = λ e. e;
  delimited = λ _. (unfold all in refl, refl);
  clean = λ e _. e;
  opens = none_open no_members;
  followed = ([], no_members);
}

-- Enough fuel ends the loop.
pub walk_loop-Walked :
    (fuel : ℕ) (s : Scope) (t : GroupTable) (known : KnownTags) (count : Slot)
    (begun : List Anomaly) (w : Walking)
    → Walked s t known count begun w
    → s.end < fuel + w.slot
    → Ends fuel s t known count begun w
walk_loop-Walked zero s t known count begun w i h = absurd (omega (arith, i.high))
walk_loop-Walked (suc fuel) s t known count begun w i h =
    elim (Kind-cases (kind_at s t known w.slot)) [
      | inl k ↦ (w, round_ends s t known fuel w k, i, k)
      | inr (inl k) ↦
          let lt = kind_at-lt s t known w.slot (λ e. absurd (cc)) in
          let next : Walking = record w { slot = next_slot w.slot } in
          let j : Walked s t known count begun next = record {
            low = omega (arith, i.low);
            high = omega arith;
            kept = Kept-later w.instance_start w.instances w.slot next.slot (omega arith) i.kept;
            reported = i.reported;
            delimited = i.delimited;
            clean = i.clean;
            opens =
                Opens-later w.instance_start w.seen w.instances w.slot next.slot
                  (passes k no_members) i.opens;
            followed = (
              i.followed.0 ++ [],
              Members-append i.followed.0 [] i.followed.1 (passes k no_members),
            );
          } in
          let (w', e, r, stop) = walk_loop-Walked fuel s t known count begun next j (omega arith) in
          (w', round_unknown s t known fuel w k ∙ e, r, stop)
      | inr (inr k) ↦
          let lt = kind_at-lt s t known w.slot (λ e. absurd (cc)) in
          elim (Option-cases (nested_counted_by t (tag_at s w.slot))) [
            | inl n ↦
                let next = next_slot w.slot in
                let j =
                  member-Walked s t known count w next i (omega arith) (omega arith) k
                    (takes k n no_members) in
                let (w', e, r, stop) =
                  walk_loop-Walked fuel s t known count begun _ j (omega arith) in
                (w', round_member s t known fuel w k n ∙ e, r, stop)
            | inr (nested, n) ↦
                let (inner, ended, q, ends_inner) =
                  walk_loop-Walked fuel s nested known w.slot [] _
                    (start-Walked s nested known w.slot [] lt) (omega arith) in
                let j =
                  member-Walked s t known count w inner.slot i q.low q.high k
                    (takes_nested k n q.followed.1 ends_inner no_members) in
                let (w', e, r, stop) =
                  walk_loop-Walked fuel s t known count begun _ j (omega (arith, q.low)) in
                (w', round_nested s t known fuel w nested k n ∙ rw ended e, r, stop)
          ]
    ]
