-- ===== src/Group/Members.antt =====
-- group.rs, `walk`: which fields of a group are its members, and how they split into instances.
use mathlib.Core.List.{map-append}
use refix.Tags.{Tag, contains}
use refix.Tags.Counts.{count, IsDistinct, count-append, count-contains}
use refix.Message.{Slot, next_slot, Scope, narrow, tag_at}
use refix.Group.{
  GroupTable, nested_counted_by, KnownTags, closed, member, ends_group, unknown, kind_at,
}
use refix.Base.{
  ◌≡◌, refl, sym, ap, ◌∙◌, subst, inl, inr, true, false, ◌||◌, Option, none, some, List, [], ◌∷◌,
  ◌++◌, map, append-nil, arith, ◌==◌, Bool-cases, is_none,
}

-- The members' fields of a group in the slots from `from` to `to`, those in nested groups left out.
-- Behind a nested group's count its own members are followed to where it ends, and unknown fields
-- are passed over.
pub data Members (s : Scope) (known : KnownTags)
    : GroupTable → Slot → List Slot → Slot → Type 0 where
  no_members : {t : GroupTable} {at : Slot} → Members s known t at [] at
  passes :
      {t : GroupTable} {at to : Slot} {more : List Slot}
      → kind_at s t known at ≡ unknown
      → Members s known t (next_slot at) more to
      → Members s known t at more to
  takes :
      {t : GroupTable} {at to : Slot} {more : List Slot}
      → kind_at s t known at ≡ member
      → nested_counted_by t (tag_at s at) ≡ none
      → Members s known t (next_slot at) more to
      → Members s known t at (at ∷ more) to
  takes_nested :
      {t nested : GroupTable} {at mid to : Slot} {inner more : List Slot}
      → kind_at s t known at ≡ member
      → nested_counted_by t (tag_at s at) ≡ some nested
      → Members s known nested (next_slot at) inner mid
      → kind_at s nested known mid ≡ ends_group
      → Members s known t mid more to
      → Members s known t at (at ∷ more) to

pub Members-append :
    {s : Scope} {known : KnownTags} {t : GroupTable} {a b c : Slot} (xs ys : List Slot)
    → Members s known t a xs b
    → Members s known t b ys c
    → Members s known t a (xs ++ ys) c
Members-append xs ys no_members later = later
Members-append xs ys (passes k rest) later = passes k (Members-append xs ys rest later)
Members-append (x ∷ xs) ys (takes k n rest) later = takes k n (Members-append xs ys rest later)
Members-append (x ∷ xs) ys (takes_nested k n inner stop rest) later =
    takes_nested k n inner stop (Members-append xs ys rest later)

-- An instance from `start` to `to`: it starts with a member, and has no member's tag twice. `tags`
-- are the tags of its members.
pub record IsInstance (s : Scope) (t : GroupTable) (known : KnownTags) (start : Slot)
    (tags : List Tag) (to : Slot) : Type 0 where
  pub members : List Slot
  pub path : Members s known t start (start ∷ members) to
  pub has_tags : map (tag_at s) (start ∷ members) ≡ tags
  pub distinct : IsDistinct tags

-- The instances from slot `first` on that are complete at `next`: each ends just where the next
-- member repeats a tag of its own.
pub data Repeats (s : Scope) (t : GroupTable) (known : KnownTags) (first : Slot)
    : List Scope → Slot → Type 0 where
  no_repeat : Repeats s t known first [] first
  repeats :
      {instances : List Scope} {start next : Slot} (tags : List Tag)
      → Repeats s t known first instances start
      → IsInstance s t known start tags next
      → kind_at s t known next ≡ member
      → contains tags (tag_at s next) ≡ true
      → Repeats s t known first (instances ++ narrow s start next ∷ []) next

-- The split of the group behind the count field: unknown fields, and then the instances, the last of
-- which runs to `to`.
pub data IsSplit (s : Scope) (t : GroupTable) (known : KnownTags) (count_slot : Slot)
    : List Scope → Slot → Type 0 where
  no_instance :
      {to : Slot}
      → Members s known t (next_slot count_slot) [] to
      → IsSplit s t known count_slot [] to
  instances_to :
      {instances : List Scope} (first start to : Slot) (tags : List Tag)
      → Members s known t (next_slot count_slot) [] first
      → Repeats s t known first instances start
      → IsInstance s t known start tags to
      → IsSplit s t known count_slot (instances ++ narrow s start to ∷ []) to

-- The same of the loop's variables, in which the last instance is open.
pub data Opens (s : Scope) (t : GroupTable) (known : KnownTags) (count_slot : Slot)
    : Option Slot → List Tag → List Scope → Slot → Type 0 where
  none_open :
      {tags : List Tag} {slot : Slot}
      → Members s known t (next_slot count_slot) [] slot
      → Opens s t known count_slot none tags [] slot
  open_at :
      {instances : List Scope} {tags : List Tag} {slot : Slot} (first start : Slot)
      → Members s known t (next_slot count_slot) [] first
      → Repeats s t known first instances start
      → IsInstance s t known start tags slot
      → Opens s t known count_slot (some start) tags instances slot

pub Opens-IsSplit :
    {s : Scope} {t : GroupTable} {known : KnownTags} {count_slot : Slot} (start : Option Slot)
    (tags : List Tag) (instances : List Scope) (slot : Slot)
    → Opens s t known count_slot start tags instances slot
    → IsSplit s t known count_slot (closed s start slot instances) slot
Opens-IsSplit none tags [] slot (none_open m) = no_instance m
Opens-IsSplit none tags (_ ∷ _) slot o = elim o [ ]
Opens-IsSplit (some start) tags instances slot (open_at first start' m r i) =
    instances_to first start slot tags m r i

one-IsDistinct : (tag : Tag) → IsDistinct (tag ∷ [])
unfolding count
one-IsDistinct tag x = ground arith

more-IsDistinct :
    (tags : List Tag) (tag : Tag)
    → IsDistinct tags
    → contains tags tag ≡ false
    → IsDistinct (tags ++ tag ∷ [])
unfolding count
more-IsDistinct tags tag d h x = elim (Bool-cases (tag == x)) [
  | inr differs ↦ ground (arith, count-append x tags (tag ∷ []), d x, differs)
  | inl same ↦
      let e : tag ≡ x = ground (arith, same) in
      let absent : contains tags x ≡ false = ap (contains tags) (sym e) ∙ h in
      ground (arith, count-append x tags (tag ∷ []), count-contains x tags, absent, same)
]

module _ {s : Scope} {t : GroupTable} {known : KnownTags} where
  -- Unknown fields belong to the instance that is open.
  pub Opens-later :
      {count_slot : Slot} (start : Option Slot) (tags : List Tag) (instances : List Scope)
      (slot next : Slot)
      → Members s known t slot [] next
      → Opens s t known count_slot start tags instances slot
      → Opens s t known count_slot start tags instances next
  Opens-later none tags [] slot next p (none_open m) = none_open (Members-append [] [] m p)
  Opens-later none tags (_ ∷ _) slot next p o = elim o [ ]
  Opens-later (some start) tags instances slot next p (open_at first start' m r i) =
      open_at first start m r (record {
        members = i.members;
        path =
            subst (λ l. Members s known t start l next) (append-nil (start ∷ i.members))
              (Members-append (start ∷ i.members) [] i.path p);
        has_tags = i.has_tags;
        distinct = i.distinct;
      })

  new-IsInstance :
      (slot next : Slot)
      → Members s known t slot (slot ∷ []) next
      → IsInstance s t known slot (tag_at s slot ∷ []) next
  new-IsInstance slot next p = record {
    members = [];
    path = p;
    has_tags = refl;
    distinct = one-IsDistinct (tag_at s slot);
  }

  -- The instances with the one that the repeated tag closes.
  pub Opens-new :
      {count_slot : Slot} (start : Option Slot) (tags : List Tag) (instances : List Scope)
      (slot next : Slot)
      → kind_at s t known slot ≡ member
      → (is_none start || contains tags (tag_at s slot)) ≡ true
      → Members s known t slot (slot ∷ []) next
      → Opens s t known count_slot start tags instances slot
      → Opens s t known count_slot
          (some slot)
          (tag_at s slot ∷ [])
          (closed s start slot instances)
          next
  Opens-new none tags [] slot next k c p (none_open m) =
      open_at slot slot m no_repeat (new-IsInstance slot next p)
  Opens-new none tags (_ ∷ _) slot next k c p o = elim o [ ]
  Opens-new (some start) tags instances slot next k c p (open_at first start' m r i) =
      open_at first slot m (repeats tags r i k c) (new-IsInstance slot next p)

  pub Opens-more :
      {count_slot : Slot} (start : Option Slot) (tags : List Tag) (instances : List Scope)
      (slot next : Slot)
      → (is_none start || contains tags (tag_at s slot)) ≡ false
      → Members s known t slot (slot ∷ []) next
      → Opens s t known count_slot start tags instances slot
      → Opens s t known count_slot start (tags ++ tag_at s slot ∷ []) instances next
  Opens-more none tags instances slot next c p o = absurd (cc)
  Opens-more (some start) tags instances slot next c p (open_at first start' m r i) =
      open_at first start m r (record {
        members = i.members ++ slot ∷ [];
        path = Members-append (start ∷ i.members) (slot ∷ []) i.path p;
        has_tags =
            map-append (tag_at s) (start ∷ i.members) (slot ∷ [])
            ∙ ap (λ l. l ++ tag_at s slot ∷ []) i.has_tags;
        distinct = more-IsDistinct tags (tag_at s slot) i.distinct c;
      })
