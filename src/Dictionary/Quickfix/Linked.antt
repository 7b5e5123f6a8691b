-- ===== src/Dictionary/Quickfix/Linked.antt =====
-- quickfix.rs, `link_length_fields`: which fields get which length field.
use refix.Base.{◌⊎◌, inl, inr, Bool, List, [], ◌∷◌}
use refix.Tags.{Tag}
use refix.Dictionary.Spec.{
  Field, FieldRef, ComponentRef, Member, field, component, group, Members, no_members, and_member,
}
use refix.Dictionary.Quickfix.Lengths.{
  link_pair, link_pairs, collect_in_groups, collect_length_tags, collect_all,
}
use refix.Dictionary.Quickfix.Gives.{Gives, gives, Gives-bind, Gives-map}
use refix.Dictionary.Quickfix.Known.{AreKnown, AllKnown}
use refix.Dictionary.Quickfix.Pairs.{
  IsPair, Links, HasKnownLengths, Links-none, Links-trans, Links-map, link_fields-Gives,
}

-- The data field `d` is listed directly behind the LENGTH field `l`, in the list itself.
pub data Neighbours (known : List (Tag × Field)) (l d : Tag) : Members → Type 0 where
  first_two :
      {m n : Member} {rest : Members}
      → IsPair known l d m n
      → Neighbours known l d (and_member m (and_member n rest))
  further :
      {m : Member} {rest : Members}
      → Neighbours known l d rest
      → Neighbours known l d (and_member m rest)

-- The same in a group of the list, at any depth.
pub data InGroup (known : List (Tag × Field)) (l d : Tag) : Members → Type 0 where
  in_instance :
      {tag : Tag} {required : Bool} {inner rest : Members}
      → Neighbours known l d inner
      → InGroup known l d (and_member (group tag required inner) rest)
  deeper :
      {tag : Tag} {required : Bool} {inner rest : Members}
      → InGroup known l d inner
      → InGroup known l d (and_member (group tag required inner) rest)
  behind :
      {m : Member} {rest : Members} → InGroup known l d rest → InGroup known l d (and_member m rest)

-- The same in one of several lists.
pub data Follows (known : List (Tag × Field)) (l d : Tag) : List Members → Type 0 where
  in_list :
      {rest : Members} {lists : List Members}
      → Neighbours known l d rest
      → Follows known l d (rest ∷ lists)
  in_list_group :
      {rest : Members} {lists : List Members}
      → InGroup known l d rest
      → Follows known l d (rest ∷ lists)
  in_later :
      {rest : Members} {lists : List Members}
      → Follows known l d lists
      → Follows known l d (rest ∷ lists)

module _ (known : List (Tag × Field)) where
  link_pair-Gives :
      (m n : Member) (rest : Members) (before : List (Tag × Tag))
      → AreKnown known (and_member m (and_member n rest))
      → HasKnownLengths known before
      → Gives (Links known (λ l d. IsPair known l d m n) before) (link_pair known m n before)
  link_pair-Gives (field l) (field d) rest before k h =
      link_fields-Gives known before l d k.0 k.1.0 h
  link_pair-Gives (field l) (component c) rest before k h =
      unfold link_pair in gives (Links-none known _ before (λ l d p. elim p [ ]) h)
  link_pair-Gives (field l) (group _ _ _) rest before k h =
      unfold link_pair in gives (Links-none known _ before (λ l d p. elim p [ ]) h)
  link_pair-Gives (component c) n rest before k h =
      unfold link_pair in gives (Links-none known _ before (λ l d p. elim p [ ]) h)
  link_pair-Gives (group _ _ _) n rest before k h =
      unfold link_pair in gives (Links-none known _ before (λ l d p. elim p [ ]) h)

  AreKnown-tail :
      (m : Member) (rest : Members) → AreKnown known (and_member m rest) → AreKnown known rest
  AreKnown-tail (field f) rest k = k.1
  AreKnown-tail (component c) rest k = k
  AreKnown-tail (group tag required inner) rest k = k.1

  Neighbours-split :
      (l d : Tag) (m n : Member) (rest : Members)
      → Neighbours known l d (and_member m (and_member n rest))
      → IsPair known l d m n ⊎ Neighbours known l d (and_member n rest)
  Neighbours-split l d m n rest (first_two p) = inl p
  Neighbours-split l d m n rest (further f) = inr f

  Neighbours-one : (l d : Tag) (m : Member) → Neighbours known l d (and_member m no_members) → ⊥
  Neighbours-one l d m (further f) = elim f [ ]

  Neighbours-join :
      (l d : Tag) (m n : Member) (rest : Members)
      → IsPair known l d m n ⊎ Neighbours known l d (and_member n rest)
      → Neighbours known l d (and_member m (and_member n rest))
  Neighbours-join l d m n rest (inl p) = first_two p
  Neighbours-join l d m n rest (inr f) = further f

  link_pairs-Gives :
      (rest : Members) (before : List (Tag × Tag))
      → AreKnown known rest
      → HasKnownLengths known before
      → Gives (Links known (λ l d. Neighbours known l d rest) before) (link_pairs known rest before)
  unfolding link_pairs
  link_pairs-Gives no_members before k h = gives (Links-none known _ before (λ l d p. elim p [ ]) h)
  link_pairs-Gives (and_member m no_members) before k h =
      gives (Links-none known _ before (λ l d. Neighbours-one l d m) h)
  link_pairs-Gives (and_member m (and_member n rest)) before k h =
      Gives-bind _ _ (link_pair-Gives m n rest before k h) (λ more f.
        Gives-map (link_pairs known (and_member n rest) more)
          (link_pairs-Gives (and_member n rest) more (AreKnown-tail m _ k) f.known_lengths)
          (λ after g.
            Links-map known _ _ before after (λ l d. Neighbours-join l d m n rest)
              (λ l d. Neighbours-split l d m n rest) (Links-trans known _ _ before more after f g)))

  -- The three places of a pair in members that begin with a group.
  abbrev Parts : Members → Members → Tag → Tag → Type 0
  Parts inner rest l d =
      (InGroup known l d inner ⊎ Neighbours known l d inner) ⊎ InGroup known l d rest

  InGroup-join :
      (tag : Tag) (required : Bool) (inner rest : Members) (l d : Tag)
      → Parts inner rest l d
      → InGroup known l d (and_member (group tag required inner) rest)
  InGroup-join tag required inner rest l d (inl (inl f)) = deeper f
  InGroup-join tag required inner rest l d (inl (inr f)) = in_instance f
  InGroup-join tag required inner rest l d (inr f) = behind f

  InGroup-split :
      (tag : Tag) (required : Bool) (inner rest : Members) (l d : Tag)
      → InGroup known l d (and_member (group tag required inner) rest)
      → Parts inner rest l d
  InGroup-split tag required inner rest l d (deeper f) = inl (inl f)
  InGroup-split tag required inner rest l d (in_instance f) = inl (inr f)
  InGroup-split tag required inner rest l d (behind f) = inr f

  InGroup-field :
      (f : FieldRef) (rest : Members) (l d : Tag)
      → InGroup known l d (and_member (field f) rest)
      → InGroup known l d rest
  InGroup-field f rest l d (behind g) = g

  InGroup-component :
      (c : ComponentRef) (rest : Members) (l d : Tag)
      → InGroup known l d (and_member (component c) rest)
      → InGroup known l d rest
  InGroup-component c rest l d (behind g) = g

  collect_in_groups-Gives :
      (rest : Members) (before : List (Tag × Tag))
      → AreKnown known rest
      → HasKnownLengths known before
      → Gives
          (Links known (λ l d. InGroup known l d rest) before)
          (collect_in_groups known rest before)
  unfolding collect_in_groups
  collect_in_groups-Gives no_members before k h =
      gives (Links-none known _ before (λ l d p. elim p [ ]) h)
  collect_in_groups-Gives (and_member (field f) rest) before k h =
      Gives-map (collect_in_groups known rest before) (collect_in_groups-Gives rest before k.1 h)
        (λ after. Links-map known _ _ before after (λ l d. behind) (InGroup-field f rest))
  collect_in_groups-Gives (and_member (component c) rest) before k h =
      Gives-map (collect_in_groups known rest before) (collect_in_groups-Gives rest before k h)
        (λ after. Links-map known _ _ before after (λ l d. behind) (InGroup-component c rest))
  collect_in_groups-Gives (and_member (group tag required inner) rest) before k h =
      Gives-bind _ _ (collect_in_groups-Gives inner before k.0 h) (λ nested f.
        Gives-bind _ _ (link_pairs-Gives inner nested k.0 f.known_lengths) (λ linked g.
          Gives-map (collect_in_groups known rest linked)
            (collect_in_groups-Gives rest linked k.1 g.known_lengths)
            (λ after i.
              Links-map known _ _ before after (InGroup-join tag required inner rest)
                (InGroup-split tag required inner rest)
                (Links-trans known _ _ before linked after
                  (Links-trans known _ _ before nested linked f g) i))))

  Follows-join :
      (rest : Members) (lists : List Members) (l d : Tag)
      → (InGroup known l d rest ⊎ Neighbours known l d rest) ⊎ Follows known l d lists
      → Follows known l d (rest ∷ lists)
  Follows-join rest lists l d (inl (inl f)) = in_list_group f
  Follows-join rest lists l d (inl (inr f)) = in_list f
  Follows-join rest lists l d (inr f) = in_later f

  Follows-split :
      (rest : Members) (lists : List Members) (l d : Tag)
      → Follows known l d (rest ∷ lists)
      → (InGroup known l d rest ⊎ Neighbours known l d rest) ⊎ Follows known l d lists
  Follows-split rest lists l d (in_list_group f) = inl (inl f)
  Follows-split rest lists l d (in_list f) = inl (inr f)
  Follows-split rest lists l d (in_later f) = inr f

  pub collect_all-Gives :
      (lists : List Members) (before : List (Tag × Tag))
      → AllKnown known lists
      → HasKnownLengths known before
      → Gives (Links known (λ l d. Follows known l d lists) before) (collect_all known lists before)
  unfolding collect_all collect_length_tags
  collect_all-Gives [] before k h = gives (Links-none known _ before (λ l d p. elim p [ ]) h)
  collect_all-Gives (rest ∷ lists) before k h =
      Gives-bind (collect_length_tags known rest before) _
        (Gives-bind _ _ (collect_in_groups-Gives rest before k.0 h) (λ nested f.
          Gives-map (link_pairs known rest nested)
            (link_pairs-Gives rest nested k.0 f.known_lengths)
            (λ linked g. Links-trans known _ _ before nested linked f g)))
        (λ linked f.
          Gives-map (collect_all known lists linked)
            (collect_all-Gives lists linked k.1 f.known_lengths)
            (λ after g.
              Links-map known _ _ before after (Follows-join rest lists) (Follows-split rest lists)
                (Links-trans known _ _ before linked after f g)))
