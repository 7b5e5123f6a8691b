-- ===== src/Group/Rounds.antt =====
-- group.rs, `walk`: the rounds of its loop.
use refix.Base.{ℕ, suc, ◌<◌, ◌≡◌, refl, ◌≢◌, none, some, [], arith, dec_lt}
use refix.Base.Maybe.{◌>>=◌}
use refix.Message.{Slot, next_slot, Scope, tag_at}
use refix.Group.{
  GroupTable, nested_counted_by, KnownTags, Walking, take_member, member, ends_group, unknown,
  kind_at, start_walking, walk_loop,
}

module _ (s : Scope) (t : GroupTable) (known : KnownTags) where
  module _ (fuel : ℕ) (w : Walking) where
    pub round_ends :
        kind_at s t known w.slot ≡ ends_group → walk_loop (suc fuel) s t known w ≡ some w
    unfolding walk_loop
    round_ends k = rw (k, walk_loop) refl

    pub round_unknown :
        kind_at s t known w.slot ≡ unknown
        → walk_loop (suc fuel) s t known w
          ≡ walk_loop fuel s t known (record w { slot = next_slot w.slot })
    unfolding walk_loop
    round_unknown k = rw (k, walk_loop) refl

    abbrev pub behind_member : Slot → Walking
    behind_member slot = record (take_member s t (tag_at s w.slot) w) { slot = slot }

    pub round_member :
        kind_at s t known w.slot ≡ member
        → nested_counted_by t (tag_at s w.slot) ≡ none
        → walk_loop (suc fuel) s t known w
          ≡ walk_loop fuel s t known (behind_member (next_slot w.slot))
    unfolding walk_loop
    round_member k n = rw (k, walk_loop) (rw n refl)

    pub round_nested :
        (nested : GroupTable)
        → kind_at s t known w.slot ≡ member
        → nested_counted_by t (tag_at s w.slot) ≡ some nested
        → walk_loop (suc fuel) s t known w ≡ (
            walk_loop fuel s nested known (start_walking w.slot []) >>= λ inner.
            walk_loop fuel s t known (behind_member inner.slot))
    unfolding walk_loop
    round_nested nested k n = rw (k, walk_loop) (rw n refl)

  -- The loop goes on within the scope only.
  pub kind_at-lt : (slot : Slot) → kind_at s t known slot ≢ ends_group → slot < s.end
  unfolding kind_at
  kind_at-lt slot h = elim (dec_lt slot s.end) [ yes lt ↦ lt | no ge ↦ absurd (h (ground arith)) ]
