-- ===== src/Message/Find.antt =====
-- message.rs, `Scope::find`: the first occurrence of a tag.
use mathlib.Core.Option.{some-injective}
use refix.Base.{
  ℕ, ◌+◌, ◌-◌, ◌≤◌, ◌<◌, ◌≡◌, refl, sym, ap, ◌∙◌, subst, ◌≢◌, ◌↔◌, ◌⊎◌, inl, inr, false, Option,
  none, some, List, arith, dec_lt, ◌==◌, length, get_elem?, drop, length-take, length-drop,
  get_elem?-lt, Bytes, slice, position,
}
use refix.Base.Appends.{get_elem?-some_lt}
use refix.Base.Finds.{position-get, position_before, position-none_get, get_elem?-slice}
use refix.Tags.{Tag}
use refix.Tokenizer.{RawField, as_u32}
use refix.Message.{Slot, Scope, fields_in, value, tag_or_malformed, tag_at, value_at, find}

-- A scope within its message, whose slots a `u32` holds.
pub record IsScope (s : Scope) : Type 0 where
  pub ordered : s.start ≤ s.end
  pub inside : s.end ≤ length s.message.fields
  pub small : length s.message.fields < 4294967296

-- Slot `slot` holds the first field at or after `from` in the scope that has the tag.
pub record IsFirst (s : Scope) (tag : Tag) (from : Slot) (slot : Slot) (v : Bytes) : Type 0 where
  pub after : from ≤ slot
  pub before : slot < s.end
  pub tagged : tag_at s slot ≡ tag
  pub valued : v ≡ value_at s slot
  pub first : (k : Slot) → from ≤ k → k < slot → tag_at s k ≢ tag

-- No field at or after `from` in the scope has the tag.
abbrev pub IsAbsent : Scope → Tag → Slot → Type 0
IsAbsent s tag from = (k : Slot) → from ≤ k → k < s.end → tag_at s k ≢ tag

module _ (s : Scope) (is : IsScope s) (tag : Tag) (from : Slot) (h : from ≤ s.end) where
  abbrev here : List RawField
  here = slice s.message.fields from s.end

  length-here : length here ≡ s.end - from
  length-here = omega (
    arith,
    is.inside,
    length-take (s.end - from) (drop from s.message.fields),
    length-drop from s.message.fields,
  )

  fields_in-here : fields_in s.message.fields from s.end ≡ some here
  fields_in-here = ground (arith, is.inside)

  -- The field at a slot of the range.
  field_at_slot :
      (k : ℕ)
      → from + k < s.end
      → (f : RawField) × (get_elem? here k ≡ some f) × (tag_at s (from + k) ≡ f.tag)
  field_at_slot k lt =
      let (f, e) = get_elem?-lt here k (omega (arith, length-here)) in
      (f, e, ap tag_or_malformed (sym (get_elem?-slice s.message.fields from s.end k lt) ∙ e))

  not_tagged :
      (k : Slot)
      → from ≤ k
      → k < s.end
      → ((f : RawField) → get_elem? here (k - from) ≡ some f → (f.tag == tag) ≡ false)
      → tag_at s k ≢ tag
  not_tagged k lo hi pass = λ same.
      let slot : from + (k - from) ≡ k = omega arith in
      let (f, at, is_tag) = field_at_slot (k - from) (omega arith) in
      let equal_tags : f.tag ≡ tag = sym is_tag ∙ ap (tag_at s) slot ∙ same in
      let other : (f.tag == tag) ≡ false = pass f at in absurd (ground arith)

  find_at :
      (n : ℕ)
      → position (λ field. field.tag == tag) here ≡ some n
      → from + n < s.end
      → find s tag from ≡ some (from + n, value s.message (from + n))
  unfolding find
  find_at n e lt =
      let small : as_u32 (from + n) ≡ from + n = omega (arith, is.small, is.inside) in
      rw fields_in-here (rw e (rw small refl))

  find-none : position (λ field. field.tag == tag) here ≡ none → find s tag from ≡ none
  unfolding find
  find-none e = rw fields_in-here (rw e refl)

  find-outcome :
      (o : Option ℕ)
      → position (λ field. field.tag == tag) here ≡ o
      → ((find s tag from ≡ none) × IsAbsent s tag from)
        ⊎ ((slot : Slot) × (v : Bytes) × (find s tag from ≡ some (slot, v))
            × IsFirst s tag from slot v)
  find-outcome none e = inl (
    find-none e,
    λ k lo hi. not_tagged k lo hi (λ f at. position-none_get _ here (k - from) f e at),
  )
  find-outcome (some n) e =
      let (f, at, passes) = position-get (λ field. field.tag == tag) here n e in
      let lt : from + n < s.end = omega (arith, get_elem?-some_lt here n f at, length-here) in
      let (g, at_g, is_tag) = field_at_slot n lt in
      let same : f.tag ≡ g.tag = ap tag_or_malformed (sym at ∙ at_g) in
      inr (
        from + n,
        value s.message (from + n),
        find_at n e lt,
        record {
          after = omega arith;
          before = lt;
          tagged = is_tag ∙ ground (arith, passes, same);
          valued = refl;
          first = λ k lo hi.
              not_tagged k lo (omega arith)
                (λ f at. position_before _ here n (k - from) f e (omega arith) at);
        },
      )

  -- The search finds the first field with the tag, or there is none.
  pub find-cases :
      ((find s tag from ≡ none) × IsAbsent s tag from)
      ⊎ ((slot : Slot) × (v : Bytes) × (find s tag from ≡ some (slot, v))
          × IsFirst s tag from slot v)
  find-cases = find-outcome (position (λ field. field.tag == tag) here) refl

IsFirst-unique :
    {s : Scope} {tag : Tag} {from slot slot' : Slot} {v v' : Bytes}
    → IsFirst s tag from slot v
    → IsFirst s tag from slot' v'
    → slot ≡ slot'
IsFirst-unique {slot = a} {slot' = b} i j = elim (dec_lt a b) [
  | yes lt ↦ absurd (j.first a i.after lt i.tagged)
  | no ge ↦ elim (dec_lt b a) [
    | yes lt ↦ absurd (i.first b j.after lt j.tagged)
    | no le ↦ omega arith
  ]
]

-- On a scope within its message of fewer than 2^32 fields, and from a slot not past its end, find
-- returns a slot and value exactly when the slot is the first from there on with the tag and the
-- value is its value.
pub find-IsFirst :
    (s : Scope) (tag : Tag) (from slot : Slot) (v : Bytes)
    → IsScope s
    → from ≤ s.end
    → (find s tag from ≡ some (slot, v)) ↔ IsFirst s tag from slot v
find-IsFirst s tag from slot v is h = (
  (λ found. elim (find-cases s is tag from h) [
    | inl (missing, _) ↦ absurd (cc)
    | inr (a, w, e, f) ↦
        let same : (a, w) ≡ (slot, v) = some-injective (a, w) (slot, v) (sym e ∙ found) in
        subst (λ q. IsFirst s tag from q.0 q.1) same f
  ]),
  (λ i. elim (find-cases s is tag from h) [
    | inl (missing, absent) ↦ absurd (absent slot i.after i.before i.tagged)
    | inr (a, w, e, f) ↦
        let slots : a ≡ slot = IsFirst-unique f i in
        let values : w ≡ v = f.valued ∙ ap (value_at s) slots ∙ sym i.valued in cc
  ]),
)
