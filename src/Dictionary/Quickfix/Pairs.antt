-- ===== src/Dictionary/Quickfix/Pairs.antt =====
-- quickfix.rs, `collect_length_tags`: what one pair of neighbours adds to the map of length tags.
use refix.Base.{
  ◌≡◌, refl, ap, ◌∙◌, ◌⊎◌, inl, inr, true, false, not, ◌||◌, Option, none, some, List, ◌∷◌, arith,
  ◌==◌, if◌then◌else◌, Bool-cases, Option-cases, is_some,
}
use refix.Tags.{Tag}
use refix.Dictionary.Spec.{has_length_field, is_length, Field, FieldRef, Member, field}
use refix.Dictionary.Checks.{lookup_tag}
use refix.Dictionary.Quickfix.Lengths.{read_error, enter_length, link_pair}
use refix.Dictionary.Quickfix.Gives.{Gives, gives, refuses}
use refix.Base.Result.{ok, err}
use refix.Dictionary.Quickfix.Xml.{conflicting_length_fields}

-- A LENGTH field and the data field directly behind it.
pub data IsPair (known : List (Tag × Field)) (l d : Tag) : Member → Member → Type 0 where
  pair :
      (length_ref data_ref : FieldRef) (length_field data_field : Field)
      → l ≡ length_ref.tag
      → d ≡ data_ref.tag
      → lookup_tag length_ref.tag known ≡ some length_field
      → is_length length_field.data_type ≡ true
      → lookup_tag data_ref.tag known ≡ some data_field
      → has_length_field data_field.data_type ≡ true
      → IsPair known l d (field length_ref) (field data_ref)

-- From one map to another, the entries stay, and just the pairs of `Q` are entered.
pub record Links (known : List (Tag × Field)) (Q : Tag → Tag → Type 0)
    (before after : List (Tag × Tag)) : Type 0 where
  pub keeps : (d l : Tag) → lookup_tag d before ≡ some l → lookup_tag d after ≡ some l
  pub only : (d l : Tag) → lookup_tag d after ≡ some l → (lookup_tag d before ≡ some l) ⊎ Q l d
  pub all : (d l : Tag) → Q l d → lookup_tag d after ≡ some l
  pub known_lengths :
      (d l : Tag) → lookup_tag d after ≡ some l → is_some (lookup_tag l known) ≡ true

module _ (known : List (Tag × Field)) where
  abbrev pub HasKnownLengths : List (Tag × Tag) → Type 0
  HasKnownLengths before =
      (d l : Tag) → lookup_tag d before ≡ some l → is_some (lookup_tag l known) ≡ true

  pub Links-none :
      (Q : Tag → Tag → Type 0) (before : List (Tag × Tag))
      → ((l d : Tag) → Q l d → ⊥)
      → HasKnownLengths before
      → Links known Q before before
  Links-none Q before none_of h = record {
    keeps = λ d l e. e;
    only = λ d l e. inl e;
    all = λ d l q. absurd (none_of l d q);
    known_lengths = h;
  }

  pub Links-trans :
      (Q R : Tag → Tag → Type 0) (a b c : List (Tag × Tag))
      → Links known Q a b
      → Links known R b c
      → Links known (λ l d. Q l d ⊎ R l d) a c
  Links-trans Q R a b c f g = record {
    keeps = λ d l e. g.keeps d l (f.keeps d l e);
    only = λ d l e. elim (g.only d l e) [
      | inr r ↦ inr (inr r)
      | inl old ↦ elim (f.only d l old) [ inl older ↦ inl older | inr q ↦ inr (inl q) ]
    ];
    all = λ d l x. elim x [ inl q ↦ g.keeps d l (f.all d l q) | inr r ↦ g.all d l r ];
    known_lengths = g.known_lengths;
  }

  pub Links-map :
      (Q R : Tag → Tag → Type 0) (a b : List (Tag × Tag))
      → ((l d : Tag) → Q l d → R l d)
      → ((l d : Tag) → R l d → Q l d)
      → Links known Q a b
      → Links known R a b
  Links-map Q R a b to from f = record {
    keeps = f.keeps;
    only = λ d l e. elim (f.only d l e) [ inl old ↦ inl old | inr q ↦ inr (to l d q) ];
    all = λ d l r. f.all d l (from l d r);
    known_lengths = f.known_lengths;
  }

  IsPair-tags :
      (l d : Tag) (length_ref data_ref : FieldRef)
      → IsPair known l d (field length_ref) (field data_ref)
      → (l ≡ length_ref.tag) × (d ≡ data_ref.tag)
  IsPair-tags l d length_ref data_ref (pair _ _ _ _ el ed _ _ _ _) = (el, ed)

  module _ (before : List (Tag × Tag)) (length_ref data_ref : FieldRef)
      (length_field data_field : Field) (el : lookup_tag length_ref.tag known ≡ some length_field)
      (tl : is_length length_field.data_type ≡ true)
      (ed : lookup_tag data_ref.tag known ≡ some data_field)
      (td : has_length_field data_field.data_type ≡ true) (h : HasKnownLengths before) where
    abbrev ThisPair : Tag → Tag → Type 0
    ThisPair l d = IsPair known l d (field length_ref) (field data_ref)

    entered-Links :
        lookup_tag data_ref.tag before ≡ none
        → Links known ThisPair before ((data_ref.tag, length_ref.tag) ∷ before)
    unfolding lookup_tag
    entered-Links free = record {
      keeps = λ d l e. ground (arith, free, e);
      only = λ d l e. elim (Bool-cases (data_ref.tag == d)) [
        | inl here ↦
            let same : l ≡ length_ref.tag = ground (arith, here, e) in
            let at : d ≡ data_ref.tag = ground (arith, here) in
            inr (pair length_ref data_ref length_field data_field same at el tl ed td)
        | inr past ↦ inl (ground (arith, past, e))
      ];
      all = λ d l q.
          let (same, at) = IsPair-tags l d length_ref data_ref q in ground (arith, same, at);
      known_lengths = λ d l e. ground (arith, e, el, h d l);
    }

    same-Links :
        lookup_tag data_ref.tag before ≡ some length_ref.tag → Links known ThisPair before before
    same-Links there = record {
      keeps = λ d l e. e;
      only = λ d l e. inl e;
      all =
          λ d l q. let (same, at) = IsPair-tags l d length_ref data_ref q in rw at (rw same there);
      known_lengths = h;
    }

    enter_free :
        lookup_tag data_ref.tag before ≡ none
        → enter_length known before length_field length_ref.tag data_field data_ref.tag
          ≡ ok ((data_ref.tag, length_ref.tag) ∷ before)
    unfolding enter_length
    enter_free free = ground (arith, free)

    enter_again :
        (first : Tag)
        → lookup_tag data_ref.tag before ≡ some first
        → (first == length_ref.tag) ≡ true
        → enter_length known before length_field length_ref.tag data_field data_ref.tag ≡ ok before
    unfolding enter_length
    enter_again first taken same = ground (arith, taken, same)

    enter_other :
        (first : Tag) (f : Field)
        → lookup_tag data_ref.tag before ≡ some first
        → (first == length_ref.tag) ≡ false
        → lookup_tag first known ≡ some f
        → enter_length known before length_field length_ref.tag data_field data_ref.tag
          ≡ err (read_error (conflicting_length_fields data_field.name f.name length_field.name))
    unfolding enter_length
    enter_other first f taken other found = ground (arith, taken, other, found)

    enter_length-Gives :
        Gives
          (Links known ThisPair before)
          (enter_length known before length_field length_ref.tag data_field data_ref.tag)
    enter_length-Gives = elim (Option-cases (lookup_tag data_ref.tag before)) [
      | inl free ↦ rw (enter_free free) (gives (entered-Links free))
      | inr (first, taken) ↦ elim (Bool-cases (first == length_ref.tag)) [
        | inl same ↦
            let e : first ≡ length_ref.tag = ground (arith, same) in
            rw (enter_again first taken same) (gives (same-Links (taken ∙ ap some e)))
        | inr other ↦ elim (Option-cases (lookup_tag first known)) [
          | inl missing ↦ absurd (ground (arith, missing, h data_ref.tag first taken))
          | inr (f, found) ↦ rw (enter_other first f taken other found) (refuses _)
        ]
      ]
    ]

  is_some-Option : {A : Type 0} (o : Option A) → is_some o ≡ true → (a : A) × (o ≡ some a)
  is_some-Option none e = cc
  is_some-Option (some a) e = (a, refl)

  not_pair_of_type :
      (length_ref data_ref : FieldRef) (length_field data_field : Field) (l d : Tag)
      → lookup_tag length_ref.tag known ≡ some length_field
      → lookup_tag data_ref.tag known ≡ some data_field
      → (not (is_length length_field.data_type) || not (has_length_field data_field.data_type))
        ≡ true
      → IsPair known l d (field length_ref) (field data_ref)
      → ⊥
  not_pair_of_type length_ref data_ref length_field data_field l d el ed other
        (pair _ _ lf df _ _ fl tl fd td) =
      let same_length : lf ≡ length_field = cc in
      let same_data : df ≡ data_field = cc in
      let tl' : is_length length_field.data_type ≡ true = rw (← same_length) tl in
      let td' : has_length_field data_field.data_type ≡ true = rw (← same_data) td in
      absurd (ground (arith, other, tl', td'))

  link_fields_lem :
      (before : List (Tag × Tag)) (length_ref data_ref : FieldRef) (lf df : Field)
      → lookup_tag length_ref.tag known ≡ some lf
      → lookup_tag data_ref.tag known ≡ some df
      → link_pair known (field length_ref) (field data_ref) before ≡ (
          if not (is_length lf.data_type) || not (has_length_field df.data_type)
          then ok before
          else enter_length known before lf length_ref.tag df data_ref.tag)
  unfolding link_pair
  link_fields_lem before length_ref data_ref lf df el ed = ground (arith, el, ed)

  pub link_fields-Gives :
      (before : List (Tag × Tag)) (length_ref data_ref : FieldRef)
      → is_some (lookup_tag length_ref.tag known) ≡ true
      → is_some (lookup_tag data_ref.tag known) ≡ true
      → HasKnownLengths before
      → Gives
          (Links known (λ l d. IsPair known l d (field length_ref) (field data_ref)) before)
          (link_pair known (field length_ref) (field data_ref) before)
  link_fields-Gives before length_ref data_ref kl kd h =
      let (lf, el) = is_some-Option (lookup_tag length_ref.tag known) kl in
      let (df, ed) = is_some-Option (lookup_tag data_ref.tag known) kd in
      rw (link_fields_lem before length_ref data_ref lf df el ed)
        (elim (Bool-cases (not (is_length lf.data_type) || not (has_length_field df.data_type))) [
          | inl other ↦ rw other (
              gives (
                Links-none _ before
                  (λ l d. not_pair_of_type length_ref data_ref lf df l d el ed other) h))
          | inr both ↦ rw both (
              enter_length-Gives before length_ref data_ref lf df el (ground (arith, both)) ed
                (ground (arith, both)) h)
        ])
