-- ===== src/Dictionary/Quickfix/Known.antt =====
-- quickfix.rs: the fields that the members refer to.
use refix.Base.{
  ◌≡◌, refl, subst, inl, inr, Bool, true, Option, none, some, List, [], ◌∷◌, ◌++◌, map, arith,
  Bool-cases, Option-cases, is_some, equal,
}
use refix.Base.Text.{codes}
use refix.Base.Result.{Result, ok, err, bind-eq-ok}
use refix.Dictionary.Resolver.Valid.{ok-injective}
use refix.Tags.{Tag}
use refix.Dictionary.Spec.{
  Name, Field, FieldRef, Member, field, component, group, Members, no_members, and_member, Message,
  Component, MemberContext,
}
use refix.Dictionary.Checks.{lookup, lookup_tag}
use refix.Dictionary.Quickfix.Xml.{
  Node, element, other_node, Nodes, no_nodes, and_node, ReadError, Warning, unsupported_element,
  has_tag_name, children, find_child, children_named, string_attribute, parse_category,
  parse_version,
}
use refix.Dictionary.Quickfix.Members.{
  TagsByName, ref_of, parse_field_ref, parse_component_ref, in_front, parse_members, parse_section,
  parse_component, parse_message, parse_each, parse_items, parse_components, parse_messages,
}
use refix.Dictionary.Quickfix.Lengths.{by_tag, member_lists}
use refix.Dictionary.Quickfix.Parse.{by_name, Sections, read_sections, lists_of}
use refix.Dictionary.Tags.{group_context}
use refix.Dictionary.Quickfix.Fields.{parse_fields}

-- The fields that members and the members of their groups refer to are in the map.
abbrev pub AreKnown : List (Tag × Field) → Members → Type 0
AreKnown fields no_members = Unit {0}
AreKnown fields (and_member (field f) members) =
    (is_some (lookup_tag f.tag fields) ≡ true) × AreKnown fields members
AreKnown fields (and_member (component c) members) = AreKnown fields members
AreKnown fields (and_member (group tag required inner) members) =
    AreKnown fields inner × AreKnown fields members

abbrev pub AllKnown : List (Tag × Field) → List Members → Type 0
AllKnown fields [] = Unit {0}
AllKnown fields (members ∷ lists) = AreKnown fields members × AllKnown fields lists

-- The tags that a map of names leads to are in the map of fields.
abbrev pub LeadsTo : TagsByName → List (Tag × Field) → Type 0
LeadsTo names fields =
    (name : Name) (tag : Tag)
    → lookup name names ≡ some tag
    → is_some (lookup_tag tag fields) ≡ true

pub by_name-LeadsTo :
    (names : TagsByName) (found : List (Tag × Field)) (fields : List Field)
    → LeadsTo names found
    → LeadsTo (by_name names fields) (by_tag found fields)
unfolding by_name by_tag
by_name-LeadsTo names found [] h = h
by_name-LeadsTo names found (f ∷ fields) h =
    by_name-LeadsTo ((f.name, f.tag) ∷ names) ((f.tag, f) ∷ found) fields
      (unfold lookup lookup_tag in λ name tag e. ground (arith, h name tag, e))

module _ (names : TagsByName) (fields : List (Tag × Field)) (leads : LeadsTo names fields) where
  ref_of-known :
      (context : MemberContext) (name : Name) (found : Option Tag)
      (required : Result ReadError Bool) (r : FieldRef)
      → ref_of context name found required ≡ ok r
      → found ≡ some r.tag
  ref_of-known context name none required r e = cc
  ref_of-known context name (some tag) required r e =
      let (b, _, made) = bind-eq-ok required _ e in ground (arith, made)

  parse_field_ref-known :
      (node : Node) (context : MemberContext) (r : FieldRef)
      → parse_field_ref node context names ≡ ok r
      → is_some (lookup_tag r.tag fields) ≡ true
  unfolding parse_field_ref
  parse_field_ref-known node context r e =
      let (name, _, f) = bind-eq-ok (string_attribute node (codes "name")) _ e in
      leads name r.tag (ref_of-known context name (lookup name names) _ r f)

  in_front-ok :
      (m : Member) (later : Result ReadError (Members × List Warning)) (r : Members × List Warning)
      → in_front m later ≡ ok r
      → (q : Members × List Warning) × (later ≡ ok q) × (r.0 ≡ and_member m q.0)
  in_front-ok m (ok q) r e = (q, refl, ground (arith, e))
  in_front-ok m (err _) r e = cc

  pub parse_members-AreKnown :
      (context : MemberContext) (nodes : Nodes) (warnings : List Warning)
      (r : Members × List Warning)
      → parse_members context names nodes warnings ≡ ok r
      → AreKnown fields r.0
  unfolding parse_members
  parse_members-AreKnown context no_nodes warnings r e =
      let same : no_members ≡ r.0 = ground (arith, e) in subst (AreKnown fields) same tt
  parse_members-AreKnown context (and_node other_node nodes) warnings r e =
      parse_members-AreKnown context nodes warnings r e
  parse_members-AreKnown context (and_node (element tag attributes inner) nodes) warnings r e =
      let child = element tag attributes inner in
      elim (Bool-cases (equal tag (codes "field"))) [
        | inl is_field ↦
            let (f, known, later) =
              bind-eq-ok (parse_field_ref child context names) _ (rw is_field at e) in
            let (q, behind, same) = in_front-ok (field f) _ r later in
            rw same (
              parse_field_ref-known child context f known,
              parse_members-AreKnown context nodes warnings q behind,
            )
        | inr no_field ↦ elim (Bool-cases (equal tag (codes "component"))) [
          | inl is_component ↦
              let (c, _, later) =
                bind-eq-ok (parse_component_ref child) _ (rw (no_field, is_component) at e) in
              let (q, behind, same) = in_front-ok (component c) _ r later in
              rw same (parse_members-AreKnown context nodes warnings q behind)
          | inr no_component ↦ elim (Bool-cases (equal tag (codes "group"))) [
            | inl is_group ↦
                let (count, _, named) =
                  bind-eq-ok (parse_field_ref child context names) _
                    (rw (no_field, no_component, is_group) at e) in
                let (name, _, entered) =
                  bind-eq-ok (string_attribute child (codes "name")) _ named in
                let (i, inside, later) =
                  bind-eq-ok (parse_members (group_context context name) names inner warnings) _
                    entered in
                let (q, behind, same) =
                  in_front-ok (group count.tag count.is_required i.0) _ r later in
                rw same (
                  parse_members-AreKnown (group_context context name) inner warnings i inside,
                  parse_members-AreKnown context nodes i.1 q behind,
                )
            | inr other ↦
                parse_members-AreKnown context nodes
                  (warnings ++ unsupported_element context tag ∷ []) r
                  (rw (no_field, no_component, other) at e)
          ]
        ]
      ]

  parse_section-AreKnown :
      (root : Node) (name : Name) (context : MemberContext) (warnings : List Warning)
      (r : Members × List Warning)
      → parse_section root name context names warnings ≡ ok r
      → AreKnown fields r.0
  unfolding parse_section
  parse_section-AreKnown root name context warnings r e =
      elim (Option-cases (find_child name (children root))) [
        | inl absent ↦
            let same : no_members ≡ r.0 = ground (arith, absent, e) in
            subst (AreKnown fields) same tt
        | inr (section, there) ↦
            parse_members-AreKnown context (children section) warnings r
              (rw (there, parse_section) at e)
      ]

  -- What is parsed of each node has its members known.
  parse_each-AllKnown :
      {A : Type 0} (parse : Node → List Warning → Result ReadError (A × List Warning))
      (members : A → Members)
      → ((n : Node) (w : List Warning) (a : A × List Warning)
          → parse n w ≡ ok a
          → AreKnown fields (members a.0))
      → (nodes : List Node) (w : List Warning) (r : List A × List Warning)
      → parse_each parse nodes w ≡ ok r
      → AllKnown fields (map members r.0)
  unfolding parse_each
  parse_each-AllKnown parse members known [] w r e =
      let same : [] ≡ r.0 = ground (arith, e) in
      subst (λ xs. AllKnown fields (map members xs)) same tt
  parse_each-AllKnown parse members known (n ∷ nodes) w r e =
      let (a, first, later) = bind-eq-ok (parse n w) _ e in
      let (q, rest, made) = bind-eq-ok (parse_each parse nodes a.1) _ later in
      let same : a.0 ∷ q.0 ≡ r.0 = ground (arith, made) in
      subst (λ xs. AllKnown fields (map members xs)) same
        (known n w a first, parse_each-AllKnown parse members known nodes a.1 q rest)

  parse_items-AllKnown :
      {A : Type 0} (parse : Node → List Warning → Result ReadError (A × List Warning))
      (members : A → Members)
      → ((n : Node) (w : List Warning) (a : A × List Warning)
          → parse n w ≡ ok a
          → AreKnown fields (members a.0))
      → (name item : Name) (root : Node) (w : List Warning) (r : List A × List Warning)
      → parse_items parse name item root w ≡ ok r
      → AllKnown fields (map members r.0)
  unfolding parse_items
  parse_items-AllKnown parse members known name item root w r e =
      elim (Option-cases (find_child name (children root))) [
        | inl absent ↦
            let same : [] ≡ r.0 = ground (arith, absent, e) in
            subst (λ xs. AllKnown fields (map members xs)) same tt
        | inr (section, there) ↦
            parse_each-AllKnown parse members known (children_named item (children section)) w r
              (rw (there, parse_items) at e)
      ]

  parse_component-AreKnown :
      (n : Node) (w : List Warning) (a : Component × List Warning)
      → parse_component names n w ≡ ok a
      → AreKnown fields a.0.members
  unfolding parse_component
  parse_component-AreKnown n w a e =
      let (name, _, f) = bind-eq-ok (string_attribute n (codes "name")) _ e in
      let (r, got, made) =
        bind-eq-ok (parse_members (MemberContext.component name) names (children n) w) _ f in
      let same : r.0 ≡ a.0.members = ground (arith, made) in
      subst (AreKnown fields) same
        (parse_members-AreKnown (MemberContext.component name) (children n) w r got)

  parse_message-AreKnown :
      (n : Node) (w : List Warning) (a : Message × List Warning)
      → parse_message names n w ≡ ok a
      → AreKnown fields a.0.members
  unfolding parse_message
  parse_message-AreKnown n w a e =
      let (name, _, f) = bind-eq-ok (string_attribute n (codes "name")) _ e in
      let (category, _, g) = bind-eq-ok (parse_category n) _ f in
      let (r, got, h) =
        bind-eq-ok (parse_members (MemberContext.message name) names (children n) w) _ g in
      let (msg_type, _, made) = bind-eq-ok (string_attribute n (codes "msgtype")) _ h in
      let same : r.0 ≡ a.0.members = ground (arith, made) in
      subst (AreKnown fields) same
        (parse_members-AreKnown (MemberContext.message name) (children n) w r got)

AllKnown-append :
    (fields : List (Tag × Field)) (xs ys : List Members)
    → AllKnown fields xs
    → AllKnown fields ys
    → AllKnown fields (xs ++ ys)
AllKnown-append fields [] ys h k = k
AllKnown-append fields (x ∷ xs) ys h k = (h.0, AllKnown-append fields xs ys h.1 k)

-- All that the sections declare refers to their fields.
pub read_sections-AllKnown :
    (root : Node) (s : Sections)
    → read_sections root ≡ ok s
    → AllKnown (by_tag [] s.fields) (lists_of s)
unfolding read_sections member_lists
read_sections-AllKnown root s e = elim (Bool-cases (has_tag_name (codes "fix") root)) [
  | inr other ↦ absurd (ground (arith, other, e))
  | inl is_fix ↦
      let (version, _, e1) = bind-eq-ok (parse_version root) _ (rw is_fix at e) in
      let (fields, _, e2) = bind-eq-ok (parse_fields root []) _ e1 in
      let names = by_name [] fields.0 in
      let known = by_tag [] fields.0 in
      let leads = by_name-LeadsTo [] [] fields.0 (unfold lookup in λ name tag k. cc) in
      let (head, h, e3) =
        bind-eq-ok (parse_section root (codes "header") MemberContext.header names fields.1) _ e2 in
      let (components, c, e4) = bind-eq-ok (parse_components root names head.1) _ e3 in
      let (messages, m, e5) = bind-eq-ok (parse_messages root names components.1) _ e4 in
      let (tail, t, e6) =
        bind-eq-ok (parse_section root (codes "trailer") MemberContext.trailer names messages.1) _
          e5 in
      subst (λ x. AllKnown (by_tag [] x.fields) (lists_of x)) (ok-injective _ s e6)
        (
          parse_section-AreKnown names known leads root _ _ _ head h,
          (
            parse_section-AreKnown names known leads root _ _ _ tail t,
            AllKnown-append known _ _
                (parse_items-AllKnown names known leads (parse_message names) (λ x. x.members)
                  (parse_message-AreKnown names known leads) _ _ root _ messages m)
                (parse_items-AllKnown names known leads (parse_component names) (λ x. x.members)
                  (parse_component-AreKnown names known leads) _ _ root _ components c),
          ),
        )
]
