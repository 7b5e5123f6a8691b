-- ===== src/Dictionary/Quickfix/Codes.antt =====
-- quickfix.rs, `drop_repeated_codes`: the codes of the fields that are read.
use refix.Base.{
  ◌≡◌, refl, sym, ap, ◌∙◌, subst, inl, inr, Option, none, some, List, [], ◌∷◌, ◌++◌, append-nil,
  append_assoc, arith, Bool-cases, Option-cases, is_some, Bytes, equal,
}
use refix.Base.Digits.{u32_max}
use refix.Base.Text.{codes}
use refix.Base.Result.{ok, err, bind-eq-ok}
use refix.Dictionary.Spec.{Name, DataType, canonical_code, EnumValue, Field, Members, MemberContext}
use refix.Dictionary.Checks.{repeated_code, lookup, lookup_tag, check_codes, check_unique_codes}
use refix.Dictionary.Resolver.Valid.{ok-injective}
use refix.Dictionary.Quickfix.Lengths.{by_tag, collect_all, with_lengths, link_length_fields}
use refix.Dictionary.Quickfix.Parse.{by_name, Sections, read_sections}
use refix.Dictionary.Quickfix.Xml.{
  Node, Warning, repeated_value, has_tag_name, children, find_child, children_named,
  string_attribute, int_attribute, parse_version,
}
use refix.Dictionary.Quickfix.Fields.{
  parse_data_type, drop_from, drop_repeated_codes, parse_values, finish_field, parse_field,
  parse_field_list, check_names, parse_fields,
}
use refix.Tags.{Tag}
use refix.Dictionary.Quickfix.Members.{parse_section, parse_components, parse_messages}

-- The values that are kept behind those in the map.
keep : DataType → List (Bytes × EnumValue) → List EnumValue → List EnumValue
keep d by_code [] = []
keep d by_code (v ∷ values) =
    let code = canonical_code d v.value in
    let kept = v ∷ keep d ((code, v) ∷ by_code) values in
    let dropped = keep d by_code values in
    elim (lookup code by_code) [ some _ ↦ dropped | none ↦ kept ]

drop_from-keep :
    (name : Name) (d : DataType) (by_code : List (Bytes × EnumValue)) (kept values : List EnumValue)
    (warnings : List Warning)
    → (drop_from name d by_code kept values warnings).0 ≡ kept ++ keep d by_code values
unfolding drop_from keep
drop_from-keep name d by_code kept [] warnings = sym (append-nil kept)
drop_from-keep name d by_code kept (v ∷ values) warnings =
    let code = canonical_code d v.value in
    elim (Option-cases (lookup code by_code)) [
      | inr (first, e) ↦
          rw (e, drop_from, keep)
            (drop_from-keep name d by_code kept values
              (warnings ++ repeated_value name first v ∷ []))
      | inl e ↦
          rw (e, drop_from, keep)
            (drop_from-keep name d ((code, v) ∷ by_code) (kept ++ v ∷ []) values warnings
              ∙ append_assoc kept (v ∷ []) (keep d ((code, v) ∷ by_code) values))
    ]

-- Two maps have the same keys.
abbrev SameKeys : {A B : Type 0} → List (Bytes × A) → List (Bytes × B) → Type 0
SameKeys xs ys = (key : Bytes) → is_some (lookup key xs) ≡ is_some (lookup key ys)

SameKeys-cons :
    {A B : Type 0} (key : Bytes) (a : A) (b : B) (xs : List (Bytes × A)) (ys : List (Bytes × B))
    → SameKeys xs ys
    → SameKeys ((key, a) ∷ xs) ((key, b) ∷ ys)
unfolding lookup
SameKeys-cons key a b xs ys h other = elim (Bool-cases (equal key other)) [
  | inl e ↦ rw e refl
  | inr e ↦ rw e (h other)
]

check_codes-keep :
    (f : Field) (codes : List (Bytes × Bytes)) (by_code : List (Bytes × EnumValue))
    (values : List EnumValue)
    → SameKeys codes by_code
    → check_codes f codes (keep f.data_type by_code values) ≡ ok tt
unfolding keep check_codes
check_codes-keep f codes by_code [] same = refl
check_codes-keep f codes by_code (v ∷ values) same =
    let code = canonical_code f.data_type v.value in
    elim (Option-cases (lookup code by_code)) [
      | inr (first, e) ↦ rw (e, keep) (check_codes-keep f codes by_code values same)
      | inl e ↦
          let free : lookup code codes ≡ none = ground (arith, e, same code) in
          rw (e, keep)
            (rw (free, check_codes)
              (check_codes-keep f ((code, v.value) ∷ codes) ((code, v) ∷ by_code) values
                (SameKeys-cons code v.value v codes by_code same)))
    ]

drop_repeated_codes-check_codes :
    (f : Field) (values : List EnumValue) (warnings : List Warning)
    → f.values ≡ (drop_repeated_codes f.name f.data_type values warnings).0
    → check_codes f [] f.values ≡ ok tt
unfolding drop_repeated_codes
drop_repeated_codes-check_codes f values warnings e =
    subst (λ xs. check_codes f [] xs ≡ ok tt)
      (sym (e ∙ drop_from-keep f.name f.data_type [] [] values warnings))
      (check_codes-keep f [] [] values (unfold lookup in λ key. refl))

finished_field-check_codes :
    (name : Name) (tag : Tag) (d : DataType) (values : List EnumValue) (warnings : List Warning)
    → let f = (finish_field name tag d (drop_repeated_codes name d values warnings)).0 in
      check_codes f [] f.values ≡ ok tt
finished_field-check_codes name tag d values warnings =
    drop_repeated_codes-check_codes
      (finish_field name tag d (drop_repeated_codes name d values warnings)).0 values warnings refl

parse_field-check_codes :
    (node : Node) (warnings : List Warning) (r : Field × List Warning)
    → parse_field node warnings ≡ ok r
    → check_codes r.0 [] r.0.values ≡ ok tt
unfolding parse_field
parse_field-check_codes node warnings r e =
    let (name, _, e1) = bind-eq-ok (string_attribute node (codes "name")) _ e in
    let (values, _, e2) =
      bind-eq-ok (parse_values (children_named (codes "value") (children node))) _ e1 in
    let (tag, _, e3) = bind-eq-ok (int_attribute u32_max node (codes "number")) _ e2 in
    let (d, _, made) = bind-eq-ok (string_attribute node (codes "type")) _ e3 in
    subst (λ (x : Field × List Warning). check_codes x.0 [] x.0.values ≡ ok tt)
      (ok-injective _ r made)
      (finished_field-check_codes name tag (parse_data_type d) values warnings)

parse_field_list-check_unique_codes :
    (nodes : List Node) (warnings : List Warning) (r : List Field × List Warning)
    → parse_field_list nodes warnings ≡ ok r
    → check_unique_codes r.0 ≡ ok tt
unfolding parse_field_list check_unique_codes
parse_field_list-check_unique_codes [] warnings r e =
    let same : [] ≡ r.0 = ground (arith, e) in subst (λ xs. check_unique_codes xs ≡ ok tt) same refl
parse_field_list-check_unique_codes (n ∷ nodes) warnings r e =
    let (a, first, later) = bind-eq-ok (parse_field n warnings) _ e in
    let (q, rest, made) = bind-eq-ok (parse_field_list nodes a.1) _ later in
    let same : a.0 ∷ q.0 ≡ r.0 = ground (arith, made) in
    subst (λ xs. check_unique_codes xs ≡ ok tt) same
      (rw (parse_field-check_codes n warnings a first)
        (parse_field_list-check_unique_codes nodes a.1 q rest))

parse_fields-check_unique_codes :
    (root : Node) (warnings : List Warning) (r : List Field × List Warning)
    → parse_fields root warnings ≡ ok r
    → check_unique_codes r.0 ≡ ok tt
unfolding parse_fields
parse_fields-check_unique_codes root warnings r e =
    elim (Option-cases (find_child (codes "fields") (children root))) [
      | inl absent ↦
          let same : [] ≡ r.0 = ground (arith, absent, e) in
          subst (λ xs. check_unique_codes xs ≡ ok tt) same (unfold check_unique_codes in refl)
      | inr (section, there) ↦
          let (q, fields, later) =
            bind-eq-ok
              (parse_field_list (children_named (codes "field") (children section)) warnings) _
              (rw (there, parse_fields) at e) in
          let (_, _, made) = bind-eq-ok (check_names [] q.0) _ later in
          subst (λ (x : List Field × List Warning). check_unique_codes x.0 ≡ ok tt)
            (ok-injective _ r made)
            (parse_field_list-check_unique_codes (children_named (codes "field") (children section))
              warnings q fields)
    ]

-- The length tags of fields do not matter for their codes.
check_codes_same :
    (f : Field) (length_tag : Option Tag) (seen : List (Bytes × Bytes)) (values : List EnumValue)
    → check_codes (record f { length_tag = length_tag }) seen values ≡ check_codes f seen values
unfolding check_codes
check_codes_same f length_tag seen [] = refl
check_codes_same f length_tag seen (v ∷ values) =
    let code = canonical_code f.data_type v.value in
    ap
      (λ x. elim (lookup code seen) [
        | some first ↦ err (repeated_code f.name first v.value)
        | none ↦ x
      ])
      (check_codes_same f length_tag ((code, v.value) ∷ seen) values)

check_unique_codes-with_lengths :
    (length_tags : List (Tag × Tag)) (fields : List Field)
    → check_unique_codes (with_lengths length_tags fields) ≡ check_unique_codes fields
unfolding check_unique_codes with_lengths
check_unique_codes-with_lengths length_tags [] = refl
check_unique_codes-with_lengths length_tags (f ∷ fields) =
    rw (check_codes_same f (lookup_tag f.tag length_tags) [] f.values)
      (rw (check_unique_codes-with_lengths length_tags fields) refl)

read_sections-fields :
    (root : Node) (s : Sections)
    → read_sections root ≡ ok s
    → (r : List Field × List Warning) × (parse_fields root [] ≡ ok r) × (r.0 ≡ s.fields)
unfolding read_sections
read_sections-fields root s e = elim (Bool-cases (has_tag_name (codes "fix") root)) [
  | inr other ↦ absurd (ground (arith, other, e))
  | inl is_fix ↦
      let (version, _, e1) = bind-eq-ok (parse_version root) _ (rw is_fix at e) in
      let (fields, parsed, e2) = bind-eq-ok (parse_fields root []) _ e1 in
      let names = by_name [] fields.0 in
      let (head, _, e3) =
        bind-eq-ok (parse_section root (codes "header") MemberContext.header names fields.1) _ e2 in
      let (components, _, e4) = bind-eq-ok (parse_components root names head.1) _ e3 in
      let (messages, _, e5) = bind-eq-ok (parse_messages root names components.1) _ e4 in
      let (tail, _, e6) =
        bind-eq-ok (parse_section root (codes "trailer") MemberContext.trailer names messages.1) _
          e5 in
      (fields, parsed, ap (λ x. x.fields) (ok-injective _ s e6))
]

-- The fields that are read from a document and linked to their length fields pass the resolver's
-- check_unique_codes: drop_repeated_codes leaves no field two values under one code.
pub read_sections-check_unique_codes :
    (root : Node) (s : Sections) (lists : List Members) (fields : List Field)
    → read_sections root ≡ ok s
    → link_length_fields s.fields lists ≡ ok fields
    → check_unique_codes fields ≡ ok tt
unfolding link_length_fields
read_sections-check_unique_codes root s lists fields e linked =
    let (r, parsed, same) = read_sections-fields root s e in
    let (length_tags, _, made) = bind-eq-ok (collect_all (by_tag [] s.fields) lists []) _ linked in
    subst (λ xs. check_unique_codes xs ≡ ok tt) (ok-injective _ fields made)
      (check_unique_codes-with_lengths length_tags s.fields
        ∙ ap check_unique_codes (sym same)
        ∙ parse_fields-check_unique_codes root [] r parsed)
