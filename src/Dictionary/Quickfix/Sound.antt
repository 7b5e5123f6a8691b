-- ===== src/Dictionary/Quickfix/Sound.antt =====
-- quickfix.rs: the reader returns, and what it returns.
use refix.Base.{
  ℕ, zero, suc, ◌≡◌, refl, sym, ap, ◌∙◌, subst, ◌≢◌, inl, inr, Option, some, List, [], ◌∷◌, arith,
  Option-cases, length, get_elem?, Bytes,
}
use refix.Tags.{Tag, malformed}
use refix.Dictionary.Spec.{Field, Members, Spec}
use refix.Dictionary.Checks.{lookup_tag}
use refix.Dictionary.Quickfix.Lengths.{by_tag, collect_all, with_lengths, link_length_fields}
use refix.Dictionary.Quickfix.Gives.{Gives, gives, refuses, Gives-bind, Gives-lift}
use refix.Dictionary.Quickfix.Known.{AllKnown, read_sections-AllKnown}
use refix.Dictionary.Quickfix.Linked.{Follows, collect_all-Gives}
use refix.Base.Result.{Result, ok, err}
use refix.Dictionary.Resolver.{Stop, Dictionary}
use refix.Dictionary.Resolver.Ends.{Ends, ends, fails}
use refix.Dictionary.Resolver.Sound.{IsSound, resolve-Ends}
use refix.Dictionary.Quickfix.Xml.{Node, xml, invalid}
use refix.Dictionary.Quickfix.Parse.{
  Parsed, resolved, Sections, read_sections, lists_of, spec_of, parse,
}

-- The field `g` is `f` with the tag of the LENGTH field that `f` directly follows in one of the
-- lists, if it follows one.
pub record IsLinkedField (known : List (Tag × Field)) (lists : List Members) (f g : Field)
    : Type 0 where
  pub same : g ≡ record f { length_tag = g.length_tag }
  pub sound : (l : Tag) → g.length_tag ≡ some l → Follows known l f.tag lists
  pub complete : (l : Tag) → Follows known l f.tag lists → g.length_tag ≡ some l

pub record IsLinked (fields : List Field) (lists : List Members) (linked : List Field)
    : Type 0 where
  pub one_for_each : length linked ≡ length fields
  pub each :
      (i : ℕ) (f g : Field)
      → get_elem? fields i ≡ some f
      → get_elem? linked i ≡ some g
      → IsLinkedField (by_tag [] fields) lists f g

length-with_lengths :
    (length_tags : List (Tag × Tag)) (fields : List Field)
    → length (with_lengths length_tags fields) ≡ length fields
unfolding with_lengths
length-with_lengths length_tags [] = refl
length-with_lengths length_tags (f ∷ fields) = omega (arith, length-with_lengths length_tags fields)

get_elem?-with_lengths :
    (length_tags : List (Tag × Tag)) (fields : List Field) (i : ℕ) (f g : Field)
    → get_elem? fields i ≡ some f
    → get_elem? (with_lengths length_tags fields) i ≡ some g
    → g ≡ record f { length_tag = lookup_tag f.tag length_tags }
unfolding with_lengths
get_elem?-with_lengths length_tags [] i f g e k = cc
get_elem?-with_lengths length_tags (x ∷ fields) zero f g e k =
    let same : x ≡ f = cc in
    subst (λ y. g ≡ record y { length_tag = lookup_tag y.tag length_tags }) same (ground (arith, k))
get_elem?-with_lengths length_tags (x ∷ fields) (suc i) f g e k =
    get_elem?-with_lengths length_tags fields i f g e k

none_before : (d l : Tag) → lookup_tag {A = Tag} d [] ≢ some l
unfolding lookup_tag
none_before d l e = cc

link_length_fields-IsLinked :
    (fields : List Field) (lists : List Members)
    → AllKnown (by_tag [] fields) lists
    → Gives (IsLinked fields lists) (link_length_fields fields lists)
unfolding link_length_fields
link_length_fields-IsLinked fields lists k =
    let known = by_tag [] fields in
    Gives-bind (collect_all known lists []) _
      (collect_all-Gives known lists [] k (λ d l e. absurd (none_before d l e)))
      (λ length_tags f. gives (record {
        one_for_each = length-with_lengths length_tags fields;
        each = λ i x g e there.
            let linked = get_elem?-with_lengths length_tags fields i x g e there in
            let tag : g.length_tag ≡ lookup_tag x.tag length_tags = ap (λ y. y.length_tag) linked in
            record {
              same = linked ∙ ap (λ t. record x { length_tag = t }) (sym tag);
              sound = λ l h. elim (f.only x.tag l (sym tag ∙ h)) [
                | inl before ↦ absurd (none_before x.tag l before)
                | inr follows ↦ follows
              ];
              complete = λ l h. tag ∙ f.all x.tag l h;
            };
      }))

-- What `parse` returns on the root of a document.
pub record IsParsed (document : Bytes → Option Node) (text : Bytes) (p : Parsed) : Type 0 where
  pub root : Node
  pub sections : Sections
  pub is_document : document text ≡ some root
  pub are_read : read_sections root ≡ ok sections
  pub linked : IsLinked sections.fields (lists_of sections) p.dictionary.spec.fields
  pub is_spec : p.dictionary.spec ≡ spec_of sections p.dictionary.spec.fields
  pub is_sound : IsSound p.dictionary.spec p.dictionary
  pub same_warnings : p.warnings ≡ sections.warnings

resolved-Gives :
    (spec : Spec) (r : Result Stop Dictionary)
    → Ends (IsSound spec) r
    → Gives (IsSound spec) (resolved r)
resolved-Gives spec (ok d) (ends h) = gives h
resolved-Gives spec (err _) (fails e) = refuses (invalid e)

document-IsParsed :
    (document : Bytes → Option Node) (text : Bytes) (root : Node) (s : Sections)
    (fields : List Field) (d : Dictionary)
    → document text ≡ some root
    → read_sections root ≡ ok s
    → IsLinked s.fields (lists_of s) fields
    → IsSound (spec_of s fields) d
    → IsParsed document text (record { dictionary = d; warnings = s.warnings })
document-IsParsed document text root s fields d is_document are_read linked sound =
    let same : d.spec ≡ spec_of s fields = sound.same_spec in
    let same_fields : d.spec.fields ≡ fields = ap (λ x. x.fields) same in
    record {
      root = root;
      sections = s;
      is_document = is_document;
      are_read = are_read;
      linked = rw same_fields linked;
      is_spec = same ∙ ap (spec_of s) (sym same_fields);
      is_sound = subst (λ x. IsSound x d) (sym same) sound;
      same_warnings = refl;
    }

-- For every text and every document that the XML parser may make of it, parse gives a dictionary
-- or one of its errors: no index of a map panics. A dictionary it gives is sound as Spec::resolve
-- promises, and is resolved from what the sections of the document declare, where each field has
-- the tag of the LENGTH field that it directly follows, as a data field, in the header, the
-- trailer, a message, a component or a group in these, and no length tag if it follows none.
pub parse-IsParsed :
    (document : Bytes → Option Node) (text : Bytes)
    → Gives (IsParsed document text) (parse document text)
unfolding parse
parse-IsParsed document text = elim (Option-cases (document text)) [
  | inl malformed ↦ rw (malformed, parse) (refuses xml)
  | inr (root, is_document) ↦
      rw (is_document, parse)
        (Gives-bind _ _
          (Gives-lift {P = λ s. read_sections root ≡ ok s} (read_sections root) (λ s e. e))
          (λ s are_read.
            Gives-bind _ _
              (link_length_fields-IsLinked s.fields (lists_of s)
                (read_sections-AllKnown root s are_read))
              (λ fields linked.
                Gives-bind _ _
                  (resolved-Gives (spec_of s fields) _ (resolve-Ends (spec_of s fields)))
                  (λ d sound. gives (
                    document-IsParsed document text root s fields d is_document are_read linked
                      sound)))))
]
