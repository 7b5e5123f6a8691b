-- ===== src/Dictionary/Resolver/Sections.antt =====
-- resolver.rs, `resolve_message`: the tags of header, message and trailer.
use refix.Base.{◌≤◌, ◌≡◌, refl, true, List, [], ◌∷◌, ◌++◌, arith}
use refix.Base.Result.{Result, ok, err}
use refix.Tags.{Tag, contains}
use refix.Tags.Counts.{count, IsDistinct}
use refix.Dictionary.Spec.{Field, MemberContext}
use refix.Dictionary.Checks.{Error}
use refix.Dictionary.Tags.{ResolvedMembers}
use refix.Dictionary.Tags.Unique.{
  all_tags, keys, all_new, Inserts, inserted, repeated, Inserts-append, insert_unique_tags-Inserts,
}
use refix.Dictionary.Resolver.{check_sections}

all_new-count :
    (seen tags : List Tag) (tag : Tag)
    → all_new seen tags ≡ true
    → (count tag tags ≤ 1) × (contains seen tag ≡ true → count tag tags ≡ 0)
unfolding all_new count contains
all_new-count seen [] tag h = (omega arith, λ k. refl)
all_new-count seen (x ∷ tags) tag h =
    let (one, none_seen) = all_new-count (x ∷ seen) tags tag (ground arith) in
    (ground (arith, one, none_seen), λ k. ground (arith, k, none_seen))

-- The tags of a message between those of the sections.
abbrev pub tags_between :
    List Field → ResolvedMembers → ResolvedMembers → ResolvedMembers → List Tag
tags_between fields head members tail =
    all_tags fields head ++ (all_tags fields members ++ all_tags fields tail)

check_sections-Inserts :
    (fields : List Field) (context : MemberContext) (head members tail : ResolvedMembers)
    → Inserts []
        (tags_between fields head members tail)
        (check_sections fields context head members tail)
unfolding check_sections
check_sections-Inserts fields context head members tail =
    Inserts-append [] (all_tags fields head) (all_tags fields members ++ all_tags fields tail) _ _
      (insert_unique_tags-Inserts fields MemberContext.header [] head)
      (λ seen.
        Inserts-append seen (all_tags fields members) (all_tags fields tail) _ _
          (insert_unique_tags-Inserts fields context seen members)
          (λ more. insert_unique_tags-Inserts fields MemberContext.trailer more tail))

Inserts-new :
    (tags : List Tag) (r : Result Error (List (Tag × MemberContext)))
    (more : List (Tag × MemberContext))
    → Inserts [] tags r
    → r ≡ ok more
    → all_new [] tags ≡ true
unfolding keys
Inserts-new tags (ok _) more (inserted new _) e = new
Inserts-new tags (err _) more (repeated _) e = cc

pub check_sections-IsDistinct :
    (fields : List Field) (context : MemberContext) (head members tail : ResolvedMembers)
    (more : List (Tag × MemberContext))
    → check_sections fields context head members tail ≡ ok more
    → IsDistinct (tags_between fields head members tail)
check_sections-IsDistinct fields context head members tail more e tag =
    let new = Inserts-new _ _ more (check_sections-Inserts fields context head members tail) e in
    (all_new-count [] (tags_between fields head members tail) tag new).0
