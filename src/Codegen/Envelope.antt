-- ===== src/Codegen/Envelope.antt =====
-- crates/refix-codegen/src/envelope.rs: the header and the trailer.
use refix.Base.{Bool, true, false, List, [], ◌∷◌, if◌then◌else◌}
use refix.Tags.{Tag}
use refix.Dictionary.Spec.{MemberContext}
use refix.Dictionary.Tags.{
  resolved_field, resolved_group, ResolvedMembers, no_resolved, and_resolved, join,
}
use refix.Dictionary.Resolver.{Dictionary}
use refix.Dictionary.Views.{fields_of}
use refix.Codegen.Groups.{known_tags}

pub data Section : Type 0 where
  header_section : Section
  trailer_section : Section

-- `Section::context`
abbrev pub section_context : Section → MemberContext
section_context header_section = MemberContext.header
section_context trailer_section = MemberContext.trailer

-- `Section::members`
abbrev pub section_members : Section → Dictionary → ResolvedMembers
section_members header_section d = d.header
section_members trailer_section d = d.trailer

pub record Envelope : Type 0 where
  pub sections : List Section
  pub with_groups : List Section
  pub tags : List Tag

unfoldable pub has_group : ResolvedMembers → Bool
has_group no_resolved = false
has_group (and_resolved (resolved_field _ _) members) = has_group members
has_group (and_resolved (resolved_group _ _ _ _ _ _) members) = true

abbrev pub is_declared : ResolvedMembers → Bool
is_declared no_resolved = false
is_declared (and_resolved _ _) = true

unfoldable pub sections_where : (ResolvedMembers → Bool) → Dictionary → List Section → List Section
sections_where p d [] = []
sections_where p d (s ∷ sections) =
    let rest = sections_where p d sections in if p (section_members s d) then s ∷ rest else rest

-- `Envelope::of`; a section that holds a group has members.
unfoldable pub envelope_of : Dictionary → Envelope
unfolding sections_where has_group known_tags
envelope_of d =
    let both = header_section ∷ trailer_section ∷ [] in
    record {
      sections = sections_where is_declared d both;
      with_groups = sections_where has_group d both;
      tags = known_tags (fields_of d) (join d.header d.trailer);
    }
