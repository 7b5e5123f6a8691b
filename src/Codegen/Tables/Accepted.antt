-- ===== src/Codegen/Tables/Accepted.antt =====
-- What is generated from a dictionary that `Spec::resolve` returned.
use refix.Base.{
  ℕ, zero, suc, ◌+◌, ◌≤◌, ◌≡◌, refl, sym, ap, ◌∙◌, subst, true, some, List, [], ◌∷◌, ◌++◌,
  append_assoc, arith, length, get_elem?,
}
use refix.Base.Result.{ok}
use refix.Tags.{Tag, is_sorted_set}
use refix.Tags.Counts.{count, IsDistinct, count-append, count-sort_tags, sort_tags-is_sorted_set}
use refix.Group.{GroupTables}
use refix.Dictionary.Spec.{Field, Message, Spec}
use refix.Dictionary.Tags.{
  resolved_field, resolved_group, ResolvedMembers, no_resolved, and_resolved, join, tag_of,
}
use refix.Dictionary.Tags.Unique.{all_tags}
use refix.Dictionary.Resolver.{Dictionary, resolve}
use refix.Dictionary.Resolver.Valid.{IsValid}
use refix.Dictionary.Resolver.Sections.{tags_between}
use refix.Dictionary.Resolver.Ends.{Ends, Ends-ok}
use refix.Dictionary.Resolver.Sound.{IsSoundMessage, IsSound, resolve-Ends}
use refix.Dictionary.Views.{MessageView, zip_messages, messages_of, fields_of}
use refix.Codegen.Groups.{collect_tags, known_tags, message_known_tags}
use refix.Codegen.Envelope.{envelope_of}
use refix.Codegen.Tables.{nested_tables}
use refix.Codegen.Tables.Built.{collect_tags-all_tags, HasKnownTags, nested_tables-AreBuilt}

-- The generated constants of a list of members: the table of each group among them, at any depth, is
-- built, and the known tags of its instances are a sorted set.
pub record AreAccepted (fields : List Field) (members : ResolvedMembers) : Type 0 where
  pub tables : (built : GroupTables) × (nested_tables fields members ≡ ok built)
  pub known : HasKnownTags fields members

-- The same for header, trailer and a message, and that the known tags of the envelope and of the
-- message are sorted sets.
pub record IsAccepted (d : Dictionary) (m : MessageView) : Type 0 where
  pub in_header : AreAccepted (fields_of d) d.header
  pub in_trailer : AreAccepted (fields_of d) d.trailer
  pub in_message : AreAccepted (fields_of d) m.members
  pub envelope_tags : is_sorted_set (envelope_of d).tags ≡ true
  pub message_tags : is_sorted_set (message_known_tags (fields_of d) m (envelope_of d).tags) ≡ true

all_tags-join :
    (fields : List Field) (xs ys : ResolvedMembers)
    → all_tags fields (join xs ys) ≡ all_tags fields xs ++ all_tags fields ys
unfolding join all_tags
all_tags-join fields no_resolved ys = refl
all_tags-join fields (and_resolved (resolved_field index required) xs) ys =
    ap (◌∷◌ (tag_of fields index)) (all_tags-join fields xs ys)
all_tags-join fields (and_resolved (resolved_group c d required declared k inner) xs) ys =
    rw (all_tags-join fields xs ys) (
      ap (◌∷◌ (tag_of fields c))
        (sym (append_assoc (all_tags fields inner) (all_tags fields xs) (all_tags fields ys))))

zip_messages-get_elem? :
    (declared : List Message) (resolved : List ResolvedMembers) (i : ℕ) (m : MessageView)
    → get_elem? (zip_messages declared resolved) i ≡ some m
    → get_elem? resolved i ≡ some m.members
unfolding zip_messages
zip_messages-get_elem? [] resolved i m e = cc
zip_messages-get_elem? (x ∷ declared) [] i m e = cc
zip_messages-get_elem? (x ∷ declared) (members ∷ resolved) zero m e = ground arith
zip_messages-get_elem? (x ∷ declared) (members ∷ resolved) (suc i) m e =
    zip_messages-get_elem? declared resolved i m e

AreAccepted-Valid :
    (fields : List Field) (members : ResolvedMembers)
    → IsValid (length fields) members
    → IsDistinct (all_tags fields members)
    → AreAccepted fields members
AreAccepted-Valid fields members v u =
    let b = nested_tables-AreBuilt fields (length fields) members v u in
    record { tables = (b.tables, b.built); known = b.known }

count-tags_between :
    (fields : List Field) (head members tail : ResolvedMembers) (tag : Tag)
    → count tag (tags_between fields head members tail)
      ≡ count tag (all_tags fields head)
        + (count tag (all_tags fields members) + count tag (all_tags fields tail))
count-tags_between fields head members tail tag = omega (
  arith,
  count-append tag (all_tags fields head) (all_tags fields members ++ all_tags fields tail),
  count-append tag (all_tags fields members) (all_tags fields tail),
)

count-envelope :
    (d : Dictionary) (tag : Tag)
    → count tag (envelope_of d).tags
      ≡ count tag (all_tags (fields_of d) d.header) + count tag (all_tags (fields_of d) d.trailer)
unfolding envelope_of known_tags
count-envelope d tag =
    count-sort_tags tag _
    ∙ ap (count tag) (
        collect_tags-all_tags (fields_of d) (join d.header d.trailer)
        ∙ all_tags-join (fields_of d) d.header d.trailer)
    ∙ count-append tag (all_tags (fields_of d) d.header) (all_tags (fields_of d) d.trailer)

envelope-is_sorted_set :
    (d : Dictionary)
    → ((tag : Tag) → count tag (envelope_of d).tags ≤ 1)
    → is_sorted_set (envelope_of d).tags ≡ true
unfolding envelope_of known_tags
envelope-is_sorted_set d u =
    let tags = collect_tags (fields_of d) (join d.header d.trailer) in
    sort_tags-is_sorted_set tags (λ tag. rw (← count-sort_tags tag tags) (u tag))

message_known_tags-is_sorted_set :
    (fields : List Field) (m : MessageView) (envelope : List Tag)
    → ((tag : Tag) → count tag envelope + count tag (all_tags fields m.members) ≤ 1)
    → is_sorted_set (message_known_tags fields m envelope) ≡ true
unfolding message_known_tags
message_known_tags-is_sorted_set fields m envelope u =
    sort_tags-is_sorted_set (envelope ++ collect_tags fields m.members) (λ tag.
      rw (collect_tags-all_tags fields m.members)
        (omega (arith, count-append tag envelope (all_tags fields m.members), u tag)))

sound-IsAccepted :
    (d : Dictionary) (m : MessageView)
    → IsValid (length (fields_of d)) d.header
    → IsValid (length (fields_of d)) d.trailer
    → IsSoundMessage (fields_of d) d.header d.trailer m.members
    → IsAccepted d m
sound-IsAccepted d m head tail s =
    let fields = fields_of d in
    let u : (tag : Tag)
        → count tag (all_tags fields d.header)
            + (count tag (all_tags fields m.members) + count tag (all_tags fields d.trailer))
          ≤ 1 =
      λ tag.
        omega (arith, count-tags_between fields d.header m.members d.trailer tag, s.distinct tag) in
    record {
      in_header = AreAccepted-Valid fields d.header head (λ tag. omega (arith, u tag));
      in_trailer = AreAccepted-Valid fields d.trailer tail (λ tag. omega (arith, u tag));
      in_message = AreAccepted-Valid fields m.members s.valid (λ tag. omega (arith, u tag));
      envelope_tags = envelope-is_sorted_set d (λ tag. omega (arith, count-envelope d tag, u tag));
      message_tags =
          message_known_tags-is_sorted_set fields m (envelope_of d).tags
            (λ tag. omega (arith, count-envelope d tag, u tag));
    }

-- For any message of a dictionary that Spec::resolve returned, the constants generated for it pass
-- the assertions of the crate that reads messages: in header, trailer and message the table of
-- every group, at any depth, is built, the known tags of every group's instances are a sorted set
-- without repetitions, and so are those of the envelope and of the message.
pub resolve-IsAccepted :
    (spec : Spec) (d : Dictionary) (i : ℕ) (m : MessageView)
    → resolve spec ≡ ok d
    → get_elem? (messages_of d) i ≡ some m
    → IsAccepted d m
unfolding messages_of
resolve-IsAccepted spec d i m e at_i =
    let sound = Ends-ok (subst (Ends (IsSound spec)) e (resolve-Ends spec)) in
    sound-IsAccepted d m (rw sound.same_spec sound.head_valid) (rw sound.same_spec sound.tail_valid)
      (rw sound.same_spec (
        sound.messages.sound i m.members
          (zip_messages-get_elem? d.spec.messages d.messages i m at_i)))
