-- ===== src/Log/Reader/Splits.antt =====
-- log.rs, `LogReader::read`: the record that it splits off the buffer.
use refix.Base.{
  ℕ, ◌+◌, ◌-◌, ◌<◌, min, ◌≡◌, refl, sym, ap, ◌∙◌, ◌≢◌, ◌⊎◌, inl, inr, Bool, true, false, Option,
  some, [], ◌∷◌, ◌++◌, arith, leb, if◌then◌else◌, Bool-cases, length, take, drop, length-take,
  length-drop, take-append-drop, drop-drop, Bytes,
}
use refix.Tokenizer.{tokenize_fields}
use refix.Tokenizer.Tiling.{IsIndexable, tokenize_fields-Tiles}
use refix.Log.Start.{Start, NextStart}
use refix.Log.Start.Found.{separator_byte}
use refix.Log.End.{End}
use refix.Log.End.Within.{IsWithin}
use refix.Log.Start.Ranges.{find_start-lt}
use refix.Log.Diagnose.{prefix_truncated, diagnose}
use refix.Log.Reader.{LogReader, LogRecord, prefix_end, copy_or, split_record}
use refix.Log.Reader.Reads.{
  next_start, next_end, as_message, over_cap, IsEntry, IsLogRead, takes, capped, flag_kept,
}
use refix.Log.Reader.Messages.{length-as_message}

-- A record split off a reader's buffer, where the bytes behind its prefix are `rest`.
record Split (c : LogReader) (n : ℕ) (rest : Bytes) (e : End) (bytes : Bytes) (sep : ℕ)
    (entry : LogRecord) (after : LogReader) : Type 0 where
  front : entry.prefix ≡ take n c.buf
  message : entry.message.bytes ≡ bytes
  fields : tokenize_fields c.tokenizer entry.message.bytes sep ≡ some entry.message.fields
  says :
      entry.diagnostics
      ≡ (if c.prefix_truncated then prefix_truncated ∷ [] else [])
        ++ diagnose entry.message.bytes entry.message.fields sep e.truncated
  left : after.buf ≡ drop (e.consumed - e.len) (drop e.len rest)

split_record-Split :
    (c : LogReader) (n : ℕ) (rest : Bytes) (e : End) (copied : Option Bytes) (sep : ℕ)
    → drop n c.buf ≡ rest
    → IsIndexable (copy_or copied (take e.len rest))
    → (entry : LogRecord) × (after : LogReader) × (split_record c n e copied sep
        ≡ some (some entry, after))
      × Split c n rest e (copy_or copied (take e.len rest)) sep entry after
unfolding split_record
split_record-Split c n rest e copied sep same fits =
    let bytes = copy_or copied (take e.len rest) in
    let (fields, split, tiles) = tokenize_fields-Tiles c.tokenizer bytes sep fits in
    let entry : LogRecord = record {
      prefix = take n c.buf;
      message = record { bytes = bytes; fields = fields };
      diagnostics =
          (if c.prefix_truncated then prefix_truncated ∷ [] else [])
          ++ diagnose bytes fields sep e.truncated;
    } in
    let after : LogReader = record c {
      buf = drop (e.consumed - e.len) (drop e.len rest);
      searched = 0;
      prefix_truncated = false;
    } in
    (
      entry,
      after,
      rw (same, split) refl,
      record { front = refl; message = refl; fields = split; says = refl; left = refl },
    )

module _ (r : LogReader) (at_end : Bool) (fits : IsIndexable r.buf) (s : Start)
    (h : next_start r at_end ≡ NextStart.found s) where
  pub behind_prefix : drop (min s.at 1048576) (drop (s.at - 1048576) r.buf) ≡ drop s.at r.buf
  behind_prefix =
      let sum : s.at - 1048576 + min s.at 1048576 ≡ s.at = omega arith in
      drop-drop (min s.at 1048576) (s.at - 1048576) r.buf ∙ ap (λ n. drop n r.buf) sum

  over_cap_here : over_cap r at_end ≡ take (s.at - 1048576) r.buf
  over_cap_here = ap (λ n. take (prefix_end n (length r.buf) - 1048576) r.buf) h

  size_here : s.at < length r.buf
  size_here = (find_start-lt r.buf r.searched (length r.buf) r.separator at_end s h).1

  flag_set :
      (r.prefix_truncated ≡ true) ⊎ (over_cap r at_end ≢ [])
      → (capped r s.at).prefix_truncated ≡ true
  flag_set (inl before) = flag_kept r s.at before
  flag_set (inr lost) = elim (Bool-cases (leb s.at 1048576)) [
    | inl short ↦
        let none_over : s.at - 1048576 ≡ 0 = ground (arith, short) in
        absurd (lost (over_cap_here ∙ ap (λ n. take n r.buf) none_over))
    | inr long ↦ rw long refl
  ]

  flag_clear :
      r.prefix_truncated ≡ false → over_cap r at_end ≡ [] → (capped r s.at).prefix_truncated ≡ false
  flag_clear before kept =
      let none_over : length (take (s.at - 1048576) r.buf) ≡ 0 =
        ap length (sym over_cap_here ∙ kept) in
      let short : leb s.at 1048576 ≡ true =
        ground (arith, none_over, length-take (s.at - 1048576) r.buf, size_here) in
      rw (short, before) refl

  module _ (e : End) (copied : Option Bytes) (sep : ℕ)
      (ended : next_end r at_end s ≡ some (some (e, copied, sep)))
      (i : IsWithin (drop s.at r.buf) e)
      (same : copy_or copied (take e.len (drop s.at r.buf))
        ≡ as_message s.separator (take e.len (drop s.at r.buf)))
      (separates : sep ≡ separator_byte s.separator) where
    abbrev rest : Bytes
    rest = drop s.at r.buf

    abbrev logged : Bytes
    logged = take e.len rest

    abbrev line_end : Bytes
    line_end = take (e.consumed - e.len) (drop e.len rest)

    module _ (entry : LogRecord) (after : LogReader)
        (p : Split
          (capped r s.at)
          (min s.at 1048576)
          rest
          e
          (copy_or copied logged)
          sep
          entry
          after) where
      prefix_size : length entry.prefix ≡ min s.at 1048576
      prefix_size =
          ap length p.front
          ∙ omega (
            arith,
            size_here,
            length-take (min s.at 1048576) (drop (s.at - 1048576) r.buf),
            length-drop (s.at - 1048576) r.buf,
          )

      diagnosed :
          (flag : Bool)
          → (capped r s.at).prefix_truncated ≡ flag
          → entry.diagnostics
            ≡ (if flag then prefix_truncated ∷ [] else [])
              ++ diagnose entry.message.bytes entry.message.fields
                  (separator_byte s.separator)
                  e.truncated
      diagnosed flag is =
          p.says
          ∙ ap
              (λ f.
                (if f then prefix_truncated ∷ [] else [])
                ++ diagnose entry.message.bytes entry.message.fields sep e.truncated)
              is
          ∙ ap
              (λ b.
                (if flag then prefix_truncated ∷ [] else [])
                ++ diagnose entry.message.bytes entry.message.fields b e.truncated)
              separates

      Split-keeps :
          r.buf ≡ over_cap r at_end ++ (entry.prefix ++ (logged ++ (line_end ++ after.buf)))
      Split-keeps =
          let n = min s.at 1048576 in
          let buf = drop (s.at - 1048576) r.buf in
          let behind : logged ++ (line_end ++ after.buf) ≡ drop n buf =
            ap (λ u. logged ++ (line_end ++ u)) p.left
            ∙ ap (λ u. logged ++ u) (take-append-drop (e.consumed - e.len) (drop e.len rest))
            ∙ take-append-drop e.len rest
            ∙ sym behind_prefix in
          sym (
            ap (λ u. u ++ (entry.prefix ++ (logged ++ (line_end ++ after.buf)))) over_cap_here
            ∙ ap (λ u. take (s.at - 1048576) r.buf ++ u)
                (ap (λ u. u ++ (logged ++ (line_end ++ after.buf))) p.front
                  ∙ ap (λ u. take n buf ++ u) behind
                  ∙ take-append-drop n buf)
            ∙ take-append-drop (s.at - 1048576) r.buf)

      Split-IsEntry : IsEntry r at_end (over_cap r at_end) entry logged line_end
      Split-IsEntry = record {
        at = s;
        ending = e;
        copied = copied;
        sep = sep;
        starts = h;
        placed =
            let dropped = ap length over_cap_here ∙ length-take (s.at - 1048576) r.buf in
            omega (arith, prefix_size, dropped, size_here);
        ends_there = ended;
        whole = omega (arith, length-take e.len rest, i.ordered, i.inside);
        nonempty = omega (arith, length-take e.len rest, i.nonempty, i.ordered, i.inside);
        breaks = i.line_end;
        bytes = p.message ∙ same;
        fields = ap (tokenize_fields r.tokenizer entry.message.bytes) (sym separates) ∙ p.fields;
        says = λ why. diagnosed true (flag_set why);
        silent = λ before kept. diagnosed false (flag_clear before kept);
      }

    pub takes-IsLogRead :
        (entry : Option LogRecord) × (after : LogReader) × (split_record
            (capped r s.at)
            (min s.at 1048576)
            e
            copied
            sep
          ≡ some (entry, after))
        × IsLogRead r at_end entry after
    takes-IsLogRead =
        let small : IsIndexable (copy_or copied logged) = omega (
          arith,
          ap length same,
          length-as_message s.separator logged,
          length-take e.len rest,
          length-drop s.at r.buf,
          fits,
        ) in
        let (entry, after, made, p) =
          split_record-Split (capped r s.at) (min s.at 1048576) rest e copied sep behind_prefix
            small in
        (
          some entry,
          after,
          made,
          takes logged line_end (Split-keeps entry after p)
              (omega (arith, prefix_size entry after p)) (Split-IsEntry entry after p),
        )
