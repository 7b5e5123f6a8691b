-- ===== src/Log/CaretA/Offsets.antt =====
-- log/caret_a.rs, `original_offset`: an offset in the copy leads to the bytes of the line that were
-- copied.
use refix.Base.{
  ℕ, zero, suc, ◌+◌, ◌≤◌, ◌≡◌, refl, sym, ap, ◌∙◌, inl, inr, true, false, ◌&&◌, [], ◌∷◌, arith,
  ◌==◌, Bool-cases, length, take, drop, drop-drop, Bytes, byte_at,
}
use refix.Framing.{soh}
use refix.Log.CaretA.{restore_soh, original_from, original_offset}

-- The first `n` bytes of `rest` are copied to `copied`.
record Copies (line rest : Bytes) (from : ℕ) (copied : Bytes) : Type 0 where
  n : ℕ
  within : n ≤ length rest
  reaches : original_from line from copied ≡ from + n
  restores : restore_soh (take n rest) ≡ copied

restore-caret :
    (b c : ℕ) (rest : Bytes)
    → ((b == b'^') && (c == b'A')) ≡ true
    → restore_soh (b ∷ c ∷ rest) ≡ soh ∷ restore_soh rest
unfolding restore_soh
restore-caret b c rest h = rw (h, restore_soh) refl

restore-plain :
    (b c : ℕ) (rest : Bytes)
    → ((b == b'^') && (c == b'A')) ≡ false
    → restore_soh (b ∷ c ∷ rest) ≡ b ∷ restore_soh (c ∷ rest)
unfolding restore_soh
restore-plain b c rest h = rw (h, restore_soh) refl

-- A byte that stands for itself, before bytes that are copied.
Copies-plain :
    (line rest : Bytes) (from b : ℕ) (copied : Bytes)
    → byte_at line from ≡ b
    → ((n : ℕ) → restore_soh (b ∷ take n rest) ≡ b ∷ restore_soh (take n rest))
    → Copies line rest (from + 1) copied
    → Copies line (b ∷ rest) from (b ∷ copied)
unfolding original_from
Copies-plain line rest from b copied here plain c =
    let itself : ((b == soh) && (byte_at line from == b'^')) ≡ false = ground (arith, here) in
    record {
      n = c.n + 1;
      within = omega (arith, c.within);
      reaches = rw itself (c.reaches ∙ omega arith);
      restores =
          let e : c.n + 1 ≡ suc c.n = omega arith in rw e (plain c.n ∙ ap (◌∷◌ b) c.restores);
    }

-- `^A`, before bytes that are copied.
Copies-caret :
    (line rest : Bytes) (from b c : ℕ) (copied : Bytes)
    → byte_at line from ≡ b
    → ((b == b'^') && (c == b'A')) ≡ true
    → Copies line rest (from + 2) copied
    → Copies line (b ∷ c ∷ rest) from (soh ∷ copied)
unfolding original_from
Copies-caret line rest from b c copied here caret r =
    let is_soh_byte : ((soh == soh) && (byte_at line from == b'^')) ≡ true = ground (arith, here) in
    record {
      n = r.n + 2;
      within = omega (arith, r.within);
      reaches = rw is_soh_byte (r.reaches ∙ omega arith);
      restores =
          let e : r.n + 2 ≡ suc (suc r.n) = omega arith in
          rw e (restore-caret b c (take r.n rest) caret ∙ ap (◌∷◌ soh) r.restores);
    }

Copies-nothing : (line rest : Bytes) (from : ℕ) → Copies line rest from []
unfolding original_from restore_soh
Copies-nothing line rest from = record {
  n = 0;
  within = omega arith;
  reaches = omega arith;
  restores = refl;
}

last_plain : (b n : ℕ) → restore_soh (b ∷ take n []) ≡ b ∷ restore_soh (take n [])
unfolding restore_soh
last_plain b zero = refl
last_plain b (suc n) = refl

next_plain :
    (b c : ℕ) (rest : Bytes) (n : ℕ)
    → ((b == b'^') && (c == b'A')) ≡ false
    → restore_soh (b ∷ take n (c ∷ rest)) ≡ b ∷ restore_soh (take n (c ∷ rest))
next_plain b c rest zero h = unfold restore_soh in refl
next_plain b c rest (suc n) h = restore-plain b c (take n rest) h

byte_at-drop : (line : Bytes) (from : ℕ) → byte_at line from ≡ byte_at (drop from line) 0
byte_at-drop line zero = refl
byte_at-drop [] (suc from) = refl
byte_at-drop (x ∷ line) (suc from) = byte_at-drop line from

drop_more :
    (line : Bytes) (from k : ℕ) (rest : Bytes)
    → drop from line ≡ rest
    → drop (from + k) line ≡ drop k rest
drop_more line from k rest h = sym (drop-drop k from line) ∙ ap (drop k) h

take-nil : (k : ℕ) → ◌≡◌ {A = Bytes} (take k []) []
take-nil zero = refl
take-nil (suc k) = refl

Copies-copy :
    (line rest : Bytes) (from k : ℕ)
    → drop from line ≡ rest
    → Copies line rest from (take k (restore_soh rest))
Copies-copy line rest from zero h = Copies-nothing line rest from
Copies-copy line [] from (suc k) h = unfold restore_soh in Copies-nothing line [] from
Copies-copy line (b ∷ []) from (suc k) h =
    let here = byte_at-drop line from ∙ ap (λ u. byte_at u 0) h in
    unfold restore_soh in
    Copies-plain line [] from b (take k []) here (last_plain b)
      (rw (take-nil k) (Copies-nothing line [] (from + 1)))
Copies-copy line (b ∷ c ∷ rest) from (suc k) h =
    let here = byte_at-drop line from ∙ ap (λ u. byte_at u 0) h in
    elim (Bool-cases ((b == b'^') && (c == b'A'))) [
      | inl caret ↦ rw (restore-caret b c rest caret) (
          Copies-caret line rest from b c _ here caret
            (Copies-copy line rest (from + 2) k (drop_more line from 2 (b ∷ c ∷ rest) h)))
      | inr plain ↦ rw (restore-plain b c rest plain) (
          Copies-plain line (c ∷ rest) from b _ here (λ n. next_plain b c rest n plain)
            (Copies-copy line (c ∷ rest) (from + 1) k (drop_more line from 1 (b ∷ c ∷ rest) h)))
    ]

-- For any line and offset in its copy, original_offset stays within the line, and the line up to
-- there is copied to the copy up to the offset.
pub original_offset-restores :
    (line : Bytes) (offset : ℕ)
    → (original_offset line (restore_soh line) offset ≤ length line)
      × (restore_soh (take (original_offset line (restore_soh line) offset) line)
          ≡ take offset (restore_soh line))
unfolding original_offset
original_offset-restores line offset =
    let c = Copies-copy line line 0 offset refl in
    let e : original_from line 0 (take offset (restore_soh line)) ≡ c.n = c.reaches ∙ omega arith in
    (rw e c.within, rw e c.restores)
