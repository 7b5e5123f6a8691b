-- ===== src/Log/Start/Ranges.antt =====
-- log/start.rs, `find_start`: it finds a start in its range, and waits only for more bytes.
use refix.Base.{
  ℕ, zero, suc, ◌+◌, ◌-◌, ◌≤◌, ◌<◌, ◌≡◌, refl, sym, ap, ◌⊎◌, inl, inr, Bool, true, false, Option,
  arith, Bool-cases, Bytes,
}
use refix.Log.Start.{
  Start, NextStart, Check, start, not_start, passed_over, start_at, find_start_from, find_start,
}

abbrev at_of : NextStart → ℕ
at_of (NextStart.found s) = s.at
at_of (NextStart.pending n) = 0
at_of NextStart.not_found = 0

start_at-found :
    (bytes : Bytes) (at : ℕ) (at_end : Bool) (c : Check) (rest : NextStart) (s : Start)
    → start_at bytes at at_end c rest ≡ NextStart.found s
    → (s.at ≡ at) ⊎ (rest ≡ NextStart.found s)
unfolding start_at
start_at-found bytes at at_end (start sep) rest s h = inl (ap at_of (sym h))
start_at-found bytes at at_end not_start rest s h = inr h
start_at-found bytes at true Check.pending rest s h = inr h
start_at-found bytes at false Check.pending rest s h = cc

-- The search for a start finds one in its range.
find_start_from-lt :
    (bytes : Bytes) (count at : ℕ) (override : Option ℕ) (at_end : Bool) (s : Start)
    → find_start_from bytes count at override at_end ≡ NextStart.found s
    → (at ≤ s.at) × (s.at < at + count)
unfolding find_start_from
find_start_from-lt bytes zero at override at_end s h = cc
find_start_from-lt bytes (suc count) at override at_end s h =
    let rest = find_start_from bytes count (at + 1) override at_end in
    let further : rest ≡ NextStart.found s → (at ≤ s.at) × (s.at < at + suc count) = λ e.
      (let i = find_start_from-lt bytes count (at + 1) override at_end s e in
        (omega (arith, i), omega (arith, i))) in
    elim (Bool-cases (passed_over bytes at)) [
      | inl passed ↦ further (rw passed at h)
      | inr looked ↦ elim (start_at-found bytes at at_end _ rest s (rw looked at h)) [
        | inl here ↦ (omega arith, omega arith)
        | inr later ↦ further later
      ]
    ]

start_at-pending :
    (bytes : Bytes) (at : ℕ) (at_end : Bool) (c : Check) (rest : NextStart) (n : ℕ)
    → start_at bytes at at_end c rest ≡ NextStart.pending n
    → (at_end ≡ false) ⊎ (rest ≡ NextStart.pending n)
unfolding start_at
start_at-pending bytes at at_end (start sep) rest n h = cc
start_at-pending bytes at at_end not_start rest n h = inr h
start_at-pending bytes at true Check.pending rest n h = inr h
start_at-pending bytes at false Check.pending rest n h = inl refl

find_start_from-pending :
    (bytes : Bytes) (count at : ℕ) (override : Option ℕ) (at_end : Bool) (n : ℕ)
    → find_start_from bytes count at override at_end ≡ NextStart.pending n
    → at_end ≡ false
unfolding find_start_from
find_start_from-pending bytes zero at override at_end n h = cc
find_start_from-pending bytes (suc count) at override at_end n h =
    let further = find_start_from-pending bytes count (at + 1) override at_end n in
    elim (Bool-cases (passed_over bytes at)) [
      | inl passed ↦ further (rw passed at h)
      | inr looked ↦ elim (start_at-pending bytes at at_end _ _ n (rw looked at h)) [
        | inl waits ↦ waits
        | inr later ↦ further later
      ]
    ]

-- The search for a start waits only where more bytes can arrive.
pub find_start-pending :
    (bytes : Bytes) (from to : ℕ) (override : Option ℕ) (at_end : Bool) (n : ℕ)
    → find_start bytes from to override at_end ≡ NextStart.pending n
    → at_end ≡ false
unfolding find_start
find_start-pending bytes from to override at_end n h =
    find_start_from-pending bytes (to - from) from override at_end n h

pub find_start-lt :
    (bytes : Bytes) (from to : ℕ) (override : Option ℕ) (at_end : Bool) (s : Start)
    → find_start bytes from to override at_end ≡ NextStart.found s
    → (from ≤ s.at) × (s.at < to)
unfolding find_start
find_start-lt bytes from to override at_end s h =
    let i = find_start_from-lt bytes (to - from) from override at_end s h in (i.0, omega (arith, i))
