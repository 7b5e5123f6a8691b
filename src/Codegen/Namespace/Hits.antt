-- ===== src/Codegen/Namespace/Hits.antt =====
-- Different names that are all in a map are no more than its entries.
use refix.Base.{
  ℕ, zero, suc, ◌+◌, ◌≤◌, ◌<◌, ◌≡◌, refl, sym, ◌∙◌, inl, inr, true, false, List, [], ◌∷◌, arith,
  if◌then◌else◌, Bool-cases, is_some, length, equal, equal_iff,
}
use refix.Dictionary.Spec.{Name}
use refix.Codegen.Namespace.{Owner}
use refix.Dictionary.Checks.{lookup}

-- How many of the first `fuel` candidates are `key`, and how many have an entry.
module _ (candidate : ℕ → Name) where
  named : ℕ → Name → ℕ
  named zero key = 0
  named (suc fuel) key = (if equal key (candidate fuel) then 1 else 0) + named fuel key

  hits : ℕ → List (Name × Owner) → ℕ
  hits zero entries = 0
  hits (suc fuel) entries =
      (if is_some (lookup (candidate fuel) entries) then 1 else 0) + hits fuel entries

  named_none :
      (fuel : ℕ) (key : Name)
      → ((k : ℕ) → k < fuel → equal key (candidate k) ≡ false)
      → named fuel key ≡ 0
  unfolding named
  named_none zero key none_is = refl
  named_none (suc fuel) key none_is =
      rw (none_is fuel (omega arith))
        (omega (arith, named_none fuel key (λ k lt. none_is k (omega arith))))

  -- The first `limit` candidates are different.
  abbrev pub AreDifferent : ℕ → Type 0
  AreDifferent limit = (i j : ℕ) → i < limit → j < limit → candidate i ≡ candidate j → i ≡ j

  named-le : (fuel limit : ℕ) (key : Name) → AreDifferent limit → fuel ≤ limit → named fuel key ≤ 1
  unfolding named
  named-le zero limit key different le = omega arith
  named-le (suc fuel) limit key different le = elim (Bool-cases (equal key (candidate fuel))) [
    | inr other ↦ rw other (omega (arith, named-le fuel limit key different (omega arith)))
    | inl here ↦
        let e : key ≡ candidate fuel = (equal_iff key (candidate fuel)).0 here in
        rw here (omega (arith, named_none fuel key (λ k lt. others e k lt)))
  ]
    where
      others : key ≡ candidate fuel → (k : ℕ) → k < fuel → equal key (candidate k) ≡ false
      others e k lt = elim (Bool-cases (equal key (candidate k))) [
        | inr other ↦ other
        | inl again ↦
            let same : candidate k ≡ candidate fuel =
              sym ((equal_iff key (candidate k)).0 again) ∙ e in
            absurd (omega (arith, different k fuel (omega arith) (omega arith) same))
      ]

  hits-cons :
      (fuel : ℕ) (key : Name) (a : Owner) (entries : List (Name × Owner))
      → hits fuel ((key, a) ∷ entries) ≤ named fuel key + hits fuel entries
  unfolding hits named lookup
  hits-cons zero key a entries = omega arith
  hits-cons (suc fuel) key a entries = ground (arith, hits-cons fuel key a entries)

  hits-nil : (fuel : ℕ) → hits fuel [] ≡ 0
  unfolding hits lookup
  hits-nil zero = refl
  hits-nil (suc fuel) = omega (arith, hits-nil fuel)

  hits-le :
      (fuel : ℕ) (entries : List (Name × Owner))
      → AreDifferent fuel
      → hits fuel entries ≤ length entries
  hits-le fuel [] different = omega (arith, hits-nil fuel)
  hits-le fuel ((key, a) ∷ entries) different = omega (
    arith,
    hits-cons fuel key a entries,
    named-le fuel fuel key different (omega arith),
    hits-le fuel entries different,
  )

  hits_all :
      (fuel : ℕ) (entries : List (Name × Owner))
      → ((k : ℕ) → k < fuel → is_some (lookup (candidate k) entries) ≡ true)
      → hits fuel entries ≡ fuel
  unfolding hits
  hits_all zero entries all_in = refl
  hits_all (suc fuel) entries all_in =
      rw (all_in fuel (omega arith))
        (omega (arith, hits_all fuel entries (λ k lt. all_in k (omega arith))))

  pub different_names-le :
      (fuel : ℕ) (entries : List (Name × Owner))
      → AreDifferent fuel
      → ((k : ℕ) → k < fuel → is_some (lookup (candidate k) entries) ≡ true)
      → fuel ≤ length entries
  different_names-le fuel entries different all_in =
      omega (arith, hits-le fuel entries different, hits_all fuel entries all_in)
