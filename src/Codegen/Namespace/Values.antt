-- ===== src/Codegen/Namespace/Values.antt =====
-- namespace.rs, `claim_value`: the search for a number.
use refix.Base.{
  ℕ, zero, suc, ◌+◌, ◌≤◌, ◌<◌, ◌≡◌, refl, inl, inr, true, false, Option, none, some, List, [], ◌∷◌,
  ◌++◌, arith, dec_lt, Bool-cases, is_some, length,
}
use refix.Dictionary.Spec.{Name}
use refix.Dictionary.Checks.{lookup}
use refix.Codegen.Namespace.{
  Owner, NameClash, Renamed, Namespace, claim, Claimed, claimed, clashes, is_value, claim_numbered,
  renamed_claim, on_value_claim, claim_value,
}
use refix.Codegen.Namespace.Claims.{Takes, IsClaim, is_taken, is_clash, claim-IsClaim}
use refix.Base.Result.{Result, ok, err}
use refix.Codegen.Namespace.Hits.{AreDifferent, different_names-le}

module _ (n : Namespace) (name : Name) (owner : Owner) (numbered : Name → ℕ → Name) where
  -- The number that the search takes: the first from `number` on whose name is free.
  pub record IsFirstFree (number chosen : ℕ) (taken : Namespace) : Type 0 where
    pub from : number ≤ chosen
    pub takes : Takes n (numbered name chosen) owner taken
    pub before :
        (k : ℕ) → number ≤ k → k < chosen → is_some (lookup (numbered name k) n.owners) ≡ true

  data Search (fuel number : ℕ) : Option (Name × Namespace) → Type 0 where
    finds :
        {taken : Namespace} (chosen : ℕ)
        → IsFirstFree number chosen taken
        → Search fuel number (some (numbered name chosen, taken))
    all_taken :
        ((k : ℕ) → k < fuel → is_some (lookup (numbered name (number + k)) n.owners) ≡ true)
        → Search fuel number none

  Search-next :
      (fuel number : ℕ) (r : Option (Name × Namespace))
      → is_some (lookup (numbered name number) n.owners) ≡ true
      → Search fuel (number + 1) r
      → Search (suc fuel) number r
  Search-next fuel number (some _) here (finds chosen f) = finds chosen (record {
    from = omega (arith, f.from);
    takes = f.takes;
    before = λ k le lt. elim (dec_lt number k) [
      | yes more ↦ f.before k (omega arith) lt
      | no same ↦ let e : k ≡ number = omega (arith, same) in rw e here
    ];
  })
  Search-next fuel number none here (all_taken all_in) = all_taken each
    where
      each : (k : ℕ) → k < suc fuel → is_some (lookup (numbered name (number + k)) n.owners) ≡ true
      each zero lt = let e : number + 0 ≡ number = omega arith in rw e here
      each (suc k) lt =
          let e : number + suc k ≡ number + 1 + k = omega arith in rw e (all_in k (omega arith))

  after_claim :
      (fuel number : ℕ) (r : Result NameClash Namespace) (further : Option (Name × Namespace))
      → IsClaim n (numbered name number) owner r
      → Search fuel (number + 1) further
      → Search
          (suc fuel)
          number
          (elim r [ ok taken ↦ some (numbered name number, taken) | err _ ↦ further ])
  after_claim fuel number (ok taken) further (is_taken t) later =
      finds number
        (record { from = omega arith; takes = t; before = λ k le lt. absurd (omega arith) })
  after_claim fuel number (err _) further (is_clash first there) later =
      Search-next fuel number further (rw there refl) later

  claim_numbered-Search :
      (fuel number : ℕ) → Search fuel number (claim_numbered fuel n name owner numbered number)
  unfolding claim_numbered
  claim_numbered-Search zero number = all_taken (λ k lt. absurd (omega arith))
  claim_numbered-Search (suc fuel) number =
      after_claim fuel number (claim n (numbered name number) owner)
        (claim_numbered fuel n name owner numbered (number + 1))
        (claim-IsClaim n (numbered name number) owner) (claim_numbered-Search fuel (number + 1))

  -- What claiming a value's name does: it takes the name, or the first free one that is numbered
  -- from 2 on where another value has it, with one more warning; else it clashes.
  pub data IsValueClaim (warnings : List Renamed) : Claimed → Type 0 where
    own_name :
        {after : Namespace}
        → Takes n name owner after
        → IsValueClaim warnings (claimed name warnings after)
    numbered_name :
        {after : Namespace} (clash : NameClash) (chosen : ℕ)
        → lookup name n.owners ≡ some clash.first
        → is_value clash.first ≡ true
        → IsFirstFree 2 chosen after
        → IsValueClaim warnings (
            claimed
              (numbered name chosen)
              (warnings ++ record { clash = clash; name = numbered name chosen } ∷ [])
              after)
    no_name :
        (clash : NameClash)
        → lookup name n.owners ≡ some clash.first
        → is_value clash.first ≡ false
        → IsValueClaim warnings (clashes clash)

  module _ (different : AreDifferent (λ k. numbered name (2 + k)) (length n.owners + 1))
      (warnings : List Renamed) where
    renamed_claim-IsValueClaim :
        (clash : NameClash) (r : Option (Name × Namespace))
        → lookup name n.owners ≡ some clash.first
        → is_value clash.first ≡ true
        → Search (length n.owners + 1) 2 r
        → IsValueClaim warnings (renamed_claim clash warnings r)
    renamed_claim-IsValueClaim clash (some _) there value (finds chosen f) =
        numbered_name clash chosen there value f
    renamed_claim-IsValueClaim clash none there value (all_taken all_in) = absurd (
        omega (
          arith,
          different_names-le (λ k. numbered name (2 + k)) (length n.owners + 1) n.owners different
              all_in,
        ))

    on_value_claim-IsValueClaim :
        (r : Result NameClash Namespace)
        → IsClaim n name owner r
        → IsValueClaim warnings (on_value_claim n name owner numbered warnings r)
    on_value_claim-IsValueClaim (ok taken) (is_taken t) = own_name t
    on_value_claim-IsValueClaim (err clash) (is_clash first there) =
        elim (Bool-cases (is_value first)) [
          | inr other ↦ rw other (no_name clash there other)
          | inl value ↦ rw value (
              renamed_claim-IsValueClaim clash _ there value
                (claim_numbered-Search (length n.owners + 1) 2))
        ]

    -- For every scope, name and owner, where the numbered names from 2 on, one more of them than
    -- the scope has owners, are all different: claim_value ends. It takes the name if that is
    -- free; where another value has it, it takes the numbered name with the first number from 2 on
    -- whose name is free, and adds one warning of the clash to the end; where anything else has
    -- it, it gives the clash.
    pub claim_value-IsValueClaim :
        IsValueClaim warnings (claim_value n name owner numbered warnings)
    unfolding claim_value
    claim_value-IsValueClaim =
        on_value_claim-IsValueClaim (claim n name owner) (claim-IsClaim n name owner)
