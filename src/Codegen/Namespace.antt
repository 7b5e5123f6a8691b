-- ===== src/Codegen/Namespace.antt =====
-- crates/refix-codegen/src/namespace.rs: the names taken in one scope of the generated code. The
-- map of owners is a list of its entries.
pub mod Claims
pub mod Hits
pub mod Scopes
pub mod Values
use refix.Base.{
  ℕ, zero, suc, ◌+◌, Bool, true, false, Option, none, some, List, [], ◌∷◌, ◌++◌, map, if◌then◌else◌,
  length, Bytes,
}
use refix.Base.Result.{Result, ok, err}
use refix.Dictionary.Spec.{Name, MemberContext}
use refix.Dictionary.Checks.{lookup}

-- What a generated name stands for.
pub data Owner : Type 0 where
  generated : Owner
  owner_field : Name → Owner
  nanos : Name → Owner
  owner_enum : Name → Owner
  owner_message : Name → Owner
  owner_group : MemberContext → Owner
  owner_value : Name → Bytes → Bytes → Owner

pub record NameClash : Type 0 where
  pub name : Name
  pub first : Owner
  pub second : Owner

-- `Warning::Renamed`
pub record Renamed : Type 0 where
  pub clash : NameClash
  pub name : Name

pub record Namespace : Type 0 where
  pub owners : List (Name × Owner)

abbrev pub empty_namespace : Namespace
empty_namespace = record { owners = [] }

unfoldable pub with_generated : List Name → Namespace
with_generated names = record { owners = map (λ name. (name, generated)) names }

-- Takes `name` for `owner`, unless something else already has it.
unfoldable pub claim : Namespace → Name → Owner → Result NameClash Namespace
claim n name owner = elim (lookup name n.owners) [
  | some first ↦ err (record { name = name; first = first; second = owner })
  | none ↦ ok (record { owners = (name, owner) ∷ n.owners })
]

-- What a claim of an enum or a value returns, or that the search for a free number ran out of fuel.
pub data Claimed : Type 0 where
  claimed : Name → List Renamed → Namespace → Claimed
  clashes : NameClash → Claimed
  stuck : Claimed

-- An enum yields to messages and groups.
abbrev pub yields : Owner → Bool
yields (owner_message _) = true
yields (owner_group _) = true
yields _ = false

abbrev pub is_value : Owner → Bool
is_value (owner_value _ _ _) = true
is_value _ = false

-- `format!("{field}Enum")`
abbrev pub enum_suffix : Name
enum_suffix = b'E' ∷ b'n' ∷ b'u' ∷ b'm' ∷ []

-- The second claim of `claim_enum`.
abbrev pub second_claim : NameClash → Name → List Renamed → Result NameClash Namespace → Claimed
second_claim clash name warnings (err again) = clashes again
second_claim clash name warnings (ok n) =
    claimed name (warnings ++ record { clash = clash; name = name } ∷ []) n

abbrev pub on_enum_claim : Namespace → Name → List Renamed → Result NameClash Namespace → Claimed
on_enum_claim n field_name warnings (ok taken) = claimed field_name warnings taken
on_enum_claim n field_name warnings (err clash) =
    let name = field_name ++ enum_suffix in
    if yields clash.first
    then second_claim clash name warnings (claim n name (owner_enum field_name))
    else clashes clash

-- Takes the name of a field's enum, or that name with `Enum` after it.
unfoldable pub claim_enum : Namespace → Name → List Renamed → Claimed
unfolding claim
claim_enum n field_name warnings =
    on_enum_claim n field_name warnings (claim n field_name (owner_enum field_name))

-- The loop of `claim_value` over the numbers from `number` on.
unfoldable pub claim_numbered :
    ℕ → Namespace → Name → Owner → (Name → ℕ → Name) → ℕ → Option (Name × Namespace)
claim_numbered zero n name owner numbered number = none
claim_numbered (suc fuel) n name owner numbered number =
    let candidate = numbered name number in
    let further = claim_numbered fuel n name owner numbered (number + 1) in
    elim (claim n candidate owner) [ ok taken ↦ some (candidate, taken) | err _ ↦ further ]

abbrev pub renamed_claim : NameClash → List Renamed → Option (Name × Namespace) → Claimed
renamed_claim clash warnings none = stuck
renamed_claim clash warnings (some (name, taken)) =
    claimed name (warnings ++ record { clash = clash; name = name } ∷ []) taken

abbrev pub on_value_claim :
    Namespace
    → Name
    → Owner
    → (Name → ℕ → Name)
    → List Renamed
    → Result NameClash Namespace
    → Claimed
on_value_claim n name owner numbered warnings (ok taken) = claimed name warnings taken
on_value_claim n name owner numbered warnings (err clash) =
    if is_value clash.first
    then renamed_claim clash warnings (claim_numbered (length n.owners + 1) n name owner numbered 2)
    else clashes clash

-- Takes the name of one of a field's values, numbered from 2 if an earlier value has it. Of one more
-- number than there are names, one is free.
unfoldable pub claim_value : Namespace → Name → Owner → (Name → ℕ → Name) → List Renamed → Claimed
unfolding claim claim_numbered
claim_value n name owner numbered warnings =
    on_value_claim n name owner numbered warnings (claim n name owner)
