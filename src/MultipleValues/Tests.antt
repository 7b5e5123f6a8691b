-- ===== src/MultipleValues/Tests.antt =====
-- Runs of the multiple-value getter on small inputs.
use refix.Base.{◌≡◌, refl, some, [], ◌∷◌, position}
use refix.Base.Result.{ok, err}
use refix.Tokenizer.{RawMessage}
use refix.Message.{scope}
use refix.MultipleValues.{get_multiple_values}
use refix.MultipleValues.Splits.{IsMultiple, get_multiple_values-IsMultiple}

-- Two instructions, then a value with a space too many.
abbrev instructions : RawMessage
instructions = record {
  bytes = b'1' ∷ b' ' ∷ b'6' ∷ b'1' ∷ b' ' ∷ [];
  fields =
      record { tag = 18; value_start = 0; value_end = 3 }
      ∷ record { tag = 276; value_start = 3; value_end = 5 }
      ∷ [];
}

two_instructions : get_multiple_values (scope instructions) 18 ≡ ok (some (b'1' ∷ b' ' ∷ b'6' ∷ []))
unfolding get_multiple_values position
two_instructions = refl

space_too_many : get_multiple_values (scope instructions) 276 ≡ err 276
unfolding get_multiple_values position
space_too_many = refl

get_multiple_values-IsMultiple_example :
    IsMultiple (scope instructions) 18 (get_multiple_values (scope instructions) 18)
get_multiple_values-IsMultiple_example = get_multiple_values-IsMultiple (scope instructions) 18
