-- ===== src/Payload/Conditions.antt =====
-- `_evaluate_condition_operator` of src/services/workflows/workflow_executor.py. float() and the
-- order of floats are parameters.
pub mod Opposites
use nd3x.Prelude.{
  ℕ, zero, suc, ◌≡◌, refl, Bool, true, false, ◌&&◌, ◌||◌, not, String, Option, none, some, List, [],
  ◌∷◌, ◌==◌, arith, str_eq, if◌then◌else◌,
}
use nd3x.Prelude.Results.{Result, returned, failed_with, ◌>>=◌}
use nd3x.Json.{
  ℤ, pos, negsuc, Value, obj, arr, str, num, bool, null, Fields, Items, cons, nil, truthy,
  get_field, has_key, or_value, empty_dict,
}
use nd3x.Engine.{Dict, lookup}
use nd3x.Policy.Text.{contains}
use nd3x.Board.Words.{is_word}
use nd3x.Payload.{
  Node, Scope, path_get, operation_id_by_text, last_output, or_null, value_of_last, is_given,
}
use nd3x.Payload.Words.{value_eq, int_of, is_null}

pub data Error : Type 0 where
  value_error type_error : Error

pub data Operator : Type 0 where
  exists not_exists equals not_equals contains_ not_contains : Operator
  greater_than greater_than_or_equal less_than less_than_or_equal : Operator
  in_ not_in is_truthy is_falsey : Operator

abbrev pub named : String → List (String × Operator) → Option Operator
named text [] = none
named text ((word, op) ∷ rest) =
    let later = named text rest in if is_word word text then some op else later

-- (operator or "equals").strip().lower(), read as an operator
unfoldable pub read_operator : String → Option Operator
read_operator String.[] = some equals
read_operator (String.◌∷◌ c s) = named (String.◌∷◌ c s) (
    ("exists", exists)
    ∷ ("not_exists", not_exists)
    ∷ ("equals", equals)
    ∷ ("not_equals", not_equals)
    ∷ ("contains", contains_)
    ∷ ("not_contains", not_contains)
    ∷ ("greater_than", greater_than)
    ∷ ("greater_than_or_equal", greater_than_or_equal)
    ∷ ("less_than", less_than)
    ∷ ("less_than_or_equal", less_than_or_equal)
    ∷ ("in", in_)
    ∷ ("not_in", not_in)
    ∷ ("is_truthy", is_truthy)
    ∷ ("is_falsey", is_falsey)
    ∷ [])

abbrev pub any_equal : Value → Items → Bool
any_equal v nil = false
any_equal v (cons w xs) = value_eq v w || any_equal v xs

abbrev text_in : Value → String → Result Error Bool
text_in (str part) s = returned (contains part s)
text_in _ s = failed_with type_error

-- A list and a dict are not hashable; a key that is no text is not in a dict of JSON.
abbrev key_in : Value → Fields → Result Error Bool
key_in (arr xs) fs = failed_with type_error
key_in (obj gs) fs = failed_with type_error
key_in (str k) fs = returned (has_key k fs)
key_in _ fs = returned false

-- `v in container`, if the container is a list, a text or a dict
unfoldable pub member : Value → Value → Option (Result Error Bool)
unfolding value_eq
member v (arr xs) = some (returned (any_equal v xs))
member v (str s) = some (text_in v s)
member v (obj fs) = some (key_in v fs)
member v _ = none

abbrev pub map_result : (Bool → Bool) → Result Error Bool → Result Error Bool
map_result f (returned b) = returned (f b)
map_result f (failed_with e) = failed_with e

-- `v in container if isinstance(container, ...) else False`, and its negation
abbrev pub or_false : Option (Result Error Bool) → Result Error Bool
or_false none = returned false
or_false (some r) = r

abbrev pub negated_or_true : Option (Result Error Bool) → Result Error Bool
negated_or_true none = returned true
negated_or_true (some r) = map_result not r

module _ {F : Type 0} (as_float : Value → Option F) (lt le : F → F → Bool) where
  -- False where float() raises
  abbrev ordered : (F → F → Bool) → Value → Value → Bool
  ordered test left right = elim (as_float left) [
    | none ↦ false
    | some a ↦ elim (as_float right) [ none ↦ false | some b ↦ test a b ]
  ]

  unfoldable pub evaluate_found : Operator → Value → Value → Result Error Bool
  unfolding member value_eq
  evaluate_found exists left right = returned true
  evaluate_found not_exists left right = returned false
  evaluate_found equals left right = returned (value_eq left right)
  evaluate_found not_equals left right = returned (not (value_eq left right))
  evaluate_found contains_ left right = or_false (member right left)
  evaluate_found not_contains left right = negated_or_true (member right left)
  evaluate_found greater_than left right = returned (ordered (λ a b. lt b a) left right)
  evaluate_found greater_than_or_equal left right = returned (ordered (λ a b. le b a) left right)
  evaluate_found less_than left right = returned (ordered lt left right)
  evaluate_found less_than_or_equal left right = returned (ordered le left right)
  evaluate_found in_ left right = or_false (member left right)
  evaluate_found not_in left right = negated_or_true (member left right)
  evaluate_found is_truthy left right = returned (truthy left)
  evaluate_found is_falsey left right = returned (not (truthy left))

  -- A value that is missing
  unfoldable pub evaluate_missing : Option Operator → Result Error Bool
  evaluate_missing (some not_exists) = returned true
  evaluate_missing _ = returned false

  -- An operator that is not known is refused only when the value is there.
  unfoldable pub evaluate_condition_operator : Option Value → String → Value → Result Error Bool
  unfolding read_operator evaluate_found evaluate_missing
  evaluate_condition_operator none operator right = evaluate_missing (read_operator operator)
  evaluate_condition_operator (some left) operator right = elim (read_operator operator) [
    | none ↦ failed_with value_error
    | some op ↦ evaluate_found op left right
  ]
