-- ===== src/Payload/Contract.antt =====
-- `_validate_output_contract` of src/services/workflows/workflow_executor.py: what an operation's
-- output must have.
use nd3x.Prelude.{
  Bool, true, false, ◌&&◌, not, String, Option, none, some, List, [], ◌∷◌, if◌then◌else◌,
}
use nd3x.Prelude.Results.{Result, returned, failed_with}
use nd3x.Json.{Value, Items, obj, arr, str, bool, null, field, end, cons, nil, put_field}
use nd3x.Payload.{path_get, or_null}
use nd3x.Payload.Conditions.{any_equal}

pub record Contract : Type 0 where
  pub required_paths : List String
  pub status_path : Option String
  pub success_values : Option Items
  pub fail_on_contract_violation : Bool

abbrev is_found : Option Value → Bool
is_found none = false
is_found (some v) = true

unfoldable pub missing_paths : Value → List String → List String
unfolding path_get
missing_paths output [] = []
missing_paths output (path ∷ paths) =
    let rest = missing_paths output paths in
    if is_found (path_get output (some path)) then rest else path ∷ rest

-- What is found at the status path, if there is one.
unfoldable pub status_found : Value → Option String → Option Value
unfolding path_get
status_found output none = none
status_found output (some String.[]) = none
status_found output (some (String.◌∷◌ c path)) = path_get output (some (String.◌∷◌ c path))

abbrev is_bad : Option Value → Option Items → Bool
is_bad none values = false
is_bad (some v) none = false
is_bad (some v) (some values) = not (any_equal v values)

unfoldable pub is_bad_status : Value → Contract → Bool
unfolding status_found
is_bad_status output c = is_bad (status_found output c.status_path) c.success_values

abbrev pub no_paths : List String → Bool
no_paths [] = true
no_paths (p ∷ ps) = false

unfoldable pub is_valid : Value → Contract → Bool
unfolding missing_paths is_bad_status
is_valid output c = no_paths (missing_paths output c.required_paths) && not (is_bad_status output c)

abbrev texts : List String → Items
texts [] = nil
texts (s ∷ ss) = cons (str s) (texts ss)

abbrev text_or_null : Option String → Value
text_or_null none = null
text_or_null (some s) = str s

-- what is put under "contract_validation"
unfoldable pub validation : Value → Contract → Value
unfolding is_valid missing_paths status_found
validation output c = obj (
    field "valid" (bool (is_valid output c)) (
      field "missing_paths" (arr (texts (missing_paths output c.required_paths))) (
        field "status_path" (text_or_null c.status_path)
          (field "status_value" (or_null (status_found output c.status_path)) end))))

abbrev pub with_validation : Value → Contract → Value
with_validation (obj fs) c = obj (put_field "contract_validation" (validation (obj fs) c) fs)
with_validation v c = v

-- A dict is validated, and an operation without a contract accepts what it has. The answer is the
-- output as it is then; a violation is the ValueError.
unfoldable pub validate_output : Option Contract → Value → Result Value Value
unfolding is_valid validation put_field
validate_output (some c) (obj fs) =
    if not (is_valid (obj fs) c) && c.fail_on_contract_violation
    then failed_with (with_validation (obj fs) c)
    else returned (with_validation (obj fs) c)
validate_output _ output = returned output
