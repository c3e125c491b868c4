-- ===== src/Payload/Mapping.antt =====
-- `_resolve_input_mapping` of src/services/workflows/workflow_executor.py: the inputs that an
-- operation is given.
pub mod Complete
use nd3x.Prelude.{
  ℕ, zero, suc, Bool, true, false, ◌&&◌, ◌||◌, not, String, Option, none, some, List, [], ◌∷◌, ◌++◌,
  any, str_eq, if◌then◌else◌,
}
use nd3x.Prelude.Results.{Result, returned, failed_with, ◌>>=◌}
use nd3x.Json.{
  ℤ, pos, negsuc, Value, obj, arr, str, null, Fields, field, end, Items, cons, nil, truthy,
  get_field, has_key, or_value, empty_dict, put_field,
}
use nd3x.Engine.{Dict, lookup}
use nd3x.Board.Words.{is_word}
use nd3x.Payload.{Node, Scope, path_get, operation_id_by_text, last_output, or_null}
use nd3x.Payload.Words.{value_eq, int_of, is_null}

pub data Error : Type 0 where
  unsupported_source not_an_id not_an_object required_missing : Error

abbrev pub last_of : List ℕ → Option ℕ
last_of [] = none
last_of (x ∷ []) = some x
last_of (x ∷ y ∷ xs) = last_of (y ∷ xs)

abbrev lookup_int : ℤ → Dict Value → Value
lookup_int (pos n) outputs = or_null (lookup n outputs)
lookup_int (negsuc n) outputs = null

-- outputs.get(int(op_id)), where int() can raise
unfoldable pub output_of : Value → Dict Value → Result Error Value
unfolding int_of
output_of id outputs = elim (int_of id) [
  | none ↦ failed_with not_an_id
  | some n ↦ returned (lookup_int n outputs)
]

-- the output of the last dependency, or else of the operation with the largest id
unfoldable pub output_before : Node → Dict Value → Value
unfolding last_output
output_before op outputs = elim (last_of op.depends_on) [
  | some id ↦ or_null (lookup id outputs)
  | none ↦ elim (last_output outputs) [ none ↦ null | some (k, v) ↦ v ]
]

abbrev pub item_of : Value → Value
item_of (obj fs) = if has_key "for_each_item" fs then get_field "for_each_item" fs else obj fs
item_of v = v

pub data Source : Type 0 where
  static workflow_input workflow_variables operation_output : Source
  previous_operation_output for_each_item : Source

abbrev pub source_named : String → Option Source
source_named text =
    if is_word "static" text
    then some static
    else (if is_word "workflow_input" text
        then some workflow_input
        else (if is_word "workflow_variables" text
            then some workflow_variables
            else (if is_word "operation_output" text
                then some operation_output
                else (if is_word "previous_operation_output" text
                    then some previous_operation_output
                    else (if is_word "for_each_item" text then some for_each_item else none)))))

-- What a specification of an input becomes: a value that is not a dict stands for itself.
abbrev pub spec_of : Value → Fields
spec_of (obj fs) = fs
spec_of v = field "source" (str "static") (field "value" v end)

pub record Problem : Type 0 where
  pub key : String
  pub error : Error

pub record Mapped : Type 0 where
  pub inputs : Fields
  pub missing : List String
  pub errors : List Problem

abbrev pub is_key : String → Problem → Bool
is_key key p = str_eq p.key key

-- Not found, and the exception if there was one.
unfoldable pub not_found : String → Fields → Mapped → Mapped
unfolding put_field
not_found key spec m =
    if truthy (get_field "required" spec)
    then record m {
      missing = m.missing ++ key ∷ [];
      errors =
          if any (is_key key) m.errors
          then m.errors
          else m.errors ++ record { key = key; error = required_missing } ∷ [];
    }
    else record m { inputs = put_field key (get_field "default" spec) m.inputs }

abbrev pub with_error : String → Error → Mapped → Mapped
with_error key e m = record m { errors = m.errors ++ record { key = key; error = e } ∷ [] }

unfoldable pub take_source : String → Fields → Result Error (Option Value) → Mapped → Mapped
unfolding put_field not_found
take_source key spec (returned (some v)) m = record m { inputs = put_field key v m.inputs }
take_source key spec (returned none) m = not_found key spec m
take_source key spec (failed_with e) m = not_found key spec (with_error key e m)

abbrev pub nothing_mapped : Mapped
nothing_mapped = record { inputs = end; missing = []; errors = [] }

abbrev id_by_key : Option String → List Node → Option ℕ
id_by_key none ops = none
id_by_key (some key) ops = operation_id_by_text key ops

-- str() of a value that is no text is a parameter.
module _ (text_of : Value → String) where
  abbrev pub text_or : String → Value → String
  text_or default v = if truthy v then elim v [ str s ↦ s | other ↦ text_of other ] else default

  -- None, or str(value)
  abbrev pub optional_text : Value → Option String
  optional_text null = none
  optional_text (str s) = some s
  optional_text v = some (text_of v)

  -- spec.get("operation_id") or self._operation_id_by_key(...)
  unfoldable pub id_of_spec : Fields → List Node → Value
  unfolding operation_id_by_text
  id_of_spec spec ops =
      if truthy (get_field "operation_id" spec)
      then get_field "operation_id" spec
      else elim (id_by_key (optional_text (get_field "operation_key" spec)) ops) [
        | none ↦ null
        | some id ↦ Value.num (pos id)
      ]

  unfoldable pub resolve_operation_source : Fields → Scope → Result Error (Option Value)
  unfolding id_of_spec output_of path_get
  resolve_operation_source spec scope =
      let id = id_of_spec spec scope.operations in
      if is_null id
      then returned none
      else (output_of id scope.operation_outputs >>= λ v.
          returned (path_get v (optional_text (get_field "path" spec))))

  unfoldable pub resolve_from : Option Source → Fields → Node → Scope → Result Error (Option Value)
  unfolding resolve_operation_source output_before path_get
  resolve_from (some static) spec op scope = returned (some (get_field "value" spec))
  resolve_from (some workflow_input) spec op scope =
      returned (path_get (or_value scope.input empty_dict) (optional_text (get_field "path" spec)))
  resolve_from (some workflow_variables) spec op scope = returned (
      path_get (or_value scope.workflow_variables empty_dict)
        (optional_text (get_field "path" spec)))
  resolve_from (some operation_output) spec op scope = resolve_operation_source spec scope
  resolve_from (some previous_operation_output) spec op scope =
      returned (
        path_get (output_before op scope.operation_outputs) (optional_text (get_field "path" spec)))
  resolve_from (some for_each_item) spec op scope =
      returned (
        path_get (item_of (or_value scope.input empty_dict))
          (optional_text (get_field "path" spec)))
  resolve_from none spec op scope = failed_with unsupported_source

  unfoldable pub resolve_input_mapping_source : Fields → Node → Scope → Result Error (Option Value)
  unfolding resolve_from
  resolve_input_mapping_source spec op scope =
      resolve_from (source_named (text_or "static" (get_field "source" spec))) spec op scope

  module _ (op : Node) (scope : Scope) where
    -- `for key, raw_spec in mapping.items()`
    unfoldable pub resolve_each : Fields → Mapped → Mapped
    unfolding take_source resolve_input_mapping_source
    resolve_each end m = m
    resolve_each (field key raw mapping) m =
        resolve_each mapping
          (take_source key (spec_of raw) (resolve_input_mapping_source (spec_of raw) op scope) m)

    unfoldable pub resolve_input_mapping : Value → Result Error Mapped
    unfolding resolve_each
    resolve_input_mapping (obj mapping) = returned (resolve_each mapping nothing_mapped)
    resolve_input_mapping v =
        if truthy v then failed_with not_an_object else returned nothing_mapped

    -- The inputs that `_build_operation_input` hands on, or the failure that it raises.
    unfoldable pub mapped_inputs_of : Mapped → Result (List String × List Problem) Fields
    mapped_inputs_of m = elim (m.missing) [
      | [] ↦ elim (m.errors) [ [] ↦ returned m.inputs | p ∷ ps ↦ failed_with ([], p ∷ ps) ]
      | k ∷ ks ↦ failed_with (k ∷ ks, m.errors)
    ]
