-- ===== src/Payload.antt =====
-- src/services/workflows/workflow_executor.py: how an operation reaches the data of its run, by
-- paths into JSON values and by references to the inputs, the variables and the outputs of others.
--
-- str() of a value that is no text is the parameter `text_of`. A missing value is none, where the
-- source answers (False, None).
pub mod Words
pub mod Template
pub mod Paths
pub mod Conditions
pub mod Mapping
pub mod Contract
mod Tests
use Prim.Native.String.{◌++◌}
use nd3x.Prelude.{
  ℕ, zero, suc, Bool, true, false, ◌&&◌, ◌||◌, not, String, Option, none, some, List, [], ◌∷◌, ◌==◌,
  leb, str_eq, if◌then◌else◌,
}
use nd3x.Prelude.Results.{Result, returned, failed_with, ◌>>=◌}
use nd3x.Json.{
  ℤ, pos, negsuc, Value, obj, arr, str, num, bool, null, Fields, field, end, Items, cons, nil,
  truthy, get_field, get_key, has_key, or_value, empty_dict,
}
use nd3x.Policy.Text.{strip, is_empty_text}
use nd3x.Engine.{Dict, lookup}
use nd3x.Payload.Words.{
  split_dots, isdigit, number_of, after_prefix, strip_dots, partition_dot, field?, item?, is_null,
  int_of,
}

-- An operation of the graph, as far as the payloads read it.
pub record Node : Type 0 where
  pub id : ℕ
  pub name : String
  pub depends_on : List ℕ

-- The context of a run.
pub record Scope : Type 0 where
  pub input : Value
  pub workflow_variables : Value
  pub operation_outputs : Dict Value
  pub run_result : Value
  pub operations : List Node

-- A step of `_path_get`: the key of a dict, or the index of a list.
unfoldable pub get_part : String → Value → Option Value
get_part part (obj fs) = field? part fs
get_part part (arr xs) = if isdigit part then item? (number_of part) xs else none
get_part part _ = none

unfoldable pub walk : List String → Value → Option Value
walk [] v = some v
walk (part ∷ parts) v = elim (get_part part v) [ none ↦ none | some w ↦ walk parts w ]

unfoldable pub path_get : Value → Option String → Option Value
unfolding walk
path_get v none = some v
path_get v (some String.[]) = some v
path_get v (some (String.◌∷◌ c path)) = walk (split_dots (String.◌∷◌ c path)) v

-- str(id) == key
abbrev pub is_id_text : ℕ → String → Bool
is_id_text zero key = str_eq key "0"
is_id_text (suc n) String.[] = false
is_id_text (suc n) (String.◌∷◌ c s) =
    isdigit (String.◌∷◌ c s)
    && not (str_eq (String.◌∷◌ c "") "0")
    && number_of (String.◌∷◌ c s) == suc n

unfoldable pub operation_id_by_text : String → List Node → Option ℕ
operation_id_by_text key [] = none
operation_id_by_text key (op ∷ ops) =
    let rest = operation_id_by_text key ops in
    if str_eq op.name key || is_id_text op.id key then some op.id else rest

-- value not in (None, "")
abbrev pub is_given : Value → Bool
is_given null = false
is_given (str String.[]) = false
is_given _ = true

-- the first of the keys that is given
abbrev pub first_given : List String → Fields → Option Value
first_given [] fs = none
first_given (k ∷ ks) fs =
    let rest = first_given ks fs in
    if is_given (get_field k fs) then some (get_field k fs) else rest

abbrev pub or_else : Option Value → Value → Value
or_else none v = v
or_else (some w) v = w

-- the content of a tool's result
unfoldable pub result_value : Value → Value
result_value (obj fs) =
    or_else (first_given ("content_text" ∷ "content" ∷ "text" ∷ "markdown" ∷ "value" ∷ []) fs)
      (obj fs)
result_value v = v

abbrev truthy_value : Value → Option Value
truthy_value v = if truthy v then some v else none

-- the answer or the summary of `downstream_handoff`
unfoldable pub handoff_value : Value → Option Value
handoff_value (obj dh) =
    if truthy (get_field "full_answer" dh)
    then some (get_field "full_answer" dh)
    else truthy_value (get_field "summary" dh)
handoff_value _ = none

abbrev pub is_mode : String → Value → Bool
is_mode word (str s) = str_eq s word
is_mode word _ = false

unfoldable pub operation_output_value : Value → Value
unfolding result_value handoff_value
operation_output_value (obj out) =
    if is_given (get_field "answer" out)
    then get_field "answer" out
    else (if has_key "result" out
        then result_value (get_field "result" out)
        else or_else (handoff_value (get_field "downstream_handoff" out)) (
            if is_mode "set_variable" (get_field "mode" out)
            then get_field "variables_set" out
            else obj out))
operation_output_value v = v

-- a path into the raw output, or below `output` into its value
abbrev below_output : Value → Option String → String → Option Value
below_output output none path = path_get output (some path)
below_output output (some rest) path = path_get (operation_output_value output) (some rest)

abbrev or_other : Option String → Option String → Option String
or_other none b = b
or_other (some a) b = some a

unfoldable pub resolve_output_path : Value → String → Option Value
unfolding after_prefix path_get operation_output_value
resolve_output_path output path =
    if str_eq path "output" || str_eq path "output.value"
    then some (operation_output_value output)
    else below_output output
        (or_other (after_prefix "output.value." path) (after_prefix "output." path)) path

abbrev pub or_null : Option Value → Value
or_null none = null
or_null (some v) = v

-- outputs[sorted(outputs.keys())[-1]]
unfoldable pub last_output : Dict Value → Option (ℕ × Value)
last_output [] = none
last_output ((k, v) ∷ d) = elim (last_output d) [
  | none ↦ some (k, v)
  | some (j, w) ↦ if leb k j then some (j, w) else some (k, v)
]

abbrev pub value_of_last : Option (ℕ × Value) → Value
value_of_last none = null
value_of_last (some (k, v)) = v

-- the output of the operation before, or of the one with the largest id
unfoldable pub previous_output : Option ℕ → Dict Value → Value
unfolding last_output
previous_output previous outputs =
    let prev : Value = elim previous [ none ↦ null | some id ↦ or_null (lookup id outputs) ] in
    if is_null prev then value_of_last (last_output outputs) else prev

abbrev key_id : String → List Node → Option ℕ
key_id key ops = if isdigit key then some (number_of key) else operation_id_by_text key ops

-- the reference `<key>.<path>` to the output of an operation
unfoldable pub resolve_operation : String → Scope → Option Value
unfolding partition_dot operation_id_by_text resolve_output_path
resolve_operation rest scope =
    let (key, path) = partition_dot rest in
    elim (key_id key scope.operations) [
      | none ↦ none
      | some id ↦ resolve_output_path (or_null (lookup id scope.operation_outputs)) path
    ]

-- What an expression refers to, by the first of the prefixes that it starts with.
pub data Reference : Type 0 where
  secret unknown : Reference
  input variables previous result : String → Reference
  operation : String → Reference

abbrev branch : Option String → (String → Reference) → Reference → Reference
branch none make other = other
branch (some rest) make other = make rest

unfoldable pub read_reference : String → Reference
unfolding after_prefix strip_dots
read_reference expr =
    branch (after_prefix "secret." expr) (λ _. secret)
      (branch (after_prefix "secrets." expr) (λ _. secret)
        (branch (after_prefix "workflow_input" expr) (λ r. input (strip_dots r))
          (branch (after_prefix "workflow_variables" expr) (λ r. variables (strip_dots r))
            (branch (after_prefix "previous_operation_output" expr) (λ r. previous (strip_dots r))
              (branch (after_prefix "operation." expr) operation (
                branch (after_prefix "operation_output." expr) operation (
                  branch (after_prefix "run_result" expr) (λ r. result (strip_dots r))
                    unknown)))))))

unfoldable pub resolve_read : Reference → String → Scope → Option ℕ → Option Value
unfolding path_get previous_output resolve_operation resolve_output_path
resolve_read secret expr scope prev = some (str ("${" ++ (expr ++ "}")))
resolve_read (input path) expr scope prev = path_get (or_value scope.input empty_dict) (some path)
resolve_read (variables path) expr scope prev =
    path_get (or_value scope.workflow_variables empty_dict) (some path)
resolve_read (previous path) expr scope prev =
    resolve_output_path (previous_output prev scope.operation_outputs) path
resolve_read (operation rest) expr scope prev = resolve_operation rest scope
resolve_read (result path) expr scope prev =
    path_get (or_value scope.run_result empty_dict) (some path)
resolve_read unknown expr scope prev = none

-- _resolve_reference, of an expression that is a text
unfoldable pub resolve_reference : String → Scope → Option ℕ → Option Value
unfolding read_reference resolve_read
resolve_reference expression scope prev =
    let expr = strip expression in resolve_read (read_reference expr) expr scope prev
