-- ===== src/Payload/Tests.antt =====
-- Payloads of src/services/workflows/workflow_executor.py at concrete values.
use nd3x.Prelude.{ℕ, ◌≡◌, refl, false, not, String, Option, none, some, [], ltb, leb}
use nd3x.Prelude.Results.{returned}
use nd3x.Json.{pos, Value, num, str, obj, field, end, Fields, empty_dict, put_field}
use nd3x.Policy.Text.{strip}
use nd3x.Board.Words.{is_word}
use nd3x.Payload.{get_part, Node, Scope, path_get, walk}
use nd3x.Payload.Words.{field?, split_dots}
use nd3x.Payload.Conditions.{
  equals, not_equals, read_operator, map_result, evaluate_condition_operator,
}
use nd3x.Payload.Conditions.Opposites.{evaluate-Opposite, equality}
use nd3x.Payload.Template.{resolve_template_value}
use nd3x.Payload.Template.SecretTexts.{NamesSecret, of_secret, of_secrets, plain, piece}
use nd3x.Payload.Template.Secrets.{
  resolve_template_value-Inert, Inert, inert_obj, inert_str, inert_field, inert_end,
}
use nd3x.Payload.Mapping.{
  spec_of, nothing_mapped, resolve_each, resolve_input_mapping_source, mapped_inputs_of,
  take_source, resolve_from,
}
use nd3x.Payload.Mapping.Complete.{mapped_inputs_of-Supplied, Supplied}

abbrev no_text : Value → String
no_text v = ""

abbrev natural : Value → Option ℕ
natural (num (pos n)) = some n
natural v = none

abbrev two : Value
two = num (pos 2)

abbrev three : Value
three = num (pos 3)

abbrev nested : Value
nested = obj (field "a" (obj (field "b" two end)) end)

a-b_two : path_get nested (some "a.b") ≡ some two
unfolding path_get walk split_dots get_part
a-b_two = refl

equals-read : read_operator "equals" ≡ some equals
unfolding read_operator is_word strip
equals-read = refl

not_equals-read : read_operator "not_equals" ≡ some not_equals
unfolding read_operator is_word strip
not_equals-read = refl

evaluate-Opposite_example :
    (evaluate_condition_operator natural ltb leb (some two) "not_equals" three
      ≡ map_result not (evaluate_condition_operator natural ltb leb (some two) "equals" three))
    × (evaluate_condition_operator natural ltb leb none "Greater_Than" three
        ≡ returned (is_word "not_exists" "Greater_Than"))
evaluate-Opposite_example =
    evaluate-Opposite natural ltb leb equals not_equals "equals" "not_equals" "Greater_Than" two
      three equality equals-read not_equals-read

abbrev scope : Scope
scope = record {
  input = obj (field "name" (str "Ada") end);
  workflow_variables = empty_dict;
  operation_outputs = [];
  run_result = empty_dict;
  operations = [];
}

abbrev secret_configuration : Value
secret_configuration = obj (
    field "url" (str "https://example.org/${secret.key}?token=${secrets.token}") (
      field "headers" (obj (field "authorization" (str "Bearer ${secrets.token}") end))
        (field "key" (str "${secret.key}") end)))

stripped_token : strip "secrets.token" ≡ "secrets.token"
unfolding strip
stripped_token = refl

stripped_key : strip "secret.key" ≡ "secret.key"
unfolding strip
stripped_key = refl

token-NamesSecret : NamesSecret "secrets.token"
token-NamesSecret = of_secrets "token" refl stripped_token refl

key-NamesSecret : NamesSecret "secret.key"
key-NamesSecret = of_secret "key" refl stripped_key refl

secret_configuration-Inert : Inert secret_configuration
secret_configuration-Inert = inert_obj (
    inert_field
      (inert_str (
        piece "https://example.org/" "secret.key" "?token=${secrets.token}" refl refl
          key-NamesSecret
          (piece "?token=" "secrets.token" "" refl refl token-NamesSecret (plain refl))))
      (inert_field
        (inert_obj (
          inert_field
            (inert_str
              (piece "Bearer " "secrets.token" "" refl refl token-NamesSecret (plain refl)))
            inert_end))
        (inert_field (inert_str (piece "" "secret.key" "" refl refl key-NamesSecret (plain refl)))
          inert_end)))

resolve_template_value-Inert_example :
    resolve_template_value no_text scope none false secret_configuration
    ≡ returned secret_configuration
resolve_template_value-Inert_example =
    resolve_template_value-Inert no_text scope none false secret_configuration
      secret_configuration-Inert

abbrev node : Node
node = record { id = 1; name = "greet"; depends_on = [] }

abbrev name_spec : Value
name_spec = obj (field "source" (str "workflow_input") (field "path" (str "name") end))

abbrev mapping : Fields
mapping = field "who" name_spec (field "times" two end)

abbrev inputs : Fields
inputs = field "who" (str "Ada") (field "times" two end)

mapping-inputs :
    mapped_inputs_of no_text node scope (resolve_each no_text node scope mapping nothing_mapped)
    ≡ returned inputs
unfolding mapped_inputs_of resolve_each take_source resolve_input_mapping_source resolve_from
    path_get walk split_dots put_field is_word strip get_part
mapping-inputs = refl

mapped_inputs_of-Supplied_example :
    (v : Value) × Supplied
      (resolve_input_mapping_source no_text (spec_of name_spec) node scope)
      (spec_of name_spec)
      v
    × (field? "who" inputs ≡ some v)
mapped_inputs_of-Supplied_example =
    mapped_inputs_of-Supplied no_text node scope mapping inputs "who" name_spec refl mapping-inputs
      refl
