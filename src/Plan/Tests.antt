-- ===== src/Plan/Tests.antt =====
-- A plan of one call, on which the validator's theorem is applied.
use nd3x.Prelude.{◌≡◌, refl, List, []}
use nd3x.Json.{Value, Items, Fields, str, arr, obj, nil, cons, field, end, get_field}
use nd3x.Plan.{Problem, AllNamed, accepted_plan-AllNamed}

abbrev call : Value
call = obj (field "tool" (str "search") end)

abbrev plan : Fields
plan = field "action" (str "tool_calls ") (field "tool_calls" (arr (cons call nil)) end)

abbrev no_schema : Fields → List Problem
no_schema fs = []

accepted_plan-AllNamed_example :
    (c : Value) × (calls : Items) × (get_field "tool_calls" plan ≡ arr (cons c calls))
    × AllNamed (cons c calls)
unfolding nd3x.Plan.validate_plan nd3x.Plan.semantic_problems nd3x.Plan.stripped
    nd3x.Plan.tool_calls_problems nd3x.Plan.call_problems nd3x.Plan.lacks_name
    nd3x.Policy.Text.strip
accepted_plan-AllNamed_example = accepted_plan-AllNamed no_schema plan refl refl
