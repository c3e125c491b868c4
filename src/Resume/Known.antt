-- ===== src/Resume/Known.antt =====
-- `_context_from_operation_runs` of src/services/workflows/workflow_executor.py: the context of a run
-- that goes on, from the rows of its operations.
use nd3x.Prelude.{
  ℕ, Bool, false, ◌==◌, leb, String, Option, none, some, List, [], ◌∷◌, str_eq, if◌then◌else◌,
}
use nd3x.Json.{
  Value, obj, str, null, Fields, field, end, or_value, empty_dict, get_field, get_key, put_field,
}
use nd3x.Runs.{OperationStatus, WorkflowRun, WorkflowOperationRun, Db}
use nd3x.Runs.Queries.{order_by}
use nd3x.Engine.{Dict, put, NodeStatus}

-- The context that the rows of a run tell of.
pub record Rebuilt : Type 0 where
  pub operation_statuses : Dict NodeStatus
  pub operation_outputs : Dict Value
  pub workflow_variables : Fields

-- the fields of a dict; any other value has none
abbrev pub fields_of : Value → Fields
fields_of (obj fs) = fs
fields_of v = end

abbrev pub update_fields : Fields → Fields → Fields
update_fields fs end = fs
update_fields fs (field k v gs) = update_fields (put_field k v fs) gs

abbrev pub is_str : String → Value → Bool
is_str s (str t) = str_eq t s
is_str s v = false

-- The variables that a set_variable operation has set.
unfoldable pub variables_after : Value → Fields → Fields
variables_after (obj out) vars =
    if is_str "set_variable" (get_field "mode" out)
    then update_fields vars (fields_of (get_field "variables_set" out))
    else vars
variables_after v vars = vars

abbrev error_value : Option String → Value
error_value none = null
error_value (some e) = str e

unfoldable pub take_row : Rebuilt → WorkflowOperationRun → Rebuilt
unfolding variables_after put
take_row c o = elim (o.status) [
  | OperationStatus.success ↦ record {
    operation_statuses = put o.workflow_operation_id NodeStatus.success c.operation_statuses;
    operation_outputs =
        put o.workflow_operation_id (or_value o.output_payload empty_dict) c.operation_outputs;
    workflow_variables =
        variables_after (or_value o.output_payload empty_dict) c.workflow_variables;
  }
  | OperationStatus.failed ↦ record {
    operation_statuses = put o.workflow_operation_id NodeStatus.failed c.operation_statuses;
    operation_outputs =
        put o.workflow_operation_id (obj (field "error" (error_value o.error) end))
          c.operation_outputs;
    workflow_variables = c.workflow_variables;
  }
  | _ ↦ c
]

unfoldable pub take_rows : Rebuilt → List WorkflowOperationRun → Rebuilt
unfolding take_row
take_rows c [] = c
take_rows c (o ∷ os) = take_rows (take_row c o) os

abbrev rows_of_run : ℕ → List WorkflowOperationRun → List WorkflowOperationRun
rows_of_run id [] = []
rows_of_run id (o ∷ os) =
    let rest = rows_of_run id os in if o.workflow_run_id == id then o ∷ rest else rest

unfoldable pub rebuilt_from : WorkflowRun → Db → Rebuilt
unfolding take_rows order_by
rebuilt_from r db =
    take_rows
      (record {
        operation_statuses = [];
        operation_outputs = [];
        workflow_variables = fields_of (get_key "workflow_variables" r.result_payload);
      })
      (order_by (λ a b. leb a.id b.id) (rows_of_run r.id db.operation_runs))
