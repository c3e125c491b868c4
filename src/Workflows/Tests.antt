-- ===== src/Workflows/Tests.antt =====
-- Graphs of two operations, of which the second waits for the first.
use nd3x.Prelude.{ℕ, ◌+◌, true, ◌≡◌, refl, String, Option, none, some, List, [], ◌∷◌, all}
use nd3x.Prelude.Results.{returned, failed_with}
use nd3x.Json.{Value, empty_dict}
use nd3x.Engine.{lookup, put}
use nd3x.Table.{modify}
use nd3x.Workflows.{Workflow, Graphs, WorkflowCreate, create_workflow}
use nd3x.Workflows.Graph.{
  unknown_position, integrity_error, OperationCreate, OperationRow, replace_operations,
  store_operations, resolve_references, resolve_one, resolve_position_list,
  resolve_position_or_none, bare_row, normalize_all, normalize_operation_payload,
}
use nd3x.Workflows.Names.{create_workflow-taken}
use nd3x.Workflows.References.{keys, refers_within, replace_operations-closed}

abbrev operation : String → ℕ → List ℕ → Option ℕ → OperationCreate
operation name position depends_on on_failure = record {
  name = name;
  operation_type = "assistant";
  operation_ref_id = 1;
  config = Value.null;
  depends_on = depends_on;
  on_success_follow_up = none;
  on_failure_follow_up = on_failure;
  join_strategy = "";
  timeout_seconds = none;
  retry_policy = empty_dict;
  position = position;
}

abbrev from_seven : ℕ → ℕ
from_seven k = 7 + k

abbrev two_operations : List OperationCreate
two_operations = operation "fetch" 1 [] (some 2) ∷ operation "report" 2 (1 ∷ []) none ∷ []

abbrev stored_row : OperationCreate → ℕ → List ℕ → Option ℕ → OperationRow
stored_row op id depends_on on_failure = record {
  id = id;
  workflow_id = 5;
  name = op.name;
  operation_type = op.operation_type;
  operation_ref_id = op.operation_ref_id;
  config = empty_dict;
  depends_on = depends_on;
  on_success_follow_up = none;
  on_failure_follow_up = on_failure;
  join_strategy = "all";
  timeout_seconds = none;
  retry_policy = op.retry_policy;
  position = op.position;
}

abbrev two_rows : List OperationRow
two_rows =
    stored_row (operation "fetch" 1 [] none) 7 [] (some 8)
    ∷ stored_row (operation "report" 2 [] none) 8 (7 ∷ []) none
    ∷ []

two_rows_stored : replace_operations 5 from_seven two_operations ≡ returned two_rows
unfolding replace_operations store_operations resolve_references resolve_one resolve_position_list
    resolve_position_or_none bare_row normalize_all normalize_operation_payload lookup put modify
two_rows_stored = refl

replace_operations-closed_example : all (refers_within (keys two_rows)) two_rows ≡ true
replace_operations-closed_example =
    replace_operations-closed 5 from_seven two_operations two_rows two_rows_stored

-- Two operations that both keep the schema's default position of 100 share it, so that a reference
-- to the first is refused.
shared_position :
    replace_operations 5 from_seven
      (operation "fetch" 100 [] none ∷ operation "report" 100 (1 ∷ []) none ∷ [])
    ≡ failed_with (unknown_position 1)
unfolding replace_operations store_operations resolve_references resolve_one resolve_position_list
    resolve_position_or_none bare_row normalize_all normalize_operation_payload lookup put
shared_position = refl

abbrev workflow : ℕ → String → Option ℕ → Workflow
workflow id name deleted_at = record {
  id = id;
  name = name;
  description = none;
  input_schema = empty_dict;
  schedule_cron = none;
  is_enabled = true;
  created_at = 1;
  updated_at = 1;
  deleted_at = deleted_at;
}

abbrev one_deleted : Graphs
one_deleted = record { workflows = workflow 1 "daily" (some 4) ∷ []; operations = [] }

abbrev sent : WorkflowCreate
sent = record {
  name = "daily";
  description = none;
  input_schema = Value.null;
  schedule_cron = none;
  is_enabled = true;
  operations = two_operations;
}

create_workflow-taken_example :
    create_workflow 2 from_seven 9 sent one_deleted ≡ failed_with integrity_error
create_workflow-taken_example = create_workflow-taken 2 from_seven 9 sent one_deleted refl
