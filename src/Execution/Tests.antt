-- ===== src/Execution/Tests.antt =====
-- Operations that fail first, and one whose cancellation is seen too late.
use nd3x.Prelude.{
  ℕ, zero, suc, ◌-◌, ◌≡◌, refl, true, false, Option, none, some, List, [], ◌∷◌, String,
}
use nd3x.Json.{Value, empty_dict, null}
use nd3x.Table.{find, modify, modify_where}
use nd3x.Runs.{
  RunStatus, OperationStatus, WorkflowRun, WorkflowOperationRun, Db, get_run, get_operation_run,
}
use nd3x.Runs.Marks.{is_cancel_requested}
use nd3x.Runs.Operations.{create_operation_run}
use nd3x.Runs.Cancel.{request_cancel_run, request_cancel_child_runs, cancel_each}
use nd3x.Runs.Calls.{Call, ask_cancel, history, step}
use nd3x.Execution.{
  BodyEnd, output, raises, RetryPolicy, got, retry, max_attempts_of, Ended, input,
  execute_single_operation,
}
use nd3x.Execution.Retries.{IsFirst, retry-IsFirst}
use nd3x.Engine.Loop
use nd3x.Engine.Loop.{Context, Failure, finished}
use nd3x.Workflows.{Workflow, Graphs}
use nd3x.Execution.WholeRun.{LoopEnd, left, execute_run}
use nd3x.Execution.WholeRun.Left.{IsLeft}
use nd3x.Execution.WholeRun.Ends.{execute_run-ends}

abbrev fails_twice : ℕ → BodyEnd
fails_twice zero = raises "busy"
fails_twice (suc zero) = raises "busy"
fails_twice (suc (suc zero)) = raises "busy"
fails_twice (suc (suc (suc n))) = output (Value.str "done")

abbrev often : RetryPolicy
often = record { is_empty = false; max_attempts = 9; retry_on_error_contains = [] }

third_attempt :
    retry fails_twice (max_attempts_of often - 1) 2 "busy" ≡ got (output (Value.str "done")) 3
unfolding retry max_attempts_of
third_attempt = refl

retry-IsFirst_example : IsFirst fails_twice 2 5 (output (Value.str "done")) 3
retry-IsFirst_example =
    retry-IsFirst fails_twice often "busy" (output (Value.str "done")) 3 third_attempt

abbrev running_run : WorkflowRun
running_run = record {
  id = 4;
  workflow_id = 1;
  trigger_type = "manual";
  status = RunStatus.running;
  input_payload = empty_dict;
  result_payload = null;
  error = none;
  created_at = 1;
  started_at = some 2;
  finished_at = none;
  parent_run_id = none;
  parent_operation_run_id = none;
  parent_item_index = none;
  cancel_requested_at = none;
  cancelled_at = none;
}

abbrev start : Db
start = record { runs = running_run ∷ []; operation_runs = [] }

abbrev nobody : ℕ → List Call
nobody k = []

abbrev same : Value → Value
same v = v

abbrev done : Ended
done =
    execute_single_operation 7 4 30 9 nobody fails_twice null same often none true false
      (input empty_dict) start

abbrev cancels_meanwhile : ℕ → List Call
cancels_meanwhile (suc zero) = ask_cancel 4 8 ∷ []
cancels_meanwhile _ = []

abbrev answers : ℕ → BodyEnd
answers n = output (Value.str "done")

abbrev late : Ended
late =
    execute_single_operation 7 4 30 9 cancels_meanwhile answers null same often none true false
      (input empty_dict) start

abbrev status_of : Option WorkflowOperationRun → Option OperationStatus
status_of none = none
status_of (some o) = some o.status

-- The row of an operation whose body has answered stays at `running` if the cancellation of the run
-- was requested while the body ran.
cancelled_late_runs : status_of (get_operation_run 7 late.db) ≡ some OperationStatus.running
unfolding execute_single_operation history step find is_cancel_requested request_cancel_run
    request_cancel_child_runs cancel_each create_operation_run modify modify_where
cancelled_late_runs = refl

abbrev greeting : Workflow
greeting = record {
  id = 1;
  name = "greeting";
  description = none;
  input_schema = empty_dict;
  schedule_cron = none;
  is_enabled = true;
  created_at = 1;
  updated_at = 1;
  deleted_at = none;
}

abbrev graphs : Graphs
graphs = record { workflows = greeting ∷ []; operations = [] }

abbrev no_operations : Context → LoopEnd
no_operations c = left (finished c)

abbrev nothing_said : Failure → String
nothing_said f = ""

abbrev no_payload : Loop.Exit → Value
no_payload e = empty_dict

start-running : get_run 4 (history start (nobody 0)) ≡ some running_run
unfolding history find
start-running = refl

execute_run-ends_example :
    IsLeft 4 (execute_run 4 9 nobody no_payload nothing_said no_operations graphs start)
execute_run-ends_example =
    execute_run-ends 4 9 nobody no_payload nothing_said no_operations graphs start running_run
      start-running
