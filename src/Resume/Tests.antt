-- ===== src/Resume/Tests.antt =====
-- An operation that waits for an approval and is given one.
use nd3x.Prelude.{ℕ, ◌≡◌, refl, true, String, Option, none, some, List, [], ◌∷◌}
use nd3x.Json.{Value, obj, arr, str, bool, null, nil, field, end, empty_dict, put_field}
use nd3x.Board.Words.{is_word}
use nd3x.Policy.Text.{strip}
use nd3x.Table.{find, modify}
use nd3x.Engine.Loop
use nd3x.Engine.Loop.{Context, stuck}
use nd3x.Runs.{RunStatus, OperationStatus, WorkflowRun, WorkflowOperationRun, Db, edit_run, get_run}
use nd3x.Runs.Marks.{mark_running}
use nd3x.Runs.Operations.{
  edit_operation_run, mark_operation_running, append_operation_resume_history, finish_operation_run,
  progress_with_history, resume_history,
}
use nd3x.Runs.Queries.{get_waiting_operation_run, order_by}
use nd3x.Runs.Calls.{Call, history}
use nd3x.Workflows.{Graphs, get_with_operations, get_by_id}
use nd3x.Workflows.Graph.{OperationRow}
use nd3x.Execution.WholeRun.{RunExit, LoopEnd, left}
use nd3x.RunService.{pending_of}
use nd3x.Resume.{
  Answer, BodyResult, answers, Resumed, read_answer, resume_waiting_operation, resume_run,
  resume_in, start_answer, take_answer, take_result, close_resumed,
}
use nd3x.Resume.Returned.{Settled, as_run}
use nd3x.Resume.Settles.{resume_waiting_operation-Settled}

abbrev no_text : Value → String
no_text v = ""

abbrev no_time : String → Option ℕ
no_time s = none

abbrev nobody : ℕ → List Call
nobody k = []

abbrev finishes : Context → LoopEnd
finishes c = left (Loop.Exit.finished c)

abbrev gets_stuck : Context → LoopEnd
gets_stuck c = left (Loop.Exit.failure (stuck []) c)

abbrev no_payload : Loop.Exit → Value
no_payload e = empty_dict

abbrev same : Value → Value
same v = v

abbrev done : Answer → BodyResult
done a = answers (obj (field "answer" (str "done") end)) (arr nil)

abbrev run : WorkflowRun
run = record {
  id = 4;
  workflow_id = 1;
  trigger_type = "manual";
  status = RunStatus.waiting;
  input_payload = empty_dict;
  result_payload = null;
  error = none;
  created_at = 1;
  started_at = some 2;
  finished_at = none;
  parent_run_id = none;
  parent_operation_run_id = none;
  parent_item_index = none;
  cancel_requested_at = none;
  cancelled_at = none;
}

abbrev operation_run : WorkflowOperationRun
operation_run = record {
  id = 7;
  workflow_run_id = 4;
  workflow_operation_id = 30;
  status = OperationStatus.waiting_for_approval;
  input_payload = empty_dict;
  output_payload = null;
  error = none;
  trace = arr nil;
  started_at = some 2;
  finished_at = none;
  progress_payload =
      obj (field "pending_state" (obj (field "type" (str "workflow_tool_approval") end)) end);
  last_heartbeat_at = none;
}

abbrev waiting_db : Db
waiting_db = record { runs = run ∷ []; operation_runs = operation_run ∷ [] }

abbrev tool : OperationRow
tool = record {
  id = 30;
  workflow_id = 1;
  name = "tool";
  operation_type = "tool";
  operation_ref_id = 1;
  config = empty_dict;
  depends_on = [];
  on_success_follow_up = none;
  on_failure_follow_up = none;
  join_strategy = "all";
  timeout_seconds = none;
  retry_policy = null;
  position = 0;
}

abbrev graphs : Graphs
graphs = record {
  workflows =
      record {
        id = 1;
        name = "tools";
        description = none;
        input_schema = empty_dict;
        schedule_cron = none;
        is_enabled = true;
        created_at = 1;
        updated_at = 1;
        deleted_at = none;
      }
      ∷ [];
  operations = tool ∷ [];
}

abbrev approval : Value
approval = obj (field "type" (str "approval") (field "approved" (bool true) end))

abbrev resumed_with : (Context → LoopEnd) → Resumed
resumed_with loop =
    resume_waiting_operation no_text no_time 9 nobody loop no_payload same done 4 30 approval
      (arr nil) graphs waiting_db

run-found : get_run 4 waiting_db ≡ some run
unfolding find
run-found = refl

operation_run-waits : get_waiting_operation_run 4 (some 30) waiting_db ≡ some operation_run
unfolding get_waiting_operation_run order_by
operation_run-waits = refl

returns : as_run (resumed_with finishes).exit ≡ some RunExit.run_finished
unfolding resume_waiting_operation resume_run resume_in start_answer read_answer take_answer
    take_result close_resumed find get_waiting_operation_run order_by history get_with_operations
    get_by_id is_word strip mark_running edit_run mark_operation_running edit_operation_run
    append_operation_resume_history finish_operation_run progress_with_history modify pending_of
    resume_history put_field
returns = refl

resume_waiting_operation-Settled_example :
    Settled 4 7 (nobody 3) (resumed_with finishes) RunExit.run_finished
unfolding find
resume_waiting_operation-Settled_example =
    resume_waiting_operation-Settled run operation_run no_text no_time 9 nobody finishes no_payload
      same done 4 30 approval (arr nil) graphs waiting_db RunExit.run_finished run-found
      operation_run-waits refl returns

abbrev status_of : Option WorkflowRun → Option RunStatus
status_of none = none
status_of (some r) = some r.status

-- Where the graph gets stuck after a resume, the exception leaves the run at `running`.
stuck_runs : status_of (get_run 4 (resumed_with gets_stuck).db) ≡ some RunStatus.running
unfolding resume_waiting_operation resume_run resume_in start_answer read_answer take_answer
    take_result close_resumed find get_waiting_operation_run order_by history get_with_operations
    get_by_id is_word strip mark_running edit_run mark_operation_running edit_operation_run
    append_operation_resume_history finish_operation_run progress_with_history modify pending_of
    resume_history put_field
stuck_runs = refl
