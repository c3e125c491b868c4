-- ===== src/Runs.antt =====
-- src/repository/workflow_run_repository.py and the rows of src/models/workflow.py: the database
-- of workflow runs and operation runs. Times are arguments; primary keys are handed out by the
-- database, so the key of a new row is an argument too.
pub mod Marks
pub mod Operations
pub mod Cancel
pub mod Evolution
pub mod Calls
pub mod OperationEvolution
pub mod Sweep
pub mod Descendants
pub mod Termination
pub mod Queries
pub mod Tests
use nd3x.Prelude.{
  ℕ, Bool, true, false, ◌&&◌, ◌||◌, Option, none, some, String, List, ◌==◌, if◌then◌else◌,
}
use nd3x.Json.{Value}
use nd3x.Table.{find, modify, modify_where}

pub data RunStatus : Type 0 where
  queued running cancel_requested waiting success failed cancelled : RunStatus

pub data OperationStatus : Type 0 where
  running waiting_for_user_input waiting_for_approval success failed cancelled : OperationStatus

pub record WorkflowRun : Type 0 where
  pub id : ℕ
  pub workflow_id : ℕ
  pub trigger_type : String
  pub status : RunStatus
  pub input_payload : Value
  pub result_payload : Value
  pub error : Option String
  pub created_at : ℕ
  pub started_at : Option ℕ
  pub finished_at : Option ℕ
  pub parent_run_id : Option ℕ
  pub parent_operation_run_id : Option ℕ
  pub parent_item_index : Option ℕ
  pub cancel_requested_at : Option ℕ
  pub cancelled_at : Option ℕ

pub record WorkflowOperationRun : Type 0 where
  pub id : ℕ
  pub workflow_run_id : ℕ
  pub workflow_operation_id : ℕ
  pub status : OperationStatus
  pub input_payload : Value
  pub output_payload : Value
  pub error : Option String
  pub trace : Value
  pub started_at : Option ℕ
  pub finished_at : Option ℕ
  pub progress_payload : Value
  pub last_heartbeat_at : Option ℕ

pub record Db : Type 0 where
  pub runs : List WorkflowRun
  pub operation_runs : List WorkflowOperationRun

-- TERMINAL_RUN_STATUSES
abbrev pub is_terminal : RunStatus → Bool
is_terminal RunStatus.success = true
is_terminal RunStatus.failed = true
is_terminal RunStatus.cancelled = true
is_terminal _ = false

abbrev pub is_cancel_requested_status : RunStatus → Bool
is_cancel_requested_status cancel_requested = true
is_cancel_requested_status _ = false

-- WorkflowRun.status.in_(["queued", "running"]), the runs that a cascade reaches
abbrev pub is_cancellable : RunStatus → Bool
is_cancellable queued = true
is_cancellable RunStatus.running = true
is_cancellable _ = false

-- TERMINAL_OPERATION_RUN_STATUSES
abbrev pub is_terminal_operation : OperationStatus → Bool
is_terminal_operation OperationStatus.success = true
is_terminal_operation OperationStatus.failed = true
is_terminal_operation OperationStatus.cancelled = true
is_terminal_operation _ = false

-- WAITING_OPERATION_RUN_STATUSES
abbrev pub is_waiting_operation : OperationStatus → Bool
is_waiting_operation waiting_for_user_input = true
is_waiting_operation waiting_for_approval = true
is_waiting_operation _ = false

abbrev pub run_key : WorkflowRun → ℕ
run_key r = r.id

abbrev pub operation_run_key : WorkflowOperationRun → ℕ
operation_run_key o = o.id

abbrev pub get_run : ℕ → Db → Option WorkflowRun
get_run id db = find run_key id db.runs

abbrev pub get_operation_run : ℕ → Db → Option WorkflowOperationRun
get_operation_run id db = find operation_run_key id db.operation_runs

-- What a method returns, with the database that it leaves.
abbrev pub Reply : Type 0
Reply = Option WorkflowRun × Db

-- The shape of the mark methods: fetch the run, answer None if there is none, return it untouched
-- if `held`, and else assign to it and commit.
unfoldable pub edit_run : ℕ → (WorkflowRun → Bool) → (WorkflowRun → WorkflowRun) → Db → Reply
edit_run id held f db = elim (get_run id db) [
  | none ↦ (none, db)
  | some r ↦
      if held r
      then (some r, db)
      else (some (f r), record db { runs = modify run_key id f db.runs })
]
