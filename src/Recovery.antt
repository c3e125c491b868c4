-- ===== src/Recovery.antt =====
-- src/services/workflows/workflow_run_recovery.py: at startup, runs that were left `running` or
-- `cancel_requested` by a process that died are failed or cancelled, unless they were active
-- within the threshold. `now` and the threshold are arguments, in one unit of time.
pub mod Verdict
mod Tests
use nd3x.Prelude.{
  ℕ, ◌+◌, suc, Bool, true, false, ◌&&◌, not, Option, none, some, String, List, [], ◌∷◌, ◌==◌, ltb,
  keep, if◌then◌else◌,
}
use nd3x.Table.{modify_where}
use nd3x.Runs.{
  RunStatus, OperationStatus, WorkflowRun, WorkflowOperationRun, Db, is_terminal_operation,
}

abbrev pub interrupt_error : String
interrupt_error =
    "Interrupted: the workflow executor stopped (likely a process restart) while this run was in progress. Workflow runs are not resumable across restarts — trigger the workflow again."

abbrev pub later : ℕ → Option ℕ → ℕ
later latest none = latest
later latest (some ts) = if ltb latest ts then ts else latest

-- `run.started_at or run.created_at`; the second is never missing
abbrev start_of : Option ℕ → ℕ → ℕ
start_of none created = created
start_of (some t) created = t

unfoldable pub latest_of : ℕ → List WorkflowOperationRun → ℕ
latest_of latest [] = latest
latest_of latest (o ∷ ops) =
    latest_of (later (later (later latest o.last_heartbeat_at) o.started_at) o.finished_at) ops

abbrev pub belongs_to : ℕ → WorkflowOperationRun → Bool
belongs_to run_id o = o.workflow_run_id == run_id

-- run.operation_runs
abbrev pub operation_runs_of : ℕ → List WorkflowOperationRun → List WorkflowOperationRun
operation_runs_of run_id ops = keep (belongs_to run_id) ops

unfoldable pub last_activity : WorkflowRun → List WorkflowOperationRun → ℕ
unfolding latest_of
last_activity r ops = latest_of (start_of r.started_at r.created_at) ops

abbrev pub is_in_flight : RunStatus → Bool
is_in_flight RunStatus.running = true
is_in_flight RunStatus.cancel_requested = true
is_in_flight _ = false

abbrev new_status : RunStatus → RunStatus
new_status RunStatus.cancel_requested = RunStatus.cancelled
new_status _ = RunStatus.failed

abbrev pub new_operation_status : RunStatus → OperationStatus
new_operation_status RunStatus.cancel_requested = OperationStatus.cancelled
new_operation_status _ = OperationStatus.failed

abbrev pub interrupt_run : ℕ → WorkflowRun → WorkflowRun
interrupt_run now r = record r {
  status = new_status r.status;
  error = some interrupt_error;
  finished_at = some now;
}

abbrev pub interrupt_operation : RunStatus → ℕ → WorkflowOperationRun → WorkflowOperationRun
interrupt_operation s now o = record o {
  status = new_operation_status s;
  error = some interrupt_error;
  finished_at = some now;
}

abbrev pub is_open_operation_of : ℕ → WorkflowOperationRun → Bool
is_open_operation_of run_id o = belongs_to run_id o && not (is_terminal_operation o.status)

-- `activity > now - threshold`, with no negative number
unfoldable pub is_fresh : ℕ → ℕ → WorkflowRun → List WorkflowOperationRun → Bool
is_fresh threshold now r ops = ltb now (last_activity r (operation_runs_of r.id ops) + threshold)

-- The inner loop: what is still open of the run's operations takes the run's new status.
abbrev pub interrupt_operations :
    ℕ → WorkflowRun → List WorkflowOperationRun → List WorkflowOperationRun
interrupt_operations now r ops =
    modify_where (is_open_operation_of r.id) (interrupt_operation r.status now) ops

pub record Recovery : Type 0 where
  pub runs : List WorkflowRun
  pub operation_runs : List WorkflowOperationRun
  pub recovered : List ℕ
  pub skipped_fresh : ℕ

-- The loop over the runs, in the order of the rows: those that the query does not select stay.
unfoldable pub recover_each : ℕ → ℕ → List WorkflowRun → List WorkflowOperationRun → Recovery
recover_each threshold now [] ops = record {
  runs = [];
  operation_runs = ops;
  recovered = [];
  skipped_fresh = 0;
}
recover_each threshold now (r ∷ rest) ops =
    let kept = recover_each threshold now rest ops in
    let done = recover_each threshold now rest (interrupt_operations now r ops) in
    if is_in_flight r.status
    then (if is_fresh threshold now r ops
        then record kept { runs = r ∷ kept.runs; skipped_fresh = suc kept.skipped_fresh }
        else record done {
          runs = interrupt_run now r ∷ done.runs;
          recovered = r.id ∷ done.recovered;
        })
    else record kept { runs = r ∷ kept.runs }

unfoldable pub recover_orphaned_runs : ℕ → ℕ → Db → Recovery
unfolding recover_each
recover_orphaned_runs threshold now db = recover_each threshold now db.runs db.operation_runs

-- the database after `db.commit()`
abbrev pub recovered_db : ℕ → ℕ → Db → Db
recovered_db threshold now db =
    let done = recover_orphaned_runs threshold now db in
    record { runs = done.runs; operation_runs = done.operation_runs }
