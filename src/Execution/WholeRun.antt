-- ===== src/Execution/WholeRun.antt =====
-- `execute_run` of src/services/workflows/workflow_executor.py: a run from its start to the status
-- that it is left with.
--
-- The loop is that of the engine, with its parameters; `others k` are the calls that others commit
-- before the k-th step, those of the operations among them. How a context and an exception are
-- written down is left out, and so is the mail about a run with a parent.
pub mod Left
pub mod Ends
use nd3x.Prelude.{
  ℕ, zero, suc, Bool, true, false, String, Option, none, some, List, [], ◌∷◌, map, if◌then◌else◌,
}
use nd3x.Json.{Value, end, null}
use nd3x.Runs.{WorkflowRun, Db, Reply, get_run}
use nd3x.Runs.Marks.{
  mark_running, mark_finished, mark_failed, mark_waiting, mark_cancelled, is_cancel_requested,
}
use nd3x.Runs.Cancel.{request_cancel_child_runs, cascade_fuel}
use nd3x.Runs.Calls.{Call, history}
use nd3x.Workflows.{Workflow, Graphs, get_with_operations}
use nd3x.Workflows.Graph.{OperationRow}
use nd3x.Engine.{Operation}
use nd3x.Engine.Loop.{
  Context, Exit, going, finished, waiting, failure, out_of_fuel, Failure, workflow_cancelled,
  start_context,
}

abbrev pub operation_of : OperationRow → Operation
operation_of o = record {
  id = o.id;
  depends_on = o.depends_on;
  on_success_follow_up = o.on_success_follow_up;
  on_failure_follow_up = o.on_failure_follow_up;
}

-- How execute_run returns or raises.
pub data RunExit : Type 0 where
  run_not_found workflow_not_found : RunExit
  run_finished run_waits run_cancelled task_cancelled run_failed : RunExit

pub record RunEnded : Type 0 where
  pub exit : RunExit
  pub db : Db

-- How the executor's loop leaves, if the task is not cancelled before.
pub data LoopEnd : Type 0 where
  left : Exit → LoopEnd
  task_stopped : LoopEnd

abbrev pub rows_or : Db → Option (List WorkflowRun) → Db
rows_or db none = db
rows_or db (some rows) = record db { runs = rows }

module _ (id now : ℕ) (others : ℕ → List Call) (payload : Exit → Value)
    (message : Failure → String) where
  abbrev pub between : ℕ → Db → Db
  between k db = history db (others k)

  -- The children are asked to stop, and the run is marked.
  unfoldable pub close_cancelled : RunExit → Value → Db → RunEnded
  close_cancelled exit result db =
      let asked = rows_or db (request_cancel_child_runs (cascade_fuel db.runs) now id db.runs) in
      record { exit = exit; db = (mark_cancelled id result none now (between 4 asked)).1 }

  unfoldable pub close_failed : String → Value → Db → RunEnded
  close_failed error result db = record {
    exit = run_failed;
    db = (mark_failed id error result now db).1;
  }

  -- After the loop: a cancellation is looked for once more.
  unfoldable pub close_waiting : Exit → Db → RunEnded
  unfolding close_cancelled
  close_waiting e db =
      if is_cancel_requested id db
      then close_cancelled run_cancelled (payload e) (between 3 db)
      else record { exit = run_waits; db = (mark_waiting id (payload e) (between 3 db)).1 }

  unfoldable pub close_finished : Exit → Db → RunEnded
  unfolding close_cancelled
  close_finished e db =
      if is_cancel_requested id db
      then close_cancelled run_cancelled (payload e) (between 3 db)
      else record { exit = run_finished; db = (mark_finished id (payload e) now (between 3 db)).1 }

  unfoldable pub close_failure : Failure → Exit → Db → RunEnded
  unfolding close_cancelled close_failed
  close_failure workflow_cancelled e db = close_cancelled run_cancelled (payload e) db
  close_failure f e db = close_failed (message f) (payload e) db

  -- The loop always leaves with fuel to spare (`execute_operations_ends`), and never as `going`.
  unfoldable pub close : LoopEnd → Db → RunEnded
  unfolding close_finished close_waiting close_failure close_cancelled
  close (left (finished c)) db = close_finished (finished c) db
  close (left (waiting op c)) db = close_waiting (waiting op c) db
  close (left (failure f c)) db = close_failure f (failure f c) db
  close (left (going c)) db = close_failed "" (payload (going c)) db
  close (left out_of_fuel) db = close_failed "" (payload out_of_fuel) db
  close task_stopped db = close_cancelled task_cancelled (payload out_of_fuel) db

  -- The run of a workflow that is there; `loop` is the executor's loop on its graph.
  unfoldable pub run_workflow : (Context → LoopEnd) → Workflow × List OperationRow → Db → RunEnded
  unfolding close
  run_workflow loop (w, rows) db =
      if is_cancel_requested id db
      then close_cancelled run_cancelled (payload out_of_fuel) (between 2 db)
      else close (loop (start_context (map operation_of rows) [] [] end)) (between 2 db)

  unfoldable pub start_run : (Context → LoopEnd) → Graphs → WorkflowRun → Db → RunEnded
  unfolding run_workflow close_failed
  start_run loop graphs r db = elim (get_with_operations r.workflow_id graphs) [
    | none ↦ record {
      exit = workflow_not_found;
      db = (mark_failed id "Workflow not found" null now db).1;
    }
    | some found ↦ run_workflow loop found db
  ]

  abbrev pub with_run : (Context → LoopEnd) → Graphs → Reply → RunEnded
  with_run loop graphs (none, db) = record { exit = run_not_found; db = db }
  with_run loop graphs (some r, db) = start_run loop graphs r (between 1 db)

  unfoldable pub execute_run : (Context → LoopEnd) → Graphs → Db → RunEnded
  unfolding start_run
  execute_run loop graphs db = with_run loop graphs (mark_running id now (between 0 db))
