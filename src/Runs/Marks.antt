-- ===== src/Runs/Marks.antt =====
-- The methods of WorkflowRunRepository that write one run.
use nd3x.Prelude.{ℕ, Bool, false, ◌||◌, Option, none, some, String, [], ◌∷◌, ◌++◌}
use nd3x.Json.{Value, null, or_value, empty_dict}
use nd3x.Runs.{
  RunStatus, WorkflowRun, Db, Reply, queued, waiting, is_terminal, is_cancel_requested_status,
  get_run, edit_run,
}

-- `x or now` on a timestamp
abbrev pub or_now : Option ℕ → ℕ → Option ℕ
or_now none now = some now
or_now (some t) now = some t

-- `error` replaces the old one only if it is given (and not empty)
abbrev or_error : Option String → Option String → Option String
or_error none old = old
or_error (some String.[]) old = old
or_error (some e) old = some e

unfoldable pub new_run : ℕ → ℕ → String → Value → Option ℕ → Option ℕ → Option ℕ → ℕ → WorkflowRun
new_run id workflow_id trigger_type input_payload parent parent_operation item now = record {
  id = id;
  workflow_id = workflow_id;
  trigger_type = trigger_type;
  status = queued;
  input_payload = or_value input_payload empty_dict;
  result_payload = null;
  error = none;
  created_at = now;
  started_at = none;
  finished_at = none;
  parent_run_id = parent;
  parent_operation_run_id = parent_operation;
  parent_item_index = item;
  cancel_requested_at = none;
  cancelled_at = none;
}

-- add and commit
unfoldable pub create_run : WorkflowRun → Db → Db
create_run r db = record db { runs = db.runs ++ r ∷ [] }

-- a terminal run and a run whose cancellation is requested are returned as they are
abbrev pub is_settled : WorkflowRun → Bool
is_settled r = is_terminal r.status || is_cancel_requested_status r.status

abbrev pub is_over : WorkflowRun → Bool
is_over r = is_terminal r.status

unfoldable pub mark_running : ℕ → ℕ → Db → Reply
mark_running id now =
    edit_run id is_settled
      λ r. record r { status = RunStatus.running; started_at = or_now r.started_at now }

unfoldable pub mark_finished : ℕ → Value → ℕ → Db → Reply
mark_finished id result now = edit_run id is_settled λ r. record r {
  status = RunStatus.success;
  result_payload = or_value result empty_dict;
  finished_at = some now;
}

unfoldable pub mark_failed : ℕ → String → Value → ℕ → Db → Reply
mark_failed id error result now = edit_run id is_over λ r. record r {
  status = RunStatus.failed;
  error = some error;
  result_payload = or_value result empty_dict;
  finished_at = some now;
}

unfoldable pub mark_waiting : ℕ → Value → Db → Reply
mark_waiting id result = edit_run id is_settled λ r. record r {
  status = waiting;
  result_payload = or_value result (or_value r.result_payload empty_dict);
}

unfoldable pub mark_cancelled : ℕ → Value → Option String → ℕ → Db → Reply
mark_cancelled id result error now = edit_run id is_over λ r. record r {
  status = RunStatus.cancelled;
  error = or_error error r.error;
  finished_at = some now;
  result_payload = or_value result empty_dict;
  cancelled_at = some now;
}

unfoldable pub is_cancel_requested : ℕ → Db → Bool
is_cancel_requested id db = elim (get_run id db) [
  | none ↦ false
  | some r ↦ is_cancel_requested_status r.status
]
