-- ===== src/RunService/Tests.antt =====
-- An operation whose wait has timed out.
use nd3x.Prelude.{ℕ, ◌≡◌, refl, Bool, true, false, String, Option, none, some, [], ◌∷◌}
use nd3x.Json.{Value, obj, arr, str, null, nil, Fields, field, end, empty_dict, has_key, put_field}
use nd3x.Board.Words.{is_word}
use nd3x.Policy.Text.{strip}
use nd3x.Table.{find}
use nd3x.Runs.{RunStatus, OperationStatus, WorkflowRun, WorkflowOperationRun, Db}
use nd3x.Runs.Operations.{
  Outcome, ok, mark_operation_cancelled, edit_operation_run, progress_with_history,
}
use nd3x.RunService.{
  is_allowed, allowed_fields, public_pending_state, is_pending_expired, parse_iso, pending_of,
  on_timeout_of, enforce_waiting_timeout, enforce_policy, end_waiting, append_timeout_trace,
}
use nd3x.RunService.Waiting.{BothOver, enforce_waiting_timeout-TimesOut}

abbrev no_text : Value → String
no_text v = ""

abbrev at_five : String → Option ℕ
at_five s = some 5

abbrev pending : Fields
pending = field "expires_at" (str "five") (
    field "waiting_policy" (obj (field "on_timeout" (str "cancel") end))
      (field "resume_payload" (str "hidden") end))

abbrev run : WorkflowRun
run = record {
  id = 4;
  workflow_id = 1;
  trigger_type = "manual";
  status = RunStatus.waiting;
  input_payload = empty_dict;
  result_payload = null;
  error = none;
  created_at = 1;
  started_at = some 2;
  finished_at = none;
  parent_run_id = none;
  parent_operation_run_id = none;
  parent_item_index = none;
  cancel_requested_at = none;
  cancelled_at = none;
}

abbrev operation_run : WorkflowOperationRun
operation_run = record {
  id = 7;
  workflow_run_id = 4;
  workflow_operation_id = 30;
  status = OperationStatus.waiting_for_approval;
  input_payload = empty_dict;
  output_payload = null;
  error = none;
  trace = arr nil;
  started_at = some 2;
  finished_at = none;
  progress_payload = obj (field "pending_state" (obj pending) end);
  last_heartbeat_at = none;
}

abbrev waiting_db : Db
waiting_db = record { runs = run ∷ []; operation_runs = operation_run ∷ [] }

abbrev after : Outcome (Bool × Db) → Db
after (ok (b, db)) = db
after _ = waiting_db

abbrev timed_out : Outcome (Bool × Db)
timed_out = enforce_waiting_timeout no_text at_five run operation_run 9 waiting_db

timed_out-answer : timed_out ≡ ok (true, after timed_out)
unfolding enforce_waiting_timeout enforce_policy end_waiting append_timeout_trace is_pending_expired
    parse_iso pending_of on_timeout_of is_word strip mark_operation_cancelled edit_operation_run
    progress_with_history find
timed_out-answer = refl

enforce_waiting_timeout-TimesOut_example : BothOver 4 7 (after timed_out)
unfolding find
enforce_waiting_timeout-TimesOut_example =
    enforce_waiting_timeout-TimesOut no_text at_five run operation_run 9 true waiting_db
      (after timed_out) (record { row = run; found = refl })
      (record { row = operation_run; found = refl }) timed_out-answer

resume_payload-hidden :
    has_key "resume_payload" (public_pending_state no_text at_five 9 pending) ≡ false
unfolding public_pending_state allowed_fields is_allowed put_field
resume_payload-hidden = refl
