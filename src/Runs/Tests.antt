-- ===== src/Runs/Tests.antt =====
-- Concrete databases, on which the theorems about runs are applied.
use nd3x.Prelude.{ℕ, ◌≡◌, refl, true, Option, none, some, List, [], ◌∷◌}
use nd3x.Json.{Value, empty_dict}
use nd3x.Runs.{
  RunStatus, OperationStatus, WorkflowRun, WorkflowOperationRun, Db, Reply, is_terminal, run_key,
  get_run, get_operation_run,
}
use nd3x.Runs.Evolution.{is_stopping, IsStamped}
use nd3x.Runs.OperationEvolution.{SameVerdict}
use nd3x.Runs.Cancel.{request_cancel_run, request_cancel_for_each_sibling_runs, request_cancel}
use nd3x.Runs.Sweep.{IsSwept}
use nd3x.Runs.Descendants.{LiveUnder, self, below, StatusAt, request_cancel_run-descendants}
use nd3x.Runs.Termination.{request_cancel_run_total}
use nd3x.Runs.Calls.{Call, history}
use nd3x.Runs.Calls.Verdicts.{terminal_absorbs, cancel_sticks, run_identity, operation_verdict}

abbrev pub run_of : ℕ → RunStatus → Option ℕ → Option ℕ → WorkflowRun
run_of id status finished_at parent = record {
  id = id;
  workflow_id = 1;
  trigger_type = "manual";
  status = status;
  input_payload = empty_dict;
  result_payload = Value.null;
  error = none;
  created_at = 5;
  started_at = some 6;
  finished_at = finished_at;
  parent_run_id = parent;
  parent_operation_run_id = none;
  parent_item_index = none;
  cancel_requested_at = none;
  cancelled_at = none;
}

abbrev pub operation_of : ℕ → OperationStatus → Option ℕ → WorkflowOperationRun
operation_of id status finished_at = record {
  id = id;
  workflow_run_id = 1;
  workflow_operation_id = 1;
  status = status;
  input_payload = empty_dict;
  output_payload = Value.null;
  error = none;
  trace = Value.null;
  started_at = some 6;
  finished_at = finished_at;
  progress_payload = Value.null;
  last_heartbeat_at = none;
}

-- A running run with a running child and a queued grandchild, a finished run, and one that was
-- asked to stop.
abbrev pub family : Db
family = record {
  runs =
      run_of 1 RunStatus.running none none
      ∷ run_of 2 RunStatus.running none (some 1)
      ∷ run_of 3 RunStatus.queued none (some 2)
      ∷ run_of 4 RunStatus.success (some 9) none
      ∷ run_of 5 RunStatus.cancel_requested none none
      ∷ [];
  operation_runs =
      operation_of 1 OperationStatus.running none
      ∷ operation_of 2 OperationStatus.failed (some 8)
      ∷ [];
}

abbrev calls : List Call
calls =
    Call.start 4 10
    ∷ Call.fail 4 "late" Value.null 11
    ∷ Call.finish 5 Value.null 12
    ∷ Call.ask_cancel 1 13
    ∷ Call.recover 3 20
    ∷ Call.finish_operation 2 Value.null Value.null 21
    ∷ []

terminal_absorbs_example :
    get_run 4 (history family calls) ≡ some (run_of 4 RunStatus.success (some 9) none)
unfolding nd3x.Table.find
terminal_absorbs_example =
    terminal_absorbs family calls 4 (run_of 4 RunStatus.success (some 9) none) refl refl

cancel_sticks_example :
    (s : WorkflowRun) × (get_run 5 (history family calls) ≡ some s) × (is_stopping s.status ≡ true)
unfolding nd3x.Table.find
cancel_sticks_example =
    cancel_sticks family calls 5 (run_of 5 RunStatus.cancel_requested none none) refl refl

run_identity_example :
    (s : WorkflowRun) × (get_run 1 (history family calls) ≡ some s)
    × IsStamped s
    × (s.workflow_id ≡ 1)
    × (s.input_payload ≡ empty_dict)
    × (s.created_at ≡ 5)
    × (s.parent_run_id ≡ none)
unfolding nd3x.Table.find
run_identity_example = run_identity family calls 1 (run_of 1 RunStatus.running none none) refl refl

operation_verdict_example :
    (p : WorkflowOperationRun) × (get_operation_run 2 (history family calls) ≡ some p)
    × SameVerdict (operation_of 2 OperationStatus.failed (some 8)) p
unfolding nd3x.Table.find
operation_verdict_example =
    operation_verdict family calls 2 (operation_of 2 OperationStatus.failed (some 8)) refl refl

abbrev stopped : ℕ → RunStatus → Option ℕ → WorkflowRun
stopped id status parent = request_cancel 13 (run_of id status none parent)

abbrev cancelled_family : Db
cancelled_family = record family {
  runs =
      stopped 1 RunStatus.running none
      ∷ stopped 2 RunStatus.running (some 1)
      ∷ stopped 3 RunStatus.queued (some 2)
      ∷ run_of 4 RunStatus.success (some 9) none
      ∷ run_of 5 RunStatus.cancel_requested none none
      ∷ [];
}

-- Run 2 is a child of 1 and run 3 one of 2.
under_root : LiveUnder family 1 3
unfolding nd3x.Table.find
under_root = below {p = 2} {r = run_of 3 RunStatus.queued none (some 2)} middle refl refl
  where
    middle : LiveUnder family 1 2
    middle = below {p = 1} {r = run_of 2 RunStatus.running none (some 1)} (self refl) refl refl

request_cancel_run-descendants_example :
    StatusAt 3 RunStatus.cancel_requested cancelled_family.runs × IsSwept cancelled_family.runs 3
unfolding nd3x.Table.find nd3x.Table.modify nd3x.Table.modify_where request_cancel_run
    nd3x.Runs.Cancel.request_cancel_child_runs nd3x.Runs.Cancel.cancel_each
request_cancel_run-descendants_example =
    request_cancel_run-descendants 1 13 family cancelled_family refl refl refl 3 under_root

request_cancel_run_total_example : (reply : Reply) × (request_cancel_run 1 13 family ≡ some reply)
request_cancel_run_total_example = request_cancel_run_total 1 13 family
