-- ===== src/Runs/Calls/Verdicts.antt =====
-- What no history of calls can do to a run or an operation run.
use nd3x.Prelude.{ℕ, ◌≡◌, refl, ◌∙◌, true, some, List}
use nd3x.Runs.{
  WorkflowRun, WorkflowOperationRun, Db, is_terminal, is_terminal_operation, get_run,
  get_operation_run,
}
use nd3x.Runs.Evolution.{is_stopping, IsStamped}
use nd3x.Runs.OperationEvolution.{SameVerdict, IsStampedOperation}
use nd3x.Runs.Calls.{Call, history}
use nd3x.Runs.Calls.Rows.{history-RowsEvolve, history-OperationsEvolve}

module _ (db : Db) (calls : List Call) (id : ℕ) where
  -- A run that is finished, failed or cancelled keeps every column of its row, whatever calls of
  -- the repository and of the recovery follow, in any order.
  pub terminal_absorbs :
      (r : WorkflowRun)
      → get_run id db ≡ some r
      → is_terminal r.status ≡ true
      → get_run id (history db calls) ≡ some r
  terminal_absorbs r found over =
      let (s, f, e) = (history-RowsEvolve db calls).at id r found in f ∙ rw (e.frozen over) refl

  -- Once the cancellation of a run is requested, no calls make it succeed, wait, run or queue
  -- again: it stays at `cancel_requested` or ends as failed or cancelled.
  pub cancel_sticks :
      (r : WorkflowRun)
      → get_run id db ≡ some r
      → is_stopping r.status ≡ true
      → (s : WorkflowRun) × (get_run id (history db calls) ≡ some s) × (is_stopping s.status ≡ true)
  cancel_sticks r found asked =
      let (s, f, e) = (history-RowsEvolve db calls).at id r found in (s, f, e.stopping asked)

  -- A run whose `finished_at` is set exactly if its status is terminal stays such a run, and its
  -- workflow, input, creation time and parent never change.
  pub run_identity :
      (r : WorkflowRun)
      → get_run id db ≡ some r
      → IsStamped r
      → (s : WorkflowRun) × (get_run id (history db calls) ≡ some s)
        × IsStamped s
        × (s.workflow_id ≡ r.workflow_id)
        × (s.input_payload ≡ r.input_payload)
        × (s.created_at ≡ r.created_at)
        × (s.parent_run_id ≡ r.parent_run_id)
  run_identity r found stamped =
      let (s, f, e) = (history-RowsEvolve db calls).at id r found in
      (s, f, e.stamped stamped, e.workflow_id, e.input_payload, e.created_at, e.parent_run_id)

  -- An operation run that is over keeps its status, output, error, trace and end time through any
  -- calls of the repository and of the recovery.
  pub operation_verdict :
      (o : WorkflowOperationRun)
      → get_operation_run id db ≡ some o
      → is_terminal_operation o.status ≡ true
      → (p : WorkflowOperationRun) × (get_operation_run id (history db calls) ≡ some p)
        × SameVerdict o p
  operation_verdict o found over =
      let (p, f, e) = (history-OperationsEvolve db calls).at id o found in (p, f, e.verdict over)

  -- An operation run whose `finished_at` is set exactly if its status is terminal stays such a one
  -- through any calls, and keeps its run, its operation, its input and its start time.
  operation_identity :
      (o : WorkflowOperationRun)
      → get_operation_run id db ≡ some o
      → IsStampedOperation o
      → (p : WorkflowOperationRun) × (get_operation_run id (history db calls) ≡ some p)
        × IsStampedOperation p
        × (p.workflow_run_id ≡ o.workflow_run_id)
        × (p.workflow_operation_id ≡ o.workflow_operation_id)
        × (p.input_payload ≡ o.input_payload)
        × (p.started_at ≡ o.started_at)
  operation_identity o found stamped =
      let (p, f, e) = (history-OperationsEvolve db calls).at id o found in
      (
        p,
        f,
        e.stamped stamped,
        e.workflow_run_id,
        e.workflow_operation_id,
        e.input_payload,
        e.started_at,
      )
