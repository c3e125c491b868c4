-- ===== src/Runs/Calls/Rows.antt =====
-- Every call keeps the rows of both tables within their evolution.
use nd3x.Prelude.{ℕ, ◌≡◌, refl, sym, subst, Bool, Option, String, List, [], ◌∷◌, arith}
use nd3x.Table.Steps.{Steps-refl, Steps-trans}
use nd3x.Runs.{WorkflowRun, WorkflowOperationRun, Db, run_key, operation_run_key, edit_run}
use nd3x.Runs.Marks.{
  new_run, create_run, mark_running, mark_finished, mark_failed, mark_waiting, mark_cancelled,
}
use nd3x.Runs.Operations.{
  create_operation_run, update_operation_run_progress, append_operation_resume_history,
  mark_waiting_operation_run, mark_operation_running, mark_operation_cancelled,
  finish_operation_run, fail_operation_run,
}
use nd3x.Runs.Cancel.{request_cancel_run, request_cancel_for_each_sibling_runs}
use nd3x.Runs.Termination.{request_cancel_run_total, request_cancel_for_each_sibling_runs_total}
use nd3x.Runs.Calls.{
  Call, create, start, finish, fail, wait, cancel, ask_cancel, ask_cancel_siblings, recover,
  create_operation, update_progress, append_history, wait_operation, start_operation,
  cancel_operation, finish_operation, fail_operation, db_of, db_or, step, history,
}
use nd3x.Runs.Evolution.{Evolves-refl, Evolves-trans, RowsEvolve}
use nd3x.Runs.Evolution.Marks
use nd3x.Runs.Evolution.Cascade
use nd3x.Runs.Evolution.Recovery
use nd3x.Runs.OperationEvolution.{
  OperationEvolves-refl, OperationEvolves-trans, OperationsEvolve, runs-edit_operation_run,
}
use nd3x.Runs.OperationEvolution.Writes

-- writing an operation run leaves the runs alone
same : (rows rows' : List WorkflowRun) → rows' ≡ rows → RowsEvolve rows rows'
same rows rows' e = subst (RowsEvolve rows) (sym e) (Steps-refl run_key Evolves-refl rows)

pub step-RowsEvolve : (db : Db) (c : Call) → RowsEvolve db.runs (step db c).runs
unfolding step create_operation_run update_operation_run_progress append_operation_resume_history
    mark_waiting_operation_run mark_operation_running mark_operation_cancelled finish_operation_run
    fail_operation_run
step-RowsEvolve db (create id workflow trigger input parent operation item now) =
    Marks.RowsEvolve-create_run (new_run id workflow trigger input parent operation item now) db
step-RowsEvolve db (start id now) = Marks.RowsEvolve-mark_running id db now
step-RowsEvolve db (finish id result now) = Marks.RowsEvolve-mark_finished id db result now
step-RowsEvolve db (fail id error result now) = Marks.RowsEvolve-mark_failed id db error result now
step-RowsEvolve db (wait id result) = Marks.RowsEvolve-mark_waiting id db result
step-RowsEvolve db (cancel id result error now) =
    Marks.RowsEvolve-mark_cancelled id db result error now
step-RowsEvolve db (ask_cancel id now) =
    let ((out, db'), e) = request_cancel_run_total id now db in
    rw e (Cascade.RowsEvolve-request_cancel_run id now db db' e)
step-RowsEvolve db (ask_cancel_siblings parent operation except reason now) =
    let (db', e) =
      request_cancel_for_each_sibling_runs_total parent operation except reason now db in
    rw e (
      Cascade.RowsEvolve-request_cancel_for_each_sibling_runs parent operation except reason now db
        db' e)
step-RowsEvolve db (recover threshold now) = Recovery.RowsEvolve-recovered_db threshold now db
step-RowsEvolve db (create_operation id run operation input now) =
    Steps-refl run_key Evolves-refl db.runs
step-RowsEvolve db (update_progress id progress now) =
    same db.runs _ (runs-edit_operation_run id _ _ db)
step-RowsEvolve db (append_history id item now) = same db.runs _ (runs-edit_operation_run id _ _ db)
step-RowsEvolve db (wait_operation id status pending trace output now) =
    same db.runs _ (runs-edit_operation_run id _ _ db)
step-RowsEvolve db (start_operation id now) = same db.runs _ (runs-edit_operation_run id _ _ db)
step-RowsEvolve db (cancel_operation id error output trace now) =
    same db.runs _ (runs-edit_operation_run id _ _ db)
step-RowsEvolve db (finish_operation id output trace now) =
    same db.runs _ (runs-edit_operation_run id _ _ db)
step-RowsEvolve db (fail_operation id error output trace now) =
    same db.runs _ (runs-edit_operation_run id _ _ db)

same_operations :
    (rows rows' : List WorkflowOperationRun) → rows' ≡ rows → OperationsEvolve rows rows'
same_operations rows rows' e =
    subst (OperationsEvolve rows) (sym e) (Steps-refl operation_run_key OperationEvolves-refl rows)

pub operations-edit_run :
    (id : ℕ) (held : WorkflowRun → Bool) (f : WorkflowRun → WorkflowRun) (db : Db)
    → (edit_run id held f db).1.operation_runs ≡ db.operation_runs
unfolding edit_run
operations-edit_run id held f db = ground arith

operations-ask_cancel :
    (id now : ℕ) (db : Db)
    → (db_of db (request_cancel_run id now db)).operation_runs ≡ db.operation_runs
unfolding request_cancel_run
operations-ask_cancel id now db = ground arith

operations-ask_cancel_siblings :
    (parent operation : ℕ) (except : Option ℕ) (reason : String) (now : ℕ) (db : Db)
    → (db_or db
        (request_cancel_for_each_sibling_runs parent operation except reason now db)).operation_runs
      ≡ db.operation_runs
unfolding request_cancel_for_each_sibling_runs
operations-ask_cancel_siblings parent operation except reason now db = ground arith

pub step-OperationsEvolve :
    (db : Db) (c : Call) → OperationsEvolve db.operation_runs (step db c).operation_runs
unfolding step create_run mark_running mark_finished mark_failed mark_waiting mark_cancelled
step-OperationsEvolve db (create id workflow trigger input parent operation item now) =
    same_operations db.operation_runs _ refl
step-OperationsEvolve db (start id now) =
    same_operations db.operation_runs _ (operations-edit_run id _ _ db)
step-OperationsEvolve db (finish id result now) =
    same_operations db.operation_runs _ (operations-edit_run id _ _ db)
step-OperationsEvolve db (fail id error result now) =
    same_operations db.operation_runs _ (operations-edit_run id _ _ db)
step-OperationsEvolve db (wait id result) =
    same_operations db.operation_runs _ (operations-edit_run id _ _ db)
step-OperationsEvolve db (cancel id result error now) =
    same_operations db.operation_runs _ (operations-edit_run id _ _ db)
step-OperationsEvolve db (ask_cancel id now) =
    same_operations db.operation_runs _ (operations-ask_cancel id now db)
step-OperationsEvolve db (ask_cancel_siblings parent operation except reason now) =
    same_operations db.operation_runs _
      (operations-ask_cancel_siblings parent operation except reason now db)
step-OperationsEvolve db (recover threshold now) =
    Recovery.OperationsEvolve-recovered_db threshold now db
step-OperationsEvolve db (create_operation id run operation input now) =
    Writes.OperationsEvolve-create_operation_run id now db run operation input
step-OperationsEvolve db (update_progress id progress now) =
    Writes.OperationsEvolve-update_operation_run_progress id now db progress
step-OperationsEvolve db (append_history id item now) =
    Writes.OperationsEvolve-append_operation_resume_history id now db item
step-OperationsEvolve db (wait_operation id status pending trace output now) =
    Writes.OperationsEvolve-mark_waiting_operation_run id now db status pending trace output
step-OperationsEvolve db (start_operation id now) =
    Writes.OperationsEvolve-mark_operation_running id now db
step-OperationsEvolve db (cancel_operation id error output trace now) =
    Writes.OperationsEvolve-mark_operation_cancelled id now db error output trace
step-OperationsEvolve db (finish_operation id output trace now) =
    Writes.OperationsEvolve-finish_operation_run id now db output trace
step-OperationsEvolve db (fail_operation id error output trace now) =
    Writes.OperationsEvolve-fail_operation_run id now db error output trace

pub history-RowsEvolve : (db : Db) (calls : List Call) → RowsEvolve db.runs (history db calls).runs
unfolding history
history-RowsEvolve db [] = Steps-refl run_key Evolves-refl db.runs
history-RowsEvolve db (c ∷ calls) =
    Steps-trans run_key (λ a b c. Evolves-trans) (step-RowsEvolve db c)
      (history-RowsEvolve (step db c) calls)

pub history-OperationsEvolve :
    (db : Db) (calls : List Call)
    → OperationsEvolve db.operation_runs (history db calls).operation_runs
unfolding history
history-OperationsEvolve db [] =
    Steps-refl operation_run_key OperationEvolves-refl db.operation_runs
history-OperationsEvolve db (c ∷ calls) =
    Steps-trans operation_run_key OperationEvolves-trans (step-OperationsEvolve db c)
      (history-OperationsEvolve (step db c) calls)
