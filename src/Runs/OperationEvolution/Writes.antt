-- ===== src/Runs/OperationEvolution/Writes.antt =====
-- The methods that write one operation run keep every row within `OperationEvolves`.
use nd3x.Prelude.{ℕ, inl, inr, String, arith, Bool-cases}
use nd3x.Json.{Value}
use nd3x.Table.Steps.{Steps-append}
use nd3x.Runs.{OperationStatus, WorkflowOperationRun, Db, is_waiting_operation, operation_run_key}
use nd3x.Runs.Operations.{
  Outcome, ok, raised, ◌>>=◌, rows_after, is_done, never, set_progress, set_history, append_item,
  set_running, resume_history, progress_with_history, create_operation_run,
  update_operation_run_progress, append_operation_resume_history, mark_waiting_operation_run,
  mark_operation_running, mark_operation_cancelled, finish_operation_run, fail_operation_run,
}
use nd3x.Runs.OperationEvolution.{
  OperationEvolves, OperationEvolves-refl, OperationsEvolve, EvolvesWhenOk,
  OperationsEvolve-edit_operation_run,
}

-- A value computed first, which may raise, before the row is written.
EvolvesWhenOk-bind :
    {A : Type 0} (o : WorkflowOperationRun) (m : Outcome A) (k : A → WorkflowOperationRun)
    → ((a : A) → OperationEvolves o (k a))
    → EvolvesWhenOk o (m >>= λ a. ok (k a))
EvolvesWhenOk-bind o (ok a) k h = h a
EvolvesWhenOk-bind o (raised e) k h = tt

module _ (id now : ℕ) (db : Db) where
  pub OperationsEvolve-update_operation_run_progress :
      (progress : Value)
      → OperationsEvolve db.operation_runs
          (rows_after db (update_operation_run_progress id progress now db)).operation_runs
  unfolding update_operation_run_progress
  OperationsEvolve-update_operation_run_progress progress =
      OperationsEvolve-edit_operation_run id never (set_progress progress now) db
        (λ o h. ground arith)

  pub OperationsEvolve-append_operation_resume_history :
      (item : Value)
      → OperationsEvolve db.operation_runs
          (rows_after db (append_operation_resume_history id item now db)).operation_runs
  unfolding append_operation_resume_history
  OperationsEvolve-append_operation_resume_history item =
      OperationsEvolve-edit_operation_run id never (append_item item now) db λ o h.
        EvolvesWhenOk-bind o (resume_history o.progress_payload) (set_history item now o)
          (λ a. ground arith)

  pub OperationsEvolve-mark_operation_running :
      OperationsEvolve db.operation_runs
        (rows_after db (mark_operation_running id now db)).operation_runs
  unfolding mark_operation_running
  OperationsEvolve-mark_operation_running =
      OperationsEvolve-edit_operation_run id is_done (set_running now) db (λ o h. ground arith)

  pub OperationsEvolve-mark_waiting_operation_run :
      (status : OperationStatus) (pending trace output : Value)
      → OperationsEvolve db.operation_runs
          (rows_after db
            (mark_waiting_operation_run id status pending trace output now db)).operation_runs
  unfolding mark_waiting_operation_run
  OperationsEvolve-mark_waiting_operation_run status pending trace output =
      OperationsEvolve-edit_operation_run id is_done _ db λ o h.
        elim (Bool-cases (is_waiting_operation status)) [
          | inl w ↦
              rw w (EvolvesWhenOk-bind o (resume_history o.progress_payload) _ (λ a. ground arith))
          | inr w ↦ rw w tt
        ]

  pub OperationsEvolve-mark_operation_cancelled :
      (error : String) (output trace : Value)
      → OperationsEvolve db.operation_runs
          (rows_after db (mark_operation_cancelled id error output trace now db)).operation_runs
  unfolding mark_operation_cancelled
  OperationsEvolve-mark_operation_cancelled error output trace =
      OperationsEvolve-edit_operation_run id is_done _ db (λ o h.
        EvolvesWhenOk-bind o (progress_with_history o.progress_payload) _ (λ a. ground arith))

  pub OperationsEvolve-finish_operation_run :
      (output trace : Value)
      → OperationsEvolve db.operation_runs
          (rows_after db (finish_operation_run id output trace now db)).operation_runs
  unfolding finish_operation_run
  OperationsEvolve-finish_operation_run output trace =
      OperationsEvolve-edit_operation_run id is_done _ db (λ o h.
        EvolvesWhenOk-bind o (progress_with_history o.progress_payload) _ (λ a. ground arith))

  pub OperationsEvolve-fail_operation_run :
      (error : String) (output trace : Value)
      → OperationsEvolve db.operation_runs
          (rows_after db (fail_operation_run id error output trace now db)).operation_runs
  unfolding fail_operation_run
  OperationsEvolve-fail_operation_run error output trace =
      OperationsEvolve-edit_operation_run id is_done _ db (λ o h.
        EvolvesWhenOk-bind o (progress_with_history o.progress_payload) _ (λ a. ground arith))

  pub OperationsEvolve-create_operation_run :
      (run operation : ℕ) (input : Value)
      → OperationsEvolve db.operation_runs
          (create_operation_run id run operation input now db).operation_runs
  unfolding create_operation_run
  OperationsEvolve-create_operation_run run operation input =
      Steps-append operation_run_key OperationEvolves-refl db.operation_runs _
