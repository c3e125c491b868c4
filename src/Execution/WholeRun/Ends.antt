-- ===== src/Execution/WholeRun/Ends.antt =====
-- A run that was executed is not left running.
use nd3x.Prelude.{
  ℕ, ◌≡◌, refl, sym, ◌∙◌, subst, inl, inr, String, Option, none, some, List, [], map, arith,
  ==_refl, Bool-cases, Option-cases,
}
use nd3x.Json.{Value, end}
use nd3x.Table.{find-modify, modify}
use nd3x.Runs.{RunStatus, WorkflowRun, Db, is_terminal, run_key, get_run, edit_run}
use nd3x.Runs.Marks.{
  is_settled, is_over, or_now, mark_running, mark_finished, mark_failed, mark_waiting,
  mark_cancelled, is_cancel_requested,
}
use nd3x.Runs.Cancel.{request_cancel_child_runs, cascade_fuel}
use nd3x.Runs.Calls.{Call, history}
use nd3x.Runs.Evolution.Cascade
use nd3x.Workflows.{Workflow, Graphs, get_with_operations}
use nd3x.Workflows.Graph.{OperationRow}
use nd3x.Engine.Loop.{
  Context, Exit, going, finished, failure, out_of_fuel, Failure, workflow_cancelled,
  failed_without_follow_up, stuck, not_pending, start_context,
}
use nd3x.Execution.WholeRun.{
  RunExit, workflow_not_found, run_finished, run_waits, run_cancelled, task_cancelled, run_failed,
  rows_or, with_run, LoopEnd, left, task_stopped, operation_of, close_cancelled, close_failed,
  close_waiting, close_finished, close_failure, close, run_workflow, start_run, execute_run,
}
use nd3x.Execution.WholeRun.Left.{
  left_waiting, IsRun, IsLeft, left_as, IsLeft-edited, IsRun-history,
}

module _ (id now : ℕ) (others : ℕ → List Call) (payload : Exit → Value)
    (message : Failure → String) where
  IsRun-asked :
      (db : Db) (rows : Option (List WorkflowRun))
      → request_cancel_child_runs (cascade_fuel db.runs) now id db.runs ≡ rows
      → IsRun id db
      → IsRun id (rows_or db rows)
  IsRun-asked db none e there = there
  IsRun-asked db (some new) e there =
      let (s, f, ev) =
        (Cascade.RowsEvolve-request_cancel_child_runs (cascade_fuel db.runs) now id db.runs new
            e).at
          id there.row there.found in
      record { row = s; found = f }

  close_cancelled-IsLeft :
      (exit : RunExit) (result : Value) (db : Db)
      → ((s : RunStatus) → left_as exit s ≡ is_terminal s)
      → IsRun id db
      → IsLeft id (close_cancelled id now others payload message exit result db)
  unfolding close_cancelled mark_cancelled
  close_cancelled-IsLeft exit result db strict there =
      IsLeft-edited exit id is_over _ _ (λ s. refl) (λ s. strict _ ∙ ground arith)
        (IsRun-history id _ (others 4) (IsRun-asked db _ refl there))

  close_failed-IsLeft :
      (error : String) (result : Value) (db : Db)
      → IsRun id db
      → IsLeft id (close_failed id now others payload message error result db)
  unfolding close_failed mark_failed
  close_failed-IsLeft error result db there =
      IsLeft-edited run_failed id is_over _ db (λ s. refl) (λ s. ground arith) there

  close_waiting-IsLeft :
      (e : Exit) (db : Db)
      → IsRun id db
      → IsLeft id (close_waiting id now others payload message e db)
  unfolding close_waiting mark_waiting
  close_waiting-IsLeft e db there = elim (Bool-cases (is_cancel_requested id db)) [
    | inl c ↦
        rw (c, close_waiting)
          (close_cancelled-IsLeft run_cancelled (payload e) _ (λ s. refl)
            (IsRun-history id db (others 3) there))
    | inr c ↦
        rw (c, close_waiting)
          (IsLeft-edited run_waits id is_settled _ _ (λ s. refl) (λ s. left_waiting s _ refl)
            (IsRun-history id db (others 3) there))
  ]

  close_finished-IsLeft :
      (e : Exit) (db : Db)
      → IsRun id db
      → IsLeft id (close_finished id now others payload message e db)
  unfolding close_finished mark_finished
  close_finished-IsLeft e db there = elim (Bool-cases (is_cancel_requested id db)) [
    | inl c ↦
        rw (c, close_finished)
          (close_cancelled-IsLeft run_cancelled (payload e) _ (λ s. refl)
            (IsRun-history id db (others 3) there))
    | inr c ↦
        rw (c, close_finished)
          (IsLeft-edited run_finished id is_settled _ _ (λ s. refl) (λ s. ground arith)
            (IsRun-history id db (others 3) there))
  ]

  close_failure-IsLeft :
      (f : Failure) (e : Exit) (db : Db)
      → IsRun id db
      → IsLeft id (close_failure id now others payload message f e db)
  unfolding close_failure
  close_failure-IsLeft workflow_cancelled e db there =
      close_cancelled-IsLeft run_cancelled (payload e) db (λ s. refl) there
  close_failure-IsLeft (failed_without_follow_up op m) e db there =
      close_failed-IsLeft (message (failed_without_follow_up op m)) (payload e) db there
  close_failure-IsLeft (stuck ops) e db there =
      close_failed-IsLeft (message (stuck ops)) (payload e) db there
  close_failure-IsLeft (not_pending op) e db there =
      close_failed-IsLeft (message (not_pending op)) (payload e) db there

  close-IsLeft :
      (l : LoopEnd) (db : Db) → IsRun id db → IsLeft id (close id now others payload message l db)
  unfolding close
  close-IsLeft (left (finished c)) db there = close_finished-IsLeft (finished c) db there
  close-IsLeft (left (Exit.waiting op c)) db there =
      close_waiting-IsLeft (Exit.waiting op c) db there
  close-IsLeft (left (failure f c)) db there = close_failure-IsLeft f (failure f c) db there
  close-IsLeft (left (going c)) db there = close_failed-IsLeft "" (payload (going c)) db there
  close-IsLeft (left out_of_fuel) db there = close_failed-IsLeft "" (payload out_of_fuel) db there
  close-IsLeft task_stopped db there =
      close_cancelled-IsLeft task_cancelled (payload out_of_fuel) db (λ s. refl) there

  run_workflow-IsLeft :
      (loop : Context → LoopEnd) (found : Workflow × List OperationRow) (db : Db)
      → IsRun id db
      → IsLeft id (run_workflow id now others payload message loop found db)
  unfolding run_workflow
  run_workflow-IsLeft loop (w, rows) db there = elim (Bool-cases (is_cancel_requested id db)) [
    | inl c ↦
        rw (c, run_workflow)
          (close_cancelled-IsLeft run_cancelled (payload out_of_fuel) _ (λ s. refl)
            (IsRun-history id db (others 2) there))
    | inr c ↦
        rw (c, run_workflow)
          (close-IsLeft (loop (start_context (map operation_of rows) [] [] end)) _
            (IsRun-history id db (others 2) there))
  ]

  start_run-IsLeft :
      (loop : Context → LoopEnd) (graphs : Graphs) (r : WorkflowRun) (db : Db)
      → IsRun id db
      → IsLeft id (start_run id now others payload message loop graphs r db)
  unfolding start_run mark_failed
  start_run-IsLeft loop graphs r db there =
      elim (Option-cases (get_with_operations r.workflow_id graphs)) [
        | inl e ↦
            rw (e, start_run)
              (IsLeft-edited workflow_not_found id is_over _ db (λ s. refl) (λ s. ground arith)
                there)
        | inr (found, e) ↦ rw (e, start_run) (run_workflow-IsLeft loop found db there)
      ]

  record Marked (db : Db) : Type 0 where
    new : WorkflowRun
    after : Db
    marks : mark_running id now db ≡ (some new, after)
    there : IsRun id after

  marked : (db : Db) → IsRun id db → Marked db
  unfolding mark_running edit_run
  marked db there = elim (Bool-cases (is_settled there.row)) [
    | inl k ↦ record {
      new = there.row;
      after = db;
      marks = rw (there.found, k, mark_running, edit_run) refl;
      there = there;
    }
    | inr k ↦ record {
      new = ran there.row;
      after = record db { runs = modify run_key id ran db.runs };
      marks = rw (there.found, k, mark_running, edit_run) refl;
      there = record {
        row = ran there.row;
        found =
            find-modify run_key id ran id db.runs (λ s h. refl)
            ∙ rw (==_refl id) (rw there.found refl);
      };
    }
  ]
    where
      ran : WorkflowRun → WorkflowRun
      ran r = record r { status = RunStatus.running; started_at = or_now r.started_at now }

  -- A run that is in the database when `execute_run` starts is left at a final status when it was
  -- executed to its end, was cancelled, failed or has no workflow. Two exits allow more: a run that
  -- waits is left waiting, with a cancellation request, or at the final status that others gave it
  -- before; and a run whose loop finished may be left with a cancellation request that came too late.
  -- Others may call the repository between the steps, and the loop can be any.
  pub execute_run-ends :
      (loop : Context → LoopEnd) (graphs : Graphs) (db : Db) (r : WorkflowRun)
      → get_run id (history db (others 0)) ≡ some r
      → IsLeft id (execute_run id now others payload message loop graphs db)
  unfolding execute_run
  execute_run-ends loop graphs db r found =
      let m = marked (history db (others 0)) (record { row = r; found = found }) in
      subst (λ x. IsLeft id (with_run id now others payload message loop graphs x)) (sym m.marks)
        (start_run-IsLeft loop graphs m.new _ (IsRun-history id m.after (others 1) m.there))
