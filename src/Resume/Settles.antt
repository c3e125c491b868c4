-- ===== src/Resume/Settles.antt =====
-- A resume that returns leaves the run and the operation settled.
use nd3x.Prelude.{
  ℕ, ◌≡◌, refl, ap, ◌∙◌, inl, inr, String, Option, none, some, List, [], ◌∷◌, arith, Bool-cases,
  Option-cases,
}
use nd3x.Prelude.Results.{Result, returned, failed_with}
use nd3x.Json.{Value, null}
use nd3x.Table.{find, find_key}
use nd3x.Runs.{WorkflowRun, WorkflowOperationRun, Db, get_run, get_operation_run, run_key}
use nd3x.Runs.Marks.{is_settled, is_over, mark_running, mark_failed, mark_waiting, mark_finished}
use nd3x.Runs.Operations.{mark_operation_running, append_operation_resume_history}
use nd3x.Runs.Queries.{get_waiting_operation_run}
use nd3x.Runs.Calls.{Call, start, start_operation, append_history, history, step}
use nd3x.Workflows.{Workflow, Graphs, get_with_operations}
use nd3x.Workflows.Graph.{OperationRow, row_key}
use nd3x.Engine.Loop
use nd3x.Engine.Loop.{Context}
use nd3x.Execution.Rows.{HasVerdict}
use nd3x.Execution.WholeRun.{RunExit, LoopEnd, left, task_stopped}
use nd3x.Execution.WholeRun.Left.{IsRun, left_waiting, IsRun-history}
use nd3x.Resume.{
  Answer, rejected, approved, user_input, Refusal, BodyResult, waits_again, stops, answers, raises,
  approval_rejected, still_waiting, operation_stopped, run_waits, run_finished, reject,
  close_resumed, take_result, take_answer, start_answer, answer_or_refuse, resume_in, resume_run,
  resume_waiting_operation,
}
use nd3x.Runs.Calls.Rows.{operations-edit_run}
use nd3x.Resume.Returned.{
  waiting-AtRest, HasVerdict-edit_run, as_run, Settled, Both, Both-history, HasVerdict-history,
  Leaves, then_write-Leaves, marked-Leaves, failed-after, finished-after, wrote, failed-Both,
  finished-Both, waiting-Both,
}

module _ (r : WorkflowRun) (o : WorkflowOperationRun) (text_of : Value → String)
    (fromisoformat : String → Option ℕ) (now : ℕ) (others : ℕ → List Call)
    (loop : Context → LoopEnd) (payload : Loop.Exit → Value) (history_item : Value → Value)
    (body : Answer → BodyResult) where
  close_resumed-Leaves :
      (e : LoopEnd) (db : Db)
      → IsRun r.id db
      → HasVerdict o.id db
      → Leaves r o
          (others 3)
          (close_resumed text_of fromisoformat now others loop payload history_item body r e db)
  unfolding close_resumed mark_waiting mark_finished
  close_resumed-Leaves (left (Loop.Exit.waiting op c)) db run v x h =
      marked-Leaves r o (others 3) run_waits RunExit.run_waits is_settled _ db (λ s. refl)
        (λ s. left_waiting s _ refl) refl run (HasVerdict-edit_run o.id r.id is_settled _ db v) x h
  close_resumed-Leaves (left (Loop.Exit.finished c)) db run v x h =
      marked-Leaves r o (others 3) run_finished RunExit.run_finished is_settled _ db (λ s. refl)
        (λ s. ground arith) refl run (HasVerdict-edit_run o.id r.id is_settled _ db v) x h
  close_resumed-Leaves (left (Loop.Exit.going c)) db run v x h = cc
  close_resumed-Leaves (left (Loop.Exit.failure f c)) db run v x h = cc
  close_resumed-Leaves (left Loop.Exit.out_of_fuel) db run v x h = cc
  close_resumed-Leaves task_stopped db run v x h = cc

  reject-Leaves :
      (resume trace : Value) (db : Db)
      → Both r.id o.id db
      → Leaves r o (others 3) (
          reject text_of fromisoformat now others loop payload history_item body r o resume trace
            db)
  unfolding reject mark_failed
  reject-Leaves resume trace db b = then_write-Leaves r o (others 3) _ db _ λ x db1 f.
      marked-Leaves r o (others 3) approval_rejected RunExit.run_failed is_over _ db1 (λ s. refl)
        (λ s. ground arith) refl (failed-Both r o now _ _ trace db db1 x b f).run
        (HasVerdict-edit_run o.id r.id is_over _ db1
          (failed-after r o now _ _ trace db db1 x b.operation f))

  take_result-Leaves :
      (rows : List OperationRow) (result : BodyResult) (db : Db)
      → Both r.id o.id db
      → Leaves r o (others 3) (
          take_result text_of fromisoformat now others loop payload history_item body r o rows
            result db)
  unfolding take_result mark_failed mark_waiting
  take_result-Leaves rows (waits_again status pending trace v) db b x h =
      then_write-Leaves r o (others 3) _ db _
        (λ y db1 f.
          marked-Leaves r o (others 3) still_waiting RunExit.run_waits is_settled _
            (history db1 (others 3)) (λ s. refl) (λ s. left_waiting s _ refl) refl
            (IsRun-history r.id db1 (others 3)
              (waiting-Both r o now status pending trace v db db1 y b f).run)
            (record {
              before = db1;
              rest = waiting-AtRest o.id status pending trace v now db db1 y b.operation f;
              later = operations-edit_run r.id is_settled _ (history db1 (others 3));
            }))
        x h
  take_result-Leaves rows (stops row_error run_error) db b x h =
      then_write-Leaves r o (others 3) _ db _
        (λ y db1 f.
          marked-Leaves r o (others 3) operation_stopped RunExit.run_failed is_over _ db1
            (λ s. refl) (λ s. ground arith) refl
            (failed-Both r o now row_error null null db db1 y b f).run
            (HasVerdict-edit_run o.id r.id is_over _ db1
              (failed-after r o now row_error null null db db1 y b.operation f)))
        x h
  take_result-Leaves rows (answers output trace) db b x h =
      then_write-Leaves r o (others 3) _ db _
        (λ y db1 f.
          close_resumed-Leaves _ (history db1 (others 3))
            (IsRun-history r.id db1 (others 3)
              (finished-Both r o now output trace db db1 y b f).run)
            (HasVerdict-history o.id db1 (others 3)
              (finished-after r o now output trace db db1 y b.operation f)))
        x h
  take_result-Leaves rows raises db b x h = cc

  take_answer-Leaves :
      (rows : List OperationRow) (resume trace : Value) (answer : Answer) (db : Db)
      → Both r.id o.id db
      → Leaves r o (others 3) (
          take_answer text_of fromisoformat now others loop payload history_item body r o rows
            resume trace answer db)
  unfolding take_answer
  take_answer-Leaves rows resume trace rejected db b = reject-Leaves resume trace db b
  take_answer-Leaves rows resume trace approved db b =
      take_result-Leaves rows (body approved) _ (Both-history r.id o.id db (others 2) b)
  take_answer-Leaves rows resume trace (user_input s) db b =
      take_result-Leaves rows (body (user_input s)) _ (Both-history r.id o.id db (others 2) b)

  start_answer-Leaves :
      (rows : List OperationRow) (resume trace : Value) (answer : Answer) (db : Db)
      → Both r.id o.id db
      → Leaves r o (others 3) (
          start_answer text_of fromisoformat now others loop payload history_item body r o rows
            resume trace answer db)
  unfolding start_answer step history
  start_answer-Leaves rows resume trace answer db b =
      let running = (mark_running r.id now db).1 in
      let b0 : Both r.id o.id running = Both-history r.id o.id db (start r.id now ∷ []) b in
      let db0 = history running (others 0) in
      let b1 : Both r.id o.id db0 = Both-history r.id o.id running (others 0) b0 in
      then_write-Leaves r o (others 3) (mark_operation_running o.id now db0) db0 _ λ x db1 f.
        let c1 =
          wrote r o now (mark_operation_running o.id now db0) (start_operation o.id now) db0 db1 x
            refl b1 f in
        let db2 = history db1 (others 1) in
        let c2 : Both r.id o.id db2 = Both-history r.id o.id db1 (others 1) c1 in
        then_write-Leaves r o (others 3)
          (append_operation_resume_history o.id (history_item resume) now db2) db2 _
          λ y db3 g. take_answer-Leaves rows resume trace answer db3 (
            wrote r o now (append_operation_resume_history o.id (history_item resume) now db2)
              (append_history o.id (history_item resume) now) db2 db3 y refl c2 g)

  answer_or_refuse-Leaves :
      (rows : List OperationRow) (resume trace : Value) (db : Db) (read : Result Refusal Answer)
      → Both r.id o.id db
      → Leaves r o (others 3) (
          answer_or_refuse text_of fromisoformat now others loop payload history_item body r o rows
            resume trace db read)
  answer_or_refuse-Leaves rows resume trace db (failed_with e) b x h = cc
  answer_or_refuse-Leaves rows resume trace db (returned answer) b x h =
      start_answer-Leaves rows resume trace answer db b x h

  resume_in-Leaves :
      (operation_id : ℕ) (resume trace : Value) (found : Option (Workflow × List OperationRow))
      (db : Db)
      → Both r.id o.id db
      → Leaves r o (others 3) (
          resume_in text_of fromisoformat now others loop payload history_item body operation_id
            resume trace r o found db)
  unfolding resume_in
  resume_in-Leaves operation_id resume trace none db b x h = cc
  resume_in-Leaves operation_id resume trace (some (w, rows)) db b x h =
      elim (Option-cases (find row_key operation_id rows)) [
        | inl e ↦ absurd (refusal (rw (e, resume_in) at h))
        | inr (op, e) ↦
            rw (e, resume_in)
              (answer_or_refuse-Leaves rows resume trace db _ b x (rw (e, resume_in) at h))
      ]
    where
      refusal : ◌≡◌ {A = Option RunExit} none (some x) → ⊥
      refusal k = cc

  -- A resume that returns, with whatever result, leaves the run at a status that is final, waiting or
  -- that of a cancellation request. It leaves the row of the operation ended; where the assistant
  -- waits again, it leaves the row waiting or ended, to the calls that others make before the run is
  -- marked. This is for a row that is found under its key, whatever others do meanwhile.
  pub resume_waiting_operation-Settled :
      (run_id operation_id : ℕ) (resume trace : Value) (graphs : Graphs) (db : Db) (x : RunExit)
      → get_run run_id db ≡ some r
      → get_waiting_operation_run r.id (some operation_id) db ≡ some o
      → get_operation_run o.id db ≡ some o
      → as_run
          (resume_waiting_operation text_of fromisoformat now others loop payload history_item body
            run_id operation_id resume trace graphs db).exit
        ≡ some x
      → Settled r.id o.id
          (others 3)
          (resume_waiting_operation text_of fromisoformat now others loop payload history_item body
            run_id operation_id resume trace graphs db)
          x
  unfolding resume_waiting_operation resume_run
  resume_waiting_operation-Settled run_id operation_id resume trace graphs db x there waits found
        h =
      elim (Bool-cases (is_settled r)) [
        | inl e ↦
            absurd (refusal (rw (e, resume_run) at (rw (there, resume_waiting_operation) at h)))
        | inr e ↦
            rw (there, e, waits, resume_waiting_operation, resume_run)
              (resume_in-Leaves operation_id resume trace (get_with_operations r.workflow_id graphs)
                db b x (rw (e, waits, resume_run) at (rw (there, resume_waiting_operation) at h)))
      ]
    where
      same : r.id ≡ run_id
      same = find_key run_key run_id db.runs there

      b : Both r.id o.id db
      b = record {
        run = record { row = r; found = ap (λ i. get_run i db) same ∙ there };
        operation = record { row = o; found = found };
      }

      refusal : ◌≡◌ {A = Option RunExit} none (some x) → ⊥
      refusal k = cc
