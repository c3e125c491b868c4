-- ===== src/Resume.antt =====
-- `resume_waiting_operation` of src/services/workflows/workflow_executor.py: an operation that waits is
-- given its answer, and the run goes on from the rows of its operations.
--
-- What the assistant does with the answer is the parameter `body`, the executor's loop is `loop`,
-- and `others k` are the calls that others commit before the k-th step. Traces are what is stored.
pub mod Known
pub mod Returned
pub mod Settles
mod Tests
use Prim.Native.String.{◌++◌}
use nd3x.Prelude.{
  ℕ, Bool, true, false, ◌==◌, leb, String, Option, none, some, List, [], ◌∷◌, map, str_eq,
  if◌then◌else◌,
}
use nd3x.Prelude.Results.{Result, returned, failed_with}
use nd3x.Json.{
  pos, Value, obj, str, num, bool, null, Fields, field, end, truthy, or_value, empty_dict,
  get_field, get_key, put_field,
}
use nd3x.Policy.Text.{is_blank}
use nd3x.Board.Words.{is_word}
use nd3x.Runs.{OperationStatus, WorkflowRun, WorkflowOperationRun, Db, is_terminal, get_run}
use nd3x.Runs.Marks.{is_settled, mark_running, mark_finished, mark_failed, mark_waiting}
use nd3x.Runs.Operations.{
  Error, Outcome, ok, raised, OperationReply, mark_operation_running,
  append_operation_resume_history, mark_waiting_operation_run, fail_operation_run,
  finish_operation_run,
}
use nd3x.Runs.Queries.{order_by, get_waiting_operation_run}
use nd3x.Runs.Calls.{Call, history}
use nd3x.Workflows.{Workflow, Graphs, get_with_operations}
use nd3x.Workflows.Graph.{OperationRow, row_key}
use nd3x.Table.{find}
use nd3x.Engine.{Dict, put, NodeStatus}
use nd3x.Engine.Loop
use nd3x.Engine.Loop.{Context, start_context}
use nd3x.Execution.WholeRun.{LoopEnd, left, task_stopped, operation_of}
use nd3x.RunService.{pending_of, shown, compact_preview}
use nd3x.Resume.Known.{Rebuilt, is_str, rebuilt_from}

-- ValueError and RuntimeError, which the service answers with the statuses 400 and 409.
pub data Refusal : Type 0 where
  value_error runtime_error : Refusal

pub data Answer : Type 0 where
  user_input : String → Answer
  approved rejected : Answer

abbrev answer_of : Value → Result Refusal Answer
answer_of (str s) = if is_blank s then failed_with value_error else returned (user_input s)
answer_of v = failed_with value_error

abbrev rejection_of : Bool → Result Refusal Answer
rejection_of true = returned rejected
rejection_of false = failed_with runtime_error

abbrev approval_of : Value → Bool → Result Refusal Answer
approval_of (bool true) fails = returned approved
approval_of (bool false) fails = rejection_of fails
approval_of v fails = failed_with value_error

-- The answer in what the user sends; `fails` says that a rejection fails the operation, the only mode
-- there is.
unfoldable pub read_answer : Value → Value → Bool → Result Refusal Answer
read_answer pending resume fails =
    if is_str "workflow_user_input" (get_key "type" pending)
    then (if is_str "user_input" (get_key "type" resume)
        then answer_of (get_key "answer" resume)
        else failed_with runtime_error)
    else (if is_str "workflow_tool_approval" (get_key "type" pending)
        then (if is_str "approval" (get_key "type" resume)
            then approval_of (get_key "approved" resume) fails
            else failed_with runtime_error)
        else failed_with runtime_error)

-- What the assistant comes back with.
pub data BodyResult : Type 0 where
  -- mode "workflow_waiting": the status, the pending state, the trace and the whole result
  waits_again : OperationStatus → Value → Value → Value → BodyResult
  -- mode "error", "confirm_action" or "ask_user": the error of the row and that of the run
  stops : String → String → BodyResult
  -- any other mode: the output and its trace
  answers : Value → Value → BodyResult
  raises : BodyResult

pub data ResumeExit : Type 0 where
  refused : Refusal → ResumeExit
  approval_rejected still_waiting operation_stopped : ResumeExit
  -- the loop left the run waiting, or finished it
  run_waits run_finished : ResumeExit
  -- exceptions that leave the run as it is: of the body, of the loop, and of a write
  body_raised loop_raised : ResumeExit
  write_raised : Error → ResumeExit

pub record Resumed : Type 0 where
  pub exit : ResumeExit
  pub db : Db

abbrev pub refuse : Refusal → Db → Resumed
refuse e db = record { exit = refused e; db = db }

-- A write of the operation's row, and then what follows.
abbrev pub then_write : Outcome OperationReply → Db → (Db → Resumed) → Resumed
then_write (raised e) db next = record { exit = write_raised e; db = db }
then_write (ok (x, db')) db next = next db'

module _ (text_of : Value → String) (fromisoformat : String → Option ℕ) (now : ℕ)
    (others : ℕ → List Call) (loop : Context → LoopEnd) (payload : Loop.Exit → Value)
    (history_item : Value → Value) (body : Answer → BodyResult) where
  abbrev pub between : ℕ → Db → Db
  between k db = history db (others k)

  -- str(config.on_approval_rejected.mode or "fail").strip().lower() == "fail"
  abbrev pub rejection_fails : OperationRow → Bool
  rejection_fails op = is_word "fail" (
      shown text_of fromisoformat
        (or_value (get_key "mode" (get_key "on_approval_rejected" op.config)) (str "fail")))

  abbrev rejection_reason : Value → String
  rejection_reason resume =
      compact_preview text_of fromisoformat
        (or_value (get_key "reason" resume) (str "Rejected by user")) 300

  abbrev rejection_output : Value → Value → Value
  rejection_output pending resume = obj (
      field "status" (str "rejected") (
        field "type" (str "workflow_tool_approval_rejected") (
          field "reason" (str (rejection_reason resume)) (
            field "tool" (get_key "tool" pending) (
              field "command_preview"
                (str (
                  compact_preview text_of fromisoformat
                    (get_key "command" (get_key "display" pending)) 300))
                (field "tool_call_hash" (get_key "tool_call_hash" pending) end))))))

  abbrev rejection_error : Value → String
  rejection_error resume = "Workflow approval rejected: " ++ rejection_reason resume

  -- `trace` is that of the row, with the events of the resume.
  unfoldable pub reject : WorkflowRun → WorkflowOperationRun → Value → Value → Db → Resumed
  unfolding compact_preview
  reject r o resume trace db =
      then_write
        (fail_operation_run o.id (rejection_error resume) (rejection_output (pending_of o) resume)
          trace now db)
        db
        λ db'. record {
          exit = approval_rejected;
          db =
              (mark_failed r.id (rejection_error resume) (rejection_output (pending_of o) resume)
                now db').1;
        }

  abbrev waiting_result : WorkflowRun → WorkflowOperationRun → Value → Db → Value
  waiting_result r o pending db = obj (
      field "status" (str "waiting") (
        field "workflow_run_id" (num (pos r.id)) (
          field "waiting_operation_id" (num (pos o.workflow_operation_id)) (
            field "pending_state" pending
              (field "workflow_variables" (obj (rebuilt_from r db).workflow_variables) end)))))

  -- The graph goes on, outside of any `try`.
  unfoldable pub close_resumed : WorkflowRun → LoopEnd → Db → Resumed
  close_resumed r (left (Loop.Exit.waiting op c)) db = record {
    exit = run_waits;
    db = (mark_waiting r.id (payload (Loop.Exit.waiting op c)) db).1;
  }
  close_resumed r (left (Loop.Exit.finished c)) db = record {
    exit = run_finished;
    db = (mark_finished r.id (payload (Loop.Exit.finished c)) now db).1;
  }
  close_resumed r e db = record { exit = loop_raised; db = db }

  abbrev resumed_context : List OperationRow → ℕ → Value → Rebuilt → Context
  resumed_context rows operation_id output c =
      start_context (map operation_of rows)
        (put operation_id NodeStatus.success c.operation_statuses)
        (put operation_id output c.operation_outputs) c.workflow_variables

  unfoldable pub take_result :
      WorkflowRun → WorkflowOperationRun → List OperationRow → BodyResult → Db → Resumed
  unfolding close_resumed rebuilt_from
  take_result r o rows (waits_again status pending trace v) db =
      then_write (mark_waiting_operation_run o.id status pending trace v now db) db λ db'. record {
        exit = still_waiting;
        db = (mark_waiting r.id (waiting_result r o pending db') (between 3 db')).1;
      }
  take_result r o rows (stops row_error run_error) db =
      then_write (fail_operation_run o.id row_error null null now db) db
        λ db'. record { exit = operation_stopped; db = (mark_failed r.id run_error null now db').1 }
  take_result r o rows (answers output trace) db =
      then_write (finish_operation_run o.id output trace now db) db λ db'.
        close_resumed r
          (loop (resumed_context rows o.workflow_operation_id output (rebuilt_from r db')))
          (between 3 db')
  take_result r o rows raises db = record { exit = body_raised; db = db }

  unfoldable pub take_answer :
      WorkflowRun → WorkflowOperationRun → List OperationRow → Value → Value → Answer → Db → Resumed
  unfolding reject take_result
  take_answer r o rows resume trace rejected db = reject r o resume trace db
  take_answer r o rows resume trace answer db = take_result r o rows (body answer) (between 2 db)

  -- The run and the row run again, and the answer is noted.
  unfoldable pub start_answer :
      WorkflowRun → WorkflowOperationRun → List OperationRow → Value → Value → Answer → Db → Resumed
  unfolding take_answer
  start_answer r o rows resume trace answer db =
      let running = (mark_running r.id now db).1 in
      then_write (mark_operation_running o.id now (between 0 running)) (between 0 running) λ db1.
        then_write (append_operation_resume_history o.id (history_item resume) now (between 1 db1))
          (between 1 db1) (take_answer r o rows resume trace answer)

  abbrev answer_or_refuse :
      WorkflowRun
      → WorkflowOperationRun
      → List OperationRow
      → Value
      → Value
      → Db
      → Result Refusal Answer
      → Resumed
  answer_or_refuse r o rows resume trace db (failed_with e) = refuse e db
  answer_or_refuse r o rows resume trace db (returned answer) =
      start_answer r o rows resume trace answer db

  unfoldable pub resume_in :
      ℕ
      → Value
      → Value
      → WorkflowRun
      → WorkflowOperationRun
      → Option (Workflow × List OperationRow)
      → Db
      → Resumed
  unfolding start_answer read_answer
  resume_in operation_id resume trace r o none db = refuse value_error db
  resume_in operation_id resume trace r o (some (w, rows)) db =
      elim (find row_key operation_id rows) [
        | none ↦ refuse value_error db
        | some op ↦
            answer_or_refuse r o rows resume trace db
              (read_answer (pending_of o) resume (rejection_fails op))
      ]

  unfoldable pub resume_run : ℕ → Value → Value → Graphs → WorkflowRun → Db → Resumed
  unfolding resume_in
  resume_run operation_id resume trace graphs r db =
      if is_settled r
      then refuse runtime_error db
      else elim (get_waiting_operation_run r.id (some operation_id) db) [
        | none ↦ refuse runtime_error db
        | some o ↦
            resume_in operation_id resume trace r o (get_with_operations r.workflow_id graphs) db
      ]

  unfoldable pub resume_waiting_operation : ℕ → ℕ → Value → Value → Graphs → Db → Resumed
  unfolding resume_run
  resume_waiting_operation run_id operation_id resume trace graphs db = elim (get_run run_id db) [
    | none ↦ refuse value_error db
    | some r ↦ resume_run operation_id resume trace graphs r db
  ]
