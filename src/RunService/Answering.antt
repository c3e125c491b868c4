-- ===== src/RunService/Answering.antt =====
-- `resume_operation` of src/services/workflows/workflow_run_service.py, over the executor's resume.
use nd3x.Prelude.{ℕ, String, Option, none, some, List, if◌then◌else◌}
use nd3x.Prelude.Results.{Result, returned, failed_with}
use nd3x.Json.{Value}
use nd3x.Runs.{WorkflowRun, WorkflowOperationRun, Db, get_run}
use nd3x.Runs.Marks.{is_settled}
use nd3x.Runs.Operations.{Error}
use nd3x.Runs.Calls.{Call}
use nd3x.Workflows.{Graphs}
use nd3x.Engine.Loop
use nd3x.Engine.Loop.{Context}
use nd3x.Execution.WholeRun.{LoopEnd}
use nd3x.RunService.{Fault, not_found, conflict, bad_request, broken, Served, take_waiting}
use nd3x.Resume.{
  Answer, BodyResult, ResumeExit, refused, write_raised, Refusal, Resumed, resume_waiting_operation,
}

-- `except ValueError` and `except RuntimeError`; what the body and the loop raise is not known here.
unfoldable pub served_exit : ResumeExit → Result Fault ResumeExit
served_exit (refused Refusal.value_error) = failed_with bad_request
served_exit (refused Refusal.runtime_error) = failed_with conflict
served_exit (write_raised Error.value_error) = failed_with bad_request
served_exit (write_raised Error.type_error) = failed_with (broken Error.type_error)
served_exit e = returned e

abbrev served : Resumed → Served ResumeExit
served e = record { answer = served_exit e.exit; db = e.db }

module _ (text_of : Value → String) (fromisoformat : String → Option ℕ) (now : ℕ)
    (others : ℕ → List Call) (loop : Context → LoopEnd) (payload : Loop.Exit → Value)
    (history_item : Value → Value) (body : Answer → BodyResult) where
  abbrev resume_found :
      ℕ
      → ℕ
      → Value
      → Value
      → Graphs
      → Served (WorkflowRun × WorkflowOperationRun)
      → Served ResumeExit
  resume_found run_id operation_id resume trace graphs s = elim (s.answer) [
    | failed_with e ↦ record { answer = failed_with e; db = s.db }
    | returned found ↦ served (
        resume_waiting_operation text_of fromisoformat now others loop payload history_item body
          run_id operation_id resume trace graphs s.db)
  ]

  unfoldable pub resume_operation : ℕ → ℕ → Value → Value → Graphs → Db → Served ResumeExit
  unfolding served_exit take_waiting resume_waiting_operation
  resume_operation run_id operation_id resume trace graphs db = elim (get_run run_id db) [
    | none ↦ record { answer = failed_with not_found; db = db }
    | some r ↦
        if is_settled r
        then record { answer = failed_with conflict; db = db }
        else resume_found run_id operation_id resume trace graphs
            (take_waiting text_of fromisoformat conflict r (some operation_id) now db)
  ]
