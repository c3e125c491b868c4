-- ===== src/Runs/Calls.antt =====
-- The writes of the run repository and the startup recovery as calls, and a history of the
-- database as a list of them. Every method commits before it returns, so the calls of several
-- workers interleave as some such list.
pub mod Rows
pub mod Verdicts
use nd3x.Prelude.{ℕ, Option, none, some, String, List, [], ◌∷◌}
use nd3x.Json.{Value}
use nd3x.Runs.{OperationStatus, Db, Reply}
use nd3x.Runs.Marks.{
  new_run, create_run, mark_running, mark_finished, mark_failed, mark_waiting, mark_cancelled,
}
use nd3x.Runs.Cancel.{request_cancel_run, request_cancel_for_each_sibling_runs}
use nd3x.Runs.Operations.{
  rows_after, create_operation_run, update_operation_run_progress, append_operation_resume_history,
  mark_waiting_operation_run, mark_operation_running, mark_operation_cancelled,
  finish_operation_run, fail_operation_run,
}
use nd3x.Recovery.{recovered_db}

pub data Call : Type 0 where
  create : ℕ → ℕ → String → Value → Option ℕ → Option ℕ → Option ℕ → ℕ → Call
  start : ℕ → ℕ → Call
  finish : ℕ → Value → ℕ → Call
  fail : ℕ → String → Value → ℕ → Call
  wait : ℕ → Value → Call
  cancel : ℕ → Value → Option String → ℕ → Call
  ask_cancel : ℕ → ℕ → Call
  ask_cancel_siblings : ℕ → ℕ → Option ℕ → String → ℕ → Call
  recover : ℕ → ℕ → Call
  create_operation : ℕ → ℕ → ℕ → Value → ℕ → Call
  update_progress : ℕ → Value → ℕ → Call
  append_history : ℕ → Value → ℕ → Call
  wait_operation : ℕ → OperationStatus → Value → Value → Value → ℕ → Call
  start_operation : ℕ → ℕ → Call
  cancel_operation : ℕ → String → Value → Value → ℕ → Call
  finish_operation : ℕ → Value → Value → ℕ → Call
  fail_operation : ℕ → String → Value → Value → ℕ → Call

-- A cascade always returns (`request_cancel_run_total`), so the first case is not met.
abbrev pub db_of : Db → Option Reply → Db
db_of db none = db
db_of db (some (_, db')) = db'

abbrev pub db_or : Db → Option Db → Db
db_or db none = db
db_or db (some db') = db'

unfoldable pub step : Db → Call → Db
step db (create id workflow trigger input parent operation item now) =
    create_run (new_run id workflow trigger input parent operation item now) db
step db (start id now) = (mark_running id now db).1
step db (finish id result now) = (mark_finished id result now db).1
step db (fail id error result now) = (mark_failed id error result now db).1
step db (wait id result) = (mark_waiting id result db).1
step db (cancel id result error now) = (mark_cancelled id result error now db).1
step db (ask_cancel id now) = db_of db (request_cancel_run id now db)
step db (ask_cancel_siblings parent operation except reason now) =
    db_or db (request_cancel_for_each_sibling_runs parent operation except reason now db)
step db (recover threshold now) = recovered_db threshold now db
step db (create_operation id run operation input now) =
    create_operation_run id run operation input now db
step db (update_progress id progress now) =
    rows_after db (update_operation_run_progress id progress now db)
step db (append_history id item now) =
    rows_after db (append_operation_resume_history id item now db)
step db (wait_operation id status pending trace output now) =
    rows_after db (mark_waiting_operation_run id status pending trace output now db)
step db (start_operation id now) = rows_after db (mark_operation_running id now db)
step db (cancel_operation id error output trace now) =
    rows_after db (mark_operation_cancelled id error output trace now db)
step db (finish_operation id output trace now) =
    rows_after db (finish_operation_run id output trace now db)
step db (fail_operation id error output trace now) =
    rows_after db (fail_operation_run id error output trace now db)

unfoldable pub history : Db → List Call → Db
history db [] = db
history db (c ∷ calls) = history (step db c) calls
