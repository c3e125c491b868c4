-- ===== src/Execution.antt =====
-- `_execute_single_operation` of src/services/workflows/workflow_executor.py: the run of one
-- operation, from the row that it gets to the verdict that is written into it.
--
-- What an attempt of the body returns or raises is a parameter, and so is what others do to the
-- database: `others k` are the calls that are committed before the k-th step. The JSON form of a
-- trace is left out; `trace` is what is stored.
pub mod Rows
pub mod Settles
pub mod Retries
pub mod WholeRun
mod Tests
use nd3x.Prelude.{
  ℕ, zero, suc, ◌-◌, Bool, true, false, ◌&&◌, ◌||◌, not, String, Option, none, some, List, [], ◌∷◌,
  map, ◌==◌, any, leb, if◌then◌else◌,
}
use nd3x.Prelude.Results.{Result, returned, failed_with}
use nd3x.Json.{Value, ℤ, pos, obj, num, null, put_field}
use nd3x.Board.Words.{codes, lower_code}
use nd3x.Runs.{OperationStatus, Db}
use nd3x.Runs.Marks.{is_cancel_requested, mark_waiting}
use nd3x.Runs.Operations.{
  Error, Outcome, ok, raised, OperationReply, create_operation_run, fail_operation_run,
  finish_operation_run, mark_operation_cancelled, mark_waiting_operation_run,
}
use nd3x.Runs.Calls.{Call, history}
use nd3x.Payload.Contract.{Contract, validate_output}

-- How an attempt of the body ends.
pub data BodyEnd : Type 0 where
  output : Value → BodyEnd
  -- mode "workflow_waiting": the status, the pending state, the trace and the whole output
  pause : OperationStatus → Value → Value → Value → BodyEnd
  -- WorkflowCancelled, and CancelledError of the task
  workflow_cancelled : String → BodyEnd
  task_cancelled : BodyEnd
  -- WorkflowOperationOutputError, with its output and trace
  bad_output : String → Value → Value → BodyEnd
  raises : String → BodyEnd

pub data Exit : Type 0 where
  -- before there is a row
  cancelled_early model_unavailable model_skipped : Exit
  -- with a verdict in the row
  input_mapping_failed : Exit
  answered : Value → Exit
  paused : Exit
  cancelled : Exit
  failed : String → Exit
  contract_violated : Value → Exit
  -- without one: a cancellation that is seen after the body, a task that is stopped in a retry, and
  -- a write that raises
  cancelled_late stopped_in_retry : Exit
  write_raised : Error → Exit

pub record Ended : Type 0 where
  pub exit : Exit
  pub db : Db

-- the row is written, unless that raises
unfoldable pub after_write : Outcome OperationReply → Exit → Db → Ended
after_write (ok (o, db')) exit db = record { exit = exit; db = db' }
after_write (raised e) exit db = record { exit = write_raised e; db = db }

-- A retry policy, read with the types of its fields.
pub record RetryPolicy : Type 0 where
  pub is_empty : Bool
  pub max_attempts : ℕ
  pub retry_on_error_contains : List String

abbrev is_prefix : List ℕ → List ℕ → Bool
is_prefix [] bs = true
is_prefix (a ∷ as_) [] = false
is_prefix (a ∷ as_) (b ∷ bs) = a == b && is_prefix as_ bs

abbrev is_infix : List ℕ → List ℕ → Bool
is_infix part [] = is_prefix part []
is_infix part (b ∷ bs) = is_prefix part (b ∷ bs) || is_infix part bs

abbrev lowered : String → List ℕ
lowered s = map lower_code (codes s)

-- token.lower() in message.lower(), over ASCII
abbrev pub mentions : String → String → Bool
mentions message token = is_infix (lowered token) (lowered message)

abbrev no_tokens : List String → Bool
no_tokens [] = true
no_tokens (t ∷ ts) = false

unfoldable pub retry_allowed_for_error : RetryPolicy → String → Bool
retry_allowed_for_error policy message =
    not policy.is_empty
    && (no_tokens policy.retry_on_error_contains
        || any (mentions message) policy.retry_on_error_contains)

-- max(1, min(int(policy.get("max_attempts") or 1), 5))
unfoldable pub max_attempts_of : RetryPolicy → ℕ
max_attempts_of policy = elim (policy.max_attempts) [
  | zero ↦ 1
  | suc n ↦ if leb (suc n) 5 then suc n else 5
]

pub data RetryEnd : Type 0 where
  -- an output, and the number of the attempt that gave it
  got : BodyEnd → ℕ → RetryEnd
  exhausted : String → RetryEnd
  stopped : RetryEnd

-- Every exception leads to the next attempt, a WorkflowCancelled too, but not the CancelledError of
-- the task.
abbrev pub after_attempt : BodyEnd → ℕ → (String → RetryEnd) → RetryEnd
after_attempt (output v) attempt next = got (output v) attempt
after_attempt (pause status pending trace v) attempt next =
    got (pause status pending trace v) attempt
after_attempt task_cancelled attempt next = stopped
after_attempt (workflow_cancelled message) attempt next = next message
after_attempt (bad_output message v trace) attempt next = next message
after_attempt (raises message) attempt next = next message

-- `for attempt in range(2, max_attempts + 1)`, with `left` attempts to come
unfoldable pub retry : (ℕ → BodyEnd) → ℕ → ℕ → String → RetryEnd
retry body zero attempt last = exhausted last
retry body (suc left) attempt last =
    after_attempt (body attempt) attempt (retry body left (suc attempt))

-- output["attempt_count"] = attempt
abbrev with_attempt : ℕ → Value → Value
with_attempt attempt (obj fs) = obj (put_field "attempt_count" (num (pos attempt)) fs)
with_attempt attempt v = v

unfoldable pub stamp : ℕ → BodyEnd → BodyEnd
unfolding put_field
stamp attempt (output v) = output (with_attempt attempt v)
stamp attempt (pause status pending trace v) = pause status pending trace (with_attempt attempt v)
stamp attempt other = other

-- What `_build_operation_input` gives: the input, or the failure of a mapping.
pub data Input : Type 0 where
  input : Value → Input
  mapping_failed : Value → Value → Value → Input

module _ (id run_id operation_id now : ℕ) (others : ℕ → List Call) (body : ℕ → BodyEnd)
    (trace : Value) (waiting_result : Value → Value) (policy : RetryPolicy)
    (contract : Option Contract) where
  abbrev pub between : ℕ → Db → Db
  between k db = history db (others k)

  -- The output is validated and stored; the message of a violation is cut to its kind.
  unfoldable pub finish_output : Value → Db → Ended
  unfolding validate_output
  finish_output v db = elim (validate_output contract v) [
    | returned w ↦ after_write (finish_operation_run id w trace now db) (answered w) db
    | failed_with w ↦
        after_write (fail_operation_run id "output_contract_violation" w trace now db)
          (contract_violated w) db
  ]

  -- After the body, outside its `try`: a cancellation that is seen here leaves the row as it is.
  unfoldable pub take_output : Value → Db → Ended
  take_output v db =
      if is_cancel_requested run_id db
      then record { exit = cancelled_late; db = db }
      else finish_output v (between 3 db)

  -- The row waits, and then the run.
  unfoldable pub take_pause : OperationStatus → Value → Value → Value → Db → Ended
  take_pause status pending tr v db =
      elim (mark_waiting_operation_run id status pending tr v now db) [
        | raised e ↦ record { exit = write_raised e; db = db }
        | ok (o, db') ↦ record {
          exit = paused;
          db = (mark_waiting run_id (waiting_result pending) (between 3 db')).1;
        }
      ]

  unfoldable pub take_end : BodyEnd → Db → Ended
  unfolding take_output take_pause
  take_end (output v) db = take_output v db
  take_end (pause status pending tr v) db = take_pause status pending tr v db
  take_end _ db = record { exit = stopped_in_retry; db = db }

  unfoldable pub fail_row : String → Db → Ended
  fail_row message db =
      after_write (fail_operation_run id message null trace now db) (failed message) db

  unfoldable pub take_retry : RetryEnd → Db → Ended
  unfolding take_end fail_row stamp
  take_retry (got e attempt) db = take_end (stamp attempt e) db
  take_retry (exhausted message) db = fail_row message db
  take_retry stopped db = record { exit = stopped_in_retry; db = db }

  -- `except Exception`: another attempt, if the policy allows it
  unfoldable pub handle_error : String → Db → Ended
  unfolding take_retry fail_row retry retry_allowed_for_error max_attempts_of
  handle_error message db =
      if retry_allowed_for_error policy message && leb 2 (max_attempts_of policy)
      then take_retry (retry body (max_attempts_of policy - 1) 2 message) (between 2 db)
      else fail_row message db

  -- The first attempt and its `except` clauses.
  unfoldable pub first_attempt : BodyEnd → Db → Ended
  unfolding handle_error take_output take_pause
  first_attempt (output v) db = take_output v db
  first_attempt (pause status pending tr v) db = take_pause status pending tr v db
  first_attempt (workflow_cancelled message) db =
      after_write
        (mark_operation_cancelled id "cancelled because workflow run cancellation was requested"
          null null now db)
        cancelled db
  first_attempt task_cancelled db =
      after_write
        (mark_operation_cancelled id "cancelled because workflow task was stopped" null null now db)
        cancelled db
  first_attempt (bad_output message v tr) db =
      after_write (fail_operation_run id message v tr now db) (failed message) db
  first_attempt (raises message) db = handle_error message db

  unfoldable pub run_operation : Input → Db → Ended
  unfolding first_attempt
  run_operation (mapping_failed payload out tr) db =
      let created = create_operation_run id run_id operation_id payload now db in
      after_write (fail_operation_run id "input_mapping_failed" out tr now (between 1 created))
        input_mapping_failed (between 1 created)
  run_operation (input payload) db =
      first_attempt (body 1)
        (between 1 (create_operation_run id run_id operation_id payload now db))

  -- `on_model_unavailable` is "skip" or not
  unfoldable pub execute_single_operation : Bool → Bool → Input → Db → Ended
  unfolding run_operation
  execute_single_operation available skips given db =
      let start = between 0 db in
      if is_cancel_requested run_id start
      then record { exit = cancelled_early; db = start }
      else (if available
          then run_operation given start
          else record { exit = if skips then model_skipped else model_unavailable; db = start })
