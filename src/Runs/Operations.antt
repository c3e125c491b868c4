-- ===== src/Runs/Operations.antt =====
-- The methods of WorkflowRunRepository that write one operation run.
use nd3x.Prelude.{ℕ, Bool, false, Option, none, some, String, [], ◌∷◌, ◌++◌, if◌then◌else◌}
use nd3x.Json.{
  Value, Items, null, arr, obj, field, end, nil, cons, append_items, truthy, or_value, empty_dict,
  get_key, put_field, list_or_empty,
}
use nd3x.Table.{modify}
use nd3x.Runs.{
  OperationStatus, WorkflowOperationRun, Db, is_terminal_operation, is_waiting_operation,
  operation_run_key, get_operation_run,
}

-- A Python exception; what the method had not committed is lost.
pub data Error : Type 0 where
  type_error value_error : Error

pub data Outcome {ℓ} (A : Type ℓ) : Type ℓ where
  ok : A → Outcome A
  raised : Error → Outcome A

infixl 10 ◌>>=◌
abbrev pub ◌>>=◌ {ℓ κ} : {A : Type ℓ} {B : Type κ} → Outcome A → (A → Outcome B) → Outcome B
ok a >>= f = f a
raised e >>= f = raised e

abbrev pub OperationReply : Type 0
OperationReply = Option WorkflowOperationRun × Db

-- The rows after a call: a call that raises commits nothing.
abbrev pub rows_after : Db → Outcome OperationReply → Db
rows_after db (ok (_, db')) = db'
rows_after db (raised e) = db

abbrev pub commit_operation : WorkflowOperationRun → Db → OperationReply
commit_operation o db = (
  some o,
  record db { operation_runs = modify operation_run_key o.id (λ _. o) db.operation_runs },
)

-- The shape of the mark methods: fetch the row, answer None if there is none, return it untouched
-- if `held`, and else assign to it and commit.
unfoldable pub edit_operation_run :
    ℕ
    → (WorkflowOperationRun → Bool)
    → (WorkflowOperationRun → Outcome WorkflowOperationRun)
    → Db
    → Outcome OperationReply
edit_operation_run id held f db = elim (get_operation_run id db) [
  | none ↦ ok (none, db)
  | some o ↦ if held o then ok (some o, db) else f o >>= λ o'. ok (commit_operation o' db)
]

abbrev pub is_done : WorkflowOperationRun → Bool
is_done o = is_terminal_operation o.status

abbrev pub never : WorkflowOperationRun → Bool
never o = false

abbrev pub items_outcome : Option Items → Outcome Items
items_outcome none = raised type_error
items_outcome (some xs) = ok xs

-- list((progress or {}).get("resume_history") or [])
unfoldable pub resume_history : Value → Outcome Items
resume_history progress = items_outcome (list_or_empty (get_key "resume_history" progress))

abbrev dict_with_history : Items → Value
dict_with_history xs = obj (field "resume_history" (arr xs) end)

-- a payload with no history is dropped altogether
unfoldable pub progress_with_history : Value → Outcome Value
progress_with_history (obj fs) =
    if truthy (get_key "resume_history" (obj fs))
    then (do
      xs ← items_outcome (list_or_empty (get_key "resume_history" (obj fs)))
      ok (dict_with_history xs))
    else ok null
progress_with_history _ = ok null

-- `if value is not None: row.field = value`
abbrev or_old : Value → Value → Value
or_old null old = old
or_old v old = v

unfoldable pub create_operation_run : ℕ → ℕ → ℕ → Value → ℕ → Db → Db
create_operation_run id workflow_run_id workflow_operation_id input_payload now db = record db {
  operation_runs = db.operation_runs ++ row ∷ [];
}
  where
    row : WorkflowOperationRun
    row = record {
      id = id;
      workflow_run_id = workflow_run_id;
      workflow_operation_id = workflow_operation_id;
      status = OperationStatus.running;
      input_payload = or_value input_payload empty_dict;
      output_payload = null;
      error = none;
      trace = null;
      started_at = some now;
      finished_at = none;
      progress_payload = null;
      last_heartbeat_at = none;
    }

abbrev pub set_progress : Value → ℕ → WorkflowOperationRun → Outcome WorkflowOperationRun
set_progress progress now o =
    ok (record o { progress_payload = progress; last_heartbeat_at = some now })

unfoldable pub update_operation_run_progress : ℕ → Value → ℕ → Db → Outcome OperationReply
update_operation_run_progress id progress now =
    edit_operation_run id never (set_progress progress now)

-- dict(progress or {}) keeps the fields of a dict
abbrev pub fields_or_empty : Value → Value → Value
fields_or_empty (obj fs) v = obj (put_field "resume_history" v fs)
fields_or_empty _ v = obj (field "resume_history" v end)

abbrev pub set_history : Value → ℕ → WorkflowOperationRun → Items → WorkflowOperationRun
set_history item now o history = record o {
  progress_payload =
      fields_or_empty o.progress_payload (arr (append_items history (cons item nil)));
  last_heartbeat_at = some now;
}

abbrev pub append_item : Value → ℕ → WorkflowOperationRun → Outcome WorkflowOperationRun
append_item item now o = do
  history ← resume_history o.progress_payload
  ok (set_history item now o history)

unfoldable pub append_operation_resume_history : ℕ → Value → ℕ → Db → Outcome OperationReply
unfolding resume_history put_field
append_operation_resume_history id item now = edit_operation_run id never (append_item item now)

unfoldable pub waiting_progress : Value → Items → Value
waiting_progress pending history =
    obj (field "pending_state" pending (field "resume_history" (arr history) end))

unfoldable pub waiting_output : Value → Value
waiting_output pending =
    obj (field "mode" (Value.str "workflow_waiting") (field "pending_state" pending end))

unfoldable pub mark_waiting_operation_run :
    ℕ → OperationStatus → Value → Value → Value → ℕ → Db → Outcome OperationReply
unfolding resume_history waiting_progress waiting_output
mark_waiting_operation_run id status pending trace output now = edit_operation_run id is_done λ o.
    if is_waiting_operation status
    then (do
      history ← resume_history o.progress_payload
      ok (record o {
        status = status;
        progress_payload = waiting_progress pending history;
        output_payload = or_value output (waiting_output pending);
        trace = trace;
        last_heartbeat_at = some now;
        finished_at = none;
      }))
    else raised value_error

abbrev pub set_running : ℕ → WorkflowOperationRun → Outcome WorkflowOperationRun
set_running now o =
    ok (record o { status = OperationStatus.running; error = none; last_heartbeat_at = some now })

unfoldable pub mark_operation_running : ℕ → ℕ → Db → Outcome OperationReply
mark_operation_running id now = edit_operation_run id is_done (set_running now)

unfoldable pub mark_operation_cancelled :
    ℕ → String → Value → Value → ℕ → Db → Outcome OperationReply
unfolding progress_with_history
mark_operation_cancelled id error output trace now = edit_operation_run id is_done λ o. do
  progress ← progress_with_history o.progress_payload
  ok (record o {
    status = OperationStatus.cancelled;
    error = some error;
    output_payload = or_old output o.output_payload;
    trace = or_old trace o.trace;
    progress_payload = progress;
    finished_at = some now;
  })

unfoldable pub finish_operation_run : ℕ → Value → Value → ℕ → Db → Outcome OperationReply
unfolding progress_with_history
finish_operation_run id output trace now = edit_operation_run id is_done λ o. do
  progress ← progress_with_history o.progress_payload
  ok (record o {
    status = OperationStatus.success;
    output_payload = or_value output empty_dict;
    progress_payload = progress;
    trace = trace;
    finished_at = some now;
  })

unfoldable pub fail_operation_run : ℕ → String → Value → Value → ℕ → Db → Outcome OperationReply
unfolding progress_with_history
fail_operation_run id error output trace now = edit_operation_run id is_done λ o. do
  progress ← progress_with_history o.progress_payload
  ok (record o {
    status = OperationStatus.failed;
    error = some error;
    output_payload = or_old output o.output_payload;
    trace = or_old trace o.trace;
    progress_payload = progress;
    finished_at = some now;
  })
