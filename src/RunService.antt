-- ===== src/RunService.antt =====
-- src/services/workflows/workflow_run_service.py: what users see of a run and do to it, above all to
-- an operation that waits for an answer or an approval.
--
-- str() of a value that is no text and datetime.fromisoformat are parameters, the latter with the
-- exceptions that the source catches as a missing result; it reads times without a time zone.
pub mod Answering
pub mod Waiting
mod Tests
use Prim.Native.Char.{Char, code}
use Prim.Native.String.{◌++◌, count}
use nd3x.Prelude.{
  ℕ, zero, suc, ◌-◌, Bool, true, false, ◌&&◌, ◌||◌, not, String, Option, none, some, List, [], ◌∷◌,
  ◌==◌, leb, elem, str_eq, any, if◌then◌else◌,
}
use nd3x.Prelude.Results.{Result, returned, failed_with}
use nd3x.Json.{
  ℤ, pos, Value, obj, arr, str, num, bool, null, Fields, field, end, Items, cons, nil, truthy,
  or_value, empty_dict, get_field, get_key, has_key, put_field, append_items, list_or_empty,
}
use nd3x.Policy.Text.{strip, strip_right, replace_from, replace, take_chars}
use nd3x.Board.Words.{is_word}
use nd3x.Runs.{
  WorkflowRun, WorkflowOperationRun, Db, Reply, is_terminal, get_run, get_operation_run,
}
use nd3x.Runs.Marks.{mark_failed, mark_cancelled}
use nd3x.Runs.Operations.{
  Error, Outcome, ok, raised, ◌>>=◌, OperationReply, items_outcome, mark_operation_cancelled,
  fail_operation_run,
}
use nd3x.Runs.Cancel.{request_cancel_run}
use nd3x.Runs.Queries.{get_waiting_operation_run}

-- HTTPException with the status 404, 409 or 400, and an exception that is not caught.
pub data Fault : Type 0 where
  not_found conflict bad_request : Fault
  broken : Error → Fault

pub record Served (A : Type 0) : Type 0 where
  pub answer : Result Fault A
  pub db : Db

abbrev pub or_not_found : {A : Type 0} → Option A → Result Fault A
or_not_found none = failed_with not_found
or_not_found (some a) = returned a

unfoldable pub find_run : ℕ → Db → Result Fault WorkflowRun
find_run run_id db = or_not_found (get_run run_id db)

abbrev cancelled_or : WorkflowRun → Db → Option Reply → Served WorkflowRun
cancelled_or r db none = record { answer = returned r; db = db }
cancelled_or r db (some (none, db')) = record { answer = returned r; db = db' }
cancelled_or r db (some (some s, db')) = record { answer = returned s; db = db' }

unfoldable pub cancel_run : ℕ → ℕ → Db → Served WorkflowRun
cancel_run run_id now db = elim (get_run run_id db) [
  | none ↦ record { answer = failed_with not_found; db = db }
  | some r ↦
      if is_terminal r.status
      then record { answer = returned r; db = db }
      else cancelled_or r db (request_cancel_run run_id now db)
]

-- ((op_run.progress_payload or {}).get("pending_state") or {})
unfoldable pub pending_of : WorkflowOperationRun → Value
pending_of o =
    or_value (get_key "pending_state" (or_value o.progress_payload empty_dict)) empty_dict

-- text[:-1] if text.endswith("Z")
unfoldable pub without_z : String → String
without_z String.[] = ""
without_z (String.◌∷◌ c String.[]) = if code c == b'Z' then "" else String.◌∷◌ c ""
without_z (String.◌∷◌ c (String.◌∷◌ d s)) = String.◌∷◌ c (without_z (String.◌∷◌ d s))

pub data OnTimeout : Type 0 where
  fail cancel keep_waiting : OnTimeout

-- any other text is read as "fail"
abbrev pub read_on_timeout : String → OnTimeout
read_on_timeout text =
    if is_word "cancel" text
    then cancel
    else (if is_word "keep_waiting" text then keep_waiting else fail)

abbrev pub word_of : OnTimeout → String
word_of fail = "failed"
word_of cancel = "cancelled"
word_of keep_waiting = "failed"

-- The keys of a pending state that are shown.
abbrev pub allowed_keys : List String
allowed_keys =
    "type" ∷ "operation_id" ∷ "operation_name" ∷ "assistant_id" ∷ "assistant_name" ∷ "skill_names"
    ∷ "question" ∷ "context_summary" ∷ "tool" ∷ "tool_id" ∷ "risk_level" ∷ "message"
    ∷ "confirmation_prompt" ∷ "display" ∷ "policy_decision" ∷ "tool_call_hash" ∷ "created_at"
    ∷ "expires_at" ∷ "waiting_policy" ∷ []

unfoldable pub is_allowed : String → Bool
is_allowed key = any (str_eq key) allowed_keys

-- {k: v for k, v in pending.items() if k in allowed}
unfoldable pub allowed_fields : Fields → Fields
unfolding is_allowed
allowed_fields end = end
allowed_fields (field k v fs) =
    let rest = allowed_fields fs in if is_allowed k then field k v rest else rest

module _ (text_of : Value → String) (fromisoformat : String → Option ℕ) where
  -- str(value)
  abbrev pub shown : Value → String
  shown (str s) = s
  shown v = text_of v

  unfoldable pub parse_iso : Value → Option ℕ
  unfolding without_z
  parse_iso v = if truthy v then fromisoformat (without_z (shown v)) else none

  -- "" if value is None else str(value)
  abbrev pub blank_or_shown : Value → String
  blank_or_shown null = ""
  blank_or_shown v = shown v

  unfoldable pub compact_preview : Value → ℕ → String
  unfolding strip strip_right replace_from take_chars
  compact_preview v limit =
      let text = strip (replace "\n" " " (replace "\r" " " (blank_or_shown v))) in
      if leb (count text) limit then text else strip_right (take_chars (limit - 1) text) ++ "…"

  abbrev pub is_before : ℕ → Option ℕ → Bool
  is_before now none = false
  is_before now (some t) = leb t now

  unfoldable pub is_pending_expired : ℕ → Value → Bool
  unfolding parse_iso
  is_pending_expired now pending = is_before now (parse_iso (get_key "expires_at" pending))

  -- ((pending.get("waiting_policy") or {}).get("on_timeout") or "fail")
  abbrev pub policy_word : Value → Value
  policy_word pending =
      or_value (get_key "on_timeout" (or_value (get_key "waiting_policy" pending) empty_dict))
        (str "fail")

  unfoldable pub on_timeout_of : Value → OnTimeout
  unfolding is_word
  on_timeout_of pending = read_on_timeout (shown (policy_word pending))

  abbrev pub timeout_event : WorkflowOperationRun → Value → String → Value
  timeout_event o pending status = obj (
      field "type" (str "workflow_waiting_timeout_expired") (
        field "level" (str "warn") (
          field "summary" (str "workflow waiting timeout expired") (
            field "data"
              (obj (
                field "operation_id" (num (pos o.workflow_operation_id)) (
                  field "expires_at" (get_key "expires_at" pending)
                    (field "on_timeout" (policy_word pending) (field "status" (str status) end)))))
              end))))

  -- list(op_run.trace or []), with the event
  unfoldable pub append_timeout_trace : WorkflowOperationRun → Value → String → Outcome Value
  append_timeout_trace o pending status = items_outcome (list_or_empty o.trace) >>= λ xs.
      ok (arr (append_items xs (cons (timeout_event o pending status) nil)))

  unfoldable pub timeout_output : Value → String → Value
  timeout_output pending status = obj (
      field "status" (str status) (
        field "type" (str "workflow_waiting_timeout_expired") (
          field "reason" (str "Workflow waiting timeout expired") (
            field "pending_type" (get_key "type" pending)
              (field "expires_at" (get_key "expires_at" pending) end)))))

  abbrev pub timeout_error : WorkflowOperationRun → String
  timeout_error o =
      "Workflow waiting timeout expired for operation " ++ shown (num (pos o.workflow_operation_id))

  -- The operation run is ended, and then its run.
  unfoldable pub end_waiting :
      OnTimeout → WorkflowRun → WorkflowOperationRun → Value → Value → ℕ → Db → Outcome (Bool × Db)
  end_waiting keep_waiting r o output trace now db = ok (false, db)
  end_waiting cancel r o output trace now db =
      mark_operation_cancelled o.id (timeout_error o) output trace now db >>= λ (x, db').
      ok (true, (mark_cancelled r.id output (some (timeout_error o)) now db').1)
  end_waiting fail r o output trace now db =
      fail_operation_run o.id (timeout_error o) output trace now db >>= λ (x, db').
      ok (true, (mark_failed r.id (timeout_error o) output now db').1)

  unfoldable pub enforce_policy :
      OnTimeout → WorkflowRun → WorkflowOperationRun → ℕ → Db → Outcome (Bool × Db)
  unfolding end_waiting append_timeout_trace timeout_output
  enforce_policy keep_waiting r o now db = ok (false, db)
  enforce_policy policy r o now db =
      append_timeout_trace o (pending_of o) (word_of policy) >>= λ trace.
      end_waiting policy r o (timeout_output (pending_of o) (word_of policy)) trace now db

  unfoldable pub enforce_waiting_timeout :
      WorkflowRun → WorkflowOperationRun → ℕ → Db → Outcome (Bool × Db)
  unfolding enforce_policy is_pending_expired on_timeout_of pending_of
  enforce_waiting_timeout r o now db =
      if is_pending_expired now (pending_of o)
      then enforce_policy (on_timeout_of (pending_of o)) r o now db
      else ok (false, db)

  -- The display of a tool call, cut to what is shown.
  abbrev pub public_display : Value → Fields → Fields
  public_display (obj d) public =
      put_field "display"
        (obj (
          field "command" (str (compact_preview (get_field "command" d) 300)) (
            field "working_dir" (get_field "working_dir" d)
              (field "timeout" (get_field "timeout" d) end))))
        public
  public_display v public = public

  unfoldable pub public_pending_state : ℕ → Fields → Fields
  unfolding allowed_fields put_field is_pending_expired compact_preview
  public_pending_state now pending =
      let public = allowed_fields pending in
      put_field "expired" (bool (is_pending_expired now (obj pending)))
        (public_display (get_field "display" public) public)

  -- The run and the operation run that are shown.
  abbrev after_timeout :
      WorkflowRun
      → WorkflowOperationRun
      → Db
      → Outcome (Bool × Db)
      → Served (WorkflowRun × WorkflowOperationRun)
  after_timeout r o db (raised e) = record { answer = failed_with (broken e); db = db }
  after_timeout r o db (ok (true, db')) = record { answer = failed_with conflict; db = db' }
  after_timeout r o db (ok (false, db')) = record { answer = returned (r, o); db = db' }

  -- What `get_pending` and `resume_operation` start with, where `missing` is the fault for an
  -- operation that does not wait.
  unfoldable pub take_waiting :
      Fault → WorkflowRun → Option ℕ → ℕ → Db → Served (WorkflowRun × WorkflowOperationRun)
  unfolding enforce_waiting_timeout
  take_waiting missing r operation_id now db =
      elim (get_waiting_operation_run r.id operation_id db) [
        | none ↦ record { answer = failed_with missing; db = db }
        | some o ↦ after_timeout r o db (enforce_waiting_timeout r o now db)
      ]

  unfoldable pub get_pending : ℕ → Option ℕ → ℕ → Db → Served (WorkflowRun × WorkflowOperationRun)
  unfolding take_waiting
  get_pending run_id operation_id now db = elim (get_run run_id db) [
    | none ↦ record { answer = failed_with not_found; db = db }
    | some r ↦ take_waiting not_found r operation_id now db
  ]
