-- ===== src/Runs/Queries.antt =====
-- The methods of WorkflowRunRepository that only read. Rows that tie in an ORDER BY are in the
-- order of the table, which the database does not promise.
use nd3x.Prelude.{
  ℕ, zero, suc, ◌≤◌, ◌≡◌, refl, Bool, true, false, ◌&&◌, String, Option, none, some, List, [], ◌∷◌,
  arith, all, keep, length, leb, ◌==◌, str_eq, if◌then◌else◌,
}
use nd3x.Json.{Value, str, get_key}
use nd3x.Runs.{
  RunStatus, queued, WorkflowRun, WorkflowOperationRun, Db, is_waiting_operation, get_run,
}

module _ {A : Type 0} (before : A → A → Bool) where
  unfoldable pub insert_by : A → List A → List A
  insert_by x [] = x ∷ []
  insert_by x (y ∷ rows) =
      let rest = insert_by x rows in if before x y then x ∷ y ∷ rows else y ∷ rest

  -- ORDER BY
  unfoldable pub order_by : List A → List A
  unfolding insert_by
  order_by [] = []
  order_by (x ∷ rows) = insert_by x (order_by rows)

module _ {A : Type 0} where
  -- OFFSET
  unfoldable pub offset : ℕ → List A → List A
  offset zero rows = rows
  offset (suc n) [] = []
  offset (suc n) (x ∷ rows) = offset n rows

  -- LIMIT
  unfoldable pub limit_to : ℕ → List A → List A
  limit_to zero rows = []
  limit_to (suc n) [] = []
  limit_to (suc n) (x ∷ rows) = x ∷ limit_to n rows

  abbrev pub first : List A → Option A
  first [] = none
  first (x ∷ rows) = some x

abbrev pub is_queued : RunStatus → Bool
is_queued queued = true
is_queued _ = false

abbrev pub operations_of_run : ℕ → Db → List WorkflowOperationRun
operations_of_run run_id db = keep (λ o. o.workflow_run_id == run_id) db.operation_runs

abbrev pub with_operations :
    Db → Option WorkflowRun → Option (WorkflowRun × List WorkflowOperationRun)
with_operations db none = none
with_operations db (some r) = some (r, operations_of_run r.id db)

unfoldable pub get_run_with_operations : ℕ → Db → Option (WorkflowRun × List WorkflowOperationRun)
get_run_with_operations run_id db = with_operations db (get_run run_id db)

unfoldable pub list_runs_for_workflow : ℕ → ℕ → ℕ → Db → List WorkflowRun
unfolding order_by offset limit_to
list_runs_for_workflow workflow_id skip limit db = limit_to limit (
    offset skip (
      order_by (λ a b. leb b.created_at a.created_at)
        (keep (λ r. r.workflow_id == workflow_id) db.runs)))

unfoldable pub list_queued_runs : ℕ → Db → List WorkflowRun
unfolding order_by limit_to
list_queued_runs limit db =
    limit_to limit
      (order_by (λ a b. leb a.created_at b.created_at) (keep (λ r. is_queued r.status) db.runs))

-- `if operation_id is not None: q = q.filter(...)`
abbrev pub is_operation : Option ℕ → WorkflowOperationRun → Bool
is_operation none o = true
is_operation (some id) o = o.workflow_operation_id == id

unfoldable pub get_waiting_operation_run : ℕ → Option ℕ → Db → Option WorkflowOperationRun
unfolding order_by
get_waiting_operation_run run_id operation_id db = first (
    order_by (λ a b. leb b.id a.id)
      (keep
        (λ o.
          o.workflow_run_id == run_id
          && is_waiting_operation o.status
          && is_operation operation_id o)
        db.operation_runs))

abbrev pub is_text : String → Value → Bool
is_text s (str t) = str_eq t s
is_text s _ = false

abbrev pub is_some_row : Option WorkflowRun → Bool
is_some_row none = false
is_some_row (some r) = true

-- A time that is stored as a text, as the schedule writes it.
unfoldable pub exists_scheduled_run : ℕ → String → Db → Bool
exists_scheduled_run workflow_id scheduled_for db = is_some_row (
    first (
      keep
        (λ r.
          r.workflow_id == workflow_id
          && str_eq r.trigger_type "cron"
          && is_text scheduled_for (get_key "scheduled_for" r.input_payload))
        db.runs))

all-kept : {A : Type 0} (p : A → Bool) (rows : List A) → all p (keep p rows) ≡ true
all-kept p [] = refl
all-kept p (x ∷ rows) = ground (arith, all-kept p rows)

all-insert_by :
    {A : Type 0} (before : A → A → Bool) (p : A → Bool) (x : A) (rows : List A)
    → all p (insert_by before x rows) ≡ (p x && all p rows)
unfolding insert_by
all-insert_by before p x [] = refl
all-insert_by before p x (y ∷ rows) = ground (arith, all-insert_by before p x rows)

all-order_by :
    {A : Type 0} (before : A → A → Bool) (p : A → Bool) (rows : List A)
    → all p (order_by before rows) ≡ all p rows
unfolding order_by
all-order_by before p [] = refl
all-order_by before p (x ∷ rows) =
    ground (arith, all-insert_by before p x (order_by before rows), all-order_by before p rows)

all-limit_to :
    {A : Type 0} (p : A → Bool) (n : ℕ) (rows : List A)
    → all p rows ≡ true
    → all p (limit_to n rows) ≡ true
unfolding limit_to
all-limit_to p zero rows h = refl
all-limit_to p (suc n) [] h = refl
all-limit_to p (suc n) (x ∷ rows) h = ground (arith, all-limit_to p n rows)

length-limit_to : {A : Type 0} (n : ℕ) (rows : List A) → length (limit_to n rows) ≤ n
unfolding limit_to
length-limit_to zero rows = omega arith
length-limit_to (suc n) [] = omega arith
length-limit_to (suc n) (x ∷ rows) = omega (arith, length-limit_to n rows)

-- A worker is given queued runs only, and no more than it asked for.
list_queued_runs-queued :
    (limit : ℕ) (db : Db)
    → (all (λ r. is_queued r.status) (list_queued_runs limit db) ≡ true)
      × (length (list_queued_runs limit db) ≤ limit)
unfolding list_queued_runs
list_queued_runs-queued limit db =
    let older = λ (a b : WorkflowRun). leb a.created_at b.created_at in
    let is_waiting = λ (r : WorkflowRun). is_queued r.status in
    (
      all-limit_to is_waiting limit (order_by older (keep is_waiting db.runs)) (
          rw (all-order_by older is_waiting (keep is_waiting db.runs))
            (all-kept is_waiting db.runs)),
      length-limit_to limit (order_by older (keep is_waiting db.runs)),
    )
