-- ===== src/Runs/Cancel.antt =====
-- The cancellation requests of WorkflowRunRepository: to a run, to its child runs and theirs, and
-- to the siblings of a failed for_each item.
use nd3x.Prelude.{
  ℕ, zero, suc, Bool, ◌&&◌, not, Option, none, some, String, List, [], ◌∷◌, is_some_of, keep,
  length, if◌then◌else◌,
}
use nd3x.Table.{modify, modify_where}
use nd3x.Runs.{
  WorkflowRun, Db, Reply, cancel_requested, is_terminal, is_cancellable, run_key, get_run,
}

abbrev pub request_cancel : ℕ → WorkflowRun → WorkflowRun
request_cancel now r = record r { status = cancel_requested; cancel_requested_at = some now }

-- parent_run_id == parent and status in ("queued", "running")
abbrev pub is_live_child : ℕ → WorkflowRun → Bool
is_live_child parent r = is_some_of r.parent_run_id parent && is_cancellable r.status

-- `for run in runs: self.request_cancel_child_runs(run.id)`
unfoldable pub cancel_each :
    (ℕ → List WorkflowRun → Option (List WorkflowRun))
    → List WorkflowRun
    → List WorkflowRun
    → Option (List WorkflowRun)
cancel_each recur [] rows = some rows
cancel_each recur (r ∷ rest) rows = elim (recur r.id rows) [
  | none ↦ none
  | some rows' ↦ cancel_each recur rest rows'
]

-- Marks the live children, and then recurs into each; `none` is fuel that ran out.
unfoldable pub request_cancel_child_runs : ℕ → ℕ → ℕ → List WorkflowRun → Option (List WorkflowRun)
request_cancel_child_runs zero now parent rows = none
request_cancel_child_runs (suc fuel) now parent rows =
    cancel_each (request_cancel_child_runs fuel now) (keep (is_live_child parent) rows)
      (modify_where (is_live_child parent) (request_cancel now) rows)

-- Each level of the recursion marks a run that was live, so this is enough for the cascade.
abbrev pub cascade_fuel : List WorkflowRun → ℕ
cascade_fuel rows = suc (suc (length rows))

abbrev cascade_from : ℕ → ℕ → Db → Option Db
cascade_from now parent db =
    elim (request_cancel_child_runs (cascade_fuel db.runs) now parent db.runs) [
      | none ↦ none
      | some rows ↦ some (record db { runs = rows })
    ]

unfoldable pub request_cancel_run : ℕ → ℕ → Db → Option Reply
request_cancel_run id now db = elim (get_run id db) [
  | none ↦ some (none, db)
  | some r ↦
      if is_terminal r.status
      then some (some r, db)
      else (elim (cascade_from now id
          (record db { runs = modify run_key id (request_cancel now) db.runs })) [
            | none ↦ none
            | some db' ↦ some (some (request_cancel now r), db')
          ])
]

-- a live run of the same for_each operation, other than the one that failed
abbrev pub is_live_sibling : ℕ → ℕ → Option ℕ → WorkflowRun → Bool
is_live_sibling parent parent_operation except r =
    is_some_of r.parent_run_id parent
    && is_some_of r.parent_operation_run_id parent_operation
    && is_cancellable r.status
    && not (is_some_of except r.id)

abbrev pub request_cancel_because : ℕ → String → WorkflowRun → WorkflowRun
request_cancel_because now reason r = record (request_cancel now r) { error = some reason }

unfoldable pub request_cancel_for_each_sibling_runs : ℕ → ℕ → Option ℕ → String → ℕ → Db → Option Db
request_cancel_for_each_sibling_runs parent parent_operation except reason now db =
    let live = is_live_sibling parent parent_operation except in
    elim (cancel_each (request_cancel_child_runs (cascade_fuel db.runs) now) (keep live db.runs)
      (modify_where live (request_cancel_because now reason) db.runs)) [
        | none ↦ none
        | some rows ↦ some (record db { runs = rows })
      ]
