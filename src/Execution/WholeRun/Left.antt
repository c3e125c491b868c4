-- ===== src/Execution/WholeRun/Left.antt =====
-- The status in which a run of execute_run (src/services/workflows/workflow_executor.py) was left.
use nd3x.Prelude.{
  ℕ, ◌≡◌, refl, ◌∙◌, Bool, true, false, ◌||◌, inl, inr, some, List, ==_refl, if◌then◌else◌,
  Bool-cases,
}
use nd3x.Table.{find-modify}
use nd3x.Runs.{
  RunStatus, WorkflowRun, Db, waiting, is_terminal, is_cancel_requested_status, run_key, get_run,
  edit_run,
}
use nd3x.Runs.Marks.{is_settled}
use nd3x.Runs.Calls.{Call, history}
use nd3x.Runs.Calls.Rows.{history-RowsEvolve}
use nd3x.Execution.WholeRun.{RunExit, run_not_found, run_finished, run_waits, RunEnded}

pub record IsRun (id : ℕ) (db : Db) : Type 0 where
  pub row : WorkflowRun
  pub found : get_run id db ≡ some row

-- the statuses that a run can have when it was left in this way
abbrev pub left_as : RunExit → RunStatus → Bool
left_as run_not_found status = false
left_as run_finished status = is_terminal status || is_cancel_requested_status status
left_as run_waits waiting = true
left_as run_waits status = is_terminal status || is_cancel_requested_status status
left_as _ status = is_terminal status

pub record IsLeft (id : ℕ) (e : RunEnded) : Type 0 where
  pub row : WorkflowRun
  pub found : get_run id e.db ≡ some row
  pub status : left_as e.exit row.status ≡ true

edited :
    (id : ℕ) (held : WorkflowRun → Bool) (f : WorkflowRun → WorkflowRun) (db : Db) (r : WorkflowRun)
    → ((s : WorkflowRun) → (f s).id ≡ s.id)
    → get_run id db ≡ some r
    → get_run id (edit_run id held f db).1 ≡ some (if held r then r else f r)
unfolding edit_run
edited id held f db r keeps found = elim (Bool-cases (held r)) [
  | inl e ↦ rw (found, e, edit_run) found
  | inr e ↦
      rw (found, e, edit_run)
        (find-modify run_key id f id db.runs (λ s h. keeps s) ∙ rw (==_refl id) (rw found refl))
]

pub IsLeft-edited :
    (exit : RunExit) (id : ℕ) (held : WorkflowRun → Bool) (f : WorkflowRun → WorkflowRun) (db : Db)
    → ((s : WorkflowRun) → (f s).id ≡ s.id)
    → ((s : WorkflowRun) → left_as exit (if held s then s else f s).status ≡ true)
    → IsRun id db
    → IsLeft id (record { exit = exit; db = (edit_run id held f db).1 })
IsLeft-edited exit id held f db keeps good there = record {
  row = if held there.row then there.row else f there.row;
  found = edited id held f db there.row keeps there.found;
  status = good there.row;
}

pub IsRun-history :
    (id : ℕ) (db : Db) (calls : List Call) → IsRun id db → IsRun id (history db calls)
IsRun-history id db calls there =
    let (s, f, e) = (history-RowsEvolve db calls).at id there.row there.found in
    record { row = s; found = f }

left_settled :
    (x : RunStatus)
    → is_terminal x || is_cancel_requested_status x ≡ true
    → left_as run_waits x ≡ true
left_settled RunStatus.waiting h = refl
left_settled RunStatus.queued h = h
left_settled RunStatus.running h = h
left_settled RunStatus.cancel_requested h = h
left_settled RunStatus.success h = h
left_settled RunStatus.failed h = h
left_settled RunStatus.cancelled h = h

-- What mark_waiting leaves.
pub left_waiting :
    (s t : WorkflowRun)
    → t.status ≡ RunStatus.waiting
    → left_as run_waits (if is_settled s then s else t).status ≡ true
left_waiting s t h = elim (Bool-cases (is_settled s)) [
  | inl k ↦ rw k (left_settled s.status k)
  | inr k ↦ rw k (rw h refl)
]
