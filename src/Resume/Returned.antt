-- ===== src/Resume/Returned.antt =====
-- The exits by which a resume returns, and what its writes leave on the way.
use nd3x.Prelude.{
  ℕ, ◌≡◌, refl, ap, ◌∙◌, subst, Bool, true, ◌||◌, inl, inr, arith, Bool-cases, String, Option, none,
  some, List, [], ◌∷◌, if◌then◌else◌,
}
use nd3x.Json.{Value, Items}
use nd3x.Table.{find, find_key, modify}
use nd3x.Runs.{
  OperationStatus, WorkflowRun, WorkflowOperationRun, Db, is_terminal_operation,
  is_waiting_operation, get_operation_run, operation_run_key, edit_run,
}
use nd3x.Runs.Operations.{
  ◌>>=◌, is_done, resume_history, commit_operation, edit_operation_run, rows_after, Outcome, ok,
  raised, OperationReply, mark_waiting_operation_run, fail_operation_run, finish_operation_run,
}
use nd3x.Runs.Calls.{Call, wait_operation, fail_operation, finish_operation, history, step}
use nd3x.Runs.Calls.Rows.{operations-edit_run, history-OperationsEvolve}
use nd3x.Execution.{Exit, after_write}
use nd3x.Execution.Rows.{
  found-modified, IsThere, HasVerdict, IsThere-history, failed-HasVerdict, finished-HasVerdict,
}
use nd3x.Execution.WholeRun.{RunExit}
use nd3x.Execution.WholeRun.Left.{IsRun, IsLeft, left_as, IsLeft-edited, IsRun-history}
use nd3x.Resume.{
  ResumeExit, approval_rejected, still_waiting, operation_stopped, run_waits, run_finished, Resumed,
  then_write,
}

-- the exits by which the resume returns, with those of `execute_run` that allow the same statuses
abbrev pub as_run : ResumeExit → Option RunExit
as_run approval_rejected = some RunExit.run_failed
as_run operation_stopped = some RunExit.run_failed
as_run still_waiting = some RunExit.run_waits
as_run run_waits = some RunExit.run_waits
as_run run_finished = some RunExit.run_finished
as_run _ = none

-- The row waits, or has ended.
pub record AtRest (id : ℕ) (db : Db) : Type 0 where
  pub row : WorkflowOperationRun
  pub found : get_operation_run id db ≡ some row
  pub rests : is_waiting_operation row.status || is_terminal_operation row.status ≡ true

-- The row was left waiting or ended, and after that only these calls of others were made.
pub record RestedBefore (id : ℕ) (calls : List Call) (db : Db) : Type 0 where
  pub before : Db
  pub rest : AtRest id before
  pub later : db.operation_runs ≡ (history before calls).operation_runs

-- What is left of the operation: it waits again after one of the exits, and has ended after the others.
abbrev pub OperationLeft : ResumeExit → ℕ → List Call → Db → Type 0
OperationLeft still_waiting id calls db = RestedBefore id calls db
OperationLeft _ id calls db = HasVerdict id db

pub record Settled (run_id id : ℕ) (calls : List Call) (e : Resumed) (x : RunExit) : Type 0 where
  pub run : IsLeft run_id (record { exit = x; db = e.db })
  pub operation : OperationLeft e.exit id calls e.db

pub record Both (run_id id : ℕ) (db : Db) : Type 0 where
  pub run : IsRun run_id db
  pub operation : IsThere id db

pub Both-history :
    (run_id id : ℕ) (db : Db) (calls : List Call)
    → Both run_id id db
    → Both run_id id (history db calls)
Both-history run_id id db calls b = record {
  run = IsRun-history run_id db calls b.run;
  operation = IsThere-history id db calls b.operation;
}

pub HasVerdict-history :
    (id : ℕ) (db : Db) (calls : List Call) → HasVerdict id db → HasVerdict id (history db calls)
HasVerdict-history id db calls v =
    let (p, f, e) = (history-OperationsEvolve db calls).at id v.row v.found in
    record {
      row = p;
      found = f;
      over = ap is_terminal_operation (e.verdict v.over).status ∙ v.over;
    }

pub HasVerdict-edit_run :
    (id run_id : ℕ) (held : WorkflowRun → Bool) (f : WorkflowRun → WorkflowRun) (db : Db)
    → HasVerdict id db
    → HasVerdict id (edit_run run_id held f db).1
HasVerdict-edit_run id run_id held f db v = record {
  row = v.row;
  found =
      ap (λ rows. find operation_run_key id rows) (operations-edit_run run_id held f db) ∙ v.found;
  over = v.over;
}

rested :
    (id : ℕ) (db db1 : Db) (o : WorkflowOperationRun) (x : Option WorkflowOperationRun)
    (m : Outcome Items) (g : Items → WorkflowOperationRun)
    → get_operation_run id db ≡ some o
    → ((xs : Items) → ((g xs).id ≡ o.id) × (is_waiting_operation (g xs).status ≡ true))
    → ((m >>= λ xs. ok (g xs)) >>= λ p. ok (commit_operation p db)) ≡ ok (x, db1)
    → AtRest id db1
rested id db db1 o x (raised e) g found waits h = cc
rested id db db1 o x (ok xs) g found waits h =
    let (same, status) = waits xs in
    let here : (g xs).id ≡ id = same ∙ find_key operation_run_key id db.operation_runs found in
    subst (AtRest id) (committed h) (record {
      row = g xs;
      found = found-modified id (g xs) db o found here;
      rests = rw status refl;
    })
  where
    committed :
        ok (commit_operation (g xs) db) ≡ ok (x, db1)
        → record db {
          operation_runs = modify operation_run_key (g xs).id (λ _. g xs) db.operation_runs;
        }
          ≡ db1
    committed h = cc

-- A row that is made to wait does so, unless it had ended.
pub waiting-AtRest :
    (id : ℕ) (status : OperationStatus) (pending trace out : Value) (now : ℕ) (db db1 : Db)
    (x : Option WorkflowOperationRun)
    → IsThere id db
    → mark_waiting_operation_run id status pending trace out now db ≡ ok (x, db1)
    → AtRest id db1
unfolding mark_waiting_operation_run edit_operation_run
waiting-AtRest id status pending trace out now db db1 x there h =
    elim (Bool-cases (is_done there.row)) [
      | inl e ↦
          subst (AtRest id)
            (kept (rw (there.found, e, mark_waiting_operation_run, edit_operation_run) at h))
            (record { row = there.row; found = there.found; rests = ground (arith, e) })
      | inr e ↦ elim (Bool-cases (is_waiting_operation status)) [
        | inl w ↦
            rested id db db1 there.row x (resume_history there.row.progress_payload) _ there.found
              (λ xs. (refl, w))
              (rw (there.found, e, w, mark_waiting_operation_run, edit_operation_run) at h)
        | inr w ↦ cc (rw (there.found, e, w, mark_waiting_operation_run, edit_operation_run) at h)
      ]
    ]
  where
    kept : ◌≡◌ {A = Outcome OperationReply} (ok (some there.row, db)) (ok (x, db1)) → db ≡ db1
    kept h = cc

module _ (r : WorkflowRun) (o : WorkflowOperationRun) (calls : List Call) where
  abbrev pub Leaves : Resumed → Type 0
  Leaves e = (x : RunExit) → as_run e.exit ≡ some x → Settled r.id o.id calls e x

  pub then_write-Leaves :
      (m : Outcome OperationReply) (db : Db) (next : Db → Resumed)
      → ((x : Option WorkflowOperationRun) (db1 : Db) → m ≡ ok (x, db1) → Leaves (next db1))
      → Leaves (then_write m db next)
  then_write-Leaves (raised e) db next leaves x h = cc
  then_write-Leaves (ok (y, db1)) db next leaves x h = leaves y db1 refl x h

  pub marked-Leaves :
      (exit : ResumeExit) (y : RunExit) (held : WorkflowRun → Bool) (f : WorkflowRun → WorkflowRun)
      (db : Db)
      → ((s : WorkflowRun) → (f s).id ≡ s.id)
      → ((s : WorkflowRun) → left_as y (if held s then s else f s).status ≡ true)
      → as_run exit ≡ some y
      → IsRun r.id db
      → OperationLeft exit o.id calls (edit_run r.id held f db).1
      → Leaves (record { exit = exit; db = (edit_run r.id held f db).1 })
  marked-Leaves exit y held f db keeps good named run op x h =
      let same : y ≡ x = cc in
      subst (Settled r.id o.id calls (record { exit = exit; db = (edit_run r.id held f db).1 }))
        same (record { run = IsLeft-edited y r.id held f db keeps good run; operation = op })

module _ (r : WorkflowRun) (o : WorkflowOperationRun) (now : ℕ) where
  pub failed-after :
      (error : String) (out trace : Value) (db db1 : Db) (x : Option WorkflowOperationRun)
      → IsThere o.id db
      → fail_operation_run o.id error out trace now db ≡ ok (x, db1)
      → HasVerdict o.id db1
  unfolding after_write
  failed-after error out trace db db1 x there f =
      rw (f, after_write) at
        (failed-HasVerdict o.id now Exit.input_mapping_failed db there error out trace
          (rw (f, after_write) refl))

  pub finished-after :
      (out trace : Value) (db db1 : Db) (x : Option WorkflowOperationRun)
      → IsThere o.id db
      → finish_operation_run o.id out trace now db ≡ ok (x, db1)
      → HasVerdict o.id db1
  unfolding after_write
  finished-after out trace db db1 x there f =
      rw (f, after_write) at
        (finished-HasVerdict o.id now Exit.input_mapping_failed db there out trace
          (rw (f, after_write) refl))

  -- A write that has come through leaves the run and the row where they are.
  pub wrote :
      (m : Outcome OperationReply) (c : Call) (db db1 : Db) (x : Option WorkflowOperationRun)
      → step db c ≡ rows_after db m
      → Both r.id o.id db
      → m ≡ ok (x, db1)
      → Both r.id o.id db1
  unfolding history
  wrote m c db db1 x e b f =
      subst (Both r.id o.id) (e ∙ ap (rows_after db) f) (Both-history r.id o.id db (c ∷ []) b)

  pub failed-Both :
      (error : String) (out trace : Value) (db db1 : Db) (x : Option WorkflowOperationRun)
      → Both r.id o.id db
      → fail_operation_run o.id error out trace now db ≡ ok (x, db1)
      → Both r.id o.id db1
  unfolding step
  failed-Both error out trace db db1 x b f =
      wrote (fail_operation_run o.id error out trace now db)
        (fail_operation o.id error out trace now) db db1 x refl b f

  pub finished-Both :
      (out trace : Value) (db db1 : Db) (x : Option WorkflowOperationRun)
      → Both r.id o.id db
      → finish_operation_run o.id out trace now db ≡ ok (x, db1)
      → Both r.id o.id db1
  unfolding step
  finished-Both out trace db db1 x b f =
      wrote (finish_operation_run o.id out trace now db) (finish_operation o.id out trace now) db
        db1 x refl b f

  pub waiting-Both :
      (status : OperationStatus) (pending trace out : Value) (db db1 : Db)
      (x : Option WorkflowOperationRun)
      → Both r.id o.id db
      → mark_waiting_operation_run o.id status pending trace out now db ≡ ok (x, db1)
      → Both r.id o.id db1
  unfolding step
  waiting-Both status pending trace out db db1 x b f =
      wrote (mark_waiting_operation_run o.id status pending trace out now db)
        (wait_operation o.id status pending trace out now) db db1 x refl b f
