-- ===== src/Execution/Rows.antt =====
-- What the writes of an operation run leave in its row.
use nd3x.Prelude.{
  ℕ, ◌≡◌, refl, sym, ◌∙◌, subst, Bool, true, false, inl, inr, ◌⊎◌, String, Option, none, some, List,
  [], ◌∷◌, ◌++◌, ==_refl, Bool-cases,
}
use nd3x.Prelude.Results.{Result, returned, failed_with}
use nd3x.Json.{Value}
use nd3x.Table.{find, find_key, find-modify, find-append_fresh, modify}
use nd3x.Runs.{
  WorkflowOperationRun, Db, is_terminal_operation, operation_run_key, get_operation_run,
}
use nd3x.Runs.Operations.{
  Error, Outcome, ok, raised, ◌>>=◌, OperationReply, is_done, edit_operation_run,
  progress_with_history, create_operation_run, fail_operation_run, finish_operation_run,
  mark_operation_cancelled, commit_operation,
}
use nd3x.Runs.Calls.{Call, history}
use nd3x.Runs.Calls.Rows.{history-OperationsEvolve}
use nd3x.Execution.{
  Exit, input_mapping_failed, answered, cancelled, failed, contract_violated, after_write,
}

pub record IsThere (id : ℕ) (db : Db) : Type 0 where
  pub row : WorkflowOperationRun
  pub found : get_operation_run id db ≡ some row

-- The row has ended: as a success, a failure or a cancellation.
pub record HasVerdict (id : ℕ) (db : Db) : Type 0 where
  pub row : WorkflowOperationRun
  pub found : get_operation_run id db ≡ some row
  pub over : is_terminal_operation row.status ≡ true

-- the exits after which the row must have ended
abbrev pub is_verdict : Exit → Bool
is_verdict input_mapping_failed = true
is_verdict (answered v) = true
is_verdict cancelled = true
is_verdict (failed message) = true
is_verdict (contract_violated v) = true
is_verdict _ = false

abbrev EndsRow : (WorkflowOperationRun → Outcome WorkflowOperationRun) → Type 0
EndsRow f =
    (o p : WorkflowOperationRun)
    → f o ≡ ok p
    → (p.id ≡ o.id) × (is_terminal_operation p.status ≡ true)

pub found-modified :
    (id : ℕ) (p : WorkflowOperationRun) (db : Db) (o : WorkflowOperationRun)
    → get_operation_run id db ≡ some o
    → p.id ≡ id
    → get_operation_run id
        (record db { operation_runs = modify operation_run_key p.id (λ _. p) db.operation_runs })
      ≡ some p
found-modified id p db o found same =
    find-modify operation_run_key p.id (λ _. p) id db.operation_runs (λ a e. sym e)
    ∙ rw same (rw (==_refl id) (rw found refl))

committed-HasVerdict :
    (id : ℕ) (db db' : Db) (o : WorkflowOperationRun) (x : Option WorkflowOperationRun)
    (m : Outcome WorkflowOperationRun)
    → get_operation_run id db ≡ some o
    → ((p : WorkflowOperationRun)
        → m ≡ ok p
        → (p.id ≡ o.id) × (is_terminal_operation p.status ≡ true))
    → (m >>= λ p. ok (commit_operation p db)) ≡ ok (x, db')
    → HasVerdict id db'
committed-HasVerdict id db db' o x (raised e) found ends h = cc
committed-HasVerdict id db db' o x (ok p) found ends h =
    let (same, over) = ends p refl in
    let here : p.id ≡ id = same ∙ find_key operation_run_key id db.operation_runs found in
    subst (HasVerdict id) (committed h)
      (record { row = p; found = found-modified id p db o found here; over = over })
  where
    committed :
        ok (commit_operation p db) ≡ ok (x, db')
        → record db { operation_runs = modify operation_run_key p.id (λ _. p) db.operation_runs }
          ≡ db'
    committed h = cc

edit-HasVerdict :
    (id : ℕ) (f : WorkflowOperationRun → Outcome WorkflowOperationRun) (db db' : Db)
    (x : Option WorkflowOperationRun)
    → EndsRow f
    → IsThere id db
    → edit_operation_run id is_done f db ≡ ok (x, db')
    → HasVerdict id db'
unfolding edit_operation_run
edit-HasVerdict id f db db' x ends there h = elim (Bool-cases (is_done there.row)) [
  | inl e ↦
      subst (HasVerdict id) (kept (rw (there.found, e, edit_operation_run) at h))
        (record { row = there.row; found = there.found; over = e })
  | inr e ↦
      committed-HasVerdict id db db' there.row x (f there.row) there.found (ends there.row)
        (rw (there.found, e, edit_operation_run) at h)
]
  where
    kept : ◌≡◌ {A = Outcome OperationReply} (ok (some there.row, db)) (ok (x, db')) → db ≡ db'
    kept h = cc

after_write-cases :
    (id : ℕ) (m : Outcome OperationReply) (exit : Exit) (db : Db)
    → ((x : Option WorkflowOperationRun) (db' : Db) → m ≡ ok (x, db') → HasVerdict id db')
    → is_verdict (after_write m exit db).exit ≡ true
    → HasVerdict id (after_write m exit db).db
unfolding after_write
after_write-cases id (ok (x, db')) exit db ended h = ended x db' refl
after_write-cases id (raised e) exit db ended h = cc

ends-bind :
    (m : Outcome Value) (o p : WorkflowOperationRun) (g : Value → WorkflowOperationRun)
    → ((v : Value) → ((g v).id ≡ o.id) × (is_terminal_operation (g v).status ≡ true))
    → (m >>= λ v. ok (g v)) ≡ ok p
    → (p.id ≡ o.id) × (is_terminal_operation p.status ≡ true)
ends-bind (ok v) o p g ends h =
    subst (λ q. (q.id ≡ o.id) × (is_terminal_operation q.status ≡ true)) (same h) (ends v)
  where
    same : ok (g v) ≡ ok p → g v ≡ p
    same h = cc
ends-bind (raised e) o p g ends h = cc

pub Result-cases :
    (m : Result Value Value)
    → ((e : Value) × (m ≡ failed_with e)) ⊎ ((v : Value) × (m ≡ returned v))
Result-cases (failed_with e) = inl (e, refl)
Result-cases (returned v) = inr (v, refl)

pub Outcome-cases :
    (m : Outcome OperationReply)
    → ((e : Error) × (m ≡ raised e))
      ⊎ ((x : Option WorkflowOperationRun) × (db : Db) × (m ≡ ok (x, db)))
Outcome-cases (raised e) = inl (e, refl)
Outcome-cases (ok (x, db)) = inr (x, db, refl)

-- Others may write the row, but it stays, and a verdict stays a verdict.
pub IsThere-history :
    (id : ℕ) (db : Db) (calls : List Call) → IsThere id db → IsThere id (history db calls)
IsThere-history id db calls there =
    let (p, f, e) = (history-OperationsEvolve db calls).at id there.row there.found in
    record { row = p; found = f }

appended :
    (id : ℕ) (row : WorkflowOperationRun) (rows : List WorkflowOperationRun)
    → find operation_run_key id rows ≡ none
    → row.id ≡ id
    → find operation_run_key id (rows ++ row ∷ []) ≡ some row
unfolding find
appended id row rows fresh same =
    find-append_fresh operation_run_key id rows (row ∷ []) fresh ∙ rw same (rw (==_refl id) refl)

pub create-IsThere :
    (id run_id operation_id : ℕ) (payload : Value) (now : ℕ) (db : Db)
    → get_operation_run id db ≡ none
    → IsThere id (create_operation_run id run_id operation_id payload now db)
unfolding create_operation_run find
create-IsThere id run_id operation_id payload now db fresh = record {
  row = _;
  found = appended id _ db.operation_runs fresh refl;
}

module _ (id now : ℕ) (exit : Exit) (db : Db) (there : IsThere id db) where
  pub failed-HasVerdict :
      (error : String) (out trace : Value)
      → is_verdict (after_write (fail_operation_run id error out trace now db) exit db).exit ≡ true
      → HasVerdict id (after_write (fail_operation_run id error out trace now db) exit db).db
  unfolding fail_operation_run
  failed-HasVerdict error out trace h =
      after_write-cases id _ exit db
        (λ x db' e.
          edit-HasVerdict id _ db db' x
            (λ o p k.
              ends-bind (progress_with_history o.progress_payload) o p _ (λ v. (refl, refl)) k)
            there e)
        h

  pub finished-HasVerdict :
      (out trace : Value)
      → is_verdict (after_write (finish_operation_run id out trace now db) exit db).exit ≡ true
      → HasVerdict id (after_write (finish_operation_run id out trace now db) exit db).db
  unfolding finish_operation_run
  finished-HasVerdict out trace h =
      after_write-cases id _ exit db
        (λ x db' e.
          edit-HasVerdict id _ db db' x
            (λ o p k.
              ends-bind (progress_with_history o.progress_payload) o p _ (λ v. (refl, refl)) k)
            there e)
        h

  pub cancelled-HasVerdict :
      (error : String) (out trace : Value)
      → is_verdict (after_write (mark_operation_cancelled id error out trace now db) exit db).exit
        ≡ true
      → HasVerdict id (after_write (mark_operation_cancelled id error out trace now db) exit db).db
  unfolding mark_operation_cancelled
  cancelled-HasVerdict error out trace h =
      after_write-cases id _ exit db
        (λ x db' e.
          edit-HasVerdict id _ db db' x
            (λ o p k.
              ends-bind (progress_with_history o.progress_payload) o p _ (λ v. (refl, refl)) k)
            there e)
        h
