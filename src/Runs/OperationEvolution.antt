-- ===== src/Runs/OperationEvolution.antt =====
-- How an operation run's row may change, and that writing one leaves the runs alone.
pub mod Writes
use nd3x.Prelude.{
  ℕ, ◌≡◌, refl, sym, ◌∙◌, subst, Bool, true, false, Option, none, some, inl, inr, String, List, [],
  ◌∷◌, ◌++◌, arith, Option-cases, Bool-cases, if◌then◌else◌,
}
use nd3x.Json.{Value}
use nd3x.Table.{find, find_key, modify, modify_where}
use nd3x.Table.Steps.{Steps, Steps-refl, Steps-modify, Steps-append}
use nd3x.Runs.{
  OperationStatus, WorkflowOperationRun, Db, is_terminal_operation, operation_run_key,
  get_operation_run,
}
use nd3x.Runs.Evolution.{is_set}
use nd3x.Runs.Operations.{
  Outcome, ok, raised, ◌>>=◌, OperationReply, rows_after, is_done, edit_operation_run,
  resume_history, progress_with_history, create_operation_run, update_operation_run_progress,
  append_operation_resume_history, mark_waiting_operation_run, mark_operation_running,
  mark_operation_cancelled, finish_operation_run, fail_operation_run,
}

abbrev pub IsStampedOperation : WorkflowOperationRun → Type 0
IsStampedOperation o = is_set o.finished_at ≡ is_terminal_operation o.status

-- What a finished operation run says: all but the progress and the heartbeat.
pub record SameVerdict (o p : WorkflowOperationRun) : Type 0 where
  pub status : p.status ≡ o.status
  pub output_payload : p.output_payload ≡ o.output_payload
  pub error : p.error ≡ o.error
  pub trace : p.trace ≡ o.trace
  pub finished_at : p.finished_at ≡ o.finished_at

pub record OperationEvolves (o p : WorkflowOperationRun) : Type 0 where
  pub id : p.id ≡ o.id
  pub workflow_run_id : p.workflow_run_id ≡ o.workflow_run_id
  pub workflow_operation_id : p.workflow_operation_id ≡ o.workflow_operation_id
  pub input_payload : p.input_payload ≡ o.input_payload
  pub started_at : p.started_at ≡ o.started_at
  pub verdict : is_terminal_operation o.status ≡ true → SameVerdict o p
  pub stamped : IsStampedOperation o → IsStampedOperation p

pub OperationEvolves-refl : (o : WorkflowOperationRun) → OperationEvolves o o
OperationEvolves-refl o = ground arith

terminal_kept :
    {o p : WorkflowOperationRun}
    → OperationEvolves o p
    → is_terminal_operation o.status ≡ true
    → is_terminal_operation p.status ≡ true
terminal_kept {o} {p} e h = rw ((e.verdict h).status) h

pub OperationEvolves-trans :
    (o p q : WorkflowOperationRun)
    → OperationEvolves o p
    → OperationEvolves p q
    → OperationEvolves o q
OperationEvolves-trans o p q e f = record {
  id = f.id ∙ e.id;
  workflow_run_id = f.workflow_run_id ∙ e.workflow_run_id;
  workflow_operation_id = f.workflow_operation_id ∙ e.workflow_operation_id;
  input_payload = f.input_payload ∙ e.input_payload;
  started_at = f.started_at ∙ e.started_at;
  verdict = λ h.
      let k = f.verdict (terminal_kept e h) in
      let j = e.verdict h in
      record {
        status = k.status ∙ j.status;
        output_payload = k.output_payload ∙ j.output_payload;
        error = k.error ∙ j.error;
        trace = k.trace ∙ j.trace;
        finished_at = k.finished_at ∙ j.finished_at;
      };
  stamped = λ h. f.stamped (e.stamped h);
}

abbrev pub OperationsEvolve : List WorkflowOperationRun → List WorkflowOperationRun → Type 0
OperationsEvolve = Steps operation_run_key OperationEvolves

pub runs-edit_operation_run :
    (id : ℕ) (held : WorkflowOperationRun → Bool)
    (f : WorkflowOperationRun → Outcome WorkflowOperationRun) (db : Db)
    → (rows_after db (edit_operation_run id held f db)).runs ≡ db.runs
unfolding edit_operation_run
runs-edit_operation_run id held f db = elim (Option-cases (get_operation_run id db)) [
  | inl e ↦ rw (e, edit_operation_run) refl
  | inr (o, e) ↦ rw (e, edit_operation_run) (written (held o) o (f o))
]
  where
    written :
        (b : Bool) (o : WorkflowOperationRun) (m : Outcome WorkflowOperationRun)
        → (rows_after db (
            if b
            then ok (some o, db)
            else (m >>= λ o'. ok (
              some o',
              record db {
                operation_runs = modify operation_run_key o'.id (λ _. o') db.operation_runs;
              },
            )))).runs
          ≡ db.runs
    written true o m = refl
    written false o (ok o') = refl
    written false o (raised e) = refl

same_row :
    (id : ℕ) (db : Db) (o p r : WorkflowOperationRun)
    → get_operation_run id db ≡ some o
    → OperationEvolves o p
    → get_operation_run p.id db ≡ some r
    → o ≡ r
same_row id db o p r e ev k =
    let here : p.id ≡ id = ev.id ∙ find_key operation_run_key id db.operation_runs e in
    let k' : get_operation_run id db ≡ some r = rw here at k in cc (e, k')

abbrev pub EvolvesWhenOk : WorkflowOperationRun → Outcome WorkflowOperationRun → Type 0
EvolvesWhenOk o (ok p) = OperationEvolves o p
EvolvesWhenOk o (raised e) = Unit

pub OperationsEvolve-edit_operation_run :
    (id : ℕ) (held : WorkflowOperationRun → Bool)
    (f : WorkflowOperationRun → Outcome WorkflowOperationRun) (db : Db)
    → ((o : WorkflowOperationRun) → held o ≡ false → EvolvesWhenOk o (f o))
    → OperationsEvolve db.operation_runs
        (rows_after db (edit_operation_run id held f db)).operation_runs
unfolding edit_operation_run
OperationsEvolve-edit_operation_run id held f db evolves =
    elim (Option-cases (get_operation_run id db)) [
      | inl e ↦ rw (e, edit_operation_run) same
      | inr (o, e) ↦ rw (e, edit_operation_run) (written (held o) o (f o) e (λ h. evolves o h))
    ]
  where
    same : OperationsEvolve db.operation_runs db.operation_runs
    same = Steps-refl operation_run_key OperationEvolves-refl db.operation_runs

    committed :
        (o p : WorkflowOperationRun)
        → get_operation_run id db ≡ some o
        → OperationEvolves o p
        → OperationsEvolve db.operation_runs
            (modify operation_run_key p.id (λ _. p) db.operation_runs)
    committed o p e ev =
        Steps-modify operation_run_key OperationEvolves-refl p.id (λ _. p) db.operation_runs
          (λ r k. sym k) (λ r k. subst (λ x. OperationEvolves x p) (same_row id db o p r e ev k) ev)

    written :
        (b : Bool) (o : WorkflowOperationRun) (m : Outcome WorkflowOperationRun)
        → get_operation_run id db ≡ some o
        → (b ≡ false → EvolvesWhenOk o m)
        → OperationsEvolve db.operation_runs
            (rows_after db (
              if b
              then ok (some o, db)
              else (m >>= λ o'. ok (
                some o',
                record db {
                  operation_runs = modify operation_run_key o'.id (λ _. o') db.operation_runs;
                },
              )))).operation_runs
    written true o m e h = same
    written false o (ok p) e h = committed o p e (h refl)
    written false o (raised x) e h = same
