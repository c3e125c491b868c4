-- ===== src/Runs/Evolution/Recovery.antt =====
-- The startup recovery keeps every row within `Evolves`.
use nd3x.Prelude.{ℕ, ◌≡◌, refl, true, inl, inr, List, [], ◌∷◌, arith, Bool-cases}
use nd3x.Table.Steps.{Steps-refl, Steps-trans, Steps-cons, Steps-modify_where}
use nd3x.Runs.OperationEvolution.{
  OperationEvolves, OperationEvolves-refl, OperationEvolves-trans, OperationsEvolve,
}
use nd3x.Runs.{RunStatus, operation_run_key, WorkflowRun, WorkflowOperationRun, Db, run_key}
use nd3x.Recovery.{
  interrupt_run, interrupt_operation, is_open_operation_of, interrupt_operations, is_in_flight,
  is_fresh, recover_each, recover_orphaned_runs, recovered_db,
}
use nd3x.Runs.Evolution.{Evolves, Evolves-refl, RowsEvolve}

interrupt-Evolves :
    (now : ℕ) (r : WorkflowRun) → is_in_flight r.status ≡ true → Evolves r (interrupt_run now r)
interrupt-Evolves now r h = ground arith

RowsEvolve-recover_each :
    (threshold now : ℕ) (rows : List WorkflowRun) (ops : List WorkflowOperationRun)
    → RowsEvolve rows (recover_each threshold now rows ops).runs
unfolding recover_each
RowsEvolve-recover_each threshold now [] ops = Steps-refl run_key Evolves-refl []
RowsEvolve-recover_each threshold now (r ∷ rest) ops =
    let kept = RowsEvolve-recover_each threshold now rest ops in
    let done = RowsEvolve-recover_each threshold now rest (interrupt_operations now r ops) in
    elim (Bool-cases (is_in_flight r.status)) [
      | inl flying ↦ elim (Bool-cases (is_fresh threshold now r ops)) [
        | inl fresh ↦ rw flying (rw fresh (Steps-cons run_key refl (Evolves-refl r) kept))
        | inr stale ↦
            rw flying (rw stale (Steps-cons run_key refl (interrupt-Evolves now r flying) done))
      ]
      | inr still ↦ rw still (Steps-cons run_key refl (Evolves-refl r) kept)
    ]

pub RowsEvolve-recovered_db :
    (threshold now : ℕ) (db : Db) → RowsEvolve db.runs (recovered_db threshold now db).runs
unfolding recover_orphaned_runs
RowsEvolve-recovered_db threshold now db =
    RowsEvolve-recover_each threshold now db.runs db.operation_runs

interrupt_operation_evolves :
    (s : RunStatus) (run now : ℕ) (o : WorkflowOperationRun)
    → is_open_operation_of run o ≡ true
    → OperationEvolves o (interrupt_operation s now o)
interrupt_operation_evolves s run now o h = ground arith

OperationsEvolve-recover_each :
    (threshold now : ℕ) (rows : List WorkflowRun) (ops : List WorkflowOperationRun)
    → OperationsEvolve ops (recover_each threshold now rows ops).operation_runs
unfolding recover_each
OperationsEvolve-recover_each threshold now [] ops =
    Steps-refl operation_run_key OperationEvolves-refl ops
OperationsEvolve-recover_each threshold now (r ∷ rest) ops =
    let kept = OperationsEvolve-recover_each threshold now rest ops in
    let done =
      Steps-trans operation_run_key OperationEvolves-trans
        (Steps-modify_where operation_run_key OperationEvolves-refl (is_open_operation_of r.id)
          (interrupt_operation r.status now) ops (λ o. refl)
          (interrupt_operation_evolves r.status r.id now))
        (OperationsEvolve-recover_each threshold now rest (interrupt_operations now r ops)) in
    elim (Bool-cases (is_in_flight r.status)) [
      | inl flying ↦ elim (Bool-cases (is_fresh threshold now r ops)) [
        | inl fresh ↦ rw flying (rw fresh kept)
        | inr stale ↦ rw flying (rw stale done)
      ]
      | inr still ↦ rw still kept
    ]

pub OperationsEvolve-recovered_db :
    (threshold now : ℕ) (db : Db)
    → OperationsEvolve db.operation_runs (recovered_db threshold now db).operation_runs
unfolding recover_orphaned_runs
OperationsEvolve-recovered_db threshold now db =
    OperationsEvolve-recover_each threshold now db.runs db.operation_runs
