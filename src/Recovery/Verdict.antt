-- ===== src/Recovery/Verdict.antt =====
-- Which runs and operation runs the startup recovery ends, and how it counts them.
use nd3x.Prelude.{
  ℕ, ◌+◌, ◌≡◌, refl, ◌∙◌, Bool, true, false, ◌&&◌, not, some, inl, inr, List, [], ◌∷◌, arith, ◌==◌,
  ==_refl, count, length, Bool-cases, Option-cases, if◌then◌else◌,
}
use nd3x.Table.{find, find_key, modify_where, map_option, find-modify_where}
use nd3x.Runs.{
  RunStatus, WorkflowRun, WorkflowOperationRun, Db, is_terminal_operation, run_key,
  operation_run_key, get_run, get_operation_run,
}
use nd3x.Recovery.{
  new_operation_status, operation_runs_of, is_in_flight, interrupt_run, interrupt_operation,
  is_open_operation_of, is_fresh, interrupt_operations, recover_each, recover_orphaned_runs,
  recovered_db,
}

keep-interrupt :
    (id other : ℕ) (f : WorkflowOperationRun → WorkflowOperationRun)
    (ops : List WorkflowOperationRun)
    → ((o : WorkflowOperationRun) → (f o).workflow_run_id ≡ o.workflow_run_id)
    → (other == id) ≡ false
    → operation_runs_of id (modify_where (is_open_operation_of other) f ops)
      ≡ operation_runs_of id ops
unfolding modify_where
keep-interrupt id other f [] same h = refl
keep-interrupt id other f (o ∷ ops) same h =
    ground (arith, same o, keep-interrupt id other f ops same h)

module _ (threshold now : ℕ) where
  -- The run is in flight and was not active within the threshold.
  abbrev pub is_orphaned : List WorkflowOperationRun → WorkflowRun → Bool
  is_orphaned ops r = is_in_flight r.status && not (is_fresh threshold now r ops)

  abbrev pub recovered_row : List WorkflowOperationRun → WorkflowRun → WorkflowRun
  recovered_row ops r = if is_orphaned ops r then interrupt_run now r else r

  -- A run's freshness depends on its own operation runs alone.
  fresh-interrupt :
      (r other : WorkflowRun) (ops : List WorkflowOperationRun)
      → (other.id == r.id) ≡ false
      → is_fresh threshold now r (interrupt_operations now other ops) ≡ is_fresh threshold now r ops
  unfolding is_fresh
  fresh-interrupt r other ops h =
      rw (keep-interrupt r.id other.id (interrupt_operation other.status now) ops (λ o. refl) h)
        refl

  row-interrupt :
      (id : ℕ) (other : WorkflowRun) (runs : List WorkflowRun) (ops : List WorkflowOperationRun)
      → (other.id == id) ≡ false
      → map_option (recovered_row (interrupt_operations now other ops)) (find run_key id runs)
        ≡ map_option (recovered_row ops) (find run_key id runs)
  row-interrupt id other runs ops h = elim (Option-cases (find run_key id runs)) [
    | inl e ↦ rw e refl
    | inr (r, e) ↦
        let same = find_key run_key id runs e in
        rw e (rw (fresh-interrupt r other ops (rw same h)) refl)
  ]

  find-recover_each :
      (id : ℕ) (runs : List WorkflowRun) (ops : List WorkflowOperationRun)
      → find run_key id (recover_each threshold now runs ops).runs
        ≡ map_option (recovered_row ops) (find run_key id runs)
  unfolding recover_each find
  find-recover_each id [] ops = refl
  find-recover_each id (r ∷ rest) ops =
      let kept = find-recover_each id rest ops in
      let done = find-recover_each id rest (interrupt_operations now r ops) in
      elim (Bool-cases (is_in_flight r.status)) [
        | inl flying ↦ elim (Bool-cases (is_fresh threshold now r ops)) [
          | inl fresh ↦ elim (Bool-cases (r.id == id)) [
            | inl here ↦ rw flying (rw fresh (rw here (rw (flying, fresh) refl)))
            | inr there ↦ rw flying (rw fresh (rw there kept))
          ]
          | inr stale ↦ elim (Bool-cases (r.id == id)) [
            | inl here ↦ rw flying (rw stale (rw here (rw (flying, stale) refl)))
            | inr there ↦ rw flying (rw stale (rw there (done ∙ row-interrupt id r rest ops there)))
          ]
        ]
        | inr landed ↦ elim (Bool-cases (r.id == id)) [
          | inl here ↦ rw landed (rw here (rw landed refl))
          | inr there ↦ rw landed (rw there kept)
        ]
      ]

  -- The recovery ends exactly the runs that are in flight and were not active within the
  -- threshold, and leaves the rows of all others as they are.
  pub get_run-recovered_db :
      (id : ℕ) (db : Db)
      → get_run id (recovered_db threshold now db)
        ≡ map_option (recovered_row db.operation_runs) (get_run id db)
  unfolding recover_orphaned_runs
  get_run-recovered_db id db = find-recover_each id db.runs db.operation_runs

  recovered-count :
      (runs : List WorkflowRun) (ops : List WorkflowOperationRun)
      → length (recover_each threshold now runs ops).recovered
          + (recover_each threshold now runs ops).skipped_fresh
        ≡ count (λ r. is_in_flight r.status) runs
  unfolding recover_each
  recovered-count [] ops = refl
  recovered-count (r ∷ rest) ops =
      let kept = recovered-count rest ops in
      let done = recovered-count rest (interrupt_operations now r ops) in
      elim (Bool-cases (is_in_flight r.status)) [
        | inl flying ↦ elim (Bool-cases (is_fresh threshold now r ops)) [
          | inl fresh ↦ rw flying (rw fresh (omega arith))
          | inr stale ↦ rw flying (rw stale (omega arith))
        ]
        | inr landed ↦ rw landed kept
      ]

  -- The recovery's answer counts every run in flight once, as recovered or as skipped.
  recover_orphaned_runs-count :
      (db : Db)
      → length (recover_orphaned_runs threshold now db).recovered
          + (recover_orphaned_runs threshold now db).skipped_fresh
        ≡ count (λ r. is_in_flight r.status) db.runs
  unfolding recover_orphaned_runs
  recover_orphaned_runs-count db = recovered-count db.runs db.operation_runs

  -- What becomes of an operation run of a run that the recovery ends.
  abbrev pub ended_operation : WorkflowRun → WorkflowOperationRun → WorkflowOperationRun
  ended_operation r o =
      if is_terminal_operation o.status then o else interrupt_operation r.status now o

  find-interrupt :
      (r : WorkflowRun) (ops : List WorkflowOperationRun) (id : ℕ) {o : WorkflowOperationRun}
      → find operation_run_key id ops ≡ some o
      → find operation_run_key id (interrupt_operations now r ops)
        ≡ some (if is_open_operation_of r.id o then interrupt_operation r.status now o else o)
  find-interrupt r ops id found =
      find-modify_where operation_run_key (is_open_operation_of r.id)
        (interrupt_operation r.status now) id ops (λ o. refl)
      ∙ rw found refl

  over_stays :
      (runs : List WorkflowRun) (ops : List WorkflowOperationRun) (id : ℕ)
      (o : WorkflowOperationRun)
      → find operation_run_key id ops ≡ some o
      → is_terminal_operation o.status ≡ true
      → find operation_run_key id (recover_each threshold now runs ops).operation_runs ≡ some o
  unfolding recover_each
  over_stays [] ops id o found over = found
  over_stays (r ∷ rest) ops id o found over =
      let kept = over_stays rest ops id o found over in
      let done =
        over_stays rest (interrupt_operations now r ops) id o
          (find-interrupt r ops id found ∙ rw over (ground arith)) over in
      elim (Bool-cases (is_in_flight r.status)) [
        | inl flying ↦ elim (Bool-cases (is_fresh threshold now r ops)) [
          | inl fresh ↦ rw flying (rw fresh kept)
          | inr stale ↦ rw flying (rw stale done)
        ]
        | inr landed ↦ rw landed kept
      ]

  ended_over :
      (r : WorkflowRun) (o : WorkflowOperationRun)
      → is_terminal_operation (ended_operation r o).status ≡ true
  ended_over r o = elim (Bool-cases (is_terminal_operation o.status)) [
    | inl e ↦ rw e e
    | inr e ↦ rw e (new_status_over r.status)
  ]
    where
      new_status_over : (s : RunStatus) → is_terminal_operation (new_operation_status s) ≡ true
      new_status_over RunStatus.cancel_requested = refl
      new_status_over _ = refl

  split : (a b : Bool) → (a && not b) ≡ true → (a ≡ true) × (b ≡ false)
  split a b h = ground arith

  module _ (r : WorkflowRun) (o : WorkflowOperationRun) (own : o.workflow_run_id ≡ r.id) where
    open_ended :
        some (if is_open_operation_of r.id o then interrupt_operation r.status now o else o)
        ≡ some (ended_operation r o)
    open_ended = rw (← own) (rw (==_refl o.workflow_run_id) (ground arith))

    untouched :
        (x : WorkflowRun)
        → (x.id == r.id) ≡ false
        → some (if is_open_operation_of x.id o then interrupt_operation x.status now o else o)
          ≡ some o
    untouched x there =
        let other : (o.workflow_run_id == x.id) ≡ false = ground arith in rw other refl

    find-ended :
        (runs : List WorkflowRun) (ops : List WorkflowOperationRun) (id : ℕ)
        → find run_key r.id runs ≡ some r
        → is_orphaned ops r ≡ true
        → find operation_run_key id ops ≡ some o
        → find operation_run_key id (recover_each threshold now runs ops).operation_runs
          ≡ some (ended_operation r o)
    unfolding recover_each find
    find-ended [] ops id found orphaned at_o = cc
    find-ended (x ∷ rest) ops id found orphaned at_o = elim (Bool-cases (x.id == r.id)) [
      | inl here ↦
          let same : x ≡ r = ground arith in
          let (flying, stale) =
            split (is_in_flight r.status) (is_fresh threshold now r ops) orphaned in
          rw same (
            rw flying (
              rw stale (
                over_stays rest (interrupt_operations now r ops) id (ended_operation r o)
                  (find-interrupt r ops id at_o ∙ open_ended) (ended_over r o))))
      | inr there ↦
          let later : find run_key r.id rest ≡ some r = ground arith in
          let kept = find-ended rest ops id later orphaned at_o in
          let done =
            find-ended rest (interrupt_operations now x ops) id later
              (rw (fresh-interrupt r x ops there) orphaned)
              (find-interrupt x ops id at_o ∙ untouched x there) in
          elim (Bool-cases (is_in_flight x.status)) [
            | inl flying ↦ elim (Bool-cases (is_fresh threshold now x ops)) [
              | inl fresh ↦ rw flying (rw fresh kept)
              | inr stale ↦ rw flying (rw stale done)
            ]
            | inr landed ↦ rw landed kept
          ]
    ]

  -- Every operation run of a run that the recovery ends has ended afterwards: it keeps what it was
  -- if it had ended before, and else takes the run's new status.
  pub recovered-operations :
      (db : Db) (r : WorkflowRun) (id : ℕ) (o : WorkflowOperationRun)
      → get_run r.id db ≡ some r
      → is_orphaned db.operation_runs r ≡ true
      → get_operation_run id db ≡ some o
      → o.workflow_run_id ≡ r.id
      → (get_operation_run id (recovered_db threshold now db) ≡ some (ended_operation r o))
        × (is_terminal_operation (ended_operation r o).status ≡ true)
  unfolding recover_orphaned_runs
  recovered-operations db r id o found orphaned at_o own =
      (find-ended r o own db.runs db.operation_runs id found orphaned at_o, ended_over r o)
