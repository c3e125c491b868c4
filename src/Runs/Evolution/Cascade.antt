-- ===== src/Runs/Evolution/Cascade.antt =====
-- The cancellation requests and the recovery keep every row within `Evolves`.
use nd3x.Prelude.{
  ℕ, zero, suc, ◌≡◌, refl, subst, true, false, Option, some, inl, inr, String, List, [], ◌∷◌, arith,
  keep, Option-cases, Bool-cases,
}
use nd3x.Table.{modify, modify_where}
use nd3x.Runs.{WorkflowRun, Db, is_terminal, run_key, get_run}
use nd3x.Runs.Cancel.{
  request_cancel, request_cancel_because, is_live_child, is_live_sibling, cancel_each, cascade_fuel,
  request_cancel_child_runs, request_cancel_run, request_cancel_for_each_sibling_runs,
}
use nd3x.Runs.Evolution.{Evolves, Evolves-refl, Evolves-trans, RowsEvolve}
use nd3x.Table.Steps.{Steps-refl, Steps-trans, Steps-modify, Steps-modify_where}

open-Evolves :
    (now : ℕ) (r x : WorkflowRun)
    → is_terminal r.status ≡ false
    → r ≡ x
    → Evolves x (request_cancel now x)
open-Evolves now r x t e = subst (λ y. Evolves y (request_cancel now y)) e (ground arith)

sibling-Evolves :
    (parent parent_operation : ℕ) (except : Option ℕ) (reason : String) (now : ℕ) (r : WorkflowRun)
    → is_live_sibling parent parent_operation except r ≡ true
    → Evolves r (request_cancel_because now reason r)
sibling-Evolves parent parent_operation except reason now r h = ground arith

RowsEvolve-cancel_each :
    (recur : ℕ → List WorkflowRun → Option (List WorkflowRun))
    → ((id : ℕ) (rows rows' : List WorkflowRun)
        → recur id rows ≡ some rows'
        → RowsEvolve rows rows')
    → (selected rows rows' : List WorkflowRun) → cancel_each recur selected rows ≡ some rows'
    → RowsEvolve rows rows'
unfolding cancel_each
RowsEvolve-cancel_each recur step [] rows rows' h =
    subst (RowsEvolve rows) (cc h) (Steps-refl run_key Evolves-refl rows)
RowsEvolve-cancel_each recur step (r ∷ rest) rows rows' h = elim (Option-cases (recur r.id rows)) [
  | inl e ↦ cc (h, e)
  | inr (mid, e) ↦
      Steps-trans run_key (λ a b c. Evolves-trans) (step r.id rows mid e)
        (RowsEvolve-cancel_each recur step rest mid rows' (rw (e, cancel_each) at h))
]

pub RowsEvolve-request_cancel_child_runs :
    (fuel now parent : ℕ) (rows rows' : List WorkflowRun)
    → request_cancel_child_runs fuel now parent rows ≡ some rows'
    → RowsEvolve rows rows'
unfolding request_cancel_child_runs
RowsEvolve-request_cancel_child_runs zero now parent rows rows' h = cc
RowsEvolve-request_cancel_child_runs (suc fuel) now parent rows rows' h =
    Steps-trans run_key (λ a b c. Evolves-trans)
      (Steps-modify_where run_key Evolves-refl (is_live_child parent) (request_cancel now) rows
        (λ r. refl) (λ r e. ground arith))
      (RowsEvolve-cancel_each (request_cancel_child_runs fuel now)
        (RowsEvolve-request_cancel_child_runs fuel now) (keep (is_live_child parent) rows) _ rows'
        h)

pub RowsEvolve-request_cancel_run :
    (id now : ℕ) (db db' : Db) {out : Option WorkflowRun}
    → request_cancel_run id now db ≡ some (out, db')
    → RowsEvolve db.runs db'.runs
unfolding request_cancel_run
RowsEvolve-request_cancel_run id now db db' h = elim (Option-cases (get_run id db)) [
  | inl e ↦
      let same : db.runs ≡ db'.runs = ground arith in
      subst (RowsEvolve db.runs) same (Steps-refl run_key Evolves-refl db.runs)
  | inr (r, e) ↦ elim (Bool-cases (is_terminal r.status)) [
    | inl t ↦
        let same : db.runs ≡ db'.runs = ground arith in
        subst (RowsEvolve db.runs) same (Steps-refl run_key Evolves-refl db.runs)
    | inr t ↦
        let marked = modify run_key id (request_cancel now) db.runs in
        elim (Option-cases (request_cancel_child_runs (cascade_fuel marked) now id marked)) [
          | inl g ↦ ground arith
          | inr (rows, g) ↦
              let same : rows ≡ db'.runs = ground arith in
              subst (RowsEvolve db.runs) same (
                Steps-trans run_key (λ a b c. Evolves-trans)
                  (Steps-modify run_key Evolves-refl id (request_cancel now) db.runs (λ x _. refl)
                    (λ x f. open-Evolves now r x t (cc (e, f))))
                  (RowsEvolve-request_cancel_child_runs (cascade_fuel marked) now id marked rows g))
        ]
  ]
]

pub RowsEvolve-request_cancel_for_each_sibling_runs :
    (parent parent_operation : ℕ) (except : Option ℕ) (reason : String) (now : ℕ) (db db' : Db)
    → request_cancel_for_each_sibling_runs parent parent_operation except reason now db ≡ some db'
    → RowsEvolve db.runs db'.runs
unfolding request_cancel_for_each_sibling_runs
RowsEvolve-request_cancel_for_each_sibling_runs parent parent_operation except reason now db db' h =
    let live = is_live_sibling parent parent_operation except in
    let change = request_cancel_because now reason in
    let recur = request_cancel_child_runs (cascade_fuel db.runs) now in
    elim (Option-cases (cancel_each recur (keep live db.runs) (modify_where live change db.runs))) [
      | inl g ↦ ground arith
      | inr (rows, g) ↦
          let same : rows ≡ db'.runs = ground arith in
          subst (RowsEvolve db.runs) same (
            Steps-trans run_key (λ a b c. Evolves-trans)
              (Steps-modify_where run_key Evolves-refl live change db.runs (λ x. refl)
                (sibling-Evolves parent parent_operation except reason now))
              (RowsEvolve-cancel_each recur
                (RowsEvolve-request_cancel_child_runs (cascade_fuel db.runs) now)
                (keep live db.runs) _ rows g))
    ]
