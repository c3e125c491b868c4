-- ===== src/Runs/Termination.antt =====
-- The cancellation cascade ends: each level of its recursion marks a run that was live.
use nd3x.Prelude.{
  ℕ, zero, suc, ◌+◌, ◌≤◌, ◌<◌, ◌≡◌, refl, Bool, Option, none, some, inl, inr, String, List, [], ◌∷◌,
  arith, keep, count, length, Option-cases, Bool-cases,
}
use nd3x.Table.{modify, modify_where}
use nd3x.Runs.{WorkflowRun, Db, Reply, is_terminal, run_key, get_run}
use nd3x.Runs.Cancel.{
  request_cancel, request_cancel_because, is_live_child, is_live_sibling, cancel_each, cascade_fuel,
  request_cancel_child_runs, request_cancel_run, request_cancel_for_each_sibling_runs,
}
use nd3x.Runs.Sweep.{is_live, Links-count, IsSwept, request_cancel_child_runs-Links}

count-modify_where :
    (now p : ℕ) (rows : List WorkflowRun)
    → count is_live (modify_where (is_live_child p) (request_cancel now) rows)
        + length (keep (is_live_child p) rows)
      ≡ count is_live rows
unfolding modify_where
count-modify_where now p [] = omega arith
count-modify_where now p (r ∷ rows) = ground (arith, count-modify_where now p rows)

pub count-le-length : (rows : List WorkflowRun) → count is_live rows ≤ length rows
count-le-length [] = omega arith
count-le-length (r ∷ rows) = ground (arith, count-le-length rows)

abbrev Total : (ℕ → List WorkflowRun → Option (List WorkflowRun)) → ℕ → Type 0
Total recur n =
    (q : ℕ) (rows : List WorkflowRun)
    → count is_live rows < n
    → (rows' : List WorkflowRun) × (recur q rows ≡ some rows')

module _ (now : ℕ) where
  pub cancel_each-Total :
      (fuel : ℕ)
      → Total (request_cancel_child_runs fuel now) fuel
      → (selected rows : List WorkflowRun) → count is_live rows < fuel
      → (rows' : List WorkflowRun) × (cancel_each (request_cancel_child_runs fuel now) selected rows
          ≡ some rows')
  unfolding cancel_each
  cancel_each-Total fuel total [] rows h = (rows, refl)
  cancel_each-Total fuel total (r ∷ rest) rows h =
      let (mid, e) = total r.id rows h in
      let fewer =
        Links-count now (IsSwept mid) rows mid
          (request_cancel_child_runs-Links now fuel r.id rows mid e).0 in
      let (rows', f) = cancel_each-Total fuel total rest mid (omega arith) in
      (rows', rw (e, cancel_each) f)

  marked-Total :
      (fuel : ℕ)
      → Total (request_cancel_child_runs fuel now) fuel
      → (selected marked : List WorkflowRun) → count is_live marked + length selected < suc fuel
      → (rows' : List WorkflowRun) × (cancel_each
            (request_cancel_child_runs fuel now)
            selected
            marked
          ≡ some rows')
  unfolding cancel_each
  marked-Total fuel total [] marked h = (marked, refl)
  marked-Total fuel total (r ∷ rest) marked h =
      cancel_each-Total fuel total (r ∷ rest) marked (omega arith)

  pub request_cancel_child_runs-Total : (fuel : ℕ) → Total (request_cancel_child_runs fuel now) fuel
  unfolding request_cancel_child_runs
  request_cancel_child_runs-Total zero q rows h = absurd (omega arith)
  request_cancel_child_runs-Total (suc fuel) q rows h =
      marked-Total fuel (request_cancel_child_runs-Total fuel) (keep (is_live_child q) rows) _
        (omega (arith, count-modify_where now q rows))

-- The recursion of a cancellation request ends on every database, whatever the parent links are,
-- cycles included: the fuel of the model is never used up.
pub request_cancel_run_total :
    (id now : ℕ) (db : Db) → (reply : Reply) × (request_cancel_run id now db ≡ some reply)
unfolding request_cancel_run
request_cancel_run_total id now db = elim (Option-cases (get_run id db)) [
  | inl e ↦ ((none, db), rw (e, request_cancel_run) refl)
  | inr (r, e) ↦ elim (Bool-cases (is_terminal r.status)) [
    | inl h ↦ ((some r, db), rw (e, request_cancel_run) (rw h refl))
    | inr h ↦
        let marked = modify run_key id (request_cancel now) db.runs in
        let (rows', f) =
          request_cancel_child_runs-Total now (cascade_fuel marked) id marked
            (omega (arith, count-le-length marked)) in
        (
          (some (request_cancel now r), record db { runs = rows' }),
          rw (e, request_cancel_run) (rw h (rw f refl)),
        )
  ]
]

length-modify_where :
    (p : WorkflowRun → Bool) (f : WorkflowRun → WorkflowRun) (rows : List WorkflowRun)
    → length (modify_where p f rows) ≡ length rows
unfolding modify_where
length-modify_where p f [] = refl
length-modify_where p f (r ∷ rows) = omega (arith, length-modify_where p f rows)

-- Stopping the siblings of a failed for_each item ends as well, on every database.
pub request_cancel_for_each_sibling_runs_total :
    (parent parent_operation : ℕ) (except : Option ℕ) (reason : String) (now : ℕ) (db : Db)
    → (db' : Db) × (request_cancel_for_each_sibling_runs parent parent_operation except reason now
          db
        ≡ some db')
unfolding request_cancel_for_each_sibling_runs
request_cancel_for_each_sibling_runs_total parent parent_operation except reason now db =
    let live = is_live_sibling parent parent_operation except in
    let marked = modify_where live (request_cancel_because now reason) db.runs in
    let (rows', e) =
      cancel_each-Total now (cascade_fuel db.runs)
        (request_cancel_child_runs-Total now (cascade_fuel db.runs)) (keep live db.runs) marked
        (omega (
          arith,
          count-le-length marked,
          length-modify_where live (request_cancel_because now reason) db.runs,
        )) in
    (record db { runs = rows' }, rw (e, request_cancel_for_each_sibling_runs) refl)
