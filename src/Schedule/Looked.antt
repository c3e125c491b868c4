-- ===== src/Schedule/Looked.antt =====
-- What a tick of the workflow factory does when it looks at one workflow.
use nd3x.Prelude.{
  ℕ, ◌+◌, ◌≤◌, ◌≡◌, refl, ap, subst, ◌∙◌, inl, inr, Bool, true, false, ◌&&◌, not, String, Option,
  none, some, List, [], ◌∷◌, ◌++◌, arith, ◌==◌, leb, keep, Bool-cases, Option-cases, str_eq, eq_iff,
  if◌then◌else◌,
}
use nd3x.Prelude.Results.{Result, returned, failed_with, after, returned-injective}
use nd3x.Json.{Value, get_key}
use nd3x.Runs.{WorkflowRun, Db}
use nd3x.Runs.Marks.{new_run, create_run}
use nd3x.Runs.Queries.{first, is_text, is_some_row, exists_scheduled_run}
use nd3x.Workflows.{Workflow, Graphs, get_by_id}
use nd3x.Schedule.{
  Error, new_run_of, enqueue_run, scheduled_input, is_due, schedule_once, consider_due,
  consider_cron,
}

-- a run that the schedule created for this time of this workflow
abbrev pub is_run_for : ℕ → String → WorkflowRun → Bool
is_run_for workflow_id scheduled_for r =
    r.workflow_id == workflow_id
    && str_eq r.trigger_type "cron"
    && is_text scheduled_for (get_key "scheduled_for" r.input_payload)

unfoldable pub runs_for : ℕ → String → List WorkflowRun → ℕ
runs_for workflow_id scheduled_for [] = 0
runs_for workflow_id scheduled_for (r ∷ runs) =
    (if is_run_for workflow_id scheduled_for r then 1 else 0)
    + runs_for workflow_id scheduled_for runs

-- No time of a schedule has two runs.
pub record IsOnce (db : Db) : Type 0 where
  pub at :
      (workflow_id : ℕ) (scheduled_for : String) → runs_for workflow_id scheduled_for db.runs ≤ 1

runs_for-append :
    (w : ℕ) (s : String) (runs : List WorkflowRun) (r : WorkflowRun)
    → runs_for w s (runs ++ r ∷ []) ≡ runs_for w s runs + (if is_run_for w s r then 1 else 0)
unfolding runs_for
runs_for-append w s [] r = omega arith
runs_for-append w s (q ∷ runs) r = omega (arith, runs_for-append w s runs r)

first-keep_counts :
    (w : ℕ) (s : String) (runs : List WorkflowRun)
    → is_some_row (first (keep (is_run_for w s) runs)) ≡ leb 1 (runs_for w s runs)
unfolding runs_for
first-keep_counts w s [] = refl
first-keep_counts w s (r ∷ runs) = ground (arith, first-keep_counts w s runs)

-- A run is found exactly if one is counted.
pub exists-counts :
    (w : ℕ) (s : String) (db : Db) → exists_scheduled_run w s db ≡ leb 1 (runs_for w s db.runs)
unfolding exists_scheduled_run
exists-counts w s db = first-keep_counts w s db.runs

module _ (previous_due : String → ℕ → Option ℕ) (isoformat : ℕ → String) (fresh : ℕ → ℕ)
    (now lookback : ℕ) (graphs : Graphs) where
  abbrev pub row_for : ℕ → Workflow → String → WorkflowRun
  row_for k w s = new_run_of (fresh k) w.id "cron" (scheduled_input s) now

  -- The run of a time counts for this time only.
  is_run_for-row_for :
      (k : ℕ) (w : Workflow) (s : String) (j : ℕ) (t : String)
      → is_run_for j t (row_for k w s) ≡ (w.id == j && str_eq s t)
  unfolding new_run
  is_run_for-row_for k w s j t = ground arith

  pub runs_for-create :
      (k : ℕ) (w : Workflow) (s : String) (db : Db) (j : ℕ) (t : String)
      → runs_for j t (create_run (row_for k w s) db).runs
        ≡ runs_for j t db.runs + (if w.id == j && str_eq s t then 1 else 0)
  unfolding create_run
  runs_for-create k w s db j t =
      runs_for-append j t db.runs (row_for k w s) ∙ rw (is_run_for-row_for k w s j t) refl

  -- What a workflow that is looked at may do to the database.
  pub data Considered (k : ℕ) (w : Workflow) (db : Db) : Db → Type 0 where
    unchanged : Considered k w db db
    created :
        (s : String)
        → exists_scheduled_run w.id s db ≡ false
        → Considered k w db (create_run (row_for k w s) db)

  enqueue_run-row :
      (id workflow_id : ℕ) (trigger : String) (input : Value) (db : Db) (r : WorkflowRun) (out : Db)
      → enqueue_run id workflow_id trigger input now graphs db ≡ returned (r, out)
      → (new_run_of id workflow_id trigger input now ≡ r)
        × (create_run (new_run_of id workflow_id trigger input now) db ≡ out)
  unfolding enqueue_run
  enqueue_run-row id workflow_id trigger input db r out h =
      elim (Option-cases (get_by_id workflow_id graphs)) [
        | inl e ↦ absurd (failed_not _ (rw (e, enqueue_run) at h))
        | inr (w, e) ↦ elim (Bool-cases (not w.is_enabled && str_eq trigger "cron")) [
          | inl f ↦ absurd (failed_not _ (rw (e, f, enqueue_run) at h))
          | inr f ↦
              let same = returned-injective (rw (e, f, enqueue_run) at h) in
              (ap (λ p. p.0) same, ap (λ p. p.1) same)
        ]
      ]
    where
      failed_not :
          (e : Error)
          → ◌≡◌ {A = Result Error (WorkflowRun × Db)} (failed_with e) (returned (r, out))
          → ⊥
      failed_not e h = cc

  pub exists-create :
      (k : ℕ) (w : Workflow) (s : String) (db : Db)
      → exists_scheduled_run w.id s (create_run (row_for k w s) db) ≡ true
  exists-create k w s db =
      exists-counts w.id s (create_run (row_for k w s) db)
      ∙ rw (runs_for-create k w s db w.id s) (ground (arith, eq_iff s s))

  schedule_once-Considered :
      (k : ℕ) (w : Workflow) (s : String) (db : Db) (runs : List WorkflowRun) (out : Db)
      → schedule_once previous_due isoformat fresh now lookback graphs k w s db
        ≡ returned (runs, out)
      → Considered k w db out × (exists_scheduled_run w.id s out ≡ true)
  unfolding schedule_once
  schedule_once-Considered k w s db runs out h =
      elim (Bool-cases (exists_scheduled_run w.id s db)) [
        | inl e ↦
            let same : db ≡ out = ap (λ p. p.1) (returned-injective (rw e at h)) in
            subst (λ o. Considered k w db o × (exists_scheduled_run w.id s o ≡ true)) same
              (Considered.unchanged, e)
        | inr e ↦
            after (enqueue_run (fresh k) w.id "cron" (scheduled_input s) now graphs db) _
              (λ (r, db') f g.
                let same : create_run (row_for k w s) db ≡ out =
                  (enqueue_run-row (fresh k) w.id "cron" (scheduled_input s) db r db' f).1
                  ∙ ap (λ p. p.1) (returned-injective g) in
                subst (λ o. Considered k w db o × (exists_scheduled_run w.id s o ≡ true)) same
                  (Considered.created s e, exists-create k w s db))
              (rw e at h)
      ]

  consider_due-Considered :
      (k : ℕ) (w : Workflow) (due : Option ℕ) (db : Db) (runs : List WorkflowRun) (out : Db)
      → consider_due previous_due isoformat fresh now lookback graphs k w due db
        ≡ returned (runs, out)
      → Considered k w db out
  unfolding consider_due
  consider_due-Considered k w none db runs out h = cc
  consider_due-Considered k w (some due) db runs out h =
      elim (Bool-cases (is_due now lookback due)) [
        | inl e ↦
            (schedule_once-Considered k w (isoformat due) db runs out (rw (e, consider_due) at h)).0
        | inr e ↦
            subst (Considered k w db)
              (ap (λ p. p.1) (returned-injective (rw (e, consider_due) at h))) Considered.unchanged
      ]

  pub consider_cron-Considered :
      (k : ℕ) (w : Workflow) (cron : Option String) (db : Db) (runs : List WorkflowRun) (out : Db)
      → consider_cron previous_due isoformat fresh now lookback graphs k w cron db
        ≡ returned (runs, out)
      → Considered k w db out
  unfolding consider_cron
  consider_cron-Considered k w none db runs out h =
      subst (Considered k w db) (ap (λ p. p.1) (returned-injective h)) Considered.unchanged
  consider_cron-Considered k w (some String.[]) db runs out h =
      subst (Considered k w db) (ap (λ p. p.1) (returned-injective h)) Considered.unchanged
  consider_cron-Considered k w (some (String.◌∷◌ c cron)) db runs out h =
      consider_due-Considered k w (previous_due (String.◌∷◌ c cron) now) db runs out h

  -- A workflow that is due has a run for this time when it has been looked at.
  pub consider_cron-exists :
      (k : ℕ) (w : Workflow) (cron : String) (due : ℕ) (db : Db) (runs : List WorkflowRun)
      (out : Db)
      → consider_cron previous_due isoformat fresh now lookback graphs k w (some cron) db
        ≡ returned (runs, out)
      → not (str_eq cron "") ≡ true
      → previous_due cron now ≡ some due
      → is_due now lookback due ≡ true
      → exists_scheduled_run w.id (isoformat due) out ≡ true
  unfolding consider_cron consider_due
  consider_cron-exists k w String.[] due db runs out h named known there = absurd (ground arith)
  consider_cron-exists k w (String.◌∷◌ c cron) due db runs out h named known there =
      (schedule_once-Considered k w (isoformat due) db runs out
        (rw (known, there, consider_due) at h)).1
