-- ===== src/Schedule/Once.antt =====
-- A time of a schedule is run once.
use nd3x.Prelude.{
  ℕ, suc, ◌≤◌, ◌≡◌, refl, sym, subst, ◌∙◌, ◌⊎◌, inl, inr, true, false, ◌&&◌, not, String, Option,
  some, List, [], ◌∷◌, ◌++◌, arith, ◌==◌, leb, Bool-cases, str_eq, eq_iff,
}
use mathlib.Core.List.{Memᴰ}
use nd3x.Prelude.Results.{Result, returned, failed_with, after}
use nd3x.Runs.{WorkflowRun, Db}
use nd3x.Runs.Marks.{create_run}
use nd3x.Runs.Queries.{exists_scheduled_run}
use nd3x.Workflows.{Workflow, Graphs, get_enabled_scheduled}
use nd3x.Schedule.{Error, is_due, consider_cron, tick_each, tick}
use nd3x.Schedule.Looked.{
  IsOnce, runs_for, exists-counts, row_for, runs_for-create, Considered, consider_cron-Considered,
  consider_cron-exists,
}

module _ (previous_due : String → ℕ → Option ℕ) (isoformat : ℕ → String) (fresh : ℕ → ℕ)
    (now lookback : ℕ) (graphs : Graphs) where
  created-once :
      (k : ℕ) (w : Workflow) (s : String) (db : Db)
      → exists_scheduled_run w.id s db ≡ false
      → runs_for w.id s
          (create_run (row_for previous_due isoformat fresh now lookback graphs k w s) db).runs
        ≤ 1
  created-once k w s db e = ground (
    arith,
    runs_for-create previous_due isoformat fresh now lookback graphs k w s db w.id s,
    exists-counts w.id s db,
  )

  Considered-IsOnce :
      (k : ℕ) (w : Workflow) (db out : Db)
      → Considered previous_due isoformat fresh now lookback graphs k w db out
      → IsOnce db
      → IsOnce out
  Considered-IsOnce k w db out Considered.unchanged o = o
  Considered-IsOnce k w db out (Considered.created s e) o = record {
    at = λ j t. elim (Bool-cases (w.id == j && str_eq s t)) [
      | inl same ↦
          let there : w.id ≡ j = ground arith in
          let text : str_eq s t ≡ true = ground arith in
          subst
            (λ i.
              runs_for i t
                (create_run (row_for previous_due isoformat fresh now lookback graphs k w s)
                  db).runs
              ≤ 1)
            there
            (subst
              (λ u.
                runs_for w.id u
                  (create_run (row_for previous_due isoformat fresh now lookback graphs k w s)
                    db).runs
                ≤ 1)
              ((eq_iff s t).0 text) (created-once k w s db e))
      | inr other ↦ ground (
        arith,
        runs_for-create previous_due isoformat fresh now lookback graphs k w s db j t,
        o.at j t,
      )
    ];
  }

  Considered-keeps :
      (k : ℕ) (w : Workflow) (db out : Db)
      → Considered previous_due isoformat fresh now lookback graphs k w db out
      → (j : ℕ) (t : String) → runs_for j t db.runs ≤ runs_for j t out.runs
  Considered-keeps k w db out Considered.unchanged j t = omega arith
  Considered-keeps k w db out (Considered.created s e) j t =
      omega (arith, runs_for-create previous_due isoformat fresh now lookback graphs k w s db j t)

  Result-cases :
      (m : Result Error (List WorkflowRun × Db))
      → ((e : Error) × (m ≡ failed_with e))
        ⊎ ((runs : List WorkflowRun) × (out : Db) × (m ≡ returned (runs, out)))
  Result-cases (failed_with e) = inl (e, refl)
  Result-cases (returned (runs, out)) = inr (runs, out, refl)

  tick_each-IsOnce :
      (k : ℕ) (workflows : List Workflow) (db : Db)
      → IsOnce db
      → IsOnce (tick_each previous_due isoformat fresh now lookback graphs k workflows db).db
  unfolding tick_each
  tick_each-IsOnce k [] db o = o
  tick_each-IsOnce k (w ∷ workflows) db o =
      elim (Result-cases
        (consider_cron previous_due isoformat fresh now lookback graphs k w w.schedule_cron db)) [
          | inl (e, f) ↦ rw (f, tick_each) o
          | inr (runs, out, f) ↦
              let h =
                consider_cron-Considered previous_due isoformat fresh now lookback graphs k w
                  w.schedule_cron db runs out f in
              rw (f, tick_each)
                (tick_each-IsOnce (suc k) workflows out (Considered-IsOnce k w db out h o))
        ]

  tick_each-keeps :
      (k : ℕ) (workflows : List Workflow) (db : Db) (j : ℕ) (t : String)
      → runs_for j t db.runs
        ≤ runs_for j t
            (tick_each previous_due isoformat fresh now lookback graphs k workflows db).db.runs
  unfolding tick_each
  tick_each-keeps k [] db j t = omega arith
  tick_each-keeps k (w ∷ workflows) db j t =
      elim (Result-cases
        (consider_cron previous_due isoformat fresh now lookback graphs k w w.schedule_cron db)) [
          | inl (e, f) ↦ rw (f, tick_each) (omega arith)
          | inr (runs, out, f) ↦
              let h =
                consider_cron-Considered previous_due isoformat fresh now lookback graphs k w
                  w.schedule_cron db runs out f in
              rw (f, tick_each)
                (omega (
                  arith,
                  tick_each-keeps (suc k) workflows out j t,
                  Considered-keeps k w db out h j t,
                ))
        ]

  module _ (w : Workflow) (cron : String) (due : ℕ) (planned : w.schedule_cron ≡ some cron)
      (named : not (str_eq cron "") ≡ true) (known : previous_due cron now ≡ some due)
      (there : is_due now lookback due ≡ true) where
    counted :
        (k : ℕ) (db : Db) (runs : List WorkflowRun) (out : Db)
        → consider_cron previous_due isoformat fresh now lookback graphs k w w.schedule_cron db
          ≡ returned (runs, out)
        → 1 ≤ runs_for w.id (isoformat due) out.runs
    counted k db runs out f =
        let e : exists_scheduled_run w.id (isoformat due) out ≡ true =
          consider_cron-exists previous_due isoformat fresh now lookback graphs k w cron due db runs
            out
            (subst
              (λ c.
                consider_cron previous_due isoformat fresh now lookback graphs k w c db
                ≡ returned (runs, out))
              planned f)
            named known there in
        let c : leb 1 (runs_for w.id (isoformat due) out.runs) ≡ true =
          sym (exists-counts w.id (isoformat due) out) ∙ e in
        ground arith

    tick_each-exists :
        (k : ℕ) (workflows : List Workflow) (db : Db) (made : List WorkflowRun)
        → (tick_each previous_due isoformat fresh now lookback graphs k workflows db).outcome
          ≡ returned made
        → Memᴰ w workflows
        → 1
          ≤ runs_for w.id
              (isoformat due)
              (tick_each previous_due isoformat fresh now lookback graphs k workflows db).db.runs
    unfolding tick_each
    tick_each-exists k [] db made h m = elim m [ ]
    tick_each-exists k (v ∷ workflows) db made h (Memᴰ.head same) =
        elim (Result-cases
          (consider_cron previous_due isoformat fresh now lookback graphs k v v.schedule_cron db)) [
            | inl (e, f) ↦ absurd (stopped e (rw (f, tick_each) at h))
            | inr (runs, out, f) ↦
                rw (f, tick_each)
                  (omega (
                    arith,
                    tick_each-keeps (suc k) workflows out w.id (isoformat due),
                    counted k db runs out (
                        subst
                          (λ u.
                            consider_cron previous_due isoformat fresh now lookback graphs k u
                              u.schedule_cron db
                            ≡ returned (runs, out))
                          (sym same) f),
                  ))
          ]
      where
        stopped :
            (e : Error)
            → ◌≡◌ {A = Result Error (List WorkflowRun)} (failed_with e) (returned made)
            → ⊥
        stopped e h = cc
    tick_each-exists k (v ∷ workflows) db made h (Memᴰ.tail m) =
        elim (Result-cases
          (consider_cron previous_due isoformat fresh now lookback graphs k v v.schedule_cron db)) [
            | inl (e, f) ↦ absurd (stopped e (rw (f, tick_each) at h))
            | inr (runs, out, f) ↦
                after
                  (tick_each previous_due isoformat fresh now lookback graphs (suc k) workflows
                    out).outcome
                  (λ more. returned (runs ++ more))
                  (λ more g same.
                    rw (f, tick_each) (tick_each-exists (suc k) workflows out more g m))
                  (rw (f, tick_each) at h)
          ]
      where
        stopped :
            (e : Error)
            → ◌≡◌ {A = Result Error (List WorkflowRun)} (failed_with e) (returned made)
            → ⊥
        stopped e h = cc

    -- Where no time of a schedule had two runs, and a tick does not fail, every enabled workflow whose
    -- schedule was due within the lookback has exactly one run for that time afterwards.
    pub tick-runs_once :
        (db : Db) (made : List WorkflowRun)
        → (tick previous_due isoformat fresh now lookback graphs db).outcome ≡ returned made
        → Memᴰ w (get_enabled_scheduled graphs)
        → IsOnce db
        → runs_for w.id
            (isoformat due)
            (tick previous_due isoformat fresh now lookback graphs db).db.runs
          ≡ 1
    unfolding tick
    tick-runs_once db made h m o = omega (
      arith,
      tick_each-exists 0 (get_enabled_scheduled graphs) db made h m,
      (tick_each-IsOnce 0 (get_enabled_scheduled graphs) db o).at w.id (isoformat due),
    )

  -- A tick makes no second run for a time of a schedule, also where it fails on the way.
  pub tick-IsOnce :
      (db : Db) → IsOnce db → IsOnce (tick previous_due isoformat fresh now lookback graphs db).db
  unfolding tick
  tick-IsOnce db o = tick_each-IsOnce 0 (get_enabled_scheduled graphs) db o
