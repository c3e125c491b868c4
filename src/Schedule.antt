-- ===== src/Schedule.antt =====
-- src/services/workflows/workflow_factory.py with enqueue_run of
-- src/services/workflows/workflow_run_service.py: runs that a user triggers, and runs that a cron
-- expression makes due. croniter and isoformat are parameters, and one reading of
-- the clock serves a tick.
pub mod Looked
pub mod Once
mod Tests
use nd3x.Prelude.{
  ℕ, zero, suc, ◌+◌, Bool, true, false, ◌&&◌, not, String, Option, none, some, List, [], ◌∷◌, ◌++◌,
  leb, str_eq, if◌then◌else◌,
}
use nd3x.Prelude.Results.{Result, returned, failed_with, ◌>>=◌}
use nd3x.Json.{Value, obj, field, end, str, or_value, empty_dict}
use nd3x.Runs.{WorkflowRun, Db}
use nd3x.Runs.Marks.{new_run, create_run}
use nd3x.Runs.Queries.{exists_scheduled_run}
use nd3x.Workflows.{Workflow, Graphs, get_by_id, get_enabled_scheduled}

-- HTTP 404 and 409, and what croniter raises for an expression that it cannot read.
pub data Error : Type 0 where
  workflow_not_found workflow_is_disabled bad_cron : Error

abbrev pub new_run_of : ℕ → ℕ → String → Value → ℕ → WorkflowRun
new_run_of id workflow_id trigger_type input now =
    new_run id workflow_id trigger_type (or_value input empty_dict) none none none now

unfoldable pub enqueue_run :
    ℕ → ℕ → String → Value → ℕ → Graphs → Db → Result Error (WorkflowRun × Db)
enqueue_run id workflow_id trigger_type input now graphs db = elim (get_by_id workflow_id graphs) [
  | none ↦ failed_with workflow_not_found
  | some w ↦
      if not w.is_enabled && str_eq trigger_type "cron"
      then failed_with workflow_is_disabled
      else returned (
        new_run_of id workflow_id trigger_type input now,
        create_run (new_run_of id workflow_id trigger_type input now) db,
      )
]

unfoldable pub trigger_manual : ℕ → ℕ → Value → ℕ → Graphs → Db → Result Error (WorkflowRun × Db)
trigger_manual id workflow_id input now graphs db =
    enqueue_run id workflow_id "manual" (or_value input empty_dict) now graphs db

abbrev pub scheduled_input : String → Value
scheduled_input scheduled_for = obj (field "scheduled_for" (str scheduled_for) end)

-- 0 <= delta <= lookback_seconds
abbrev pub is_due : ℕ → ℕ → ℕ → Bool
is_due now lookback due = leb due now && leb now (due + lookback)

-- What a tick leaves: the runs that it created, or an error after some of them.
pub record Ticked : Type 0 where
  pub outcome : Result Error (List WorkflowRun)
  pub db : Db

module _ (previous_due : String → ℕ → Option ℕ) (isoformat : ℕ → String) (fresh : ℕ → ℕ)
    (now lookback : ℕ) (graphs : Graphs) where
  -- A workflow that is due, which gets the k-th new key unless a run is there for this time.
  unfoldable pub schedule_once : ℕ → Workflow → String → Db → Result Error (List WorkflowRun × Db)
  schedule_once k w scheduled_for db =
      if exists_scheduled_run w.id scheduled_for db
      then returned ([], db)
      else (enqueue_run (fresh k) w.id "cron" (scheduled_input scheduled_for) now graphs db
          >>= λ (run, db'). returned (run ∷ [], db'))

  -- The last time that was due, if croniter can say it.
  unfoldable pub consider_due : ℕ → Workflow → Option ℕ → Db → Result Error (List WorkflowRun × Db)
  consider_due k w none db = failed_with bad_cron
  consider_due k w (some due) db =
      if is_due now lookback due then schedule_once k w (isoformat due) db else returned ([], db)

  -- `if not workflow.schedule_cron: continue`
  unfoldable pub consider_cron :
      ℕ → Workflow → Option String → Db → Result Error (List WorkflowRun × Db)
  consider_cron k w none db = returned ([], db)
  consider_cron k w (some String.[]) db = returned ([], db)
  consider_cron k w (some (String.◌∷◌ c cron)) db =
      consider_due k w (previous_due (String.◌∷◌ c cron) now) db

  -- The body of the loop.
  abbrev pub consider : ℕ → Workflow → Db → Result Error (List WorkflowRun × Db)
  consider k w db = consider_cron k w w.schedule_cron db

  abbrev pub with_created : List WorkflowRun → Ticked → Ticked
  with_created runs t = record t { outcome = t.outcome >>= λ more. returned (runs ++ more) }

  -- `for workflow in workflows`: what was created before an error stays committed.
  unfoldable pub tick_each : ℕ → List Workflow → Db → Ticked
  tick_each k [] db = record { outcome = returned []; db = db }
  tick_each k (w ∷ workflows) db = elim (consider k w db) [
    | failed_with e ↦ record { outcome = failed_with e; db = db }
    | returned (runs, db') ↦ with_created runs (tick_each (suc k) workflows db')
  ]

  unfoldable pub tick : Db → Ticked
  tick db = tick_each 0 (get_enabled_scheduled graphs) db
