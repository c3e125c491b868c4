-- ===== src/Schedule/Tests.antt =====
-- A workflow that is due every hour, looked at half a minute after the hour.
use nd3x.Prelude.{ℕ, ◌≡◌, refl, arith, String, Option, some, none, true, [], ◌∷◌}
use mathlib.Core.List.{Memᴰ}
use nd3x.Prelude.Results.{returned}
use nd3x.Json.{empty_dict}
use nd3x.Table.{find}
use nd3x.Runs.{Db}
use nd3x.Runs.Queries.{exists_scheduled_run}
use nd3x.Workflows.{Workflow, Graphs, get_by_id, get_enabled_scheduled}
use nd3x.Schedule.{
  Ticked, enqueue_run, scheduled_input, new_run_of, tick, tick_each, consider_due, consider_cron,
  schedule_once,
}
use nd3x.Schedule.Looked.{IsOnce, runs_for}
use nd3x.Schedule.Once.{tick-runs_once, tick-IsOnce}

abbrev hourly : Workflow
hourly = record {
  id = 4;
  name = "hourly";
  description = none;
  input_schema = empty_dict;
  schedule_cron = some "0 * * * *";
  is_enabled = true;
  created_at = 1;
  updated_at = 1;
  deleted_at = none;
}

abbrev graphs : Graphs
graphs = record { workflows = hourly ∷ []; operations = [] }

abbrev nothing_yet : Db
nothing_yet = record { runs = []; operation_runs = [] }

abbrev on_the_hour : String → ℕ → Option ℕ
on_the_hour cron now = some 7200

abbrev two_o_clock : ℕ → String
two_o_clock t = "02:00"

abbrev from_nine : ℕ → ℕ
from_nine k = 9

abbrev ticked : Ticked
ticked = tick on_the_hour two_o_clock from_nine 7230 60 graphs nothing_yet

nothing_yet-IsOnce : IsOnce nothing_yet
unfolding runs_for
nothing_yet-IsOnce = record { at = λ w s. omega arith }

ticked_made : ticked.outcome ≡ returned (new_run_of 9 4 "cron" (scheduled_input "02:00") 7230 ∷ [])
unfolding tick tick_each consider_cron consider_due schedule_once enqueue_run exists_scheduled_run
    get_by_id get_enabled_scheduled find
ticked_made = refl

hourly-scheduled : Memᴰ hourly (get_enabled_scheduled graphs)
unfolding get_enabled_scheduled
hourly-scheduled = Memᴰ.head refl

tick-runs_once_example : runs_for 4 "02:00" ticked.db.runs ≡ 1
tick-runs_once_example =
    tick-runs_once on_the_hour two_o_clock from_nine 7230 60 graphs hourly "0 * * * *" 7200 refl
      refl refl refl nothing_yet (new_run_of 9 4 "cron" (scheduled_input "02:00") 7230 ∷ [])
      ticked_made hourly-scheduled nothing_yet-IsOnce

tick-IsOnce_example : IsOnce ticked.db
tick-IsOnce_example =
    tick-IsOnce on_the_hour two_o_clock from_nine 7230 60 graphs nothing_yet nothing_yet-IsOnce
