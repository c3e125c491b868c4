-- ===== src/Runs/Evolution/Marks.antt =====
-- The mark methods keep every row within `Evolves`.
use nd3x.Prelude.{ℕ, refl, Option, String, arith}
use nd3x.Json.{Value}
use nd3x.Runs.{WorkflowRun, Db, run_key}
use nd3x.Runs.Marks.{
  create_run, mark_running, mark_finished, mark_failed, mark_waiting, mark_cancelled, is_settled,
  is_over,
}
use nd3x.Runs.Evolution.{Evolves-refl, RowsEvolve, RowsEvolve-edit_run}
use nd3x.Table.Steps.{Steps-append}

module _ (id : ℕ) (db : Db) where
  pub RowsEvolve-mark_running : (now : ℕ) → RowsEvolve db.runs (mark_running id now db).1.runs
  unfolding mark_running
  RowsEvolve-mark_running now =
      RowsEvolve-edit_run id is_settled _ db (λ r. refl) (λ r h. ground arith)

  pub RowsEvolve-mark_finished :
      (result : Value) (now : ℕ) → RowsEvolve db.runs (mark_finished id result now db).1.runs
  unfolding mark_finished
  RowsEvolve-mark_finished result now =
      RowsEvolve-edit_run id is_settled _ db (λ r. refl) (λ r h. ground arith)

  pub RowsEvolve-mark_failed :
      (error : String) (result : Value) (now : ℕ)
      → RowsEvolve db.runs (mark_failed id error result now db).1.runs
  unfolding mark_failed
  RowsEvolve-mark_failed error result now =
      RowsEvolve-edit_run id is_over _ db (λ r. refl) (λ r h. ground arith)

  pub RowsEvolve-mark_waiting :
      (result : Value) → RowsEvolve db.runs (mark_waiting id result db).1.runs
  unfolding mark_waiting
  RowsEvolve-mark_waiting result =
      RowsEvolve-edit_run id is_settled _ db (λ r. refl) (λ r h. ground arith)

  pub RowsEvolve-mark_cancelled :
      (result : Value) (error : Option String) (now : ℕ)
      → RowsEvolve db.runs (mark_cancelled id result error now db).1.runs
  unfolding mark_cancelled
  RowsEvolve-mark_cancelled result error now =
      RowsEvolve-edit_run id is_over _ db (λ r. refl) (λ r h. ground arith)

pub RowsEvolve-create_run : (r : WorkflowRun) (db : Db) → RowsEvolve db.runs (create_run r db).runs
unfolding create_run
RowsEvolve-create_run r db = Steps-append run_key Evolves-refl db.runs _
