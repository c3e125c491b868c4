-- ===== src/Workflows.antt =====
-- src/repository/workflow_repository.py and src/services/workflows/workflow_service.py: workflows
-- and the operations of their graphs. The keys of new rows are the database's, and arguments; a
-- graph that is sent names its operations by position.
pub mod Graph
pub mod References
pub mod Names
mod Tests
use nd3x.Prelude.{
  ℕ, zero, suc, ◌+◌, Bool, true, false, ◌&&◌, ◌||◌, not, String, Option, none, some, List, [], ◌∷◌,
  ◌++◌, ◌==◌, any, keep, str_eq, if◌then◌else◌,
}
use nd3x.Prelude.Results.{Result, returned, failed_with, ◌>>=◌}
use nd3x.Json.{Value, or_value, empty_dict}
use nd3x.Table.{find, modify}
use nd3x.Workflows.Graph.{
  OperationRow, OperationCreate, Error, not_found, name_exists, integrity_error, replace_operations,
}

pub record Workflow : Type 0 where
  pub id : ℕ
  pub name : String
  pub description : Option String
  pub input_schema : Value
  pub schedule_cron : Option String
  pub is_enabled : Bool
  pub created_at : ℕ
  pub updated_at : ℕ
  pub deleted_at : Option ℕ

pub record Graphs : Type 0 where
  pub workflows : List Workflow
  pub operations : List OperationRow

abbrev pub workflow_key : Workflow → ℕ
workflow_key w = w.id

abbrev pub is_there : Option ℕ → Bool
is_there none = true
is_there (some t) = false

abbrev pub not_deleted : Workflow → Bool
not_deleted w = is_there w.deleted_at

-- the rows that are not deleted
abbrev pub live : List Workflow → List Workflow
live workflows = keep not_deleted workflows

unfoldable pub get_by_id : ℕ → Graphs → Option Workflow
get_by_id id db = find workflow_key id (live db.workflows)

abbrev pub first_named : String → List Workflow → Option Workflow
first_named name [] = none
first_named name (w ∷ rest) =
    let later = first_named name rest in if str_eq w.name name then some w else later

unfoldable pub get_by_name : String → Graphs → Option Workflow
get_by_name name db = first_named name (live db.workflows)

-- The operations are fetched with it.
unfoldable pub get_with_operations : ℕ → Graphs → Option (Workflow × List OperationRow)
get_with_operations id db = elim (find workflow_key id (live db.workflows)) [
  | none ↦ none
  | some w ↦ some (w, keep (λ o. o.workflow_id == id) db.operations)
]

abbrev pub is_some_text : Option String → Bool
is_some_text none = false
is_some_text (some s) = true

unfoldable pub get_enabled_scheduled : Graphs → List Workflow
get_enabled_scheduled db =
    keep (λ w. w.is_enabled && is_some_text w.schedule_cron) (live db.workflows)

pub record WorkflowCreate : Type 0 where
  pub name : String
  pub description : Option String
  pub input_schema : Value
  pub schedule_cron : Option String
  pub is_enabled : Bool
  pub operations : List OperationCreate

-- The name is unique among all rows, the deleted ones included.
abbrev pub is_taken : String → List Workflow → Bool
is_taken name workflows = any (λ w. str_eq w.name name) workflows

-- `fresh k` is the key of the k-th new operation.
unfoldable pub create : ℕ → (ℕ → ℕ) → ℕ → WorkflowCreate → Graphs → Result Error (Workflow × Graphs)
create id fresh now data_ db =
    if is_taken data_.name db.workflows
    then failed_with integrity_error
    else (replace_operations id fresh data_.operations >>= λ rows. returned (
      new_workflow,
      record { workflows = db.workflows ++ new_workflow ∷ []; operations = db.operations ++ rows },
    ))
  where
    new_workflow : Workflow
    new_workflow = record {
      id = id;
      name = data_.name;
      description = data_.description;
      input_schema = or_value data_.input_schema empty_dict;
      schedule_cron = data_.schedule_cron;
      is_enabled = data_.is_enabled;
      created_at = now;
      updated_at = now;
      deleted_at = none;
    }

-- What was not sent is none.
pub record WorkflowUpdate : Type 0 where
  pub name : Option String
  pub description : Option (Option String)
  pub input_schema : Option Value
  pub schedule_cron : Option (Option String)
  pub is_enabled : Option Bool
  pub operations : Option (List OperationCreate)

abbrev pub or_kept : {A : Type 0} → Option A → A → A
or_kept none old = old
or_kept (some a) old = a

unfoldable pub set_values : WorkflowUpdate → ℕ → Workflow → Workflow
set_values data_ now w = record w {
  name = or_kept data_.name w.name;
  description = or_kept data_.description w.description;
  input_schema = or_kept data_.input_schema w.input_schema;
  schedule_cron = or_kept data_.schedule_cron w.schedule_cron;
  is_enabled = or_kept data_.is_enabled w.is_enabled;
  updated_at = now;
}

abbrev pub is_taken_by_other : ℕ → Option String → List Workflow → Bool
is_taken_by_other id none workflows = false
is_taken_by_other id (some name) workflows =
    any (λ w. not (w.id == id) && str_eq w.name name) workflows

-- `workflow.operations.clear()` deletes the old graph before the new one is stored.
abbrev pub new_graph :
    ℕ
    → (ℕ → ℕ)
    → Option (List OperationCreate)
    → List OperationRow
    → Result Error (List OperationRow)
new_graph id fresh none rows = returned rows
new_graph id fresh (some operations) rows = replace_operations id fresh operations >>= λ new.
    returned (keep (λ o. not (o.workflow_id == id)) rows ++ new)

unfoldable pub update_workflow :
    ℕ → (ℕ → ℕ) → ℕ → WorkflowUpdate → Graphs → Result Error (Option Workflow × Graphs)
update_workflow id fresh now data_ db = elim (get_by_id id db) [
  | none ↦ returned (none, db)
  | some w ↦
      if is_taken_by_other id data_.name db.workflows
      then failed_with integrity_error
      else (new_graph id fresh data_.operations db.operations >>= λ rows. returned (
        some (set_values data_ now w),
        record {
          workflows = modify workflow_key id (set_values data_ now) db.workflows;
          operations = rows;
        },
      ))
]

unfoldable pub delete : ℕ → ℕ → Graphs → Bool × Graphs
delete id now db = elim (get_by_id id db) [
  | none ↦ (false, db)
  | some w ↦ (
    true,
    record db {
      workflows =
          modify workflow_key id
            (λ w. record w { deleted_at = some now; is_enabled = false; updated_at = now })
            db.workflows;
    },
  )
]

-- WorkflowService.create: a name that is in use is refused with 409.
unfoldable pub create_workflow :
    ℕ → (ℕ → ℕ) → ℕ → WorkflowCreate → Graphs → Result Error (Workflow × Graphs)
create_workflow id fresh now data_ db = elim (get_by_name data_.name db) [
  | none ↦ create id fresh now data_ db
  | some w ↦ failed_with name_exists
]

-- WorkflowService.get_by_id, update and delete: a workflow that is not there is refused with 404.
abbrev pub or_not_found : {A : Type 0} → Option A → Result Error A
or_not_found none = failed_with not_found
or_not_found (some a) = returned a

unfoldable pub get_workflow : ℕ → Graphs → Result Error Workflow
get_workflow id db = or_not_found (get_by_id id db)

abbrev pub found_reply : Option Workflow × Graphs → Result Error (Workflow × Graphs)
found_reply (none, db) = failed_with not_found
found_reply (some w, db) = returned (w, db)

unfoldable pub change_workflow :
    ℕ → (ℕ → ℕ) → ℕ → WorkflowUpdate → Graphs → Result Error (Workflow × Graphs)
change_workflow id fresh now data_ db = update_workflow id fresh now data_ db >>= found_reply

unfoldable pub delete_workflow : ℕ → ℕ → Graphs → Result Error Graphs
delete_workflow id now db =
    let (there, db') = delete id now db in if there then returned db' else failed_with not_found
