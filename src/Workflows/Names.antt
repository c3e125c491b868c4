-- ===== src/Workflows/Names.antt =====
-- The name of a new workflow.
use nd3x.Prelude.{
  ℕ, Bool, true, false, ◌≡◌, refl, ◌&&◌, String, Option, none, some, List, [], ◌∷◌, arith, any,
  str_eq, if◌then◌else◌,
}
use nd3x.Prelude.Results.{failed_with}
use nd3x.Workflows.Graph.{name_exists, integrity_error}
use nd3x.Workflows.{
  Workflow, Graphs, not_deleted, live, first_named, get_by_name, is_taken, WorkflowCreate, create,
  create_workflow,
}

-- some workflow that is not deleted has the name
abbrev pub is_live_name : String → List Workflow → Bool
is_live_name name workflows = any (λ w. not_deleted w && str_eq w.name name) workflows

abbrev is_found : Option Workflow → Bool
is_found none = false
is_found (some w) = true

first_named-live :
    (name : String) (workflows : List Workflow)
    → is_found (first_named name (live workflows)) ≡ is_live_name name workflows
first_named-live name [] = refl
first_named-live name (w ∷ rest) = ground (arith, first_named-live name rest)

-- A workflow is not created under the name of another one: a name that a live workflow has is
-- refused as a duplicate, and a name that only deleted workflows have by the database, as an
-- integrity error.
pub create_workflow-taken :
    (id : ℕ) (fresh : ℕ → ℕ) (now : ℕ) (sent : WorkflowCreate) (db : Graphs)
    → is_taken sent.name db.workflows ≡ true
    → create_workflow id fresh now sent db
      ≡ failed_with (if is_live_name sent.name db.workflows then name_exists else integrity_error)
unfolding create_workflow create get_by_name
create_workflow-taken id fresh now sent db h =
    ground (arith, first_named-live sent.name db.workflows)
