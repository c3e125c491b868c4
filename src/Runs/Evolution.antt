-- ===== src/Runs/Evolution.antt =====
-- How a run's row may change: the relation that every write of the repository stays within.
pub mod Marks
pub mod Cascade
pub mod Recovery
use nd3x.Prelude.{
  subst, ℕ, ◌≡◌, refl, sym, ap, ◌∙◌, Bool, true, false, Option, none, some, inl, inr, List, [], ◌∷◌,
  ◌++◌, arith, ◌==◌, ==_iff, if◌then◌else◌, Bool-cases, Option-cases,
}
use nd3x.Table.{find, modify}
use nd3x.Table.Steps.{Steps, Steps-refl, Steps-modify}
use nd3x.Runs.{
  RunStatus, WorkflowRun, Db, queued, waiting, cancel_requested, is_terminal, run_key, get_run,
  edit_run,
}

-- The statuses that a run whose cancellation is requested can have from then on.
abbrev pub is_stopping : RunStatus → Bool
is_stopping cancel_requested = true
is_stopping RunStatus.failed = true
is_stopping RunStatus.cancelled = true
is_stopping _ = false

abbrev pub is_set : Option ℕ → Bool
is_set none = false
is_set (some _) = true

-- `finished_at` is set for the terminal statuses and for no other.
abbrev pub IsStamped : WorkflowRun → Type 0
IsStamped r = is_set r.finished_at ≡ is_terminal r.status

pub record Evolves (r s : WorkflowRun) : Type 0 where
  pub id : s.id ≡ r.id
  pub workflow_id : s.workflow_id ≡ r.workflow_id
  pub input_payload : s.input_payload ≡ r.input_payload
  pub created_at : s.created_at ≡ r.created_at
  pub parent_run_id : s.parent_run_id ≡ r.parent_run_id
  pub frozen : is_terminal r.status ≡ true → s ≡ r
  pub stopping : is_stopping r.status ≡ true → is_stopping s.status ≡ true
  pub stamped : IsStamped r → IsStamped s

pub Evolves-refl : (r : WorkflowRun) → Evolves r r
Evolves-refl r = record {
  id = refl;
  workflow_id = refl;
  input_payload = refl;
  created_at = refl;
  parent_run_id = refl;
  frozen = λ _. refl;
  stopping = λ h. h;
  stamped = λ h. h;
}

pub Evolves-trans : {r s t : WorkflowRun} → Evolves r s → Evolves s t → Evolves r t
Evolves-trans {r} {s} {t} e f = record {
  id = f.id ∙ e.id;
  workflow_id = f.workflow_id ∙ e.workflow_id;
  input_payload = f.input_payload ∙ e.input_payload;
  created_at = f.created_at ∙ e.created_at;
  parent_run_id = f.parent_run_id ∙ e.parent_run_id;
  frozen =
      λ h. f.frozen (ap (λ (x : WorkflowRun). is_terminal x.status) (e.frozen h) ∙ h) ∙ e.frozen h;
  stopping = λ h. f.stopping (e.stopping h);
  stamped = λ h. f.stamped (e.stamped h);
}

-- Every row is still there under its key, and has evolved.
abbrev pub RowsEvolve : List WorkflowRun → List WorkflowRun → Type 0
RowsEvolve = Steps run_key Evolves

pub RowsEvolve-edit_run :
    (id : ℕ) (held : WorkflowRun → Bool) (f : WorkflowRun → WorkflowRun) (db : Db)
    → ((r : WorkflowRun) → (f r).id ≡ r.id)
    → ((r : WorkflowRun) → held r ≡ false → Evolves r (f r))
    → RowsEvolve db.runs (edit_run id held f db).1.runs
unfolding edit_run
RowsEvolve-edit_run id held f db keeps evolves = elim (Option-cases (get_run id db)) [
  | inl e ↦ rw (e, edit_run) (Steps-refl run_key Evolves-refl db.runs)
  | inr (r, e) ↦ elim (Bool-cases (held r)) [
    | inl h ↦ rw (e, edit_run) (rw h (Steps-refl run_key Evolves-refl db.runs))
    | inr h ↦
        rw (e, edit_run)
          (rw h (
            Steps-modify run_key Evolves-refl id f db.runs (λ r _. keeps r)
              λ s hs.
                let same : r ≡ s = cc (e, hs) in subst (λ x. Evolves x (f x)) same (evolves r h)))
  ]
]
