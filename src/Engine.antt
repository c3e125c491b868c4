-- ===== src/Engine.antt =====
-- src/services/workflows/workflow_executor.py: the operation graph of a workflow and the tests by
-- which the executor's loop picks the operations that can run.
pub mod Skips
pub mod Loop
pub mod Gate
pub mod Least
pub mod Closure
pub mod Settled
pub mod Termination
pub mod Pending
mod Tests
use nd3x.Prelude.{
  ℕ, zero, suc, ◌+◌, Bool, true, false, ◌&&◌, ◌||◌, not, Option, none, some, String, List, [], ◌∷◌,
  ◌++◌, ◌==◌, is_some_of, elem, any, all, if◌then◌else◌,
}
use nd3x.Json.{Value, Fields}
use nd3x.Table.{find}

pub record Operation : Type 0 where
  pub id : ℕ
  pub depends_on : List ℕ
  pub on_success_follow_up : Option ℕ
  pub on_failure_follow_up : Option ℕ

-- The statuses that the loop writes: `held` is any status of an operation that waits.
pub data NodeStatus : Type 0 where
  success failed skipped : NodeStatus
  held : String → NodeStatus

-- A dict from operation ids.
abbrev pub Dict : Type 0 → Type 0
Dict V = List (ℕ × V)

module _ {V : Type 0} where
  unfoldable pub lookup : ℕ → Dict V → Option V
  lookup k [] = none
  lookup k ((j, v) ∷ d) = if j == k then some v else lookup k d

  unfoldable pub put : ℕ → V → Dict V → Dict V
  put k v [] = (k, v) ∷ []
  put k v ((j, w) ∷ d) = if j == k then (k, v) ∷ d else (j, w) ∷ put k v d

abbrev pub operation_key : Operation → ℕ
operation_key op = op.id

abbrev pub is_success : Option NodeStatus → Bool
is_success (some success) = true
is_success _ = false

abbrev pub is_failed : Option NodeStatus → Bool
is_failed (some failed) = true
is_failed _ = false

-- status in ("success", "failed", "skipped")
abbrev pub is_ended : Option NodeStatus → Bool
is_ended none = false
is_ended (some (held s)) = false
is_ended (some _) = true

-- (dep, operation.id) in allowed_after_failure
abbrev pub is_allowed : ℕ → ℕ → List (ℕ × ℕ) → Bool
is_allowed dep target [] = false
is_allowed dep target ((d, t) ∷ allowed) =
    (d == dep && t == target) || is_allowed dep target allowed

pub data Kind : Type 0 where
  on_success on_failure : Kind

abbrev edge_if : Bool → ℕ → Kind → List (ℕ × Kind) → List (ℕ × Kind)
edge_if true source kind edges = (source, kind) ∷ edges
edge_if false source kind edges = edges

-- Edges pointing at this operation: (source id, success or failure).
unfoldable pub incoming_followups : ℕ → List Operation → List (ℕ × Kind)
incoming_followups target [] = []
incoming_followups target (src ∷ ops) =
    edge_if (is_some_of src.on_success_follow_up target) src.id on_success (
      edge_if (is_some_of src.on_failure_follow_up target) src.id on_failure
        (incoming_followups target ops))

-- The edge's source ended with the outcome that the edge is for.
abbrev pub fires : Dict NodeStatus → ℕ × Kind → Bool
fires statuses (source, on_success) = is_success (lookup source statuses)
fires statuses (source, on_failure) = is_failed (lookup source statuses)

abbrev pub source_ended : Dict NodeStatus → ℕ × Kind → Bool
source_ended statuses (source, kind) = is_ended (lookup source statuses)

-- The loop over the follow-ups sets `any_pending` and `any_fired`; a source that has not ended
-- fires nothing.
unfoldable pub any_pending : Dict NodeStatus → List (ℕ × Kind) → Bool
any_pending statuses [] = false
any_pending statuses (e ∷ edges) = not (source_ended statuses e) || any_pending statuses edges

unfoldable pub any_fired : Dict NodeStatus → List (ℕ × Kind) → Bool
any_fired statuses [] = false
any_fired statuses (e ∷ edges) =
    (source_ended statuses e && fires statuses e) || any_fired statuses edges

-- `if followups: if any_pending or not any_fired: return False`
abbrev pub gate_open : Dict NodeStatus → List (ℕ × Kind) → Bool
gate_open statuses [] = true
gate_open statuses (e ∷ edges) =
    not (any_pending statuses (e ∷ edges) || not (any_fired statuses (e ∷ edges)))

abbrev pub dependency_met : Dict NodeStatus → List (ℕ × ℕ) → ℕ → ℕ → Bool
dependency_met statuses allowed target dep =
    is_success (lookup dep statuses)
    || (is_failed (lookup dep statuses) && is_allowed dep target allowed)

unfoldable pub dependencies_satisfied :
    Operation → List Operation → Dict NodeStatus → List (ℕ × ℕ) → Bool
dependencies_satisfied op ops statuses allowed =
    all (dependency_met statuses allowed op.id) op.depends_on
    && gate_open statuses (incoming_followups op.id ops)

-- `_followup_branch_dead` returns at the first source that has not ended.
unfoldable pub dead_from : Dict NodeStatus → List (ℕ × Kind) → Bool → Bool
dead_from statuses [] fired = not fired
dead_from statuses (e ∷ edges) fired =
    let rest = dead_from statuses edges (fired || fires statuses e) in
    if source_ended statuses e then rest else false

unfoldable pub followup_branch_dead : Operation → List Operation → Dict NodeStatus → Bool
followup_branch_dead op ops statuses = elim (incoming_followups op.id ops) [
  | [] ↦ false
  | e ∷ edges ↦ dead_from statuses (e ∷ edges) false
]
